-- ===== src/Client/Generic/Known.antt =====
-- The resources that `ForResource` knows.
use lite_mesh.Base.{text_dec, codes, none, some, ◌≡◌, refl}
use lite_mesh.Apis.{group_name}
use lite_mesh.Client.Informers.{Factory, services_informer, configurations_informer}
use lite_mesh.Client.Fake.Services.{services_gvr}
use lite_mesh.Client.Fake.Configurations.{configurations_gvr}
use lite_mesh.Client.Generic.{with_resource, for_resource}

module _ {O R : Type 0} where
  -- `ForResource` of the registered resources gives the informers of the typed interface, and of the
  -- resources of the fake clients none.
  pub for_resource-informers :
      (f : Factory O R)
      → (for_resource f (with_resource (codes "services")) ≡ (
        some (record {
          informer = (services_informer f).0;
          resource = (lite_mesh.Apis.group_name, codes "services");
        }),
        (services_informer f).1,
      ))
        × (for_resource f (with_resource (codes "configurations")) ≡ (
          some (record {
            informer = (configurations_informer f).0;
            resource = (lite_mesh.Apis.group_name, codes "configurations");
          }),
          (configurations_informer f).1,
        ))
        × (for_resource f services_gvr ≡ (none, f))
        × (for_resource f configurations_gvr ≡ (none, f))
  unfolding for_resource text_dec
  for_resource-informers f = (refl, refl, refl, refl)
