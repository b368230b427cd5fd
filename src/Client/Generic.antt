-- ===== src/Client/Generic.antt =====
-- pkg/client/informers/externalversions/generic.go: informers by the name of their resource.
pub mod Known
use lite_mesh.Base.{Text, text_dec, codes, ite, Option, none, some}
use lite_mesh.Kube.{GroupVersionResource}
use lite_mesh.Apis.{group_name, group_version}
use lite_mesh.Client.Informers.{
  Factory, SharedIndexInformer, services_informer, configurations_informer,
}

-- The resource is the group and the name of it, a `schema.GroupResource`.
pub record GenericInformer (O R : Type 0) : Type 0 where
  pub informer : SharedIndexInformer O R
  pub resource : Text × Text

-- `v1alpha1.SchemeGroupVersion.WithResource(name)`.
abbrev pub with_resource : Text → GroupVersionResource
with_resource name = record {
  group = lite_mesh.Apis.group_name;
  version = lite_mesh.Apis.group_version;
  resource = name;
}

-- A case of the `switch`: all three parts are equal.
unfoldable pub when_gvr : {A : Type 0} → GroupVersionResource → GroupVersionResource → A → A → A
unfolding text_dec
when_gvr a b here otherwise =
    ite (text_dec a.group b.group)
      (ite (text_dec a.version b.version) (ite (text_dec a.resource b.resource) here otherwise)
        otherwise)
      otherwise

-- `Informer` and `Lister`; `cache.NewGenericLister` of the informer's index is a parameter.
abbrev pub informer_of : {O R : Type 0} → GenericInformer O R → SharedIndexInformer O R
informer_of f = f.informer

abbrev pub generic_lister :
    {O R L : Type 0} → (SharedIndexInformer O R → Text × Text → L) → GenericInformer O R → L
generic_lister new_generic_lister f = new_generic_lister (informer_of f) f.resource

module _ {O R : Type 0} where
  generic :
      GroupVersionResource
      → SharedIndexInformer O R × Factory O R
      → Option (GenericInformer O R) × Factory O R
  generic gvr (informer, f) =
      (some (record { informer = informer; resource = (gvr.group, gvr.resource) }), f)

  -- `ForResource`; `none` is the error that there is no informer.
  unfoldable pub for_resource :
      Factory O R → GroupVersionResource → Option (GenericInformer O R) × Factory O R
  unfolding when_gvr generic
  for_resource f gvr =
      when_gvr gvr (with_resource (codes "configurations"))
        (generic gvr (configurations_informer f))
        (when_gvr gvr (with_resource (codes "services")) (generic gvr (services_informer f))
          (none, f))
