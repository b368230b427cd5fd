-- ===== src/Client/Fake/Services/Listing.antt =====
-- What the fake client lists of services.
use lite_mesh.Base.{[], Option, some, ◌≡◌, ap, ◌∙◌, keep}
use lite_mesh.Kube.{Error, ListOptions}
use lite_mesh.Apis.{ServiceList, zero_service_list}
use lite_mesh.Client.Fake.{
  service_list, list_action, Scoped, asserted, or_everything, matching-keep,
}
use lite_mesh.Client.Fake.Services.{
  services_gvr, services_kind, as_service_list, filtered, fake_services_list,
}

module _ {S W : Type 0} where
  -- If the recorder answers a list action with a list, the fake `List` of services returns its metadata
  -- and, in order, those of its items whose labels match the label selector of the options, with the
  -- recorder's error.
  pub fake_services_list-keep :
      (c : Scoped S W) (opts : ListOptions) (l : ServiceList) (e : Option Error) (s : S)
      → (c.fake.invokes
          (list_action services_gvr services_kind c.ns opts)
          (service_list zero_service_list)
          s).0
        ≡ (some (service_list l), e)
      → (fake_services_list c opts s).0
        ≡ some (
          some (record zero_service_list {
            list_meta = l.list_meta;
            items =
                keep
                  (λ item.
                    or_everything (c.fake.extract_label opts) c.fake.everything item.meta.labels)
                  l.items;
          }),
          e,
        )
  unfolding fake_services_list filtered asserted
  fake_services_list-keep c opts l e s h =
      ap (λ r. filtered c opts (asserted as_service_list r)) h
      ∙ ap
          (λ items.
            some (some (record zero_service_list { list_meta = l.list_meta; items = items }), e))
          (matching-keep (λ item. item.meta.labels)
            (or_everything (c.fake.extract_label opts) c.fake.everything) l.items [])
