-- ===== src/Client/Fake/Configurations/Listing.antt =====
-- What the fake client lists of configurations.
use lite_mesh.Base.{[], Option, some, ◌≡◌, ap, ◌∙◌, keep}
use lite_mesh.Kube.{Error, ListOptions}
use lite_mesh.Apis.{ConfigurationList, zero_configuration_list}
use lite_mesh.Client.Fake.{
  configuration_list, list_action, Scoped, asserted, or_everything, matching-keep,
}
use lite_mesh.Client.Fake.Configurations.{
  configurations_gvr, configurations_kind, as_configuration_list, filtered,
  fake_configurations_list,
}

module _ {S W : Type 0} where
  -- If the recorder answers a list action with a list, the fake `List` of configurations returns its metadata
  -- and, in order, those of its items whose labels match the label selector of the options, with the
  -- recorder's error.
  pub fake_configurations_list-keep :
      (c : Scoped S W) (opts : ListOptions) (l : ConfigurationList) (e : Option Error) (s : S)
      → (c.fake.invokes
          (list_action configurations_gvr configurations_kind c.ns opts)
          (configuration_list zero_configuration_list)
          s).0
        ≡ (some (configuration_list l), e)
      → (fake_configurations_list c opts s).0
        ≡ some (
          some (record zero_configuration_list {
            list_meta = l.list_meta;
            items =
                keep
                  (λ item.
                    or_everything (c.fake.extract_label opts) c.fake.everything item.meta.labels)
                  l.items;
          }),
          e,
        )
  unfolding fake_configurations_list filtered asserted
  fake_configurations_list-keep c opts l e s h =
      ap (λ r. filtered c opts (asserted as_configuration_list r)) h
      ∙ ap
          (λ items.
            some
              (some (record zero_configuration_list { list_meta = l.list_meta; items = items }), e))
          (matching-keep (λ item. item.meta.labels)
            (or_everything (c.fake.extract_label opts) c.fake.everything) l.items [])
