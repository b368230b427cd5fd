-- ===== src/Client/Fake/Configurations.antt =====
-- pkg/client/clientset/versioned/typed/mesh/v1alpha1/fake/fake_configuration.go: the fake client of configurations.
pub mod Listing
use lite_mesh.Base.{Text, codes, List, [], ◌∷◌, Option, none, some}
use lite_mesh.Kube.{
  GroupVersionResource, Error, GroupVersionKind, ListOptions, GetOptions, DeleteOptions,
}
use lite_mesh.Apis.{Configuration, ConfigurationList, zero_configuration, zero_configuration_list}
use lite_mesh.Client.Fake.{
  Object, configuration, configuration_list, Action, get_action, list_action, watch_action,
  create_action, update_action, update_subresource_action, delete_action, delete_collection_action,
  patch_subresource_action, Scoped, Returned, asserted, with_error, matching, or_everything,
}

abbrev pub configurations_gvr : GroupVersionResource
configurations_gvr = record {
  group = codes "mesh";
  version = codes "v1alpha1";
  resource = codes "configurations";
}

abbrev pub configurations_kind : GroupVersionKind
configurations_kind = record {
  group = codes "mesh";
  version = codes "v1alpha1";
  kind = codes "Configuration";
}

abbrev pub as_configuration : Object → Option Configuration
as_configuration (configuration x) = some x
as_configuration _ = none

abbrev pub as_configuration_list : Object → Option ConfigurationList
as_configuration_list (configuration_list l) = some l
as_configuration_list _ = none

module _ {S W : Type 0} (c : Scoped S W) where
  -- `Invokes` with a zero object, whose result is asserted to have its type.
  invoke : Action → S → Returned Configuration × S
  unfolding asserted
  invoke action s =
      let (result, s') = c.fake.invokes action (configuration zero_configuration) s in
      (asserted as_configuration result, s')

  unfoldable pub fake_configurations_get : Text → GetOptions → S → Returned Configuration × S
  unfolding invoke
  fake_configurations_get name options = invoke (get_action configurations_gvr c.ns name)

  -- `List` after the call of `Invokes`.
  filtered : ListOptions → Returned ConfigurationList → Returned ConfigurationList
  unfolding matching
  filtered opts none = none
  filtered opts (some (none, e)) = some (none, e)
  filtered opts (some (some l, e)) =
      let label = or_everything (c.fake.extract_label opts) c.fake.everything in
      some (
        some (record zero_configuration_list {
          list_meta = l.list_meta;
          items = matching (λ item. item.meta.labels) label l.items [];
        }),
        e,
      )

  unfoldable pub fake_configurations_list : ListOptions → S → Returned ConfigurationList × S
  unfolding filtered asserted
  fake_configurations_list opts s =
      let (result, s') =
        c.fake.invokes (list_action configurations_gvr configurations_kind c.ns opts)
          (configuration_list zero_configuration_list) s in
      (filtered opts (asserted as_configuration_list result), s')

  unfoldable pub fake_configurations_watch : ListOptions → S → W × S
  fake_configurations_watch opts = c.fake.invokes_watch (watch_action configurations_gvr c.ns opts)

  unfoldable pub fake_configurations_create : Configuration → S → Returned Configuration × S
  unfolding invoke
  fake_configurations_create x = invoke (create_action configurations_gvr c.ns (configuration x))

  unfoldable pub fake_configurations_update : Configuration → S → Returned Configuration × S
  unfolding invoke
  fake_configurations_update x = invoke (update_action configurations_gvr c.ns (configuration x))

  unfoldable pub fake_configurations_update_status : Configuration → S → Returned Configuration × S
  unfolding invoke
  fake_configurations_update_status x =
      invoke (update_subresource_action configurations_gvr (codes "status") c.ns (configuration x))

  unfoldable pub fake_configurations_delete : Text → Option DeleteOptions → S → Option Error × S
  fake_configurations_delete name options s =
      let ((_, e), s') =
        c.fake.invokes (delete_action configurations_gvr c.ns name)
          (configuration zero_configuration) s in
      (e, s')

  unfoldable pub fake_configurations_delete_collection :
      Option DeleteOptions → ListOptions → S → Option Error × S
  fake_configurations_delete_collection options list_options s =
      let ((_, e), s') =
        c.fake.invokes (delete_collection_action configurations_gvr c.ns list_options)
          (configuration_list zero_configuration_list) s in
      (e, s')

  unfoldable pub fake_configurations_patch :
      Text → Text → Text → List Text → S → Returned Configuration × S
  unfolding invoke
  fake_configurations_patch name pt patch_data subresources =
      invoke (patch_subresource_action configurations_gvr c.ns name patch_data subresources)
