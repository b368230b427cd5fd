-- ===== src/Client/Fake/Services.antt =====
-- pkg/client/clientset/versioned/typed/mesh/v1alpha1/fake/fake_service.go: the fake client of services.
pub mod Listing
use lite_mesh.Base.{Text, codes, List, [], ◌∷◌, Option, none, some}
use lite_mesh.Kube.{
  GroupVersionResource, Error, GroupVersionKind, ListOptions, GetOptions, DeleteOptions,
}
use lite_mesh.Apis.{Service, ServiceList, zero_service, zero_service_list}
use lite_mesh.Client.Fake.{
  Object, service, service_list, Action, get_action, list_action, watch_action, create_action,
  update_action, update_subresource_action, delete_action, delete_collection_action,
  patch_subresource_action, Scoped, Returned, asserted, with_error, matching, or_everything,
}

abbrev pub services_gvr : GroupVersionResource
services_gvr = record {
  group = codes "mesh";
  version = codes "v1alpha1";
  resource = codes "services";
}

abbrev pub services_kind : GroupVersionKind
services_kind = record { group = codes "mesh"; version = codes "v1alpha1"; kind = codes "Service" }

abbrev pub as_service : Object → Option Service
as_service (service x) = some x
as_service _ = none

abbrev pub as_service_list : Object → Option ServiceList
as_service_list (service_list l) = some l
as_service_list _ = none

module _ {S W : Type 0} (c : Scoped S W) where
  -- `Invokes` with a zero object, whose result is asserted to have its type.
  unfoldable pub invoke : Action → S → Returned Service × S
  unfolding asserted
  invoke action s =
      let (result, s') = c.fake.invokes action (service zero_service) s in
      (asserted as_service result, s')

  unfoldable pub fake_services_get : Text → GetOptions → S → Returned Service × S
  unfolding invoke
  fake_services_get name options = invoke (get_action services_gvr c.ns name)

  -- `List` after the call of `Invokes`.
  filtered : ListOptions → Returned ServiceList → Returned ServiceList
  unfolding matching
  filtered opts none = none
  filtered opts (some (none, e)) = some (none, e)
  filtered opts (some (some l, e)) =
      let label = or_everything (c.fake.extract_label opts) c.fake.everything in
      some (
        some (record zero_service_list {
          list_meta = l.list_meta;
          items = matching (λ item. item.meta.labels) label l.items [];
        }),
        e,
      )

  unfoldable pub fake_services_list : ListOptions → S → Returned ServiceList × S
  unfolding filtered asserted
  fake_services_list opts s =
      let (result, s') =
        c.fake.invokes (list_action services_gvr services_kind c.ns opts)
          (service_list zero_service_list) s in
      (filtered opts (asserted as_service_list result), s')

  unfoldable pub fake_services_watch : ListOptions → S → W × S
  fake_services_watch opts = c.fake.invokes_watch (watch_action services_gvr c.ns opts)

  unfoldable pub fake_services_create : Service → S → Returned Service × S
  unfolding invoke
  fake_services_create x = invoke (create_action services_gvr c.ns (service x))

  unfoldable pub fake_services_update : Service → S → Returned Service × S
  unfolding invoke
  fake_services_update x = invoke (update_action services_gvr c.ns (service x))

  unfoldable pub fake_services_update_status : Service → S → Returned Service × S
  unfolding invoke
  fake_services_update_status x =
      invoke (update_subresource_action services_gvr (codes "status") c.ns (service x))

  unfoldable pub fake_services_delete : Text → Option DeleteOptions → S → Option Error × S
  fake_services_delete name options s =
      let ((_, e), s') =
        c.fake.invokes (delete_action services_gvr c.ns name) (service zero_service) s in
      (e, s')

  unfoldable pub fake_services_delete_collection :
      Option DeleteOptions → ListOptions → S → Option Error × S
  fake_services_delete_collection options list_options s =
      let ((_, e), s') =
        c.fake.invokes (delete_collection_action services_gvr c.ns list_options)
          (service_list zero_service_list) s in
      (e, s')

  unfoldable pub fake_services_patch : Text → Text → Text → List Text → S → Returned Service × S
  unfolding invoke
  fake_services_patch name pt patch_data subresources =
      invoke (patch_subresource_action services_gvr c.ns name patch_data subresources)
