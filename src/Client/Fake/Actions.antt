-- ===== src/Client/Fake/Actions.antt =====
-- The actions of the fake clients, compared with the requests of the typed clients.
pub mod Parity
pub mod Groups
use lite_mesh.Base.{Text, List, [], ◌∷◌, ◌++◌, Option, none, some, true}
use lite_mesh.Kube.{GroupVersionResource}
use lite_mesh.Apis.{Service, Configuration}
use lite_mesh.Client.Rest.{
  Verb, http_get, http_post, http_put, http_delete, http_patch, Body, service_body,
  configuration_body, data_body,
}
use lite_mesh.Client.Requests.{
  Request, empty_request, body_name, ClientOp, op_get, op_list, op_watch, op_create, op_update,
  op_update_status, op_delete, op_delete_collection, op_patch, Op, on_services, on_configurations,
}
use lite_mesh.Client.Fake.{
  Object, service, service_list, configuration, configuration_list, other, Action, get_action,
  list_action, watch_action, create_action, update_action, update_subresource_action, delete_action,
  delete_collection_action, patch_subresource_action, Fake, Scoped,
}
use lite_mesh.Client.Fake.Services.{
  fake_services_get, fake_services_list, fake_services_watch, fake_services_create,
  fake_services_update, fake_services_update_status, fake_services_delete,
  fake_services_delete_collection, fake_services_patch,
}
use lite_mesh.Client.Fake.Configurations.{
  fake_configurations_get, fake_configurations_list, fake_configurations_watch,
  fake_configurations_create, fake_configurations_update, fake_configurations_update_status,
  fake_configurations_delete, fake_configurations_delete_collection, fake_configurations_patch,
}

abbrev object_body : Object → Option Body
object_body (service x) = some (service_body x)
object_body (configuration x) = some (configuration_body x)
object_body _ = none

abbrev pub gvr_of : Action → GroupVersionResource
gvr_of (get_action gvr _ _) = gvr
gvr_of (list_action gvr _ _ _) = gvr
gvr_of (watch_action gvr _ _) = gvr
gvr_of (create_action gvr _ _) = gvr
gvr_of (update_action gvr _ _) = gvr
gvr_of (update_subresource_action gvr _ _ _) = gvr
gvr_of (delete_action gvr _ _) = gvr
gvr_of (delete_collection_action gvr _ _) = gvr
gvr_of (patch_subresource_action gvr _ _ _ _) = gvr

abbrev request : Verb → Text → Text → Text → List Text → Option Body → Request
request v ns res name sub body = record {
  method = some v;
  namespace = ns;
  resource = res;
  name = name;
  subresource = sub;
  body = body;
}

-- The request that an action stands for, without the type of a patch and the options of a deletion,
-- which actions do not hold.
unfoldable pub action_request : Action → Request
unfolding body_name
action_request (get_action gvr ns name) = request http_get ns gvr.resource name [] none
action_request (list_action gvr _ ns _) = request http_get ns gvr.resource [] [] none
action_request (watch_action gvr ns _) = request http_get ns gvr.resource [] [] none
action_request (create_action gvr ns x) = request http_post ns gvr.resource [] [] (object_body x)
action_request (update_action gvr ns x) =
    request http_put ns gvr.resource (body_name (object_body x)) [] (object_body x)
action_request (update_subresource_action gvr sub ns x) =
    request http_put ns gvr.resource (body_name (object_body x)) (sub ∷ []) (object_body x)
action_request (delete_action gvr ns name) = request http_delete ns gvr.resource name [] none
action_request (delete_collection_action gvr ns _) = request http_delete ns gvr.resource [] [] none
action_request (patch_subresource_action gvr ns name d sub) =
    request (http_patch []) ns gvr.resource name sub (some (data_body d))

-- A request without the type of a patch and the options of a deletion.
unfoldable pub without_options : Option Verb → Request → Request
without_options (some http_delete) r = record r { body = none }
without_options (some (http_patch _)) r = record r { method = some (http_patch []) }
without_options _ r = r

module _ {S W : Type 0} where
  unfoldable pub fake_services_op : Scoped S W → ClientOp Service → S → S
  fake_services_op c (op_get name options) s = (fake_services_get c name options s).1
  fake_services_op c (op_list opts) s = (fake_services_list c opts s).1
  fake_services_op c (op_watch opts) s = (fake_services_watch c opts s).1
  fake_services_op c (op_create x) s = (fake_services_create c x s).1
  fake_services_op c (op_update x) s = (fake_services_update c x s).1
  fake_services_op c (op_update_status x) s = (fake_services_update_status c x s).1
  fake_services_op c (op_delete name options) s = (fake_services_delete c name options s).1
  fake_services_op c (op_delete_collection options opts) s =
      (fake_services_delete_collection c options opts s).1
  fake_services_op c (op_patch name pt d sub) s = (fake_services_patch c name pt d sub s).1

  unfoldable pub fake_configurations_op : Scoped S W → ClientOp Configuration → S → S
  fake_configurations_op c (op_get name options) s = (fake_configurations_get c name options s).1
  fake_configurations_op c (op_list opts) s = (fake_configurations_list c opts s).1
  fake_configurations_op c (op_watch opts) s = (fake_configurations_watch c opts s).1
  fake_configurations_op c (op_create x) s = (fake_configurations_create c x s).1
  fake_configurations_op c (op_update x) s = (fake_configurations_update c x s).1
  fake_configurations_op c (op_update_status x) s = (fake_configurations_update_status c x s).1
  fake_configurations_op c (op_delete name options) s =
      (fake_configurations_delete c name options s).1
  fake_configurations_op c (op_delete_collection options opts) s =
      (fake_configurations_delete_collection c options opts s).1
  fake_configurations_op c (op_patch name pt d sub) s =
      (fake_configurations_patch c name pt d sub s).1

  unfoldable pub run_fake_ops : Fake S W → List Op → S → S
  unfolding fake_services_op fake_configurations_op
  run_fake_ops fake [] s = s
  run_fake_ops fake (on_services ns op ∷ ops) s =
      run_fake_ops fake ops (fake_services_op (record { fake = fake; ns = ns }) op s)
  run_fake_ops fake (on_configurations ns op ∷ ops) s =
      run_fake_ops fake ops (fake_configurations_op (record { fake = fake; ns = ns }) op s)

-- A recorder that handles no action and notes of each what `note` says.
abbrev pub recorder : {A : Type 0} → (Action → A) → Fake (List A) Unit
recorder note = record {
  invokes = λ action _ log. ((none, none), log ++ note action ∷ []);
  invokes_watch = λ action log. (tt, log ++ note action ∷ []);
  extract_label = λ _. none;
  everything = λ _. true;
}
