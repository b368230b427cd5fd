-- ===== src/Client/Fake/Actions/Parity.antt =====
-- The fake clients act as the typed clients ask.
use lite_mesh.Base.{Text, List, [], ◌∷◌, ◌++◌, none, ◌≡◌, refl, ap, ◌∙◌}
use lite_mesh.Apis.{Service, Configuration}
use lite_mesh.Client.Rest.{Rest, do_into, do_error}
use lite_mesh.Client.Services.{
  services_get, services_list, services_watch, services_create, services_update,
  services_update_status, services_delete, services_delete_collection, services_patch,
}
use lite_mesh.Client.Configurations.{
  configurations_get, configurations_list, configurations_watch, configurations_create,
  configurations_update, configurations_update_status, configurations_delete,
  configurations_delete_collection, configurations_patch,
}
use lite_mesh.Client.Requests.{
  Request, request_of, apply_calls, apply_call, body_name, ClientOp, op_get, op_list, op_watch,
  op_create, op_update, op_update_status, op_delete, op_delete_collection, op_patch, Op,
  on_services, on_configurations, services_op, configurations_op, scoped, run_op, run_ops,
}
use lite_mesh.Client.Fake.Services.{
  fake_services_get, fake_services_list, fake_services_watch, fake_services_create,
  fake_services_update, fake_services_update_status, fake_services_delete,
  fake_services_delete_collection, fake_services_patch,
}
use lite_mesh.Client.Fake.Configurations.{
  fake_configurations_get, fake_configurations_list, fake_configurations_watch,
  fake_configurations_create, fake_configurations_update, fake_configurations_update_status,
  fake_configurations_delete, fake_configurations_delete_collection, fake_configurations_patch,
}
use lite_mesh.Client.Fake.Actions.{
  action_request, without_options, fake_services_op, fake_configurations_op, run_fake_ops, recorder,
}

abbrev record_request : Request → List Request → List Request
record_request r log = log ++ without_options r.method r ∷ []

-- A REST client that only notes the requests.
abbrev pub recording : Rest (List Request) Unit Unit
recording = record {
  do_request = λ calls log. (tt, record_request (request_of calls) log);
  watch_request = λ calls log. (tt, record_request (request_of calls) log);
  into_service = λ _ x. (x, none);
  into_service_list = λ _ x. (x, none);
  into_configuration = λ _ x. (x, none);
  into_configuration_list = λ _ x. (x, none);
  error_of = λ _. none;
}

fake_services_op-services_op :
    (ns : Text) (op : ClientOp Service) (log : List Request)
    → fake_services_op (record { fake = recorder action_request; ns = ns }) op log
      ≡ services_op (scoped recording ns) op log
unfolding fake_services_op services_op fake_services_get services_get fake_services_list
    services_list fake_services_watch services_watch fake_services_create services_create
    fake_services_update services_update fake_services_update_status services_update_status
    fake_services_delete services_delete fake_services_delete_collection services_delete_collection
    fake_services_patch services_patch do_into do_error request_of apply_calls apply_call
    action_request body_name without_options
fake_services_op-services_op ns (op_get n o) log = refl
fake_services_op-services_op ns (op_list o) log = refl
fake_services_op-services_op ns (op_watch o) log = refl
fake_services_op-services_op ns (op_create x) log = refl
fake_services_op-services_op ns (op_update x) log = refl
fake_services_op-services_op ns (op_update_status x) log = refl
fake_services_op-services_op ns (op_delete n o) log = refl
fake_services_op-services_op ns (op_delete_collection o l) log = refl
fake_services_op-services_op ns (op_patch n t d u) log = refl

fake_configurations_op-configurations_op :
    (ns : Text) (op : ClientOp Configuration) (log : List Request)
    → fake_configurations_op (record { fake = recorder action_request; ns = ns }) op log
      ≡ configurations_op (scoped recording ns) op log
unfolding fake_configurations_op configurations_op fake_configurations_get configurations_get
    fake_configurations_list configurations_list fake_configurations_watch configurations_watch
    fake_configurations_create configurations_create fake_configurations_update
    configurations_update fake_configurations_update_status configurations_update_status
    fake_configurations_delete configurations_delete fake_configurations_delete_collection
    configurations_delete_collection fake_configurations_patch configurations_patch do_into do_error
    request_of apply_calls apply_call action_request body_name without_options
fake_configurations_op-configurations_op ns (op_get n o) log = refl
fake_configurations_op-configurations_op ns (op_list o) log = refl
fake_configurations_op-configurations_op ns (op_watch o) log = refl
fake_configurations_op-configurations_op ns (op_create x) log = refl
fake_configurations_op-configurations_op ns (op_update x) log = refl
fake_configurations_op-configurations_op ns (op_update_status x) log = refl
fake_configurations_op-configurations_op ns (op_delete n o) log = refl
fake_configurations_op-configurations_op ns (op_delete_collection o l) log = refl
fake_configurations_op-configurations_op ns (op_patch n t d u) log = refl

-- Any operations of both clients make a fake client invoke, in the same order, the actions that stand
-- for the requests that the typed clients send: the same verb, namespace, resource, name, subresource
-- and object, up to the type of a patch and the options.
pub run_fake_ops-run_ops :
    (ops : List Op) (log : List Request)
    → run_fake_ops (recorder action_request) ops log ≡ run_ops recording ops log
unfolding run_fake_ops run_ops run_op
run_fake_ops-run_ops [] log = refl
run_fake_ops-run_ops (on_services ns op ∷ ops) log =
    run_fake_ops-run_ops ops _ ∙ ap (run_ops recording ops) (fake_services_op-services_op ns op log)
run_fake_ops-run_ops (on_configurations ns op ∷ ops) log =
    run_fake_ops-run_ops ops _
    ∙ ap (run_ops recording ops) (fake_configurations_op-configurations_op ns op log)
