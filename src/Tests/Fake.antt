-- ===== src/Tests/Fake.antt =====
-- The theorems on the fake clients, at a few operations and at a recorder with two services.
use lite_mesh.Base.{
  Text, codes, List, [], ◌∷◌, ◌++◌, Option, none, some, Bool, true, false, ◌≡◌, lookup,
}
use lite_mesh.Kube.{ListOptions}
use lite_mesh.Apis.{zero_service_list, ServiceList, zero_configuration_list, ConfigurationList}
use lite_mesh.Client.Requests.{
  Op, op_list, op_create, op_update_status, op_delete, op_patch, on_services, on_configurations,
  run_ops,
}
use lite_mesh.Client.Fake.{Object, service_list, configuration_list, Action, Fake, Scoped}
use lite_mesh.Client.Fake.Actions.{action_request, run_fake_ops, recorder}
use lite_mesh.Client.Fake.Actions.Parity.{recording, run_fake_ops-run_ops}
use lite_mesh.Tests.Objects.{web, db, routing}

abbrev list_all : ListOptions
list_all = record {
  label_selector = codes "tier";
  field_selector = [];
  resource_version = [];
  watch = false;
}

abbrev ops : List Op
ops =
    on_services (codes "default") (op_create web)
    ∷ on_services (codes "default") (op_update_status web)
    ∷ on_configurations (codes "test") (op_list list_all)
    ∷ on_configurations (codes "test") (op_patch (codes "routes") (codes "json") (codes "{}") [])
    ∷ on_services (codes "default") (op_delete (codes "web") none)
    ∷ []

run_fake_ops-run_ops_example :
    run_fake_ops (recorder action_request) ops [] ≡ run_ops recording ops []
run_fake_ops-run_ops_example = run_fake_ops-run_ops ops []

abbrev services_held : ServiceList
services_held = record zero_service_list { items = web ∷ db ∷ [] }

abbrev configurations_held : ConfigurationList
configurations_held = record zero_configuration_list { items = routing ∷ [] }

abbrev answer_to : Object → Option Object
answer_to (service_list _) = some (service_list services_held)
answer_to (configuration_list _) = some (configuration_list configurations_held)
answer_to _ = none

abbrev present : Option Text → Bool
present none = false
present (some _) = true

abbrev holding : Fake (List Action) Unit
holding = record {
  invokes = λ action obj log. ((answer_to obj, none), log ++ action ∷ []);
  invokes_watch = λ action log. (tt, log ++ action ∷ []);
  extract_label = λ opts. some (λ labels. present (lookup opts.label_selector labels));
  everything = λ _. true;
}

abbrev held : Scoped (List Action) Unit
held = record { fake = holding; ns = codes "default" }
