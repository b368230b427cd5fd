-- ===== src/Client/Requests/Isolation.antt =====
-- What the operations of a typed client leave alone.
use lite_mesh.Base.{Text, List, [], ◌∷◌, some, ◌≡◌, ◌≢◌, ap, ◌∙◌, refl, All}
use lite_mesh.Kube.{GetOptions}
use lite_mesh.Apis.{Service, Configuration, zero_service, zero_configuration}
use lite_mesh.Client.Rest.{Call, Rest, do_into, do_error}
use lite_mesh.Client.Services.{
  services_resource, services_get, services_list, services_watch, services_create, services_update,
  services_update_status, services_delete, services_delete_collection, services_patch,
}
use lite_mesh.Client.Configurations.{
  configurations_resource, configurations_get, configurations_list, configurations_watch,
  configurations_create, configurations_update, configurations_update_status, configurations_delete,
  configurations_delete_collection, configurations_patch,
}
use lite_mesh.Client.Requests.{
  ClientOp, op_get, op_list, op_watch, op_create, op_update, op_update_status, op_delete,
  op_delete_collection, op_patch, Op, on_services, on_configurations, target, scoped, services_op,
  configurations_op, run_op, run_ops, request_of, apply_calls, apply_call, read, IsolatesTargets,
}

-- An operation in a namespace, and on another target.
abbrev pub IsElsewhere : Text × Text → Op → Type 0
IsElsewhere t op = ((target op).0 ≢ []) × (target op ≢ t)

module _ {S R W : Type 0} (rest : Rest S R W) (isolates : IsolatesTargets rest) where
  module _ (calls : List Call) (ns res name : Text)
      (reads : read (request_of calls) ≡ some (ns, res, name)) where
    get-services_op :
        (ns' : Text) (op : ClientOp Service) (s : S)
        → ns' ≢ []
        → ◌≢◌ {A = Text × Text} (ns', services_resource) (ns, res)
        → (rest.do_request calls (services_op (scoped rest ns') op s)).0
          ≡ (rest.do_request calls s).0
    unfolding services_op services_get services_list services_watch services_create services_update
        services_update_status services_delete services_delete_collection services_patch do_into
        do_error request_of apply_calls apply_call
    get-services_op ns' (op_get n o) s a d = (isolates _ calls ns res name s reads a d).0
    get-services_op ns' (op_list o) s a d = (isolates _ calls ns res name s reads a d).0
    get-services_op ns' (op_watch o) s a d = (isolates _ calls ns res name s reads a d).1
    get-services_op ns' (op_create x) s a d = (isolates _ calls ns res name s reads a d).0
    get-services_op ns' (op_update x) s a d = (isolates _ calls ns res name s reads a d).0
    get-services_op ns' (op_update_status x) s a d = (isolates _ calls ns res name s reads a d).0
    get-services_op ns' (op_delete n o) s a d = (isolates _ calls ns res name s reads a d).0
    get-services_op ns' (op_delete_collection o l) s a d =
        (isolates _ calls ns res name s reads a d).0
    get-services_op ns' (op_patch n p b u) s a d = (isolates _ calls ns res name s reads a d).0

    get-configurations_op :
        (ns' : Text) (op : ClientOp Configuration) (s : S)
        → ns' ≢ []
        → ◌≢◌ {A = Text × Text} (ns', configurations_resource) (ns, res)
        → (rest.do_request calls (configurations_op (scoped rest ns') op s)).0
          ≡ (rest.do_request calls s).0
    unfolding configurations_op configurations_get configurations_list configurations_watch
        configurations_create configurations_update configurations_update_status
        configurations_delete configurations_delete_collection configurations_patch do_into do_error
        request_of apply_calls apply_call
    get-configurations_op ns' (op_get n o) s a d = (isolates _ calls ns res name s reads a d).0
    get-configurations_op ns' (op_list o) s a d = (isolates _ calls ns res name s reads a d).0
    get-configurations_op ns' (op_watch o) s a d = (isolates _ calls ns res name s reads a d).1
    get-configurations_op ns' (op_create x) s a d = (isolates _ calls ns res name s reads a d).0
    get-configurations_op ns' (op_update x) s a d = (isolates _ calls ns res name s reads a d).0
    get-configurations_op ns' (op_update_status x) s a d =
        (isolates _ calls ns res name s reads a d).0
    get-configurations_op ns' (op_delete n o) s a d = (isolates _ calls ns res name s reads a d).0
    get-configurations_op ns' (op_delete_collection o l) s a d =
        (isolates _ calls ns res name s reads a d).0
    get-configurations_op ns' (op_patch n p b u) s a d =
        (isolates _ calls ns res name s reads a d).0

    get-run_op :
        (op : Op) (s : S)
        → IsElsewhere (ns, res) op
        → (rest.do_request calls (run_op rest op s)).0 ≡ (rest.do_request calls s).0
    unfolding run_op
    get-run_op (on_services ns' op) s (a, d) = get-services_op ns' op s a d
    get-run_op (on_configurations ns' op) s (a, d) = get-configurations_op ns' op s a d

    get-run_ops :
        (ops : List Op) (s : S)
        → All (IsElsewhere (ns, res)) ops
        → (rest.do_request calls (run_ops rest ops s)).0 ≡ (rest.do_request calls s).0
    unfolding run_ops
    get-run_ops [] s all = refl
    get-run_ops (op ∷ ops) s (e, all) = get-run_ops ops (run_op rest op s) all ∙ get-run_op op s e

  -- On an API server that isolates targets: no run of operations of the typed clients, all in other
  -- namespaces or on configurations, changes what a service client reads of an object.
  pub services_get-run_ops :
      (ns name : Text) (options : GetOptions) (ops : List Op) (s : S)
      → All (IsElsewhere (ns, services_resource)) ops
      → (services_get (scoped rest ns) name options (run_ops rest ops s)).0
        ≡ (services_get (scoped rest ns) name options s).0
  unfolding services_get do_into request_of apply_calls apply_call read
  services_get-run_ops ns name options ops s all =
      ap (λ r. rest.into_service r zero_service)
        (get-run_ops _ ns services_resource name refl ops s all)

  -- On an API server that isolates targets: no run of operations of the typed clients, all in other
  -- namespaces or on services, changes what a configuration client reads of an object.
  pub configurations_get-run_ops :
      (ns name : Text) (options : GetOptions) (ops : List Op) (s : S)
      → All (IsElsewhere (ns, configurations_resource)) ops
      → (configurations_get (scoped rest ns) name options (run_ops rest ops s)).0
        ≡ (configurations_get (scoped rest ns) name options s).0
  unfolding configurations_get do_into request_of apply_calls apply_call read
  configurations_get-run_ops ns name options ops s all =
      ap (λ r. rest.into_configuration r zero_configuration)
        (get-run_ops _ ns configurations_resource name refl ops s all)
