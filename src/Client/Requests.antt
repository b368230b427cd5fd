-- ===== src/Client/Requests.antt =====
-- What the typed clients ask of an API server: the request that a chain of calls stands for, as the
-- documentation of `rest.Request` gives it, and the operations of both clients as data.
pub mod Storing
pub mod Isolation
use lite_mesh.Base.{Text, List, [], ◌∷◌, Option, none, some, ◌≡◌, ◌≢◌}
use lite_mesh.Kube.{GetOptions, ListOptions, DeleteOptions}
use lite_mesh.Apis.{Service, Configuration}
use lite_mesh.Client.Rest.{
  Verb, http_get, http_post, http_put, Body, service_body, configuration_body, Call, verb,
  in_namespace, of_resource, named, sub_resource, with_params, with_body, Rest, Scoped,
}
use lite_mesh.Client.Services.{
  services_resource, services_get, services_list, services_watch, services_create, services_update,
  services_update_status, services_delete, services_delete_collection, services_patch,
}
use lite_mesh.Client.Configurations.{
  configurations_resource, configurations_get, configurations_list, configurations_watch,
  configurations_create, configurations_update, configurations_update_status, configurations_delete,
  configurations_delete_collection, configurations_patch,
}

pub record Request : Type 0 where
  pub method : Option Verb
  pub namespace : Text
  pub resource : Text
  pub name : Text
  pub subresource : List Text
  pub body : Option Body

abbrev pub empty_request : Request
empty_request = record {
  method = none;
  namespace = [];
  resource = [];
  name = [];
  subresource = [];
  body = none;
}

unfoldable pub apply_call : Call → Request → Request
apply_call (verb v) r = record r { method = some v }
apply_call (in_namespace ns) r = record r { namespace = ns }
apply_call (of_resource res) r = record r { resource = res }
apply_call (named n) r = record r { name = n }
apply_call (sub_resource sub) r = record r { subresource = sub }
apply_call (with_params p) r = r
apply_call (with_body b) r = record r { body = some b }

unfoldable pub apply_calls : List Call → Request → Request
unfolding apply_call
apply_calls [] r = r
apply_calls (call ∷ calls) r = apply_calls calls (apply_call call r)

unfoldable pub request_of : List Call → Request
unfolding apply_calls
request_of calls = apply_calls calls empty_request

-- The object that a request writes, or reads, as a namespace, a resource and a name.
unfoldable pub body_name : Option Body → Text
body_name (some (service_body s)) = s.meta.name
body_name (some (configuration_body c)) = c.meta.name
body_name _ = []

unfoldable pub written_by : Option Verb → List Text → Request → Option (Text × Text × Text)
unfolding body_name
written_by (some http_post) [] r = some (r.namespace, r.resource, body_name r.body)
written_by (some http_put) [] r = some (r.namespace, r.resource, r.name)
written_by _ _ r = none

unfoldable pub written : Request → Option (Text × Text × Text)
unfolding written_by
written r = written_by r.method r.subresource r

unfoldable pub read_by : Option Verb → List Text → Request → Option (Text × Text × Text)
read_by (some http_get) [] r = some (r.namespace, r.resource, r.name)
read_by _ _ r = none

unfoldable pub read : Request → Option (Text × Text × Text)
unfolding read_by
read r = read_by r.method r.subresource r

-- The operations of a typed client, of objects of type `T`.
pub data ClientOp (T : Type 0) : Type 0 where
  op_get : Text → GetOptions → ClientOp T
  op_list op_watch : ListOptions → ClientOp T
  op_create op_update op_update_status : T → ClientOp T
  op_delete : Text → Option DeleteOptions → ClientOp T
  op_delete_collection : Option DeleteOptions → ListOptions → ClientOp T
  op_patch : Text → Text → Text → List Text → ClientOp T

pub data Op : Type 0 where
  on_services : Text → ClientOp Service → Op
  on_configurations : Text → ClientOp Configuration → Op

abbrev pub target : Op → Text × Text
target (on_services ns _) = (ns, services_resource)
target (on_configurations ns _) = (ns, configurations_resource)

module _ {S R W : Type 0} where
  unfoldable pub services_op : Scoped S R W → ClientOp Service → S → S
  services_op c (op_get name options) s = (services_get c name options s).1
  services_op c (op_list opts) s = (services_list c opts s).1
  services_op c (op_watch opts) s = (services_watch c opts s).1
  services_op c (op_create service) s = (services_create c service s).1
  services_op c (op_update service) s = (services_update c service s).1
  services_op c (op_update_status service) s = (services_update_status c service s).1
  services_op c (op_delete name options) s = (services_delete c name options s).1
  services_op c (op_delete_collection options opts) s =
      (services_delete_collection c options opts s).1
  services_op c (op_patch name pt d sub) s = (services_patch c name pt d sub s).1

  unfoldable pub configurations_op : Scoped S R W → ClientOp Configuration → S → S
  configurations_op c (op_get name options) s = (configurations_get c name options s).1
  configurations_op c (op_list opts) s = (configurations_list c opts s).1
  configurations_op c (op_watch opts) s = (configurations_watch c opts s).1
  configurations_op c (op_create conf) s = (configurations_create c conf s).1
  configurations_op c (op_update conf) s = (configurations_update c conf s).1
  configurations_op c (op_update_status conf) s = (configurations_update_status c conf s).1
  configurations_op c (op_delete name options) s = (configurations_delete c name options s).1
  configurations_op c (op_delete_collection options opts) s =
      (configurations_delete_collection c options opts s).1
  configurations_op c (op_patch name pt d sub) s = (configurations_patch c name pt d sub s).1

  abbrev pub scoped : Rest S R W → Text → Scoped S R W
  scoped rest ns = record { client = rest; ns = ns }

  unfoldable pub run_op : Rest S R W → Op → S → S
  unfolding services_op configurations_op
  run_op rest (on_services ns op) = services_op (scoped rest ns) op
  run_op rest (on_configurations ns op) = configurations_op (scoped rest ns) op

  unfoldable pub run_ops : Rest S R W → List Op → S → S
  unfolding run_op
  run_ops rest [] s = s
  run_ops rest (op ∷ ops) s = run_ops rest ops (run_op rest op s)

  -- `Into` reports the error of a response, if it has one.
  abbrev pub ReportsErrors : Rest S R W → Type 0
  ReportsErrors rest =
      ((r : R) (service : Service)
        → (rest.into_service r service).1 ≡ none
        → rest.error_of r ≡ none)
      × ((r : R) (conf : Configuration)
          → (rest.into_configuration r conf).1 ≡ none
          → rest.error_of r ≡ none)

  -- An API server: after a write that reports no error, a read of the object answers what the write
  -- answered.
  abbrev pub StoresWrites : Rest S R W → Type 0
  StoresWrites rest =
      (write_calls read_calls : List Call) (ns res name : Text) (s : S)
      → name ≢ []
      → written (request_of write_calls) ≡ some (ns, res, name)
      → read (request_of read_calls) ≡ some (ns, res, name)
      → rest.error_of (rest.do_request write_calls s).0 ≡ none
      → (rest.do_request read_calls (rest.do_request write_calls s).1).0
        ≡ (rest.do_request write_calls s).0

  -- An API server: a request in a namespace leaves the answer to a read of an object in another
  -- namespace, or of another resource, as it was.
  abbrev pub IsolatesTargets : Rest S R W → Type 0
  IsolatesTargets rest =
      (calls read_calls : List Call) (ns res name : Text) (s : S)
      → read (request_of read_calls) ≡ some (ns, res, name)
      → (request_of calls).namespace ≢ []
      → ◌≢◌ {A = Text × Text} ((request_of calls).namespace, (request_of calls).resource) (ns, res)
      → ((rest.do_request read_calls (rest.do_request calls s).1).0
          ≡ (rest.do_request read_calls s).0)
        × ((rest.do_request read_calls (rest.watch_request calls s).1).0
            ≡ (rest.do_request read_calls s).0)
