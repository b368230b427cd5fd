-- ===== src/Tests/Requests.antt =====
-- The theorems on the requests of the typed clients, at the small API server.
use lite_mesh.Base.{Text, codes, List, [], ◌∷◌, none, some, ◌≡◌, refl, arith}
use lite_mesh.Kube.{GetOptions}
use lite_mesh.Client.Services.{services_get, services_create}
use lite_mesh.Client.Requests.{
  Op, op_create, op_delete, on_services, on_configurations, scoped, run_ops, request_of, written,
}
use lite_mesh.Client.Interfaces.{create_get}
use lite_mesh.Client.Typed.{
  clientset_interface, new_clientset, mesh_interface, mesh_services, new_services,
}
use lite_mesh.Client.Typed.Creation.{services-new_clientset}
use lite_mesh.Client.Requests.Isolation.{services_get-run_ops}
use lite_mesh.Tests.Objects.{web, routing}
use lite_mesh.Tests.Server.{
  server, empty_store, server-StoresWrites, server-IsolatesTargets, server-ReportsErrors,
}

abbrev latest : GetOptions
latest = record { resource_version = [] }

abbrev default_ns : Text
default_ns = codes "default"

services-new_clientset_example :
    (create_get
      ((clientset_interface (new_clientset (λ c. codes "discovery") server)).mesh.services
        default_ns)
      web
      web.meta.name
      latest
      empty_store).1
    ≡ some (some web, none)
unfolding server services_create written request_of clientset_interface new_clientset mesh_interface
    mesh_services new_services
services-new_clientset_example =
    services-new_clientset server server-StoresWrites server-ReportsErrors (λ c. codes "discovery")
      default_ns web web latest empty_store (ground arith) refl

abbrev other_ops : List Op
other_ops =
    on_services (codes "test") (op_create web)
    ∷ on_configurations default_ns (op_create routing)
    ∷ on_services (codes "test") (op_delete (codes "web") none)
    ∷ []

services_get-run_ops_example :
    (services_get
      (scoped server default_ns)
      (codes "web")
      latest
      (run_ops server other_ops empty_store)).0
    ≡ (services_get (scoped server default_ns) (codes "web") latest empty_store).0
services_get-run_ops_example =
    services_get-run_ops server server-IsolatesTargets default_ns (codes "web") latest other_ops
      empty_store
      (
        (ground arith, ground arith),
        ((ground arith, ground arith), ((ground arith, ground arith), tt)),
      )
