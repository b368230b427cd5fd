-- ===== src/Client/Typed.antt =====
-- pkg/client/clientset/versioned: the typed clients as implementations of the interfaces, in
-- typed/mesh/v1alpha1/mesh_client.go and clientset.go. A `MeshV1alpha1Client` holds a REST client and
-- nothing else, so it is one.
pub mod Creation
use lite_mesh.Base.{Text, Option, none, some}
use lite_mesh.Kube.{Error}
use lite_mesh.Client.Interfaces.{
  Returned, ServiceInterface, ConfigurationInterface, MeshV1alpha1Interface, Interface,
}
use lite_mesh.Client.Rest.{Rest, Scoped}
use lite_mesh.Client.Services.{
  services_get, services_list, services_watch, services_create, services_update,
  services_update_status, services_delete, services_delete_collection, services_patch,
}
use lite_mesh.Client.Configurations.{
  configurations_get, configurations_list, configurations_watch, configurations_create,
  configurations_update, configurations_update_status, configurations_delete,
  configurations_delete_collection, configurations_patch,
}
use lite_mesh.Client.Clientset.{Clientset}

-- The typed clients return a pointer to an object that they allocated, so it is not nil.
abbrev pub allocated : {T S : Type 0} → (T × Option Error) × S → Returned T × S
allocated ((x, e), s) = (some (some x, e), s)

-- `New` and `RESTClient` of a client, which is nil or a REST client.
unfoldable pub new_mesh_client : {C : Type 0} → C → Option C
new_mesh_client c = some c

unfoldable pub rest_client_of : {C : Type 0} → Option C → Option C
rest_client_of none = none
rest_client_of (some c) = some c

module _ {S R W : Type 0} where
  -- `newServices` and `newConfigurations`.
  unfoldable pub new_services : Rest S R W → Text → Scoped S R W
  new_services c namespace = record { client = c; ns = namespace }

  unfoldable pub new_configurations : Rest S R W → Text → Scoped S R W
  new_configurations c namespace = record { client = c; ns = namespace }

  -- `Services` and `Configurations` of the client.
  unfoldable pub mesh_services : Rest S R W → Text → ServiceInterface S W
  unfolding new_services
  mesh_services client namespace =
      let c = new_services client namespace in
      record {
        create = λ x s. allocated (services_create c x s);
        update = λ x s. allocated (services_update c x s);
        update_status = λ x s. allocated (services_update_status c x s);
        delete = services_delete c;
        delete_collection = services_delete_collection c;
        get = λ name options s. allocated (services_get c name options s);
        list = λ opts s. allocated (services_list c opts s);
        watch = services_watch c;
        patch = λ name pt d sub s. allocated (services_patch c name pt d sub s);
      }

  unfoldable pub mesh_configurations : Rest S R W → Text → ConfigurationInterface S W
  unfolding new_configurations
  mesh_configurations client namespace =
      let c = new_configurations client namespace in
      record {
        create = λ x s. allocated (configurations_create c x s);
        update = λ x s. allocated (configurations_update c x s);
        update_status = λ x s. allocated (configurations_update_status c x s);
        delete = configurations_delete c;
        delete_collection = configurations_delete_collection c;
        get = λ name options s. allocated (configurations_get c name options s);
        list = λ opts s. allocated (configurations_list c opts s);
        watch = configurations_watch c;
        patch = λ name pt d sub s. allocated (configurations_patch c name pt d sub s);
      }

  unfoldable pub mesh_interface : Rest S R W → MeshV1alpha1Interface S (Rest S R W) W
  unfolding mesh_services mesh_configurations rest_client_of
  mesh_interface c = record {
    rest_client = rest_client_of (some c);
    configurations = mesh_configurations c;
    services = mesh_services c;
  }

  module _ {D : Type 0} where
    -- `Discovery`, of a clientset that may be nil.
    unfoldable pub discovery : Option (Clientset (Rest S R W) D) → Option D
    discovery none = none
    discovery (some c) = some c.discovery_client

    -- `MeshV1alpha1` and `Mesh` return the same client.
    unfoldable pub clientset_interface : Clientset (Rest S R W) D → Interface S (Rest S R W) D W
    unfolding discovery mesh_interface
    clientset_interface c = record {
      discovery = discovery (some c);
      mesh_v1alpha1 = mesh_interface c.mesh_v1alpha1;
      mesh = mesh_interface c.mesh_v1alpha1;
    }

    -- `New`; `discovery.NewDiscoveryClient` is the first argument.
    unfoldable pub new_clientset : (Rest S R W → D) → Rest S R W → Clientset (Rest S R W) D
    new_clientset new_discovery_client c = record {
      discovery_client = new_discovery_client c;
      mesh_v1alpha1 = c;
    }
