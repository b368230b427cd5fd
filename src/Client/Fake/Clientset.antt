-- ===== src/Client/Fake/Clientset.antt =====
-- pkg/client/clientset/versioned/fake/clientset_generated.go and
-- typed/mesh/v1alpha1/fake/fake_mesh_client.go: the fake clientset. The package testing of client-go is
-- a parameter: `T` stands for an object tracker, `F` for a `testing.Fake` with its reactors, `V` for a
-- watch and `D` for a discovery client. The list of recorded actions is left out.
pub mod Tracking
use lite_mesh.Base.{Text, codes, List, [], ◌∷◌, Option, none, some, Bool, true, false}
use lite_mesh.Kube.{Error, GroupVersionResource}
use lite_mesh.Client.Interfaces.{
  ServiceInterface, ConfigurationInterface, MeshV1alpha1Interface, Interface,
}
use lite_mesh.Client.Fake.{
  Object, Action, get_action, list_action, watch_action, create_action, update_action,
  update_subresource_action, delete_action, delete_collection_action, patch_subresource_action,
  Fake, Scoped,
}
use lite_mesh.Client.Fake.Actions.{gvr_of}
use lite_mesh.Client.Fake.Services.{
  fake_services_get, fake_services_list, fake_services_watch, fake_services_create,
  fake_services_update, fake_services_update_status, fake_services_delete,
  fake_services_delete_collection, fake_services_patch,
}
use lite_mesh.Client.Fake.Configurations.{
  fake_configurations_get, fake_configurations_list, fake_configurations_watch,
  fake_configurations_create, fake_configurations_update, fake_configurations_update_status,
  fake_configurations_delete, fake_configurations_delete_collection, fake_configurations_patch,
}

-- Whether the action is handled, and the result.
abbrev pub Reaction : Type 0 → Type 0 → Type 0
Reaction T A = Action → T → (Bool × (Option A × Option Error)) × T

-- What a watch returns.
abbrev pub Watched : Type 0 → Type 0
Watched V = Option V × Option Error

-- `add` and `watch` are methods of the tracker, `object_reaction` is `testing.ObjectReaction` of it;
-- `fake_of` gives the methods of a `testing.Fake` whose reactors work on the tracker.
pub record Testing (T F V D : Type 0) : Type 0 where
  pub new_object_tracker : T
  pub add : Object → T → Option Error × T
  pub watch : GroupVersionResource → Text → T → Watched V × T
  pub object_reaction : Reaction T Object
  pub new_fake : F
  pub add_reactor : (verb resource : Text) → Reaction T Object → F → F
  pub add_watch_reactor : Text → Reaction T V → F → F
  pub fake_of : F → Fake T (Watched V)
  pub fake_discovery : F → D

pub record FakeClientset (F : Type 0) : Type 0 where
  pub fake : F

-- `action.GetNamespace()`.
abbrev namespace_of : Action → Text
namespace_of (get_action _ ns _) = ns
namespace_of (list_action _ _ ns _) = ns
namespace_of (watch_action _ ns _) = ns
namespace_of (create_action _ ns _) = ns
namespace_of (update_action _ ns _) = ns
namespace_of (update_subresource_action _ _ ns _) = ns
namespace_of (delete_action _ ns _) = ns
namespace_of (delete_collection_action _ ns _) = ns
namespace_of (patch_subresource_action _ ns _ _ _) = ns

module _ {T F V D : Type 0} (testing : Testing T F V D) where
  added : Option Error × T → (T → Option T) → Option T
  added (some e, o) rest = none
  added (none, o) rest = rest o

  -- The loop over the objects; `none` is a panic.
  add_objects : List Object → T → Option T
  unfolding added
  add_objects [] o = some o
  add_objects (obj ∷ objects) o = added (testing.add obj o) (add_objects objects)

  abbrev handled_watch : Watched V × T → (Bool × Watched V) × T
  handled_watch ((w, some e), o) = ((false, (none, some e)), o)
  handled_watch ((w, none), o) = ((true, (w, none)), o)

  -- The function literal that is added as a watch reactor.
  abbrev pub watch_reaction : Reaction T V
  watch_reaction action o = handled_watch (testing.watch (gvr_of action) (namespace_of action) o)

  abbrev pub with_reactors : FakeClientset F
  with_reactors = record {
    fake =
        testing.add_watch_reactor (codes "*") watch_reaction
          (testing.add_reactor (codes "*") (codes "*") testing.object_reaction testing.new_fake);
  }

  with_tracker : Option T → Option (FakeClientset F × T)
  with_tracker none = none
  with_tracker (some o) = some (with_reactors, o)

  -- The clientset, and the tracker that its reactors work on.
  unfoldable pub new_simple_clientset : List Object → Option (FakeClientset F × T)
  unfolding add_objects with_tracker
  new_simple_clientset objects = with_tracker (add_objects objects testing.new_object_tracker)

  abbrev scoped : F → Text → Scoped T (Watched V)
  scoped f namespace = record { fake = testing.fake_of f; ns = namespace }

  -- `Services` and `Configurations` of `FakeMeshV1alpha1`.
  unfoldable pub fake_mesh_services : F → Text → ServiceInterface T (Watched V)
  fake_mesh_services f namespace =
      let c = scoped f namespace in
      record {
        create = fake_services_create c;
        update = fake_services_update c;
        update_status = fake_services_update_status c;
        delete = fake_services_delete c;
        delete_collection = fake_services_delete_collection c;
        get = fake_services_get c;
        list = fake_services_list c;
        watch = fake_services_watch c;
        patch = fake_services_patch c;
      }

  unfoldable pub fake_mesh_configurations : F → Text → ConfigurationInterface T (Watched V)
  fake_mesh_configurations f namespace =
      let c = scoped f namespace in
      record {
        create = fake_configurations_create c;
        update = fake_configurations_update c;
        update_status = fake_configurations_update_status c;
        delete = fake_configurations_delete c;
        delete_collection = fake_configurations_delete_collection c;
        get = fake_configurations_get c;
        list = fake_configurations_list c;
        watch = fake_configurations_watch c;
        patch = fake_configurations_patch c;
      }

  -- `RESTClient` of the fake is a nil pointer.
  unfoldable pub fake_mesh_interface : {C : Type 0} → F → MeshV1alpha1Interface T C (Watched V)
  unfolding fake_mesh_services fake_mesh_configurations
  fake_mesh_interface f = record {
    rest_client = none;
    configurations = fake_mesh_configurations f;
    services = fake_mesh_services f;
  }

  -- `Discovery`, `MeshV1alpha1` and `Mesh`.
  unfoldable pub fake_interface : {C : Type 0} → FakeClientset F → Interface T C D (Watched V)
  unfolding fake_mesh_interface
  fake_interface c = record {
    discovery = some (testing.fake_discovery c.fake);
    mesh_v1alpha1 = fake_mesh_interface c.fake;
    mesh = fake_mesh_interface c.fake;
  }
