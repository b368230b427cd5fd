-- ===== src/Client/Fake/Clientset/Tracking.antt =====
-- What the fake clientset finds of the objects that it is given and that are created through it.
use lite_mesh.Base.{
  Text, codes, List, [], ◌∷◌, Option, none, some, Bool, true, false, ◌≡◌, ◌≢◌, refl, ap, ◌∙◌, arith,
}
use lite_mesh.Kube.{ObjectMeta, GetOptions, GroupVersionResource, Error, not_found}
use lite_mesh.Apis.{Service, group_name, zero_service}
use lite_mesh.Client.Interfaces.{create_get}
use lite_mesh.Client.Fake.{
  Object, service, service_list, configuration, configuration_list, other, get_action,
  create_action, asserted,
}
use lite_mesh.Client.Fake.Services.{
  services_gvr, as_service, invoke, fake_services_get, fake_services_create,
}
use lite_mesh.Client.Fake.Clientset.{
  Reaction, Testing, FakeClientset, added, add_objects, watch_reaction, with_reactors, with_tracker,
  new_simple_clientset, fake_mesh_services, fake_mesh_interface, fake_interface,
}

abbrev pub object_meta : Object → Option ObjectMeta
object_meta (service x) = some x.meta
object_meta (configuration x) = some x.meta
object_meta (service_list _) = none
object_meta (configuration_list _) = none
object_meta other = none

-- How `Get` of a tracker answers.
abbrev pub answer : Text → Option Object → Option Object × Option Error
answer name none = (none, some (not_found name))
answer name (some obj) = (some obj, none)

-- What `Invokes` returns for a reaction to an action.
abbrev pub reacted :
    {T : Type 0}
    → Object
    → (Bool × (Option Object × Option Error)) × T
    → (Option Object × Option Error) × T
reacted default ((true, result), t) = (result, t)
reacted default ((false, _), t) = ((some default, none), t)

-- `holds` is what a tracker holds under a resource, a namespace and a name. `Add` keeps an object under
-- the group of its type in the scheme, which is the registered group of the mesh types or the empty
-- group of the types of Kubernetes; the actions of a client name the resource themselves.
pub record IsTracking {T F V D : Type 0} (testing : Testing T F V D)
    (holds : GroupVersionResource → Text → Text → T → Option Object) : Type 0 where
  pub empty :
      (gvr : GroupVersionResource) (ns name : Text)
      → holds gvr ns name testing.new_object_tracker ≡ none
  pub added_elsewhere :
      (gvr : GroupVersionResource) (ns name : Text) (obj : Object) (t : T)
      → gvr.group ≢ group_name
      → gvr.group ≢ []
      → holds gvr ns name (testing.add obj t).1 ≡ holds gvr ns name t
  pub got :
      (gvr : GroupVersionResource) (ns name : Text) (t : T)
      → testing.object_reaction (get_action gvr ns name) t
        ≡ ((true, answer name (holds gvr ns name t)), t)
  pub created :
      (gvr : GroupVersionResource) (obj : Object) (m : ObjectMeta) (t : T)
      → object_meta obj ≡ some m
      → holds gvr m.namespace m.name t ≡ none
      → (t' : T) × ((testing.object_reaction (create_action gvr m.namespace obj) t
            ≡ ((true, (some obj, none)), t'))
          × (holds gvr m.namespace m.name t' ≡ some obj))
  pub invoked :
      (reaction : Reaction T Object) (watching : Reaction T V) (obj : Object) (t : T)
      (action : lite_mesh.Client.Fake.Action)
      → (testing.fake_of (
            testing.add_watch_reactor
              (codes "*")
              watching
              (testing.add_reactor (codes "*") (codes "*") reaction testing.new_fake))).invokes
          action obj t
        ≡ reacted obj (reaction action t)

mesh-not-group : services_gvr.group ≢ group_name
mesh-not-group = ground arith

module _ {T F V D : Type 0} (testing : Testing T F V D)
    (holds : GroupVersionResource → Text → Text → T → Option Object)
    (tracking : IsTracking testing holds) where
  added-some :
      (p : Option Error × T) (rest : T → Option T) (t : T)
      → added testing p rest ≡ some t
      → rest p.1 ≡ some t
  unfolding added
  added-some (some e, o) rest t h = absurd (ground arith)
  added-some (none, o) rest t h = h

  -- The objects that the tracker is given are not among the services of the fake clients.
  add_objects-misses :
      (objects : List Object) (o t : T) (ns name : Text)
      → add_objects testing objects o ≡ some t
      → holds services_gvr ns name t ≡ holds services_gvr ns name o
  unfolding add_objects
  add_objects-misses [] o t ns name e = ground arith
  add_objects-misses (obj ∷ objects) o t ns name e =
      add_objects-misses objects (testing.add obj o).1 t ns name
        (added-some (testing.add obj o) (add_objects testing objects) t e)
      ∙ tracking.added_elsewhere services_gvr ns name obj o mesh-not-group (ground arith)

  with_tracker-some :
      (o : Option T) (cs : FakeClientset F) (t : T)
      → with_tracker testing o ≡ some (cs, t)
      → (cs ≡ with_reactors testing) × (o ≡ some t)
  unfolding with_tracker
  with_tracker-some none cs t e = absurd (ground arith)
  with_tracker-some (some o) cs t e = (ground arith, ground arith)

  new_simple_clientset-empty :
      (objects : List Object) (cs : FakeClientset F) (t : T) (ns name : Text)
      → new_simple_clientset testing objects ≡ some (cs, t)
      → (cs ≡ with_reactors testing) × (holds services_gvr ns name t ≡ none)
  unfolding new_simple_clientset
  new_simple_clientset-empty objects cs t ns name e =
      let (reactors, tracked) = with_tracker-some _ cs t e in
      (
        reactors,
        add_objects-misses objects testing.new_object_tracker t ns name tracked
            ∙ tracking.empty services_gvr ns name,
      )

  get-answer :
      (cs : FakeClientset F) (ns name : Text) (options : GetOptions) (t : T) (C : Type 0)
      → cs ≡ with_reactors testing
      → ((fake_interface testing {C = C} cs).mesh.services ns).get name options t
        ≡ (asserted as_service (answer name (holds services_gvr ns name t)), t)
  unfolding fake_interface fake_mesh_interface fake_mesh_services fake_services_get invoke
  get-answer cs ns name options t C e =
      rw
        (
          e,
          tracking.invoked testing.object_reaction (watch_reaction testing) (service zero_service) t
              (get_action services_gvr ns name),
          tracking.got services_gvr ns name t,
        )
        refl

  -- Whatever objects `NewSimpleClientset` is given: `Get` of the services of the new clientset finds
  -- none of them, and answers that the service is not there.
  pub get-new_simple_clientset :
      (objects : List Object) (cs : FakeClientset F) (t : T) (ns name : Text) (options : GetOptions)
      (C : Type 0)
      → new_simple_clientset testing objects ≡ some (cs, t)
      → ((fake_interface testing {C = C} cs).mesh.services ns).get name options t
        ≡ (some (none, some (not_found name)), t)
  unfolding asserted
  get-new_simple_clientset objects cs t ns name options C e =
      let (reactors, missing) = new_simple_clientset-empty objects cs t ns name e in
      get-answer cs ns name options t C reactors
      ∙ ap (λ o. (asserted as_service (answer name o), t)) missing

  create-answer :
      (cs : FakeClientset F) (x : Service) (t t' : T) (C : Type 0)
      → cs ≡ with_reactors testing
      → testing.object_reaction (create_action services_gvr x.meta.namespace (service x)) t
        ≡ ((true, (some (service x), none)), t')
      → ((fake_interface testing {C = C} cs).mesh.services x.meta.namespace).create x t
        ≡ (some (some x, none), t')
  unfolding fake_interface fake_mesh_interface fake_mesh_services fake_services_create invoke
      asserted
  create-answer cs x t t' C e h =
      rw
        (
          e,
          tracking.invoked testing.object_reaction (watch_reaction testing) (service zero_service) t
              (create_action services_gvr x.meta.namespace (service x)),
          h,
        )
        refl

  -- Whatever objects `NewSimpleClientset` is given, also the same service: a service that is then
  -- created in its namespace is accepted, and reads back by its name.
  pub create_get-new_simple_clientset :
      (objects : List Object) (cs : FakeClientset F) (t : T) (x : Service) (options : GetOptions)
      (C : Type 0)
      → new_simple_clientset testing objects ≡ some (cs, t)
      → create_get
          ((fake_interface testing {C = C} cs).mesh.services x.meta.namespace)
          x
          x.meta.name
          options
          t
        ≡ (some (some x, none), some (some x, none))
  unfolding asserted
  create_get-new_simple_clientset objects cs t x options C e =
      let (reactors, missing) =
        new_simple_clientset-empty objects cs t x.meta.namespace x.meta.name e in
      let (t', (reaction, held)) =
        tracking.created services_gvr (service x) x.meta t refl missing in
      ap
        (λ p. (
          p.0,
          (((fake_interface testing {C = C} cs).mesh.services x.meta.namespace).get x.meta.name
              options p.1).0,
        ))
        (create-answer cs x t t' C reactors reaction)
      ∙ ap (λ p. (some (some x, none), p.0))
          (get-answer cs x.meta.namespace x.meta.name options t' C reactors)
      ∙ ap (λ o. (some (some x, none), asserted as_service (answer x.meta.name o))) held
