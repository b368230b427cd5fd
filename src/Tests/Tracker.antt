-- ===== src/Tests/Tracker.antt =====
-- A small object tracker, and the theorems on the fake clientset.
use lite_mesh.Base.{
  Text, text_dec, codes, List, [], ◌∷◌, ◌++◌, Option, none, some, Bool, true, false, ite, lookup,
  insert, lookup-insert, ◌≡◌, ◌≢◌, refl, ap, ◌∙◌, arith,
}
use lite_mesh.Kube.{ObjectMeta, Error, failure, not_found, GroupVersionResource, GetOptions}
use lite_mesh.Apis.{group_name}
use lite_mesh.Client.Interfaces.{create_get}
use lite_mesh.Client.Fake.{Object, service, configuration, get_action, create_action}
use lite_mesh.Client.Fake.Clientset.{
  Reaction, Testing, with_reactors, fake_interface, new_simple_clientset,
}
use lite_mesh.Client.Fake.Clientset.Tracking.{
  object_meta, answer, reacted, IsTracking, get-new_simple_clientset,
  create_get-new_simple_clientset,
}
use lite_mesh.Tests.Objects.{web, routing}

-- The objects of each group.
abbrev Tracker : Type 0
Tracker = Text → List (Text × Object)

abbrev tracker_key : Text → Text → Text → Text
tracker_key resource ns name = resource ++ b'/' ∷ ns ++ b'/' ∷ name

abbrev holds : GroupVersionResource → Text → Text → Tracker → Option Object
holds gvr ns name t = lookup (tracker_key gvr.resource ns name) (t gvr.group)

unfoldable put : Text → Text → Object → Tracker → Tracker
put group k obj t group' = ite (text_dec group group') (insert k obj (t group')) (t group')

abbrev resource_of : Object → Text
resource_of (configuration _) = codes "configurations"
resource_of _ = codes "services"

unfoldable add_case : Option ObjectMeta → Object → Tracker → Option Error × Tracker
add_case none obj t = (some (failure (codes "no metadata")), t)
add_case (some m) obj t =
    (none, put group_name (tracker_key (resource_of obj) m.namespace m.name) obj t)

unfoldable create_case :
    Option ObjectMeta
    → Option Object
    → GroupVersionResource
    → Text
    → Object
    → Tracker
    → (Bool × (Option Object × Option Error)) × Tracker
create_case none o gvr ns obj t = ((true, (none, some (failure (codes "no metadata")))), t)
create_case (some m) (some _) gvr ns obj t = ((true, (none, some (failure (codes "exists")))), t)
create_case (some m) none gvr ns obj t =
    ((true, (some obj, none)), put gvr.group (tracker_key gvr.resource ns m.name) obj t)

abbrev held_for : Option ObjectMeta → GroupVersionResource → Text → Tracker → Option Object
held_for none gvr ns t = none
held_for (some m) gvr ns t = holds gvr ns m.name t

unfoldable object_reaction : Reaction Tracker Object
object_reaction (get_action gvr ns name) t = ((true, answer name (holds gvr ns name t)), t)
object_reaction (create_action gvr ns obj) t =
    create_case (object_meta obj) (held_for (object_meta obj) gvr ns t) gvr ns obj t
object_reaction _ t = ((false, (none, none)), t)

abbrev unhandled : Reaction Tracker Object
unhandled action t = ((false, (none, none)), t)

abbrev testing : Testing Tracker (Reaction Tracker Object) Unit Text
testing = record {
  new_object_tracker = λ group. [];
  add = λ obj t. add_case (object_meta obj) obj t;
  watch = λ gvr ns t. ((some tt, none), t);
  object_reaction = object_reaction;
  new_fake = unhandled;
  add_reactor = λ verb resource reaction f. reaction;
  add_watch_reactor = λ resource reaction f. f;
  fake_of = λ f. record {
    invokes = λ action obj t. reacted obj (f action t);
    invokes_watch = λ action t. ((some tt, none), t);
    extract_label = λ opts. none;
    everything = λ labels. true;
  };
  fake_discovery = λ f. codes "discovery";
}

put-other :
    (group group' k : Text) (obj : Object) (t : Tracker)
    → group' ≢ group
    → put group k obj t group' ≡ t group'
unfolding put text_dec
put-other group group' k obj t n = ground arith

add_case-other :
    (o : Option ObjectMeta) (obj : Object) (t : Tracker) (group : Text)
    → group ≢ group_name
    → (add_case o obj t).1 group ≡ t group
unfolding add_case
add_case-other none obj t group n = refl
add_case-other (some m) obj t group n = put-other group_name group _ obj t n

put-same :
    (group k : Text) (obj : Object) (t : Tracker) → lookup k (put group k obj t group) ≡ some obj
unfolding put text_dec
put-same group k obj t = ground (arith, lookup-insert k k obj (t group))

create_case-fresh :
    (gvr : GroupVersionResource) (ns : Text) (obj : Object) (m : ObjectMeta) (t : Tracker)
    (o : Option ObjectMeta) (held : Option Object)
    → o ≡ some m
    → held ≡ none
    → create_case o held gvr ns obj t
      ≡ ((true, (some obj, none)), put gvr.group (tracker_key gvr.resource ns m.name) obj t)
unfolding create_case
create_case-fresh gvr ns obj m t o held e h = rw (e, h) refl

created-held :
    (gvr : GroupVersionResource) (obj : Object) (m : ObjectMeta) (t : Tracker)
    (o : Option ObjectMeta) (held : Option Object)
    → o ≡ some m
    → held ≡ none
    → (t' : Tracker) × ((create_case o held gvr m.namespace obj t ≡ ((true, (some obj, none)), t'))
        × (holds gvr m.namespace m.name t' ≡ some obj))
created-held gvr obj m t o held e h = (
  _,
  (
    create_case-fresh gvr m.namespace obj m t o held e h,
    put-same gvr.group (tracker_key gvr.resource m.namespace m.name) obj t,
  ),
)

testing-IsTracking : IsTracking testing holds
unfolding object_reaction lookup
testing-IsTracking = record {
  empty = λ gvr ns name. refl;
  added_elsewhere = λ gvr ns name obj t n _.
      ap (lookup (tracker_key gvr.resource ns name))
        (add_case-other (object_meta obj) obj t gvr.group n);
  got = λ gvr ns name t. refl;
  created = λ gvr obj m t e h.
      created-held gvr obj m t (object_meta obj) _ e (ap (λ o. held_for o gvr m.namespace t) e ∙ h);
  invoked = λ reaction watching obj t action. refl;
}

abbrev latest : GetOptions
latest = record { resource_version = [] }

preloaded : Tracker
unfolding put add_case
preloaded =
    (add_case (some routing.meta) (configuration routing)
      (add_case (some web.meta) (service web) (λ group. [])).1).1

new_simple_clientset-preloaded :
    new_simple_clientset testing (service web ∷ configuration routing ∷ [])
    ≡ some (with_reactors testing, preloaded)
unfolding new_simple_clientset preloaded add_case
new_simple_clientset-preloaded = refl

get-new_simple_clientset_example :
    ((fake_interface testing {C = Unit} (with_reactors testing)).mesh.services
        (codes "default")).get
      (codes "web")
      latest
      preloaded
    ≡ (some (none, some (not_found (codes "web"))), preloaded)
get-new_simple_clientset_example =
    get-new_simple_clientset testing holds testing-IsTracking
      (service web ∷ configuration routing ∷ []) (with_reactors testing) preloaded (codes "default")
      (codes "web") latest Unit new_simple_clientset-preloaded

create_get-new_simple_clientset_example :
    create_get
      ((fake_interface testing {C = Unit} (with_reactors testing)).mesh.services (codes "default"))
      web
      (codes "web")
      latest
      preloaded
    ≡ (some (some web, none), some (some web, none))
create_get-new_simple_clientset_example =
    create_get-new_simple_clientset testing holds testing-IsTracking
      (service web ∷ configuration routing ∷ []) (with_reactors testing) preloaded web latest Unit
      new_simple_clientset-preloaded
