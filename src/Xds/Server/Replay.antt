-- ===== src/Xds/Server/Replay.antt =====
-- The snapshots of the pods after any run of events.
use lite_mesh.Base.{Text, List, [], ◌∷◌, Option, none, ◌≡◌, refl, ◌∙◌, ap, or_else, or_else_assoc}
use lite_mesh.Kube.{ObjectMeta, Error, Selector, Result, ok, err, panic, failure}
use lite_mesh.Apis.{Configuration}
use lite_mesh.Client.Listers.{Object, Indexer, configuration_get}
use lite_mesh.Xds.Envoy.{Snapshot}
use lite_mesh.Xds.Server.{
  Backend, Event, added, updated, deleted, configuration_case, split_case, key_case, update,
  on_event,
}
use lite_mesh.Xds.Server.Snapshots.{IsCache, wanted, rules_loop-wanted}

-- An event, and the informers' caches as they are when it is handled.
pub record Moment : Type 0 where
  pub event : Event
  pub configurations : Indexer
  pub pods : Selector → List ObjectMeta × Option Error

module _ {S B C : Type 0} (backend : Backend S B C) where
  abbrev pub backend_at : Moment → Backend S B C
  backend_at m = record backend { configuration_indexer = m.configurations; list_pods = m.pods }

  abbrev continue : Result (Unit {0}) × C → (C → Result (Unit {0}) × C) → Result (Unit {0}) × C
  continue (ok _, cache) rest = rest cache
  continue (err e, cache) rest = rest cache
  continue (panic, cache) rest = (panic, cache)

  -- The informer calls the handler for one event after the other; a panic ends the program.
  unfoldable pub run : List Moment → C → Result (Unit {0}) × C
  run [] cache = (ok tt, cache)
  run (m ∷ ms) cache = continue (on_event (backend_at m) m.event cache) (run ms)

  abbrev found : {A E : Type 0} → Result A → (A → Result E) → Result E
  found (ok a) f = f a
  found (err e) f = err e
  found panic f = panic

  -- The configuration that an object's key leads to.
  abbrev pub read_configuration : Moment → Object → Result Configuration
  read_configuration m obj = found (backend.meta_namespace_key obj) (λ key.
      found (backend.split_meta_namespace_key key)
        (λ parts. configuration_get m.configurations parts.0 parts.1))

  -- The configuration that the event is about; a deletion is about none.
  abbrev pub decision : Moment → Event → Result Configuration
  decision m (added obj) = read_configuration m obj
  decision m (updated old new) = read_configuration m new
  decision m (deleted obj) = err (failure [])

  abbrev given : Moment → Result Configuration → Text → Option (Snapshot S)
  given m (ok c) node = wanted (backend_at m) c c.rules node
  given m (err e) node = none
  given m panic node = none

  abbrev unless_panic : Result Configuration → Option (Snapshot S) → Option (Snapshot S)
  unless_panic (ok c) later = later
  unless_panic (err e) later = later
  unless_panic panic later = none

  -- The snapshot that the last event with one for the pod gives to it, up to the first panic.
  abbrev pub last_given : List Moment → Text → Option (Snapshot S)
  last_given [] node = none
  last_given (m ∷ ms) node =
      let r = decision m m.event in or_else (unless_panic r (last_given ms node)) (given m r node)

  -- What the handler does once the configuration is read.
  handled : Moment → Result Configuration → C → Result (Unit {0}) × C
  unfolding configuration_case
  handled m = configuration_case (backend_at m)

  split_case-handled :
      (m : Moment) (r : Result (Text × Text)) (cache : C)
      → split_case (backend_at m) r cache
        ≡ handled m (found r (λ parts. configuration_get m.configurations parts.0 parts.1)) cache
  unfolding split_case handled
  split_case-handled m (ok parts) cache = refl
  split_case-handled m (err e) cache = refl
  split_case-handled m panic cache = refl

  key_case-handled :
      (m : Moment) (r : Result Text) (cache : C)
      → key_case (backend_at m) r cache
        ≡ handled m
            (found r (λ key.
              found
                (backend.split_meta_namespace_key key)
                (λ parts. configuration_get m.configurations parts.0 parts.1)))
            cache
  unfolding key_case handled
  key_case-handled m (ok key) cache =
      split_case-handled m (backend.split_meta_namespace_key key) cache
  key_case-handled m (err e) cache = refl
  key_case-handled m panic cache = refl

  update-handled :
      (m : Moment) (obj : Object) (cache : C)
      → update (backend_at m) obj cache ≡ handled m (read_configuration m obj) cache
  unfolding update
  update-handled m obj cache = key_case-handled m (backend.meta_namespace_key obj) cache

  on_event-handled :
      (m : Moment) (event : Event) (cache : C)
      → on_event (backend_at m) event cache ≡ handled m (decision m event) cache
  unfolding on_event handled configuration_case
  on_event-handled m (added obj) cache = update-handled m obj cache
  on_event-handled m (updated old new) cache = update-handled m new cache
  on_event-handled m (deleted obj) cache = refl

  module _ (snapshot_of : Text → C → Option (Snapshot S))
      (is_cache : IsCache backend snapshot_of) where
    IsCache-at : (m : Moment) → IsCache (backend_at m) snapshot_of
    IsCache-at m = record { snapshot_set = is_cache.snapshot_set }

    handled-given :
        (m : Moment) (r : Result Configuration) (rest : C → Result (Unit {0}) × C)
        (later : Option (Snapshot S)) (cache : C) (node : Text)
        → ((c : C) → snapshot_of node (rest c).1 ≡ or_else later (snapshot_of node c))
        → snapshot_of node (continue (handled m r cache) rest).1
          ≡ or_else (or_else (unless_panic r later) (given m r node)) (snapshot_of node cache)
    unfolding handled configuration_case
    handled-given m (ok c) rest later cache node h =
        h _
        ∙ ap (or_else later)
            (rules_loop-wanted (backend_at m) snapshot_of (IsCache-at m) c c.rules cache node)
        ∙ or_else_assoc later _ (snapshot_of node cache)
    handled-given m (err e) rest later cache node h =
        h cache ∙ or_else_assoc later _ (snapshot_of node cache)
    handled-given m panic rest later cache node h = refl

    -- After any run of events, each pod has the snapshot that the last event with one for it gave to
    -- it, as the caches were at that event, and the snapshot from before the run if no event had one;
    -- a panic ends the run. Events that lead to no configuration, and deletions, give none.
    pub run-last_given :
        (ms : List Moment) (cache : C) (node : Text)
        → snapshot_of node (run ms cache).1 ≡ or_else (last_given ms node) (snapshot_of node cache)
    unfolding run
    run-last_given [] cache node = refl
    run-last_given (m ∷ ms) cache node =
        ap (λ p. snapshot_of node (continue p (run ms)).1) (on_event-handled m m.event cache)
        ∙ handled-given m (decision m m.event) (run ms) (last_given ms node) cache node
            (λ c. run-last_given ms c node)
