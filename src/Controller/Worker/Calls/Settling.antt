-- ===== src/Controller/Worker/Calls/Settling.antt =====
-- What the workers of `Run` achieve together, whatever the order of their calls.
use lite_mesh.Base.{ℕ, Text, ◌≡◌, ap, subst, inl, inr, In, All}
use lite_mesh.Kube.{Result, ok}
use lite_mesh.Apis.{Service}
use lite_mesh.Client.Listers.{Object, index_key, service_get}
use lite_mesh.Client.Listers.Reads.{IsKeyed, service_get-index_key}
use lite_mesh.Controller.Reconcile.{Kube}
use lite_mesh.Controller.Reconcile.Convergence.{IsSynced, IsSettled}
use lite_mesh.Controller.Reconcile.Success.{IsHealthy}
use lite_mesh.Controller.Reconcile.Keeping.{IsAdditive}
use lite_mesh.Controller.Reconcile.Phases.Interleaving.{IsBenign}
use lite_mesh.Controller.Reconcile.Phases.Apart.{IsSeparate}
use lite_mesh.Controller.Worker.{key, Workqueue, Event, on_event}
use lite_mesh.Controller.Worker.Run.Exclusion.{ProcessingLaws}
use lite_mesh.Controller.Worker.Run.Pending.{WaitingLaws, IsAbout, on_event-added}
use lite_mesh.Controller.Worker.Calls.{Crew, crew, Move, notifies, Moves, at_rest, and_move}
use lite_mesh.Controller.Worker.Calls.Exclusion.{items, Holds, Move-Holds}
use lite_mesh.Controller.Worker.Calls.Fate.{Fate}
use lite_mesh.Controller.Worker.Calls.Moving.{Move-Cached, Move-Fate}
use lite_mesh.Controller.Worker.Calls.Apart.{KeepsOff, Move-IsKeyed, Move-KeepsOff}

module _ {Q W : Type 0} (queue : Workqueue Q) (shut_down : Q → Q) (kube : Kube W)
    (meta_namespace_key : Object → Result Text) (Others : W → W → Type 0)
    (processing : ProcessingLaws queue shut_down) (waiting : WaitingLaws queue shut_down)
    (synced : IsSynced kube) (healthy : IsHealthy kube) (additive : IsAdditive kube)
    (separate : IsSeparate kube) (k ns name : Text) (s : Service)
    (is_key : kube.split_meta_namespace_key k ≡ ok (ns, name))
    (own_key : (j ns' name' : Text)
      → kube.split_meta_namespace_key j ≡ ok (ns', name')
      → index_key ns' name' ≡ index_key ns name
      → j ≡ k)
    (benign : IsBenign kube Others ns name s)
    (keyed_kept : (v w : W)
      → Others v w
      → IsKeyed (kube.service_indexer v)
      → IsKeyed (kube.service_indexer w)) where
  abbrev Moving : Crew Q W → Crew Q W → Type 0
  Moving = Move queue shut_down kube meta_namespace_key Others

  abbrev Runs : Crew Q W → Crew Q W → Type 0
  Runs = Moves queue shut_down kube meta_namespace_key Others

  abbrev FateOf : Crew Q W → Type 0
  FateOf =
      Fate queue shut_down kube meta_namespace_key Others processing waiting synced healthy additive
        separate k ns name s is_key benign

  abbrev Cached : W → Type 0
  Cached w = service_get (kube.service_indexer w) ns name ≡ ok s

  module _ (named : index_key s.meta.namespace s.meta.name ≡ index_key ns name) where
    -- What holds at every state of a run.
    record Good (t : Crew Q W) : Type 0 where
      holds : Holds queue shut_down kube meta_namespace_key Others processing t
      keyed : IsKeyed (kube.service_indexer t.cluster)
      off :
          All
            (KeepsOff queue shut_down kube meta_namespace_key Others synced keyed_kept k ns name s
              own_key named)
            t.hands

    Move-Good : (t u : Crew Q W) → Moving t u → Good t → Good u
    Move-Good t u m g = record {
      holds = Move-Holds queue shut_down kube meta_namespace_key Others processing t u m g.holds;
      keyed =
          Move-IsKeyed queue shut_down kube meta_namespace_key Others synced keyed_kept t u m
            g.keyed;
      off =
          Move-KeepsOff queue shut_down kube meta_namespace_key Others synced keyed_kept k ns name s
            own_key named t u m g.keyed g.off;
    }

    Moves-Good : (t u : Crew Q W) → Runs t u → Good t → Good u
    Moves-Good t _ at_rest g = g
    Moves-Good t u (and_move {t = v} ms m) g = Move-Good v u m (Moves-Good t v ms g)

    Moves-Fate :
        (t u : Crew Q W)
        → Runs t u
        → Good t
        → Cached t.cluster
        → FateOf t
        → Cached u.cluster × FateOf u
    Moves-Fate t _ at_rest g cached fate = (cached, fate)
    Moves-Fate t u (and_move {t = v} ms m) g cached fate =
        let (cached', fate') = Moves-Fate t v ms g cached fate in
        let good = Moves-Good t v ms g in
        let good' = Move-Good v u m good in
        (
          Move-Cached queue shut_down kube meta_namespace_key Others processing waiting synced
              healthy additive separate k ns name s is_key own_key benign keyed_kept v u m cached',
          Move-Fate queue shut_down kube meta_namespace_key Others processing waiting synced healthy
              additive separate k ns name s is_key own_key benign keyed_kept named v u m
              good.holds.1 good'.holds.1 cached' good.keyed good.off fate',
        )

    settles :
        (threadiness : ℕ) (q q' : Q) (w : W) (t u : Crew Q W) (event : Event) (obj : Object)
        → IsKeyed (kube.service_indexer w)
        → Runs (crew queue shut_down kube meta_namespace_key Others threadiness q w) t
        → Cached t.cluster
        → IsAbout queue shut_down kube meta_namespace_key waiting obj event
        → meta_namespace_key obj ≡ ok k
        → waiting.Accepts t.queue_state
        → on_event queue meta_namespace_key event t.queue_state ≡ (ok tt, q')
        → Runs (record t { queue_state = q' }) u
        → Cached u.cluster × FateOf u
    unfolding crew
    settles threadiness q q' w t u event obj keyed before cached about e accepts added after =
        let good =
          Moves-Good (crew queue shut_down kube meta_namespace_key Others threadiness q w) t before
            (record { holds = (tt, tt); keyed = keyed; off = tt }) in
        let added_good = Move-Good t (record t { queue_state = q' }) (notifies event added) good in
        Moves-Fate (record t { queue_state = q' }) u after added_good cached
          (inl (
            subst (waiting.Waits (key k)) (ap (λ r. r.1) added) (
              on_event-added queue shut_down kube meta_namespace_key waiting event obj k
                t.queue_state about e accepts)))

  Run-IsKeyed :
      (t u : Crew Q W)
      → Runs t u
      → IsKeyed (kube.service_indexer t.cluster)
      → IsKeyed (kube.service_indexer u.cluster)
  Run-IsKeyed t _ at_rest h = h
  Run-IsKeyed t u (and_move {t = v} ms m) h =
      Move-IsKeyed queue shut_down kube meta_namespace_key Others synced keyed_kept v u m
        (Run-IsKeyed t v ms h)

  -- From the start of `Run`, whatever the order in which the workers make their calls of the API server,
  -- the event handlers are called and the rest of the cluster changes the state: once a mesh service is
  -- in the cache and the handler of its addition or update has added its key, the service has its
  -- Deployment, and its Kubernetes Service if it wants one, as soon as the key neither waits nor is in
  -- the hands of a worker. The queue behaves as documented and accepts the key, which is the only key
  -- of the service; the caches follow the API server and hold objects under their own keys, reads are
  -- answered, what is missing can be created, creations take nothing away; and the rest of the cluster
  -- keeps the service in the cache and neither creates nor removes the objects that carry its name.
  pub Moves-IsSettled :
      (threadiness : ℕ) (q q' : Q) (w : W) (t u : Crew Q W) (event : Event) (obj : Object)
      → IsKeyed (kube.service_indexer w)
      → Runs (crew queue shut_down kube meta_namespace_key Others threadiness q w) t
      → Cached t.cluster
      → IsAbout queue shut_down kube meta_namespace_key waiting obj event
      → meta_namespace_key obj ≡ ok k
      → waiting.Accepts t.queue_state
      → on_event queue meta_namespace_key event t.queue_state ≡ (ok tt, q')
      → Runs (record t { queue_state = q' }) u
      → ¬ waiting.Waits (key k) u.queue_state
      → ¬ In (key k) (items u.hands)
      → IsSettled kube s u.cluster
  unfolding crew
  Moves-IsSettled threadiness q q' w t u event obj keyed before cached about e accepts added after
        waits busy =
      let named =
        service_get-index_key (kube.service_indexer t.cluster) ns name s
          (Run-IsKeyed (crew queue shut_down kube meta_namespace_key Others threadiness q w) t
            before keyed)
          cached in
      let (_, fate) =
        settles named threadiness q q' w t u event obj keyed before cached about e accepts added
          after in
      elim fate [
        | inl h ↦ absurd (waits h)
        | inr (inl (held, on)) ↦ absurd (busy held)
        | inr (inr settled) ↦ settled
      ]
