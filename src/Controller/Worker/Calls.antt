-- ===== src/Controller/Worker/Calls.antt =====
-- pkg/controller/controller.go: `Run` call by call. A worker that holds an item is in a phase of
-- `reconcile`, and the calls of several workers come in any order, among the steps of the event handlers
-- and of the rest of the cluster.
pub mod Exclusion
pub mod Apart
pub mod Fate
pub mod Moving
pub mod Settling
pub mod Refining
use lite_mesh.Base.{ℕ, zero, suc, Text, List, [], ◌∷◌, ◌++◌, Bool, true, false, ◌≡◌}
use lite_mesh.Kube.{Result, ok, err, panic}
use lite_mesh.Client.Listers.{Object}
use lite_mesh.Controller.Reconcile.{Kube}
use lite_mesh.Controller.Reconcile.Phases.{Phase, getting_service, ended, advance}
use lite_mesh.Controller.Worker.{
  Item, key, invalid, Workqueue, Event, on_event, after_reconcile, with_done, report,
}

-- An item in the hands of a worker, and where the worker is with it.
abbrev pub Hand : Type 0
Hand = Item × Phase

-- The phase in which a worker starts on an item. What is no string is forgotten at once.
unfoldable pub begin : Item → Phase
begin (key k) = getting_service k
begin (invalid n) = ended (ok tt)

-- `idle` workers call `Get`, `hands` are the others, and `stopped` says that `stopCh` is closed.
pub record Crew (Q W : Type 0) : Type 0 where
  pub idle : ℕ
  pub hands : List Hand
  pub stopped : Bool
  pub queue_state : Q
  pub cluster : W

module _ {Q W : Type 0} (queue : Workqueue Q) (kube : Kube W) where
  -- What the literal in `processNextWorkItem` does once `reconcile` has returned.
  unfoldable pub returned : Item → Result (Unit {0}) → Q × W → Result (Unit {0}) × (Q × W)
  unfolding after_reconcile
  returned (invalid n) r (q, w) = (ok tt, (queue.forget (invalid n) q, w))
  returned (key k) r (q, w) = after_reconcile queue kube k (r, w) q

-- `Others` says how the rest of the cluster may change the state.
module _ {Q W : Type 0} (queue : Workqueue Q) (shut_down : Q → Q) (kube : Kube W)
    (meta_namespace_key : Object → Result Text) (Others : W → W → Type 0) where
  pub data Move : Crew Q W → Crew Q W → Type 0 where
    -- A worker gets an item.
    takes :
        {n : ℕ} {hs : List Hand} {b : Bool} {q q' : Q} {w : W} (i : Item)
        → queue.get q ≡ ((i, false), q')
        → Move
            (record { idle = suc n; hands = hs; stopped = b; queue_state = q; cluster = w })
            (record {
              idle = n;
              hands = (i, begin i) ∷ hs;
              stopped = b;
              queue_state = q';
              cluster = w;
            })
    -- A worker makes its next call.
    calls :
        {n : ℕ} {b : Bool} {q : Q} {w w' : W} (xs ys : List Hand) (i : Item) (p p' : Phase)
        → advance kube p w ≡ (p', w')
        → Move
            (record {
              idle = n;
              hands = xs ++ (i, p) ∷ ys;
              stopped = b;
              queue_state = q;
              cluster = w;
            })
            (record {
              idle = n;
              hands = xs ++ (i, p') ∷ ys;
              stopped = b;
              queue_state = q;
              cluster = w';
            })
    -- A worker whose `reconcile` has returned is done with its item.
    finishes :
        {n : ℕ} {b : Bool} {q q' : Q} {w w' : W} (xs ys : List Hand) (i : Item)
        (r : Result (Unit {0}))
        → report queue kube (with_done queue kube i (returned queue kube i r (q, w)))
          ≡ (ok true, (q', w'))
        → Move
            (record {
              idle = n;
              hands = xs ++ (i, ended r) ∷ ys;
              stopped = b;
              queue_state = q;
              cluster = w;
            })
            (record { idle = suc n; hands = xs ++ ys; stopped = b; queue_state = q'; cluster = w' })
    -- `Get` reports a shutdown, and `runWorker` returns: `wait.Until` runs it again, or ends.
    restarts :
        {n : ℕ} {hs : List Hand} {q q' : Q} {w : W} (i : Item)
        → queue.get q ≡ ((i, true), q')
        → Move
            (record { idle = suc n; hands = hs; stopped = false; queue_state = q; cluster = w })
            (record { idle = suc n; hands = hs; stopped = false; queue_state = q'; cluster = w })
    ends :
        {n : ℕ} {hs : List Hand} {q q' : Q} {w : W} (i : Item)
        → queue.get q ≡ ((i, true), q')
        → Move
            (record { idle = suc n; hands = hs; stopped = true; queue_state = q; cluster = w })
            (record { idle = n; hands = hs; stopped = true; queue_state = q'; cluster = w })
    -- An informer calls a handler.
    notifies :
        {n : ℕ} {hs : List Hand} {b : Bool} {q q' : Q} {w : W} (event : Event)
        → on_event queue meta_namespace_key event q ≡ (ok tt, q')
        → Move
            (record { idle = n; hands = hs; stopped = b; queue_state = q; cluster = w })
            (record { idle = n; hands = hs; stopped = b; queue_state = q'; cluster = w })
    -- The cluster changes, or a cache.
    changes :
        {n : ℕ} {hs : List Hand} {b : Bool} {q : Q} {w w' : W}
        → Others w w'
        → Move
            (record { idle = n; hands = hs; stopped = b; queue_state = q; cluster = w })
            (record { idle = n; hands = hs; stopped = b; queue_state = q; cluster = w' })
    -- `<-stopCh`, and the deferred `ShutDown`.
    stops :
        {n : ℕ} {hs : List Hand} {q : Q} {w : W}
        → Move
            (record { idle = n; hands = hs; stopped = false; queue_state = q; cluster = w })
            (record {
              idle = n;
              hands = hs;
              stopped = true;
              queue_state = shut_down q;
              cluster = w;
            })

  -- `Run`, when its loop has started the workers.
  unfoldable pub crew : ℕ → Q → W → Crew Q W
  crew threadiness q w = record {
    idle = threadiness;
    hands = [];
    stopped = false;
    queue_state = q;
    cluster = w;
  }

  pub data Moves : Crew Q W → Crew Q W → Type 0 where
    at_rest : {s : Crew Q W} → Moves s s
    and_move : {s t u : Crew Q W} → Moves s t → Move t u → Moves s u
