-- ===== src/Controller/Worker/Run.antt =====
-- pkg/controller/controller.go: `Run`, which starts several workers, as a step relation. The steps of
-- the workers, of the event handlers and of the rest of the cluster come in any order. A worker takes
-- an item in one step and has handled it in a later one. Handling is one step here, though its calls
-- of the API server may interleave with those of other workers; Controller.Reconcile.Phases is about
-- that. A handling that panics ends the program and has no step.
pub mod Exclusion
pub mod Pending
pub mod Settling
use lite_mesh.Base.{ℕ, zero, suc, Text, List, [], ◌∷◌, ◌++◌, Bool, true, false, ◌≡◌}
use lite_mesh.Kube.{Result, ok, err, panic}
use lite_mesh.Client.Listers.{Object}
use lite_mesh.Controller.Reconcile.{Kube}
use lite_mesh.Controller.Worker.{Item, Workqueue, Event, on_event, handle, with_done, report}

-- `idle` workers call `Get`, `busy` lists the items in the hands of the others, and `ended` counts the
-- workers that `wait.Until` has ended. `stopped` says that `stopCh` is closed.
pub record Workers (Q W : Type 0) : Type 0 where
  pub idle : ℕ
  pub busy : List Item
  pub ended : ℕ
  pub stopped : Bool
  pub queue_state : Q
  pub cluster : W

module _ {Q W : Type 0} (queue : Workqueue Q) (shut_down : Q → Q) (kube : Kube W)
    (meta_namespace_key : Object → Result Text) where
  -- `Run`, when its loop has started the workers.
  unfoldable pub started : ℕ → Q → W → Workers Q W
  started threadiness q w = record {
    idle = threadiness;
    busy = [];
    ended = 0;
    stopped = false;
    queue_state = q;
    cluster = w;
  }

  pub data Step : Workers Q W → Workers Q W → Type 0 where
    -- A worker gets an item.
    takes :
        {n e : ℕ} {xs : List Item} {b : Bool} {q q' : Q} {w : W} (i : Item)
        → queue.get q ≡ ((i, false), q')
        → Step
            (record {
              idle = suc n;
              busy = xs;
              ended = e;
              stopped = b;
              queue_state = q;
              cluster = w;
            })
            (record {
              idle = n;
              busy = i ∷ xs;
              ended = e;
              stopped = b;
              queue_state = q';
              cluster = w;
            })
    -- A worker has handled its item, and is done with it.
    finishes :
        {n e : ℕ} {b : Bool} {q q' : Q} {w w' : W} (xs ys : List Item) (i : Item)
        → report queue kube (with_done queue kube i (handle queue kube i (q, w)))
          ≡ (ok true, (q', w'))
        → Step
            (record {
              idle = n;
              busy = xs ++ i ∷ ys;
              ended = e;
              stopped = b;
              queue_state = q;
              cluster = w;
            })
            (record {
              idle = suc n;
              busy = xs ++ ys;
              ended = e;
              stopped = b;
              queue_state = q';
              cluster = w';
            })
    -- `Get` reports a shutdown, and `runWorker` returns: `wait.Until` runs it again, or ends.
    restarts :
        {n e : ℕ} {xs : List Item} {q q' : Q} {w : W} (i : Item)
        → queue.get q ≡ ((i, true), q')
        → Step
            (record {
              idle = suc n;
              busy = xs;
              ended = e;
              stopped = false;
              queue_state = q;
              cluster = w;
            })
            (record {
              idle = suc n;
              busy = xs;
              ended = e;
              stopped = false;
              queue_state = q';
              cluster = w;
            })
    ends :
        {n e : ℕ} {xs : List Item} {q q' : Q} {w : W} (i : Item)
        → queue.get q ≡ ((i, true), q')
        → Step
            (record {
              idle = suc n;
              busy = xs;
              ended = e;
              stopped = true;
              queue_state = q;
              cluster = w;
            })
            (record {
              idle = n;
              busy = xs;
              ended = suc e;
              stopped = true;
              queue_state = q';
              cluster = w;
            })
    -- An informer calls a handler.
    notifies :
        {n e : ℕ} {xs : List Item} {b : Bool} {q q' : Q} {w : W} (event : Event)
        → on_event queue meta_namespace_key event q ≡ (ok tt, q')
        → Step
            (record { idle = n; busy = xs; ended = e; stopped = b; queue_state = q; cluster = w })
            (record { idle = n; busy = xs; ended = e; stopped = b; queue_state = q'; cluster = w })
    -- The cluster changes, or a cache.
    changes :
        {n e : ℕ} {xs : List Item} {b : Bool} {q : Q} {w : W} (w' : W)
        → Step
            (record { idle = n; busy = xs; ended = e; stopped = b; queue_state = q; cluster = w })
            (record { idle = n; busy = xs; ended = e; stopped = b; queue_state = q; cluster = w' })
    -- `<-stopCh`, and the deferred `ShutDown`.
    stops :
        {n e : ℕ} {xs : List Item} {q : Q} {w : W}
        → Step
            (record {
              idle = n;
              busy = xs;
              ended = e;
              stopped = false;
              queue_state = q;
              cluster = w;
            })
            (record {
              idle = n;
              busy = xs;
              ended = e;
              stopped = true;
              queue_state = shut_down q;
              cluster = w;
            })

  pub data Steps : Workers Q W → Workers Q W → Type 0 where
    none_yet : {s : Workers Q W} → Steps s s
    and_step : {s t u : Workers Q W} → Steps s t → Step t u → Steps s u
