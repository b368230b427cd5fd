-- ===== src/Controller/Worker.antt =====
-- pkg/controller/controller.go: the event handlers and the workers on the queue. The rate-limited
-- queue of client-go is a parameter: a state `Q` with the calls that the controller makes on it.
pub mod Requeue
pub mod Drain
pub mod Settling
pub mod Run
pub mod Calls
use lite_mesh.Base.{ℕ, zero, suc, Text, List, [], ◌∷◌, Option, none, some, Bool, true, false}
use lite_mesh.Kube.{Error, Result, ok, err, panic}
use lite_mesh.Client.Listers.{Object}
use lite_mesh.Controller.Reconcile.{Kube, reconcile}

-- An `interface{}` on the queue: a string, or something else.
pub data Item : Type 0 where
  key : Text → Item
  invalid : ℕ → Item

-- `get` returns an item and whether the queue is shut down.
pub record Workqueue (Q : Type 0) : Type 0 where
  pub get : Q → (Item × Bool) × Q
  pub add : Item → Q → Q
  pub done : Item → Q → Q
  pub forget : Item → Q → Q

pub data Event : Type 0 where
  added : Object → Event
  updated : (old new : Object) → Event
  deleted : Object → Event

module _ {Q : Type 0} (queue : Workqueue Q) where
  enqueue_key : Result Text → Q → Result (Unit {0}) × Q
  enqueue_key (ok k) q = (ok tt, queue.add (key k) q)
  enqueue_key (err e) q = (ok tt, q)
  enqueue_key panic q = (panic, q)

  -- `cache.MetaNamespaceKeyFunc` is the parameter.
  unfoldable pub enqueue : (Object → Result Text) → Object → Q → Result (Unit {0}) × Q
  unfolding enqueue_key
  enqueue meta_namespace_key obj = enqueue_key (meta_namespace_key obj)

  -- The handlers that `New` registers: none for a deletion.
  unfoldable pub on_event : (Object → Result Text) → Event → Q → Result (Unit {0}) × Q
  unfolding enqueue
  on_event meta_namespace_key (added obj) q = enqueue meta_namespace_key obj q
  on_event meta_namespace_key (updated old new) q = enqueue meta_namespace_key new q
  on_event meta_namespace_key (deleted obj) q = (ok tt, q)

module _ {Q W : Type 0} (queue : Workqueue Q) (kube : Kube W) where
  -- The controller's state: the queue, and the API server with the caches.
  abbrev pub State : Type 0
  State = Q × W

  pub after_reconcile : Text → Result (Unit {0}) × W → Q → Result (Unit {0}) × State
  after_reconcile k (ok _, w) q = (ok tt, (queue.forget (key k) q, w))
  after_reconcile k (err e, w) q = (err e, (q, w))
  after_reconcile k (panic, w) q = (panic, (q, w))

  -- The function literal in `processNextWorkItem`, without its deferred call.
  unfoldable pub handle : Item → State → Result (Unit {0}) × State
  unfolding after_reconcile
  handle (invalid n) (q, w) = (ok tt, (queue.forget (invalid n) q, w))
  handle (key k) (q, w) = after_reconcile k (reconcile kube k w) q

  -- `defer c.workqueue.Done(obj)`, which also runs when the literal panics.
  unfoldable pub with_done : Item → Result (Unit {0}) × State → Result (Unit {0}) × State
  with_done obj (r, (q, w)) = (r, (queue.done obj q, w))

  -- An error is handed to `HandleError`; the caller goes on.
  unfoldable pub report : Result (Unit {0}) × State → Result Bool × State
  report (ok _, s) = (ok true, s)
  report (err e, s) = (ok true, s)
  report (panic, s) = (panic, s)

  process_got : (Item × Bool) × Q → W → Result Bool × State
  unfolding handle with_done report
  process_got ((obj, true), q) w = (ok false, (q, w))
  process_got ((obj, false), q) w = report (with_done obj (handle obj (q, w)))

  unfoldable pub process_next_work_item : State → Result Bool × State
  unfolding process_got
  process_next_work_item (q, w) = process_got (queue.get q) w

  again :
      (State → Option (Result (Unit {0}) × State))
      → Result Bool × State
      → Option (Result (Unit {0}) × State)
  again rest (ok true, s) = rest s
  again rest (ok false, s) = some (ok tt, s)
  again rest (err e, s) = some (err e, s)
  again rest (panic, s) = some (panic, s)

  -- `for c.processNextWorkItem() {}`, with fuel; `none` means that the fuel ran out.
  unfoldable pub run_worker : ℕ → State → Option (Result (Unit {0}) × State)
  unfolding again
  run_worker zero s = none
  run_worker (suc fuel) s = again (run_worker fuel) (process_next_work_item s)
