-- ===== src/Controller/Worker/Run/Exclusion.antt =====
-- What holds however the steps of `Run` interleave.
use lite_mesh.Base.{ℕ, ◌+◌, Text, false, ◌≡◌, ◌≢◌, All, Distinct, length}
use lite_mesh.Kube.{Result, ok, err, panic}
use lite_mesh.Client.Listers.{Object}
use lite_mesh.Controller.Reconcile.{Kube}
use lite_mesh.Controller.Worker.{
  Item, key, Workqueue, Event, added, updated, deleted, enqueue, enqueue_key, on_event,
  after_reconcile,
}
use lite_mesh.Controller.Worker.Run.{Workers}

-- The documented behaviour of the queue: `get` hands out no item that is being processed, which an
-- item is from then on until `done` is called on it.
pub record ProcessingLaws {Q : Type 0} (queue : Workqueue Q) (shut_down : Q → Q) : Type 1 where
  pub Processing : Item → Q → Type 0
  pub get_not_Processing : (i : Item) (q q' : Q) → queue.get q ≡ ((i, false), q') → ¬ Processing i q
  pub get_Processing : (i : Item) (q q' : Q) → queue.get q ≡ ((i, false), q') → Processing i q'
  pub get_keeps : (j : Item) (q : Q) → Processing j q → Processing j (queue.get q).1
  pub add_keeps : (i j : Item) (q : Q) → Processing j q → Processing j (queue.add i q)
  pub forget_keeps : (i j : Item) (q : Q) → Processing j q → Processing j (queue.forget i q)
  pub done_keeps : (i j : Item) (q : Q) → j ≢ i → Processing j q → Processing j (queue.done i q)
  pub shut_down_keeps : (j : Item) (q : Q) → Processing j q → Processing j (shut_down q)

module _ {Q W : Type 0} (queue : Workqueue Q) (shut_down : Q → Q) (kube : Kube W)
    (meta_namespace_key : Object → Result Text) (laws : ProcessingLaws queue shut_down) where
  open laws use {
    Processing, get_not_Processing, get_Processing, get_keeps, add_keeps, forget_keeps, done_keeps,
    shut_down_keeps,
  }

  -- The items in the workers' hands are being processed, and no two are the same.
  abbrev Held : Workers Q W → Type 0
  Held s = All (λ i. Processing i s.queue_state) s.busy × Distinct s.busy

  pub after_reconcile-keeps :
      (k : Text) (j : Item) (r : Result (Unit {0}) × W) (q : Q)
      → Processing j q
      → Processing j (after_reconcile queue kube k r q).1.0
  unfolding after_reconcile
  after_reconcile-keeps k j (ok _, w) q p = forget_keeps (key k) j q p
  after_reconcile-keeps k j (err e, w) q p = p
  after_reconcile-keeps k j (panic, w) q p = p

  enqueue_key-keeps :
      (r : Result Text) (j : Item) (q : Q) → Processing j q → Processing j (enqueue_key queue r q).1
  unfolding enqueue_key
  enqueue_key-keeps (ok k) j q p = add_keeps (key k) j q p
  enqueue_key-keeps (err e) j q p = p
  enqueue_key-keeps panic j q p = p

  pub on_event-keeps :
      (event : Event) (j : Item) (q : Q)
      → Processing j q
      → Processing j (on_event queue meta_namespace_key event q).1
  unfolding on_event enqueue
  on_event-keeps (added obj) j q p = enqueue_key-keeps (meta_namespace_key obj) j q p
  on_event-keeps (updated old new) j q p = enqueue_key-keeps (meta_namespace_key new) j q p
  on_event-keeps (deleted obj) j q p = p

  -- The workers, in whichever state they are.
  abbrev pub count : Workers Q W → ℕ
  count s = s.idle + length s.busy + s.ended
