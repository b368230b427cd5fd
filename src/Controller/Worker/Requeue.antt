-- ===== src/Controller/Worker/Requeue.antt =====
-- What a round of a worker does to the queue.
use lite_mesh.Base.{ℕ, Text, false, ◌≡◌, refl, sym, ap, ◌∙◌, ◌⊎◌, inl, inr}
use lite_mesh.Kube.{Result, ok, err, panic}
use lite_mesh.Controller.Reconcile.{Kube, reconcile}
use lite_mesh.Controller.Worker.{
  Item, key, invalid, Workqueue, after_reconcile, handle, with_done, report, process_next_work_item,
}

-- The documented behaviour of the queue. An item waits when it is to be handed out; it is marked
-- when it was added while it is being processed, and then `done` makes it wait again; `forget` ends
-- the count of its failures.
pub record QueueLaws {Q : Type 0} (queue : Workqueue Q) : Type 1 where
  pub Waits : Item → Q → Type 0
  pub Marked : Item → Q → Type 0
  pub failures : Item → Q → ℕ
  pub get_taken :
      (i : Item) (q q' : Q) → queue.get q ≡ ((i, false), q') → ¬ Waits i q' × ¬ Marked i q'
  pub get_failures : (i : Item) (q : Q) → failures i (queue.get q).1 ≡ failures i q
  pub forget_Waits : (i j : Item) (q : Q) → Waits j (queue.forget i q) → Waits j q
  pub forget_Marked : (i j : Item) (q : Q) → Marked j (queue.forget i q) → Marked j q
  pub forget_failures : (i : Item) (q : Q) → failures i (queue.forget i q) ≡ 0
  pub done_Waits : (i : Item) (q : Q) → Waits i (queue.done i q) → Waits i q ⊎ Marked i q
  pub done_failures : (i j : Item) (q : Q) → failures j (queue.done i q) ≡ failures j q

-- The queue after an item was handled.
module _ {Q W : Type 0} (queue : Workqueue Q) (kube : Kube W) where
  pub report-state :
      (i : Item) (p : Result (Unit {0}) × (Q × W))
      → (report queue kube (with_done queue kube i p)).1.0 ≡ queue.done i p.1.0
  unfolding report with_done
  report-state i (ok _, (q, w)) = refl
  report-state i (err e, (q, w)) = refl
  report-state i (panic, (q, w)) = refl

module _ {Q W : Type 0} (queue : Workqueue Q) (kube : Kube W) (laws : QueueLaws queue) where
  open laws use {
    Waits, Marked, failures, get_taken, get_failures, forget_Waits, forget_Marked, forget_failures,
    done_Waits, done_failures,
  }

  done-gone : (i : Item) (q : Q) → ¬ Waits i q × ¬ Marked i q → ¬ Waits i (queue.done i q)
  done-gone i q (n, m) h = elim (done_Waits i q h) [ inl a ↦ n a | inr b ↦ m b ]

  forget-gone :
      (i : Item) (q : Q)
      → ¬ Waits i q × ¬ Marked i q
      → ¬ Waits i (queue.forget i q) × ¬ Marked i (queue.forget i q)
  forget-gone i q (n, m) = (λ h. n (forget_Waits i i q h), λ h. m (forget_Marked i i q h))

  handle-gone :
      (i : Item) (q : Q) (w : W)
      → ¬ Waits i q × ¬ Marked i q
      → ¬ Waits i (handle queue kube i (q, w)).1.0 × ¬ Marked i (handle queue kube i (q, w)).1.0
  unfolding handle
  handle-gone (invalid n) q w g = forget-gone (invalid n) q g
  handle-gone (key k) q w g = reconciled (reconcile kube k w)
    where
      reconciled :
          (r : Result (Unit {0}) × W)
          → ¬ Waits (key k) (after_reconcile queue kube k r q).1.0
            × ¬ Marked (key k) (after_reconcile queue kube k r q).1.0
      reconciled (ok _, w') = forget-gone (key k) q g
      reconciled (err e, w') = g
      reconciled (panic, w') = g

  process-state :
      (i : Item) (q q' : Q) (w : W)
      → queue.get q ≡ ((i, false), q')
      → (process_next_work_item queue kube (q, w)).1.0
        ≡ queue.done i (handle queue kube i (q', w)).1.0
  unfolding process_next_work_item
  process-state i q q' w e = rw e (report-state queue kube i (handle queue kube i (q', w)))

  -- Once a worker has processed an item, the item does not wait on the queue, whether its
  -- reconciliation succeeded, failed or panicked: a failed key is not put back.
  pub process-not-Waits :
      (i : Item) (q q' : Q) (w : W)
      → queue.get q ≡ ((i, false), q')
      → ¬ Waits i (process_next_work_item queue kube (q, w)).1.0
  process-not-Waits i q q' w e =
      rw (process-state i q q' w e) (done-gone i _ (handle-gone i q' w (get_taken i q q' e)))

  -- A success ends the count of an item's failures, anything else leaves it.
  abbrev pub failures_after : Result (Unit {0}) → ℕ → ℕ
  failures_after (ok _) n = 0
  failures_after (err e) n = n
  failures_after panic n = n

  reconciled-failures :
      (k : Text) (q : Q) (r : Result (Unit {0}) × W)
      → failures (key k) (after_reconcile queue kube k r q).1.0
        ≡ failures_after r.0 (failures (key k) q)
  unfolding after_reconcile
  reconciled-failures k q (ok _, w) = forget_failures (key k) q
  reconciled-failures k q (err e, w) = refl
  reconciled-failures k q (panic, w) = refl

  -- A worker that processes a key counts it as settled (its failures are forgotten) when the
  -- reconciliation succeeds; otherwise the count stays as it was.
  pub process-failures :
      (k : Text) (q q' : Q) (w : W)
      → queue.get q ≡ ((key k, false), q')
      → failures (key k) (process_next_work_item queue kube (q, w)).1.0
        ≡ failures_after (reconcile kube k w).0 (failures (key k) q)
  unfolding handle
  process-failures k q q' w e =
      ap (failures (key k)) (process-state (key k) q q' w e)
      ∙ done_failures (key k) (key k) _
      ∙ reconciled-failures k q' (reconcile kube k w)
      ∙ ap (failures_after (reconcile kube k w).0)
          (sym (ap (λ p. failures (key k) p.1) e) ∙ get_failures (key k) q)
