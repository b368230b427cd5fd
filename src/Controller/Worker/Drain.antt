-- ===== src/Controller/Worker/Drain.antt =====
-- A worker on a queue that hands out some items and is then shut down.
use lite_mesh.Base.{
  suc, Text, List, [], ◌∷◌, Option, some, Bool, true, false, ◌≡◌, ◌≢◌, refl, length, arith,
}
use lite_mesh.Kube.{Result, ok, err, panic}
use lite_mesh.Controller.Reconcile.{Kube, reconcile}
use lite_mesh.Controller.Worker.{
  Item, key, invalid, Workqueue, after_reconcile, with_done, report, process_got,
  process_next_work_item, again, run_worker,
}

module _ {Q : Type 0} (queue : Workqueue Q) where
  -- The queue hands out the items in this order, whether or not each is forgotten when it is done,
  -- and then says that it is shut down.
  abbrev pub Delivers : List Item → Q → Type 0
  Delivers [] q = (i : Item) × (q' : Q) × (queue.get q ≡ ((i, true), q'))
  Delivers (i ∷ is) q =
      (q' : Q) × (queue.get q ≡ ((i, false), q'))
      × Delivers is (queue.done i q')
      × Delivers is (queue.done i (queue.forget i q'))

module _ {Q W : Type 0} (queue : Workqueue Q) (kube : Kube W) where
  -- The state after the reconciliation of each delivered key, in order.
  abbrev pub reconcile_item : Item → W → W
  reconcile_item (key k) w = (reconcile kube k w).1
  reconcile_item (invalid n) w = w

  abbrev pub reconcile_items : List Item → W → W
  reconcile_items [] w = w
  reconcile_items (i ∷ is) w = reconcile_items is (reconcile_item i w)

  -- What a round leaves: it goes on, in the state that the reconciliation left, on a queue that
  -- delivers the rest.
  Rest : List Item → W → Result Bool × (Q × W) → Type 0
  Rest is w (r, (q', w')) = (r ≡ ok true) × (w' ≡ w) × Delivers queue is q'

  reconciled-Rest :
      (k : Text) (is : List Item) (q : Q) (r : Result (Unit {0}) × W)
      → r.0 ≢ panic
      → Delivers queue is (queue.done (key k) q)
      → Delivers queue is (queue.done (key k) (queue.forget (key k) q))
      → Rest is r.1
          (report queue kube (with_done queue kube (key k) (after_reconcile queue kube k r q)))
  unfolding Rest report with_done after_reconcile
  reconciled-Rest k is q (ok _, w) n d f = (refl, refl, f)
  reconciled-Rest k is q (err e, w) n d f = (refl, refl, d)
  reconciled-Rest k is q (panic, w) n d f = absurd (n refl)

  handled-Rest :
      (i : Item) (is : List Item) (q : Q) (w : W)
      → ((k : Text) (v : W) → (reconcile kube k v).0 ≢ panic)
      → Delivers queue is (queue.done i q)
      → Delivers queue is (queue.done i (queue.forget i q))
      → Rest is (reconcile_item i w) (process_got queue kube ((i, false), q) w)
  unfolding process_got Rest
  handled-Rest (key k) is q w n d f = reconciled-Rest k is q (reconcile kube k w) (n k w) d f
  handled-Rest (invalid m) is q w n d f = (refl, refl, f)

  again-Rest :
      (is : List Item) (w : W) (p : Result Bool × (Q × W))
      (run : Q × W → Option (Result (Unit {0}) × (Q × W)))
      → Rest is w p
      → ((q : Q)
          → Delivers queue is q
          → (q' : Q) × (run (q, w) ≡ some (ok tt, (q', reconcile_items is w))))
      → (q' : Q) × (again queue kube run p ≡ some (ok tt, (q', reconcile_items is w)))
  unfolding Rest again
  again-Rest is w (r, (q, w')) run (e, same, d) h =
      let (q', done) = h q d in (q', ground (arith, done))

  -- A worker that is handed some items before the queue shuts down ends, in a state in which each
  -- delivered key has been reconciled once, in order, and invalid items were passed over; the rounds
  -- are one more than the items. No reconciliation may panic.
  pub run_worker-reconcile_items :
      (is : List Item) (q : Q) (w : W)
      → ((k : Text) (v : W) → (reconcile kube k v).0 ≢ panic)
      → Delivers queue is q
      → (q' : Q) × (run_worker queue kube (suc (length is)) (q, w)
          ≡ some (ok tt, (q', reconcile_items is w)))
  unfolding run_worker process_next_work_item
  run_worker-reconcile_items [] q w n (i, q', e) = (q', rw (e, process_got))
  run_worker-reconcile_items (i ∷ is) q w n (q', e, d, f) =
      let (p, done) =
        again-Rest is (reconcile_item i w) (process_got queue kube ((i, false), q') w)
          (run_worker queue kube (suc (length is))) (handled-Rest i is q' w n d f)
          (λ r dr. run_worker-reconcile_items is r (reconcile_item i w) n dr) in
      (p, rw e done)
