-- ===== src/Controller/Worker/Run/Pending.antt =====
-- No event is lost, however the steps of `Run` interleave.
use lite_mesh.Base.{Text, true, false, ◌≡◌, sym, ap, ◌∙◌, subst, ◌⊎◌, inl, inr, In, In-remove}
use lite_mesh.Kube.{Result, ok, err, panic}
use lite_mesh.Client.Listers.{Object}
use lite_mesh.Controller.Reconcile.{Kube, reconcile}
use lite_mesh.Controller.Worker.{
  Item, key, invalid, Workqueue, Event, added, updated, deleted, enqueue, enqueue_key, on_event,
  after_reconcile, handle, with_done, report,
}
use lite_mesh.Controller.Worker.Requeue.{report-state}
use lite_mesh.Controller.Worker.Run.{
  Workers, Step, takes, finishes, restarts, ends, notifies, changes, stops, Steps, none_yet,
  and_step,
}

-- The documented behaviour of the queue: an item that is added while the queue accepts items waits,
-- until `get` hands it out. An item that is being processed waits, too, if it is added.
pub record WaitingLaws {Q : Type 0} (queue : Workqueue Q) (shut_down : Q → Q) : Type 1 where
  pub Accepts : Q → Type 0
  pub Waits : Item → Q → Type 0
  pub add_Waits : (i : Item) (q : Q) → Accepts q → Waits i (queue.add i q)
  pub add_keeps : (i j : Item) (q : Q) → Waits j q → Waits j (queue.add i q)
  pub get_keeps :
      (i j : Item) (q q' : Q) → queue.get q ≡ ((i, false), q') → Waits j q → (i ≡ j) ⊎ Waits j q'
  pub ended_keeps : (i j : Item) (q q' : Q) → queue.get q ≡ ((i, true), q') → Waits j q → Waits j q'
  pub forget_keeps : (i j : Item) (q : Q) → Waits j q → Waits j (queue.forget i q)
  pub done_keeps : (i j : Item) (q : Q) → Waits j q → Waits j (queue.done i q)
  pub shut_down_keeps : (j : Item) (q : Q) → Waits j q → Waits j (shut_down q)

module _ {Q W : Type 0} (queue : Workqueue Q) (shut_down : Q → Q) (kube : Kube W)
    (meta_namespace_key : Object → Result Text) where
  -- A worker gets the item in the step, or has handled it.
  abbrev pub Takes :
      (j : Item) (s t : Workers Q W) → Step queue shut_down kube meta_namespace_key s t → Type 0
  Takes j _ _ (takes i e) = i ≡ j
  Takes j _ _ (finishes xs ys i e) = ⊥
  Takes j _ _ (restarts i e) = ⊥
  Takes j _ _ (ends i e) = ⊥
  Takes j _ _ (notifies event e) = ⊥
  Takes j _ _ (changes w) = ⊥
  Takes j _ _ stops = ⊥

  abbrev pub Finishes :
      (j : Item) (s t : Workers Q W) → Step queue shut_down kube meta_namespace_key s t → Type 0
  Finishes j _ _ (takes i e) = ⊥
  Finishes j _ _ (finishes xs ys i e) = i ≡ j
  Finishes j _ _ (restarts i e) = ⊥
  Finishes j _ _ (ends i e) = ⊥
  Finishes j _ _ (notifies event e) = ⊥
  Finishes j _ _ (changes w) = ⊥
  Finishes j _ _ stops = ⊥

  -- A worker got the item in one of the steps.
  abbrev pub Taken :
      (j : Item) (s t : Workers Q W) → Steps queue shut_down kube meta_namespace_key s t → Type 0
  Taken j s _ none_yet = ⊥
  Taken j s u (and_step {t = t} steps step) = Taken j s t steps ⊎ Takes j t u step

  -- A worker got the item in one of the steps and has handled it in a later one.
  abbrev pub Handled :
      (j : Item) (s t : Workers Q W) → Steps queue shut_down kube meta_namespace_key s t → Type 0
  Handled j s _ none_yet = ⊥
  Handled j s u (and_step {t = t} steps step) =
      Handled j s t steps ⊎ (Taken j s t steps × Finishes j t u step)

  module _ (laws : WaitingLaws queue shut_down) where
    open laws use {
      Accepts, Waits, add_Waits, add_keeps, get_keeps, ended_keeps, forget_keeps, done_keeps,
      shut_down_keeps,
    }

    pub after_reconcile-Waits :
        (k : Text) (j : Item) (r : Result (Unit {0}) × W) (q : Q)
        → Waits j q
        → Waits j (after_reconcile queue kube k r q).1.0
    unfolding after_reconcile
    after_reconcile-Waits k j (ok _, w) q p = forget_keeps (key k) j q p
    after_reconcile-Waits k j (err e, w) q p = p
    after_reconcile-Waits k j (panic, w) q p = p

    handle-Waits :
        (i j : Item) (q : Q) (w : W) → Waits j q → Waits j (handle queue kube i (q, w)).1.0
    unfolding handle
    handle-Waits (invalid n) j q w p = forget_keeps (invalid n) j q p
    handle-Waits (key k) j q w p = after_reconcile-Waits k j (reconcile kube k w) q p

    finish-Waits :
        (i j : Item) (q q' : Q) (w w' : W)
        → report queue kube (with_done queue kube i (handle queue kube i (q, w)))
          ≡ (ok true, (q', w'))
        → Waits j q
        → Waits j q'
    finish-Waits i j q q' w w' e p =
        subst (Waits j)
          (sym (report-state queue kube i (handle queue kube i (q, w))) ∙ ap (λ r. r.1.0) e)
          (done_keeps i j (handle queue kube i (q, w)).1.0 (handle-Waits i j q w p))

    enqueue_key-Waits :
        (r : Result Text) (j : Item) (q : Q) → Waits j q → Waits j (enqueue_key queue r q).1
    unfolding enqueue_key
    enqueue_key-Waits (ok k) j q p = add_keeps (key k) j q p
    enqueue_key-Waits (err e) j q p = p
    enqueue_key-Waits panic j q p = p

    pub on_event-Waits :
        (event : Event) (j : Item) (q : Q)
        → Waits j q
        → Waits j (on_event queue meta_namespace_key event q).1
    unfolding on_event enqueue
    on_event-Waits (added obj) j q p = enqueue_key-Waits (meta_namespace_key obj) j q p
    on_event-Waits (updated old new) j q p = enqueue_key-Waits (meta_namespace_key new) j q p
    on_event-Waits (deleted obj) j q p = p

    Step-Waits :
        (j : Item) (s t : Workers Q W) (step : Step queue shut_down kube meta_namespace_key s t)
        → Waits j s.queue_state
        → Waits j t.queue_state ⊎ (Takes j s t step × In j t.busy)
    Step-Waits j _ _ (takes {q = q} {q' = q'} i e) p = elim (get_keeps i j q q' e p) [
      | inl same ↦ inr (same, inl same)
      | inr q ↦ inl q
    ]
    Step-Waits j _ _ (finishes {q = q} {q' = q'} {w = w} {w' = w'} xs ys i e) p =
        inl (finish-Waits i j q q' w w' e p)
    Step-Waits j _ _ (restarts {q = q} {q' = q'} i e) p = inl (ended_keeps i j q q' e p)
    Step-Waits j _ _ (ends {q = q} {q' = q'} i e) p = inl (ended_keeps i j q q' e p)
    Step-Waits j _ _ (notifies {q = q} event e) p =
        inl (subst (Waits j) (ap (λ r. r.1) e) (on_event-Waits event j q p))
    Step-Waits j _ _ (changes w) p = inl p
    Step-Waits j _ _ (stops {q = q}) p = inl (shut_down_keeps j q p)

  Step-busy :
      (j : Item) (s t : Workers Q W) (step : Step queue shut_down kube meta_namespace_key s t)
      → In j s.busy
      → In j t.busy ⊎ Finishes j s t step
  Step-busy j _ _ (takes i e) h = inl (inr h)
  Step-busy j _ _ (finishes xs ys i e) h = elim (In-remove xs ys j i h) [
    | inl same ↦ inr same
    | inr k ↦ inl k
  ]
  Step-busy j _ _ (restarts i e) h = inl h
  Step-busy j _ _ (ends i e) h = inl h
  Step-busy j _ _ (notifies event e) h = inl h
  Step-busy j _ _ (changes w) h = inl h
  Step-busy j _ _ stops h = inl h

  module _ (laws : WaitingLaws queue shut_down) where
    -- What has become of an item that waited.
    abbrev pub Fate :
        (j : Item) (s t : Workers Q W) → Steps queue shut_down kube meta_namespace_key s t → Type 0
    Fate j s t steps =
        laws.Waits j t.queue_state ⊎ ((Taken j s t steps × In j t.busy) ⊎ Handled j s t steps)

    Step-Fate :
        (j : Item) (s t u : Workers Q W) (steps : Steps queue shut_down kube meta_namespace_key s t)
        (step : Step queue shut_down kube meta_namespace_key t u)
        → Fate j s t steps
        → Fate j s u (and_step steps step)
    Step-Fate j s t u steps step (inl waits) = elim (Step-Waits laws j t u step waits) [
      | inl p ↦ inl p
      | inr (taken, busy) ↦ inr (inl (inr taken, busy))
    ]
    Step-Fate j s t u steps step (inr (inl (taken, busy))) = elim (Step-busy j t u step busy) [
      | inl h ↦ inr (inl (inl taken, h))
      | inr f ↦ inr (inr (inr (taken, f)))
    ]
    Step-Fate j s t u steps step (inr (inr handled)) = inr (inr (inl handled))

    Steps-Fate :
        (j : Item) (s t : Workers Q W) (steps : Steps queue shut_down kube meta_namespace_key s t)
        → laws.Waits j s.queue_state
        → Fate j s t steps
    Steps-Fate j s _ none_yet p = inl p
    Steps-Fate j s u (and_step {t = t} steps step) p =
        Step-Fate j s t u steps step (Steps-Fate j s t steps p)

    enqueue_key-added :
        (r : Result Text) (k : Text) (q : Q)
        → r ≡ ok k
        → laws.Accepts q
        → laws.Waits (key k) (enqueue_key queue r q).1
    unfolding enqueue_key
    enqueue_key-added r k q e a = rw e (laws.add_Waits (key k) q a)

    -- The object of an event that is not a deletion.
    abbrev pub IsAbout : Object → Event → Type 0
    IsAbout obj (added x) = x ≡ obj
    IsAbout obj (updated old new) = new ≡ obj
    IsAbout obj (deleted x) = ⊥

    pub on_event-added :
        (event : Event) (obj : Object) (k : Text) (q : Q)
        → IsAbout obj event
        → meta_namespace_key obj ≡ ok k
        → laws.Accepts q
        → laws.Waits (key k) (on_event queue meta_namespace_key event q).1
    unfolding on_event enqueue
    on_event-added (added x) obj k q same e a =
        enqueue_key-added (meta_namespace_key x) k q (ap meta_namespace_key same ∙ e) a
    on_event-added (updated old new) obj k q same e a =
        enqueue_key-added (meta_namespace_key new) k q (ap meta_namespace_key same ∙ e) a
    on_event-added (deleted x) obj k q same e a = absurd same

    -- No event is lost: after the handler of an addition or an update, on a queue that accepts items
    -- and behaves as documented, however the steps of the workers, the handlers and the cluster
    -- interleave, the key of the object waits on the queue, or is in the hands of a worker that got it
    -- after the event, or was handled by a worker that got it after the event.
    pub on_event-Fate :
        (event : Event) (obj : Object) (k : Text) (q : Q) (s t : Workers Q W)
        → IsAbout obj event
        → meta_namespace_key obj ≡ ok k
        → laws.Accepts q
        → s.queue_state ≡ (on_event queue meta_namespace_key event q).1
        → (steps : Steps queue shut_down kube meta_namespace_key s t) → Fate (key k) s t steps
    on_event-Fate event obj k q s t about e accepts same steps =
        Steps-Fate (key k) s t steps
          (subst (laws.Waits (key k)) (sym same) (on_event-added event obj k q about e accepts))
