-- ===== src/Tests/Pool.antt =====
-- A queue that keeps track of the items that are being processed, and a run of two workers on it.
use lite_mesh.Base.{
  Text, codes, List, [], ◌∷◌, ◌++◌, Bool, true, false, if◌then◌else◌, ite, ◌≡◌, ◌≢◌, refl, text_dec,
  ℕ_discrete, arith, ℕ, In, inl, inr, subst, sym, ap, ◌∙◌, ◌⊎◌,
}
use lite_mesh.Kube.{Result, ok}
use lite_mesh.Client.Listers.{Object, service}
use lite_mesh.Controller.Worker.{
  added, on_event, enqueue, Item, key, invalid, Workqueue, handle, with_done, report,
}
use lite_mesh.Controller.Worker.Run.{Steps, Workers, none_yet, and_step, takes, finishes}
use lite_mesh.Controller.Worker.Run.Exclusion.{ProcessingLaws}
use lite_mesh.Controller.Worker.Run.Pending.{WaitingLaws, Fate, on_event-Fate}
use lite_mesh.Tests.Objects.{web}
use lite_mesh.Tests.Queue.{item_dec, without}
use lite_mesh.Tests.Cluster.{Cluster, kube, fresh}

pub record Pool : Type 0 where
  pub waiting : List Item
  pub busy : Item → Bool

-- The first item that waits and is not being processed.
unfoldable pub first : (Item → Bool) → List Item → Item × Bool
first busy [] = (invalid 0, true)
first busy (i ∷ is) = let next = first busy is in if busy i then next else (i, false)

abbrev mark : Item × Bool → Pool → (Item × Bool) × Pool
mark (i, true) q = ((i, true), q)
mark (i, false) q = (
  (i, false),
  record q { waiting = without i q.waiting; busy = λ j. ite (item_dec i j) true (q.busy j) },
)

abbrev pub pool : Workqueue Pool
pool = record {
  get = λ q. mark (first q.busy q.waiting) q;
  add = λ i q. record q { waiting = without i q.waiting ++ i ∷ [] };
  done = λ i q. record q { busy = λ j. ite (item_dec i j) false (q.busy j) };
  forget = λ i q. q;
}

-- A queue that is closed hands out what waits.
abbrev pub close : Pool → Pool
close q = q

pub first-not_busy :
    (busy : Item → Bool) (is : List Item) (i : Item) → first busy is ≡ (i, false) → busy i ≡ false
unfolding first
first-not_busy busy [] i e = ground arith
first-not_busy busy (j ∷ is) i e = ground (arith, first-not_busy busy is i)

pub mark-item :
    (r : Item × Bool) (q q' : Pool) (i : Item) → mark r q ≡ ((i, false), q') → r ≡ (i, false)
mark-item (j, true) q q' i e = ground arith
mark-item (j, false) q q' i e = ground arith

pub mark-busy :
    (r : Item × Bool) (q q' : Pool) (i : Item) → mark r q ≡ ((i, false), q') → q'.busy i ≡ true
mark-busy (j, true) q q' i e = ground arith
mark-busy (j, false) q q' i e = ground arith

pub mark-keeps :
    (r : Item × Bool) (q : Pool) (j : Item) → q.busy j ≡ true → (mark r q).1.busy j ≡ true
mark-keeps (i, true) q j e = e
mark-keeps (i, false) q j e = ground arith

pub done-busy :
    (i j : Item) (q : Pool) → j ≢ i → q.busy j ≡ true → ite (item_dec i j) false (q.busy j) ≡ true
done-busy i j q n p = ground arith

pub true-false : (b : Bool) → b ≡ true → ¬ (b ≡ false)
true-false b t f = ground arith

abbrev pub pool-laws : ProcessingLaws pool close
pool-laws = record {
  Processing = λ i q. q.busy i ≡ true;
  get_not_Processing = λ i q q' e p.
      true-false (q.busy i) p
        (first-not_busy q.busy q.waiting i (mark-item (first q.busy q.waiting) q q' i e));
  get_Processing = λ i q q' e. mark-busy (first q.busy q.waiting) q q' i e;
  get_keeps = λ j q p. mark-keeps (first q.busy q.waiting) q j p;
  add_keeps = λ i j q p. p;
  forget_keeps = λ i j q p. p;
  done_keeps = λ i j q n p. done-busy i j q n p;
  shut_down_keeps = λ j q p. p;
}

-- A service and an item that is no key wait.
abbrev pool_start : Pool
pool_start = record { waiting = key (codes "default/web") ∷ invalid 7 ∷ []; busy = λ i. false }

abbrev after_first : Pool
after_first = (pool.get pool_start).1

abbrev after_second : Pool
after_second = (pool.get after_first).1

unfoldable pub keyed : Object → Result Text
keyed obj = ok (codes "default/web")

In-without : (i j : Item) (is : List Item) → In j is → (i ≡ j) ⊎ In j (without i is)
unfolding item_dec
In-without i j [] h = elim h [ ]
In-without i j (x ∷ is) (inl e) = ground arith
In-without i j (x ∷ is) (inr h) = ground (arith, In-without i j is h)

pub In-end : (i : Item) (is : List Item) → In i (is ++ i ∷ [])
In-end i [] = inl refl
In-end i (x ∷ is) = inr (In-end i is)

In-append : (i j : Item) (is : List Item) → In j is → In j (is ++ i ∷ [])
In-append i j [] h = elim h [ ]
In-append i j (x ∷ is) (inl e) = inl e
In-append i j (x ∷ is) (inr h) = inr (In-append i j is h)

pub In-added : (i j : Item) (is : List Item) → In j is → In j (without i is ++ i ∷ [])
In-added i j is h = elim (In-without i j is h) [
  | inl e ↦ subst (λ x. In x (without i is ++ i ∷ [])) e (In-end i (without i is))
  | inr k ↦ In-append i j (without i is) k
]

pub mark-waiting :
    (r : Item × Bool) (q q' : Pool) (i j : Item)
    → mark r q ≡ ((i, false), q')
    → In j q.waiting
    → (i ≡ j) ⊎ In j q'.waiting
mark-waiting (x, true) q q' i j e h = absurd (ground arith)
mark-waiting (x, false) q q' i j e h = elim (In-without x j q.waiting h) [
  | inl same ↦ inl (sym (ap (λ p. p.0.0) e) ∙ same)
  | inr k ↦ inr (subst (λ p. In j p.waiting) (ap (λ p. p.1) e) k)
]

pub mark-ended :
    (r : Item × Bool) (q q' : Pool) (i j : Item)
    → mark r q ≡ ((i, true), q')
    → In j q.waiting
    → In j q'.waiting
mark-ended (x, false) q q' i j e h = absurd (ground arith)
mark-ended (x, true) q q' i j e h = subst (λ p. In j p.waiting) (ap (λ p. p.1) e) h

abbrev pub pool_waiting : WaitingLaws pool close
pool_waiting = record {
  Accepts = λ q. Unit;
  Waits = λ i q. In i q.waiting;
  add_Waits = λ i q _. In-end i (without i q.waiting);
  add_keeps = λ i j q h. In-added i j q.waiting h;
  get_keeps = λ i j q q' e h. mark-waiting (first q.busy q.waiting) q q' i j e h;
  ended_keeps = λ i j q q' e h. mark-ended (first q.busy q.waiting) q q' i j e h;
  forget_keeps = λ i j q h. h;
  done_keeps = λ i j q h. h;
  shut_down_keeps = λ j q h. h;
}

-- The service is added while an item that is no key waits.
abbrev pub idle_pool : Pool
idle_pool = record { waiting = invalid 7 ∷ []; busy = λ i. false }

abbrev pub notified : Pool
notified = pool.add (key (codes "default/web")) idle_pool

abbrev pub workers : ℕ → List Item → Pool → Workers Pool Cluster
workers n items q = record {
  idle = n;
  busy = items;
  ended = 0;
  stopped = false;
  queue_state = q;
  cluster = fresh;
}

abbrev pub took_both : Pool
took_both = (pool.get (pool.get notified).1).1

both_taken :
    Steps pool close kube keyed
      (workers 2 [] notified)
      (workers 1 (key (codes "default/web") ∷ []) (pool.done (invalid 7) took_both))
unfolding first item_dec text_dec ℕ_discrete handle with_done report
both_taken =
    and_step
      (and_step (and_step none_yet (takes (invalid 7) refl))
        (takes (key (codes "default/web")) refl))
      (finishes (key (codes "default/web") ∷ []) [] (invalid 7) refl)

on_event-Fate_example :
    Fate pool close kube keyed pool_waiting
      (key (codes "default/web"))
      (workers 2 [] notified)
      (workers 1 (key (codes "default/web") ∷ []) (pool.done (invalid 7) took_both))
      both_taken
unfolding on_event enqueue keyed
on_event-Fate_example =
    on_event-Fate pool close kube keyed pool_waiting (added (service web)) (service web)
      (codes "default/web") idle_pool (workers 2 [] notified)
      (workers 1 (key (codes "default/web") ∷ []) (pool.done (invalid 7) took_both)) refl refl tt
      refl both_taken
