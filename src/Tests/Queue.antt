-- ===== src/Tests/Queue.antt =====
-- A work queue: the waiting items, oldest first, and the number of failures of each item. It is shut
-- down when nothing waits.
use lite_mesh.Base.{
  ℕ, codes, List, [], ◌∷◌, ◌++◌, Bool, true, false, ◌≡◌, refl, In, ite, inl, ℕ_discrete, text_dec,
  arith,
}
use lite_mesh.Controller.Worker.{Item, key, invalid, Workqueue}
use lite_mesh.Controller.Worker.Requeue.{QueueLaws}

pub record Queue : Type 0 where
  pub waiting : List Item
  pub failures : Item → ℕ

unfoldable pub item_dec : Discrete Item
unfolding text_dec ℕ_discrete
item_dec (key k) (invalid n) = no (λ e. cc)
item_dec (invalid n) (key k) = no (λ e. cc)
item_dec (key k) (key j) = elim (text_dec k j) [ yes e ↦ yes (cc) | no n ↦ no (λ e. n (cc)) ]
item_dec (invalid k) (invalid j) = elim (ℕ_discrete k j) [
  | yes e ↦ yes (cc)
  | no n ↦ no (λ e. n (cc))
]

abbrev pub without : Item → List Item → List Item
without i [] = []
without i (j ∷ js) = ite (item_dec i j) (without i js) (j ∷ without i js)

abbrev pub taken : List Item → Queue → (Item × Bool) × Queue
taken [] q = ((invalid 0, true), q)
taken (i ∷ is) q = ((i, false), record q { waiting = without i is })

abbrev pub queue : Workqueue Queue
queue = record {
  get = λ q. taken q.waiting q;
  add = λ i q. record q { waiting = without i q.waiting ++ i ∷ [] };
  done = λ i q. q;
  forget = λ i q. record q { failures = λ j. ite (item_dec i j) 0 (q.failures j) };
}

not-In-without : (i : Item) (is : List Item) → ¬ In i (without i is)
not-In-without i [] h = h
not-In-without i (j ∷ js) h = ground (arith, not-In-without i js)

pub taken-gone :
    (i : Item) (is : List Item) (q q' : Queue) → taken is q ≡ ((i, false), q') → ¬ In i q'.waiting
taken-gone i [] q q' e h = ground arith
taken-gone i (j ∷ js) q q' e h = ground (arith, not-In-without i js)

pub taken-failures :
    (i : Item) (is : List Item) (q : Queue) → (taken is q).1.failures i ≡ q.failures i
taken-failures i [] q = refl
taken-failures i (j ∷ js) q = refl

pub forget-failures : (i : Item) (q : Queue) → ite (item_dec i i) 0 (q.failures i) ≡ 0
forget-failures i q = ground arith

abbrev pub queue-laws : QueueLaws queue
queue-laws = record {
  Waits = λ i q. In i q.waiting;
  Marked = λ i q. ⊥;
  failures = λ i q. q.failures i;
  get_taken = λ i q q' e. (taken-gone i q.waiting q q' e, λ h. h);
  get_failures = λ i q. taken-failures i q.waiting q;
  forget_Waits = λ i j q h. h;
  forget_Marked = λ i j q h. h;
  forget_failures = forget-failures;
  done_Waits = λ i q h. inl h;
  done_failures = λ i j q. refl;
}

-- Two keys wait, with an item between them that is no key; `web` has failed twice.
abbrev pub pending : Queue
pending = record {
  waiting = key (codes "default/web") ∷ invalid 7 ∷ key (codes "default/none") ∷ [];
  failures = λ i. 2;
}
