-- ===== src/Controller/Worker/Calls/Exclusion.antt =====
-- No two workers hold the same item, whatever the order of their calls.
use lite_mesh.Base.{
  Text, List, [], ◌∷◌, ◌++◌, map, map-append, Bool, true, ◌≡◌, ◌≢◌, sym, ap, ◌∙◌, subst, All,
  All-imp, All-remove, Distinct, Distinct-remove,
}
use lite_mesh.Kube.{Result, ok}
use lite_mesh.Client.Listers.{Object}
use lite_mesh.Controller.Reconcile.{Kube}
use lite_mesh.Controller.Worker.{Item, key, invalid, Workqueue, with_done, report}
use lite_mesh.Controller.Worker.Requeue.{report-state}
use lite_mesh.Controller.Worker.Run.Exclusion.{
  ProcessingLaws, after_reconcile-keeps, on_event-keeps,
}
use lite_mesh.Controller.Worker.Calls.{
  Hand, Crew, returned, Move, takes, calls, finishes, restarts, ends, notifies, changes, stops,
}

abbrev pub items : List Hand → List Item
items hs = map (λ h. h.0) hs

pub items-append : (xs ys : List Hand) → items (xs ++ ys) ≡ items xs ++ items ys
items-append xs ys = map-append (λ h. h.0) xs ys

module _ {Q W : Type 0} (queue : Workqueue Q) (shut_down : Q → Q) (kube : Kube W)
    (meta_namespace_key : Object → Result Text) (Others : W → W → Type 0)
    (laws : ProcessingLaws queue shut_down) where
  open laws use {
    Processing, get_not_Processing, get_Processing, get_keeps, forget_keeps, done_keeps,
    shut_down_keeps,
  }

  -- The items in the workers' hands are being processed, and no two are the same.
  abbrev pub Holds : Crew Q W → Type 0
  Holds s = All (λ i. Processing i s.queue_state) (items s.hands) × Distinct (items s.hands)

  returned-keeps :
      (i j : Item) (r : Result (Unit {0})) (q : Q) (w : W)
      → Processing j q
      → Processing j (returned queue kube i r (q, w)).1.0
  unfolding returned
  returned-keeps (invalid n) j r q w p = forget_keeps (invalid n) j q p
  returned-keeps (key k) j r q w p =
      after_reconcile-keeps queue shut_down kube meta_namespace_key laws k j (r, w) q p

  finish-keeps :
      (i j : Item) (r : Result (Unit {0})) (q q' : Q) (w w' : W)
      → report queue kube (with_done queue kube i (returned queue kube i r (q, w)))
        ≡ (ok true, (q', w'))
      → j ≢ i
      → Processing j q
      → Processing j q'
  finish-keeps i j r q q' w w' e d p =
      subst (Processing j)
        (sym (report-state queue kube i (returned queue kube i r (q, w))) ∙ ap (λ x. x.1.0) e)
        (done_keeps i j (returned queue kube i r (q, w)).1.0 d (returned-keeps i j r q w p))

  All-both :
      (P R S : Item → Type 0) (xs : List Item)
      → ((x : Item) → P x → R x → S x)
      → All P xs
      → All R xs
      → All S xs
  All-both P R S [] f h k = tt
  All-both P R S (x ∷ xs) f (h, hs) (k, ks) = (f x h k, All-both P R S xs f hs ks)

  Holds-finished :
      (is js : List Item) (i : Item) (r : Result (Unit {0})) (q q' : Q) (w w' : W)
      → report queue kube (with_done queue kube i (returned queue kube i r (q, w)))
        ≡ (ok true, (q', w'))
      → All (λ j. Processing j q) (is ++ i ∷ js) × Distinct (is ++ i ∷ js)
      → All (λ j. Processing j q') (is ++ js) × Distinct (is ++ js)
  Holds-finished is js i r q q' w w' e (h, d) =
      let (d', n) = Distinct-remove is js i d in
      (
        All-both (λ y. y ≢ i) (λ j. Processing j q) (λ j. Processing j q') (is ++ js)
            (λ j ne p. finish-keeps i j r q q' w w' e ne p) n
            (All-remove (λ j. Processing j q) is js i h),
        d',
      )

  got-keeps :
      (xs : List Item) (q q' : Q) (x : Item × Bool)
      → queue.get q ≡ (x, q')
      → All (λ j. Processing j q) xs
      → All (λ j. Processing j q') xs
  got-keeps xs q q' x e h =
      All-imp _ (λ j. Processing j q') xs
        (λ j p. subst (Processing j) (ap (λ r. r.1) e) (get_keeps j q p)) h

  pub Move-Holds :
      (s t : Crew Q W) → Move queue shut_down kube meta_namespace_key Others s t → Holds s → Holds t
  Move-Holds _ _ (takes {hs = hs} {q = q} {q' = q'} i e) (h, d) = (
    (get_Processing i q q' e, got-keeps (items hs) q q' _ e h),
    (
      All-imp _ (λ y. y ≢ i) (items hs)
          (λ j p eq. get_not_Processing i q q' e (subst (λ k. Processing k q) eq p)) h,
      d,
    ),
  )
  Move-Holds _ _ (calls {q = q} xs ys i p p' e) h =
      subst (λ is. All (λ j. Processing j q) is × Distinct is)
        (items-append xs ((i, p) ∷ ys) ∙ sym (items-append xs ((i, p') ∷ ys))) h
  Move-Holds _ _ (finishes {q = q} {q' = q'} {w = w} {w' = w'} xs ys i r e) h =
      subst (λ is. All (λ j. Processing j q') is × Distinct is) (sym (items-append xs ys))
        (Holds-finished (items xs) (items ys) i r q q' w w' e
          (subst (λ is. All (λ j. Processing j q) is × Distinct is) (items-append xs (_ ∷ ys)) h))
  Move-Holds _ _ (restarts {hs = hs} {q = q} {q' = q'} i e) (h, d) =
      (got-keeps (items hs) q q' _ e h, d)
  Move-Holds _ _ (ends {hs = hs} {q = q} {q' = q'} i e) (h, d) =
      (got-keeps (items hs) q q' _ e h, d)
  Move-Holds _ _ (notifies {hs = hs} {q = q} {q' = q'} event e) (h, d) = (
    All-imp _ (λ j. Processing j q') (items hs)
        (λ j p.
          subst (Processing j) (ap (λ r. r.1) e)
            (on_event-keeps queue shut_down kube meta_namespace_key laws event j q p))
        h,
    d,
  )
  Move-Holds _ _ (changes o) h = h
  Move-Holds _ _ (stops {hs = hs} {q = q}) (h, d) =
      (All-imp _ (λ j. Processing j (shut_down q)) (items hs) (λ j p. shut_down_keeps j q p) h, d)
