-- ===== src/Controller/Worker/Calls/Fate.antt =====
-- What becomes of a key while the workers' calls interleave.
use lite_mesh.Base.{
  Text, List, [], ◌∷◌, ◌++◌, true, ◌≡◌, ◌≢◌, refl, sym, ap, ◌∙◌, subst, ◌⊎◌, inl, inr, In,
  In-remove, All, All-imp, Distinct, Distinct-remove,
}
use lite_mesh.Kube.{Result, ok, err, panic}
use lite_mesh.Apis.{Service}
use lite_mesh.Client.Listers.{Object, service_get}
use lite_mesh.Controller.Reconcile.{Kube}
use lite_mesh.Controller.Reconcile.Convergence.{IsSynced, IsSettled}
use lite_mesh.Controller.Reconcile.Success.{IsHealthy}
use lite_mesh.Controller.Reconcile.Keeping.{IsKept, IsAdditive}
use lite_mesh.Controller.Reconcile.Phases.{
  Phase, getting_service, getting_deployment, creating_deployment, getting_k8s_service,
  creating_k8s_service, ended, advance,
}
use lite_mesh.Controller.Reconcile.Phases.Standing.{Stands, advance-Stands}
use lite_mesh.Controller.Reconcile.Phases.Interleaving.{IsBenign, Others-Stands}
use lite_mesh.Controller.Reconcile.Phases.Apart.{IsSeparate, CallsApart, CallsApart-IsBenign}
use lite_mesh.Controller.Worker.{Item, key, invalid, Workqueue, with_done, report}
use lite_mesh.Controller.Worker.Requeue.{report-state}
use lite_mesh.Controller.Worker.Run.Exclusion.{ProcessingLaws}
use lite_mesh.Controller.Worker.Run.Pending.{WaitingLaws, after_reconcile-Waits}
use lite_mesh.Controller.Worker.Calls.{Hand, begin, Crew, returned}
use lite_mesh.Controller.Worker.Calls.Exclusion.{items, items-append}

All-items : (P : Item → Type 0) (hs : List Hand) → All P (items hs) → All (λ h. P h.0) hs
All-items P [] a = tt
All-items P (h ∷ hs) (p, a) = (p, All-items P hs a)

All-both :
    (P R S : Hand → Type 0) (hs : List Hand)
    → ((h : Hand) → P h → R h → S h)
    → All P hs
    → All R hs
    → All S hs
All-both P R S [] f a b = tt
All-both P R S (h ∷ hs) f (p, a) (r, b) = (f h p r, All-both P R S hs f a b)

-- One hand of a list moves on, and then something else is so of each.
All-move :
    (P R S : Hand → Type 0) (xs ys : List Hand) (x y : Hand)
    → ((h : Hand) → P h → R h → S h)
    → (R x → S y)
    → All P (xs ++ ys)
    → All R (xs ++ x ∷ ys)
    → All S (xs ++ y ∷ ys)
All-move P R S [] ys x y f g a (r, b) = (g r, All-both P R S ys f a b)
All-move P R S (z ∷ xs) ys x y f g (p, a) (r, b) = (f z p r, All-move P R S xs ys x y f g a b)

-- The other hands hold other items.
others_differ :
    (xs ys : List Hand) (x : Hand)
    → Distinct (items (xs ++ x ∷ ys))
    → All (λ h. h.0 ≢ x.0) (xs ++ ys)
others_differ xs ys x d =
    All-items (λ i. i ≢ x.0) (xs ++ ys)
      (subst (All (λ i. i ≢ x.0)) (sym (items-append xs ys))
        (Distinct-remove (items xs) (items ys) x.0 (subst Distinct (items-append xs (x ∷ ys)) d)).1)

pub In-moved :
    (j : Item) (xs ys : List Hand) (i : Item) (p p' : Phase)
    → In j (items (xs ++ (i, p) ∷ ys))
    → In j (items (xs ++ (i, p') ∷ ys))
In-moved j xs ys i p p' h =
    subst (In j) (items-append xs ((i, p) ∷ ys) ∙ sym (items-append xs ((i, p') ∷ ys))) h

pub In-finished :
    (j : Item) (xs ys : List Hand) (x : Hand)
    → In j (items (xs ++ x ∷ ys))
    → (x.0 ≡ j) ⊎ In j (items (xs ++ ys))
In-finished j xs ys x h =
    subst (λ is. (x.0 ≡ j) ⊎ In j is) (sym (items-append xs ys))
      (In-remove (items xs) (items ys) j x.0 (subst (In j) (items-append xs (x ∷ ys)) h))

-- No call of a worker destroys what no creation destroys.
pub advance-keeps :
    {W : Type 0} (kube : Kube W) (P : W → Type 0)
    → IsKept kube P
    → (p : Phase) (w : W) → P w
    → P (advance kube p w).1
unfolding advance
advance-keeps kube P kept (getting_service j) w h = h
advance-keeps kube P kept (getting_deployment x) w h = h
advance-keeps kube P kept (creating_deployment x) w h = kept.by_deployment x.meta.namespace _ w h
advance-keeps kube P kept (getting_k8s_service x) w h = h
advance-keeps kube P kept (creating_k8s_service x) w h = kept.by_k8s_service x.meta.namespace _ w h
advance-keeps kube P kept (ended r) w h = h

module _ {Q W : Type 0} (queue : Workqueue Q) (shut_down : Q → Q) (kube : Kube W)
    (meta_namespace_key : Object → Result Text) (Others : W → W → Type 0)
    (processing : ProcessingLaws queue shut_down) (waiting : WaitingLaws queue shut_down) where
  open waiting use {Waits, get_keeps, ended_keeps, forget_keeps, done_keeps, shut_down_keeps}

  returned-Waits :
      (i j : Item) (r : Result (Unit {0})) (q : Q) (w : W)
      → Waits j q
      → Waits j (returned queue kube i r (q, w)).1.0
  unfolding returned
  returned-Waits (invalid n) j r q w p = forget_keeps (invalid n) j q p
  returned-Waits (key k) j r q w p =
      after_reconcile-Waits queue shut_down kube meta_namespace_key waiting k j (r, w) q p

  pub finish-Waits :
      (i j : Item) (r : Result (Unit {0})) (q q' : Q) (w w' : W)
      → report queue kube (with_done queue kube i (returned queue kube i r (q, w)))
        ≡ (ok true, (q', w'))
      → Waits j q
      → Waits j q'
  finish-Waits i j r q q' w w' e p =
      subst (Waits j)
        (sym (report-state queue kube i (returned queue kube i r (q, w))) ∙ ap (λ x. x.1.0) e)
        (done_keeps i j (returned queue kube i r (q, w)).1.0 (returned-Waits i j r q w p))

  module _ (synced : IsSynced kube) (healthy : IsHealthy kube) (additive : IsAdditive kube)
      (separate : IsSeparate kube) (k ns name : Text) (s : Service)
      (is_key : kube.split_meta_namespace_key k ≡ ok (ns, name))
      (benign : IsBenign kube Others ns name s) where
    -- The worker that holds the key stands in the reconciliation of the service.
    abbrev pub OnIt : W → Hand → Type 0
    OnIt w h = h.0 ≡ key k → Stands kube k ns name s (h.1, w)

    abbrev pub IsCached : W → Type 0
    IsCached w = service_get (kube.service_indexer w) ns name ≡ ok s

    -- What becomes of the key.
    abbrev pub Fate : Crew Q W → Type 0
    Fate t =
        Waits (key k) t.queue_state
        ⊎ ((In (key k) (items t.hands) × All (OnIt t.cluster) t.hands) ⊎ IsSettled kube s t.cluster)

    begin-Stands :
        (i : Item) (w : W) → IsCached w → i ≡ key k → Stands kube k ns name s (begin i, w)
    unfolding begin
    begin-Stands i w cached e =
        subst (λ j. Stands kube k ns name s (begin j, w)) (sym e) (refl, cached)

    pub ended-Stands :
        (r : Result (Unit {0})) (w : W) → Stands kube k ns name s (ended r, w) → IsSettled kube s w
    ended-Stands (ok u) w h = h
    ended-Stands (err e) w h = absurd h
    ended-Stands panic w h = absurd h

    pub got-Fate :
        (hs : List Hand) (i : Item) (w : W)
        → IsCached w
        → Distinct (i ∷ items hs)
        → (i ≡ key k) ⊎ (In (key k) (items hs) × All (OnIt w) hs)
        → In (key k) (i ∷ items hs) × All (OnIt w) ((i, begin i) ∷ hs)
    got-Fate hs i w cached d (inl same) = (
      inl same,
      (
        begin-Stands i w cached,
        All-imp _ (OnIt w) hs (λ h n e. absurd (n (e ∙ sym same))) (All-items (λ j. j ≢ i) hs d.0),
      ),
    )
    got-Fate hs i w cached d (inr (held, on)) = (inr held, (λ e. begin-Stands i w cached e, on))

    pub IsSettled-kept : (v w : W) → Others v w → IsSettled kube s v → IsSettled kube s w
    IsSettled-kept v w o h = record {
      deployed = benign.deployment_kept v w o h.deployed;
      exposed = λ y. benign.k8s_service_kept v w o (h.exposed y);
    }

    pub called-OnIt :
        (xs ys : List Hand) (i : Item) (p p' : Phase) (w w' : W)
        → advance kube p w ≡ (p', w')
        → Distinct (items (xs ++ (i, p) ∷ ys))
        → (i ≢ key k → CallsApart kube synced s w w')
        → All (OnIt w) (xs ++ (i, p) ∷ ys)
        → All (OnIt w') (xs ++ (i, p') ∷ ys)
    called-OnIt xs ys i p p' w w' e d apart on =
        All-move (λ h. h.0 ≢ i) (OnIt w) (OnIt w') xs ys (i, p) (i, p')
          (λ h differs stands same.
            Others-Stands kube (CallsApart kube synced s) k ns name s
              (CallsApart-IsBenign kube synced s separate ns name) h.1 w w'
              (apart (λ e'. differs (same ∙ sym e'))) (stands same))
          (λ stands same.
            subst (Stands kube k ns name s) e
              (advance-Stands kube k ns name s synced healthy is_key p w (stands same)).0)
          (others_differ xs ys (i, p) d) on
