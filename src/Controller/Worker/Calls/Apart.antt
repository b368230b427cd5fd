-- ===== src/Controller/Worker/Calls/Apart.antt =====
-- The hands that hold another key than that of a service, while the workers' calls interleave.
use lite_mesh.Base.{Text, List, [], ◌∷◌, ◌++◌, true, ◌≡◌, ◌≢◌, sym, ap, ◌∙◌, subst, All, All-remove}
use lite_mesh.Kube.{Result, ok}
use lite_mesh.Apis.{Service}
use lite_mesh.Client.Listers.{Object, Indexer, index_key}
use lite_mesh.Client.Listers.Reads.{IsKeyed, service_get-index_key}
use lite_mesh.Controller.Reconcile.{Kube}
use lite_mesh.Controller.Reconcile.Convergence.{IsSynced}
use lite_mesh.Controller.Reconcile.Phases.{Phase, ended}
use lite_mesh.Controller.Reconcile.Phases.Apart.{IsApart, advance-IsApart, advance-service_indexer}
use lite_mesh.Controller.Worker.{Item, key, invalid, Workqueue, with_done, report}
use lite_mesh.Controller.Worker.Run.Settling.{reported-cluster, after_reconcile-cluster}
use lite_mesh.Controller.Worker.Calls.{
  Hand, begin, Crew, returned, Move, takes, calls, finishes, restarts, ends, notifies, changes,
  stops,
}

All-replace :
    (P : Hand → Type 0) (xs ys : List Hand) (x y : Hand)
    → (P x → P y)
    → All P (xs ++ x ∷ ys)
    → All P (xs ++ y ∷ ys)
All-replace P [] ys x y f (h, hs) = (f h, hs)
All-replace P (z ∷ xs) ys x y f (h, hs) = (h, All-replace P xs ys x y f hs)

module _ {Q W : Type 0} (queue : Workqueue Q) (shut_down : Q → Q) (kube : Kube W)
    (meta_namespace_key : Object → Result Text) (Others : W → W → Type 0) where
  -- The cluster is the same once `reconcile` has returned.
  pub returned-cluster :
      (i : Item) (r : Result (Unit {0})) (q q' : Q) (w w' : W)
      → report queue kube (with_done queue kube i (returned queue kube i r (q, w)))
        ≡ (ok true, (q', w'))
      → w ≡ w'
  unfolding returned
  returned-cluster (invalid n) r q q' w w' e =
      sym (reported-cluster queue shut_down kube meta_namespace_key (invalid n) _)
      ∙ ap (λ x. x.1.1) e
  returned-cluster (key k) r q q' w w' e =
      sym (after_reconcile-cluster queue shut_down kube meta_namespace_key k (r, w) q)
      ∙ sym (reported-cluster queue shut_down kube meta_namespace_key (key k) _)
      ∙ ap (λ x. x.1.1) e

  module _ (synced : IsSynced kube)
      (keyed_kept : (v w : W)
        → Others v w
        → IsKeyed (kube.service_indexer v)
        → IsKeyed (kube.service_indexer w)) where
    -- The cache of mesh services keeps its objects under their own keys.
    pub Move-IsKeyed :
        (t u : Crew Q W)
        → Move queue shut_down kube meta_namespace_key Others t u
        → IsKeyed (kube.service_indexer t.cluster)
        → IsKeyed (kube.service_indexer u.cluster)
    Move-IsKeyed _ _ (takes i e) h = h
    Move-IsKeyed _ _ (calls {w = w} xs ys i p p' e) h =
        subst IsKeyed
          (sym (advance-service_indexer kube synced p w) ∙ ap (λ r. kube.service_indexer r.1) e) h
    Move-IsKeyed _ _ (finishes {q = q} {q' = q'} {w = w} {w' = w'} xs ys i r e) h =
        subst (λ v. IsKeyed (kube.service_indexer v)) (returned-cluster i r q q' w w' e) h
    Move-IsKeyed _ _ (restarts i e) h = h
    Move-IsKeyed _ _ (ends i e) h = h
    Move-IsKeyed _ _ (notifies event e) h = h
    Move-IsKeyed _ _ (changes {w = w} {w' = w'} o) h = keyed_kept w w' o h
    Move-IsKeyed _ _ stops h = h

    module _ (k ns name : Text) (s : Service)
        (own_key : (j ns' name' : Text)
          → kube.split_meta_namespace_key j ≡ ok (ns', name')
          → index_key ns' name' ≡ index_key ns name
          → j ≡ k)
        (named : index_key s.meta.namespace s.meta.name ≡ index_key ns name) where
      -- The phase has nothing to do with the service, whatever the cache holds.
      abbrev pub IsElse : Phase → Type 0
      IsElse p = (ix : Indexer) → IsKeyed ix → IsApart kube synced s ix p

      -- A worker that holds another item than the key has nothing to do with the service.
      abbrev pub KeepsOff : Hand → Type 0
      KeepsOff h = h.0 ≢ key k → IsElse h.1

      begin-IsElse : (i : Item) → i ≢ key k → IsElse (begin i)
      unfolding begin
      begin-IsElse (key j) n = λ ix keyed ns' name' x e found same. n (
          ap key (
            own_key j ns' name' e
              (sym (service_get-index_key ix ns' name' x keyed found) ∙ same ∙ named)))
      begin-IsElse (invalid m) n = λ ix keyed. tt

      pub Move-KeepsOff :
          (t u : Crew Q W)
          → Move queue shut_down kube meta_namespace_key Others t u
          → IsKeyed (kube.service_indexer t.cluster)
          → All KeepsOff t.hands
          → All KeepsOff u.hands
      Move-KeepsOff _ _ (takes i e) keyed h = (begin-IsElse i, h)
      Move-KeepsOff _ _ (calls {w = w} xs ys i p p' e) keyed h =
          All-replace KeepsOff xs ys (i, p) (i, p')
            (λ off n ix keyed'.
              subst (λ r. IsApart kube synced s ix r.0) e
                (advance-IsApart kube synced s ix p w (off n (kube.service_indexer w) keyed)))
            h
      Move-KeepsOff _ _ (finishes xs ys i r e) keyed h = All-remove KeepsOff xs ys (i, ended r) h
      Move-KeepsOff _ _ (restarts i e) keyed h = h
      Move-KeepsOff _ _ (ends i e) keyed h = h
      Move-KeepsOff _ _ (notifies event e) keyed h = h
      Move-KeepsOff _ _ (changes o) keyed h = h
      Move-KeepsOff _ _ stops keyed h = h
