-- ===== src/Controller/Worker/Calls/Moving.antt =====
-- How each step of the workers decides the fate of a key.
use lite_mesh.Base.{
  Text, ◌++◌, ◌≡◌, sym, ap, ◌∙◌, subst, inl, inr, All, All-imp, All-middle, All-remove, Distinct,
}
use lite_mesh.Kube.{Result, ok}
use lite_mesh.Apis.{Service}
use lite_mesh.Client.Listers.{Object, index_key, service_get}
use lite_mesh.Client.Listers.Reads.{IsKeyed}
use lite_mesh.Controller.Reconcile.{Kube}
use lite_mesh.Controller.Reconcile.Convergence.{IsSynced, IsSettled}
use lite_mesh.Controller.Reconcile.Success.{IsHealthy}
use lite_mesh.Controller.Reconcile.Keeping.{IsAdditive, IsSettled-IsKept}
use lite_mesh.Controller.Reconcile.Phases.{ended}
use lite_mesh.Controller.Reconcile.Phases.Interleaving.{IsBenign, Others-Stands}
use lite_mesh.Controller.Reconcile.Phases.Apart.{IsSeparate, advance-service_indexer}
use lite_mesh.Controller.Worker.{key, Workqueue}
use lite_mesh.Controller.Worker.Run.Exclusion.{ProcessingLaws}
use lite_mesh.Controller.Worker.Run.Pending.{WaitingLaws, on_event-Waits}
use lite_mesh.Controller.Worker.Calls.{
  Hand, Crew, Move, takes, calls, finishes, restarts, ends, notifies, changes, stops,
}
use lite_mesh.Controller.Worker.Calls.Exclusion.{items}
use lite_mesh.Controller.Worker.Calls.Fate.{
  In-moved, In-finished, advance-keeps, finish-Waits, OnIt, Fate, ended-Stands, got-Fate,
  IsSettled-kept, called-OnIt,
}
use lite_mesh.Controller.Worker.Calls.Apart.{KeepsOff, returned-cluster}

module _ {Q W : Type 0} (queue : Workqueue Q) (shut_down : Q → Q) (kube : Kube W)
    (meta_namespace_key : Object → Result Text) (Others : W → W → Type 0)
    (processing : ProcessingLaws queue shut_down) (waiting : WaitingLaws queue shut_down)
    (synced : IsSynced kube) (healthy : IsHealthy kube) (additive : IsAdditive kube)
    (separate : IsSeparate kube) (k ns name : Text) (s : Service)
    (is_key : kube.split_meta_namespace_key k ≡ ok (ns, name))
    (own_key : (j ns' name' : Text)
      → kube.split_meta_namespace_key j ≡ ok (ns', name')
      → index_key ns' name' ≡ index_key ns name
      → j ≡ k)
    (benign : IsBenign kube Others ns name s)
    (keyed_kept : (v w : W)
      → Others v w
      → IsKeyed (kube.service_indexer v)
      → IsKeyed (kube.service_indexer w)) where
  open waiting use {Waits, get_keeps, ended_keeps, shut_down_keeps}

  abbrev pub Moving : Crew Q W → Crew Q W → Type 0
  Moving = Move queue shut_down kube meta_namespace_key Others

  abbrev pub FateOf : Crew Q W → Type 0
  FateOf =
      Fate queue shut_down kube meta_namespace_key Others processing waiting synced healthy additive
        separate k ns name s is_key benign

  abbrev pub OnItAt : W → Hand → Type 0
  OnItAt =
      OnIt queue shut_down kube meta_namespace_key Others processing waiting synced healthy additive
        separate k ns name s is_key benign

  abbrev pub Cached : W → Type 0
  Cached w = service_get (kube.service_indexer w) ns name ≡ ok s

  pub Move-Cached : (t u : Crew Q W) → Moving t u → Cached t.cluster → Cached u.cluster
  Move-Cached _ _ (takes i e) h = h
  Move-Cached _ _ (calls {w = w} xs ys i p p' e) h =
      subst (λ ix. service_get ix ns name ≡ ok s)
        (sym (advance-service_indexer kube synced p w) ∙ ap (λ r. kube.service_indexer r.1) e) h
  Move-Cached _ _ (finishes {q = q} {q' = q'} {w = w} {w' = w'} xs ys i r e) h =
      subst Cached (returned-cluster queue shut_down kube meta_namespace_key Others i r q q' w w' e)
        h
  Move-Cached _ _ (restarts i e) h = h
  Move-Cached _ _ (ends i e) h = h
  Move-Cached _ _ (notifies event e) h = h
  Move-Cached _ _ (changes {w = w} {w' = w'} o) h = benign.cached_kept w w' o h
  Move-Cached _ _ stops h = h

  module _ (named : index_key s.meta.namespace s.meta.name ≡ index_key ns name) where
    abbrev pub Off : Hand → Type 0
    Off =
        KeepsOff queue shut_down kube meta_namespace_key Others synced keyed_kept k ns name s
          own_key named

    pub Move-Fate :
        (t u : Crew Q W)
        → Moving t u
        → Distinct (items t.hands)
        → Distinct (items u.hands)
        → Cached t.cluster
        → IsKeyed (kube.service_indexer t.cluster)
        → All Off t.hands
        → FateOf t
        → FateOf u
    Move-Fate _ _ (takes {hs = hs} {q = q} {q' = q'} {w = w} i e) d d' cached keyed off (inl h) =
        elim (get_keeps i (key k) q q' e h) [
          | inl same ↦ inr (
              inl (
                got-Fate queue shut_down kube meta_namespace_key Others processing waiting synced
                  healthy additive separate k ns name s is_key benign hs i w cached d' (inl same)))
          | inr waits ↦ inl waits
        ]
    Move-Fate _ _ (takes {hs = hs} {w = w} i e) d d' cached keyed off (inr (inl on)) = inr (
        inl (
          got-Fate queue shut_down kube meta_namespace_key Others processing waiting synced healthy
            additive separate k ns name s is_key benign hs i w cached d' (inr on)))
    Move-Fate _ _ (takes i e) d d' cached keyed off (inr (inr h)) = inr (inr h)
    Move-Fate _ _ (calls xs ys i p p' e) d d' cached keyed off (inl h) = inl h
    Move-Fate _ _ (calls {w = w} {w' = w'} xs ys i p p' e) d d' cached keyed off
          (inr (inl (held, on))) =
        inr (
          inl (
            In-moved (key k) xs ys i p p' held,
            called-OnIt queue shut_down kube meta_namespace_key Others processing waiting synced
                healthy additive separate k ns name s is_key benign xs ys i p p' w w' e d
                (λ differs. (
                  p,
                  All-middle Off xs ys (i, p) off differs (kube.service_indexer w) keyed,
                  ap (λ r. r.1) e,
                ))
                on,
          ))
    Move-Fate _ _ (calls {w = w} {w' = w'} xs ys i p p' e) d d' cached keyed off
          (inr (inr settled)) =
        inr (
          inr (
            subst (IsSettled kube s) (ap (λ r. r.1) e) (
              advance-keeps kube (IsSettled kube s) (IsSettled-IsKept kube synced additive s) p w
                settled)))
    Move-Fate _ _ (finishes {q = q} {q' = q'} {w = w} {w' = w'} xs ys i r e) d d' cached keyed off
          (inl h) =
        inl (
          finish-Waits queue shut_down kube meta_namespace_key Others processing waiting i (key k) r
            q q' w w' e h)
    Move-Fate _ _ (finishes {q = q} {q' = q'} {w = w} {w' = w'} xs ys i r e) d d' cached keyed off
          (inr (inl (held, on))) =
        let unchanged =
          returned-cluster queue shut_down kube meta_namespace_key Others i r q q' w w' e in
        elim (In-finished (key k) xs ys (i, ended r) held) [
          | inl same ↦ inr (
              inr (
                subst (IsSettled kube s) unchanged (
                  ended-Stands queue shut_down kube meta_namespace_key Others processing waiting
                    synced healthy additive separate k ns name s is_key benign r w
                    (All-middle (OnItAt w) xs ys (i, ended r) on same))))
          | inr still ↦ inr (
              inl (
                still,
                subst (λ v. All (OnItAt v) (xs ++ ys)) unchanged
                    (All-remove (OnItAt w) xs ys (i, ended r) on),
              ))
        ]
    Move-Fate _ _ (finishes {q = q} {q' = q'} {w = w} {w' = w'} xs ys i r e) d d' cached keyed off
          (inr (inr settled)) =
        inr (
          inr (
            subst (IsSettled kube s)
              (returned-cluster queue shut_down kube meta_namespace_key Others i r q q' w w' e)
              settled))
    Move-Fate _ _ (restarts {q = q} {q' = q'} i e) d d' cached keyed off (inl h) =
        inl (ended_keeps i (key k) q q' e h)
    Move-Fate _ _ (restarts i e) d d' cached keyed off (inr h) = inr h
    Move-Fate _ _ (ends {q = q} {q' = q'} i e) d d' cached keyed off (inl h) =
        inl (ended_keeps i (key k) q q' e h)
    Move-Fate _ _ (ends i e) d d' cached keyed off (inr h) = inr h
    Move-Fate _ _ (notifies {q = q} event e) d d' cached keyed off (inl h) = inl (
        subst (Waits (key k)) (ap (λ r. r.1) e)
          (on_event-Waits queue shut_down kube meta_namespace_key waiting event (key k) q h))
    Move-Fate _ _ (notifies event e) d d' cached keyed off (inr h) = inr h
    Move-Fate _ _ (changes o) d d' cached keyed off (inl h) = inl h
    Move-Fate _ _ (changes {hs = hs} {w = w} {w' = w'} o) d d' cached keyed off
          (inr (inl (held, on))) =
        inr (
          inl (
            held,
            All-imp _ (OnItAt w') hs
                (λ h stands e. Others-Stands kube Others k ns name s benign h.1 w w' o (stands e))
                on,
          ))
    Move-Fate _ _ (changes {w = w} {w' = w'} o) d d' cached keyed off (inr (inr settled)) = inr (
        inr (
          IsSettled-kept queue shut_down kube meta_namespace_key Others processing waiting synced
            healthy additive separate k ns name s is_key benign w w' o settled))
    Move-Fate _ _ (stops {q = q}) d d' cached keyed off (inl h) = inl (shut_down_keeps (key k) q h)
    Move-Fate _ _ stops d d' cached keyed off (inr h) = inr h
