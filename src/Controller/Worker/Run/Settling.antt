-- ===== src/Controller/Worker/Run/Settling.antt =====
-- What the workers of `Run` achieve together, however their steps interleave.
use lite_mesh.Base.{Text, true, ◌≡◌, refl, sym, ap, ◌∙◌, subst, ◌⊎◌, inl, inr, In}
use lite_mesh.Kube.{Result, ok, err, panic}
use lite_mesh.Apis.{Service}
use lite_mesh.Client.Listers.{Object, service_get}
use lite_mesh.Controller.Reconcile.{Kube, reconcile}
use lite_mesh.Controller.Reconcile.Convergence.{IsOk, IsSynced, IsSettled, reconcile-IsSettled}
use lite_mesh.Controller.Reconcile.Success.{IsHealthy, reconcile-IsOk}
use lite_mesh.Controller.Reconcile.Keeping.{IsKept, reconcile-keeps, IsAdditive, IsSettled-IsKept}
use lite_mesh.Controller.Worker.{
  Item, key, invalid, Workqueue, Event, on_event, after_reconcile, handle, with_done, report,
}
use lite_mesh.Controller.Worker.Run.{
  Workers, Step, takes, finishes, restarts, ends, notifies, changes, stops, Steps, none_yet,
  and_step,
}
use lite_mesh.Controller.Worker.Run.Pending.{WaitingLaws, Finishes, Handled, IsAbout, on_event-Fate}

module _ {Q W : Type 0} (queue : Workqueue Q) (shut_down : Q → Q) (kube : Kube W)
    (meta_namespace_key : Object → Result Text) where
  -- The changes of the cluster that the controller does not make keep a property of it.
  abbrev pub ChangeKeeps :
      (P : W → Type 0) (s t : Workers Q W)
      → Step queue shut_down kube meta_namespace_key s t
      → Type 0
  ChangeKeeps P _ _ (takes i e) = Unit
  ChangeKeeps P _ _ (finishes xs ys i e) = Unit
  ChangeKeeps P _ _ (restarts i e) = Unit
  ChangeKeeps P _ _ (ends i e) = Unit
  ChangeKeeps P _ _ (notifies event e) = Unit
  ChangeKeeps P _ _ (changes {w = w} w') = P w → P w'
  ChangeKeeps P _ _ stops = Unit

  abbrev pub ChangesKeep :
      (P : W → Type 0) (s t : Workers Q W)
      → Steps queue shut_down kube meta_namespace_key s t
      → Type 0
  ChangesKeep P s _ none_yet = Unit
  ChangesKeep P s u (and_step {t = t} steps step) = ChangesKeep P s t steps × ChangeKeeps P t u step

  pub reported-cluster :
      (i : Item) (p : Result (Unit {0}) × (Q × W))
      → (report queue kube (with_done queue kube i p)).1.1 ≡ p.1.1
  unfolding report with_done
  reported-cluster i (ok _, (q, w)) = refl
  reported-cluster i (err e, (q, w)) = refl
  reported-cluster i (panic, (q, w)) = refl

  pub after_reconcile-cluster :
      (k : Text) (r : Result (Unit {0}) × W) (q : Q) → (after_reconcile queue kube k r q).1.1 ≡ r.1
  unfolding after_reconcile
  after_reconcile-cluster k (ok _, w) q = refl
  after_reconcile-cluster k (err e, w) q = refl
  after_reconcile-cluster k (panic, w) q = refl

  handled-cluster :
      (k : Text) (q q' : Q) (w w' : W)
      → report queue kube (with_done queue kube (key k) (handle queue kube (key k) (q, w)))
        ≡ (ok true, (q', w'))
      → (reconcile kube k w).1 ≡ w'
  unfolding handle
  handled-cluster k q q' w w' e =
      sym (after_reconcile-cluster k (reconcile kube k w) q)
      ∙ sym (reported-cluster (key k) (after_reconcile queue kube k (reconcile kube k w) q))
      ∙ ap (λ r. r.1.1) e

  passed-cluster :
      (n : lite_mesh.Base.ℕ) (q q' : Q) (w w' : W)
      → report queue kube (with_done queue kube (invalid n) (handle queue kube (invalid n) (q, w)))
        ≡ (ok true, (q', w'))
      → w ≡ w'
  unfolding handle report with_done
  passed-cluster n q q' w w' e = ap (λ r. r.1.1) e

  finish-keeps :
      (P : W → Type 0)
      → IsKept kube P
      → (i : Item) (q q' : Q) (w w' : W)
      → report queue kube (with_done queue kube i (handle queue kube i (q, w)))
        ≡ (ok true, (q', w'))
      → P w
      → P w'
  finish-keeps P kept (key k) q q' w w' e h =
      subst P (handled-cluster k q q' w w' e) (reconcile-keeps kube P kept k w h)
  finish-keeps P kept (invalid n) q q' w w' e h = subst P (passed-cluster n q q' w w' e) h

  Step-keeps :
      (P : W → Type 0)
      → IsKept kube P
      → (s t : Workers Q W) (step : Step queue shut_down kube meta_namespace_key s t)
      → ChangeKeeps P s t step
      → P s.cluster
      → P t.cluster
  Step-keeps P kept _ _ (takes i e) c h = h
  Step-keeps P kept _ _ (finishes {q = q} {q' = q'} {w = w} {w' = w'} xs ys i e) c h =
      finish-keeps P kept i q q' w w' e h
  Step-keeps P kept _ _ (restarts i e) c h = h
  Step-keeps P kept _ _ (ends i e) c h = h
  Step-keeps P kept _ _ (notifies event e) c h = h
  Step-keeps P kept _ _ (changes w') c h = c h
  Step-keeps P kept _ _ stops c h = h

  Steps-keep :
      (P : W → Type 0)
      → IsKept kube P
      → (s t : Workers Q W) (steps : Steps queue shut_down kube meta_namespace_key s t)
      → ChangesKeep P s t steps
      → P s.cluster
      → P t.cluster
  Steps-keep P kept s _ none_yet c h = h
  Steps-keep P kept s u (and_step {t = t} steps step) (cs, c) h =
      Step-keeps P kept t u step c (Steps-keep P kept s t steps cs h)

  module _ (synced : IsSynced kube) (healthy : IsHealthy kube) (additive : IsAdditive kube)
      (k ns name : Text) (s : Service)
      (is_key : kube.split_meta_namespace_key k ≡ ok (ns, name)) where
    -- The service is the one that the cache holds under the key.
    abbrev pub IsCached : W → Type 0
    IsCached w = service_get (kube.service_indexer w) ns name ≡ ok s

    IsCached-IsKept : IsKept kube IsCached
    IsCached-IsKept = record {
      by_deployment = λ ns' d w h.
          ap (λ ix. service_get ix ns name) (synced.services_kept_by_deployment ns' d w) ∙ h;
      by_k8s_service = λ ns' x w h.
          ap (λ ix. service_get ix ns name) (synced.services_kept_by_k8s_service ns' x w) ∙ h;
    }

    IsOk-reconciled : (r : Result (Unit {0}) × W) → IsOk r.0 → r ≡ (ok tt, r.1)
    IsOk-reconciled (ok tt, w) h = refl
    IsOk-reconciled (err e, w) h = absurd h
    IsOk-reconciled (panic, w) h = absurd h

    finish-IsSettled :
        (i : Item) (q q' : Q) (w w' : W)
        → i ≡ key k
        → report queue kube (with_done queue kube i (handle queue kube i (q, w)))
          ≡ (ok true, (q', w'))
        → IsCached w
        → IsSettled kube s w'
    finish-IsSettled i q q' w w' same e cached =
        let e' =
          subst
            (λ j.
              report queue kube (with_done queue kube j (handle queue kube j (q, w)))
              ≡ (ok true, (q', w')))
            same e in
        subst (IsSettled kube s) (handled-cluster k q q' w w' e') (
          reconcile-IsSettled kube synced k ns name s w _ is_key cached
            (IsOk-reconciled _ (reconcile-IsOk kube healthy k w)))

    Finishes-IsSettled :
        (t u : Workers Q W) (step : Step queue shut_down kube meta_namespace_key t u)
        → Finishes queue shut_down kube meta_namespace_key (key k) t u step
        → IsCached t.cluster
        → IsSettled kube s u.cluster
    Finishes-IsSettled _ _ (takes i e) f cached = absurd f
    Finishes-IsSettled _ _ (finishes {q = q} {q' = q'} {w = w} {w' = w'} xs ys i e) f cached =
        finish-IsSettled i q q' w w' f e cached
    Finishes-IsSettled _ _ (restarts i e) f cached = absurd f
    Finishes-IsSettled _ _ (ends i e) f cached = absurd f
    Finishes-IsSettled _ _ (notifies event e) f cached = absurd f
    Finishes-IsSettled _ _ (changes w') f cached = absurd f
    Finishes-IsSettled _ _ stops f cached = absurd f

    Handled-IsSettled :
        (t u : Workers Q W) (steps : Steps queue shut_down kube meta_namespace_key t u)
        → Handled queue shut_down kube meta_namespace_key (key k) t u steps
        → IsCached t.cluster
        → ChangesKeep IsCached t u steps
        → ChangesKeep (IsSettled kube s) t u steps
        → IsSettled kube s u.cluster
    Handled-IsSettled t _ none_yet h cached cs ds = absurd h
    Handled-IsSettled t u (and_step {t = v} steps step) (inl h) cached (cs, c) (ds, d) =
        Step-keeps (IsSettled kube s) (IsSettled-IsKept kube synced additive s) v u step d
          (Handled-IsSettled t v steps h cached cs ds)
    Handled-IsSettled t u (and_step {t = v} steps step) (inr (taken, f)) cached (cs, c) (ds, d) =
        Finishes-IsSettled v u step f (Steps-keep IsCached IsCached-IsKept t v steps cs cached)

    module _ (laws : WaitingLaws queue shut_down) where
      -- After the handler of an addition or an update of an object with the key of a mesh service, on
      -- a queue that behaves as documented and accepts items, however the steps of the workers, the
      -- handlers and the cluster interleave: as soon as the key neither waits nor is in the hands of a
      -- worker, the service has its Deployment, and its Kubernetes Service if it wants one. The caches
      -- follow the API server, reads are answered, what is missing can be created, creations take
      -- nothing away, and the changes of others keep the service in the cache and what was created for
      -- it.
      pub on_event-IsSettled :
          (event : Event) (obj : Object) (q : Q) (t u : Workers Q W)
          (steps : Steps queue shut_down kube meta_namespace_key t u)
          → IsAbout queue shut_down kube meta_namespace_key laws obj event
          → meta_namespace_key obj ≡ ok k
          → laws.Accepts q
          → t.queue_state ≡ (on_event queue meta_namespace_key event q).1
          → IsCached t.cluster
          → ChangesKeep IsCached t u steps
          → ChangesKeep (IsSettled kube s) t u steps
          → ¬ laws.Waits (key k) u.queue_state
          → ¬ In (key k) u.busy
          → IsSettled kube s u.cluster
      on_event-IsSettled event obj q t u steps about e accepts same cached cs ds waits busy =
          elim (on_event-Fate queue shut_down kube meta_namespace_key laws event obj k q t u about e
            accepts same steps) [
              | inl h ↦ absurd (waits h)
              | inr (inl (taken, h)) ↦ absurd (busy h)
              | inr (inr handled) ↦ Handled-IsSettled t u steps handled cached cs ds
            ]
