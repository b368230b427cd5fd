-- ===== src/Controller/Reconcile/Keeping.antt =====
-- What no reconciliation undoes, whatever its outcome.
use lite_mesh.Base.{Text, Bool, true, false, if◌then◌else◌, ◌≡◌, ◌∙◌, true}
use lite_mesh.Kube.{Deployment, K8sService, not_found, failure, Result, ok, err, panic}
use lite_mesh.Apis.{Service}
use lite_mesh.Controller.Reconcile.{
  Kube, Act, pure, and_then, reconcile_deployment, deployment_case, reconcile_k8s_service,
  k8s_service_case, wants_k8s_service, reconcile_service, service_case, key_case, reconcile,
}
use lite_mesh.Controller.Reconcile.Convergence.{IsOk, IsSynced, IsSettled}

-- A property of the state that no creation destroys.
pub record IsKept {W : Type 0} (kube : Kube W) (P : W → Type 0) : Type 0 where
  pub by_deployment :
      (ns : Text) (d : Deployment) (w : W) → P w → P (kube.create_deployment ns d w).1
  pub by_k8s_service :
      (ns : Text) (s : K8sService) (w : W) → P w → P (kube.create_k8s_service ns s w).1

module _ {W : Type 0} (kube : Kube W) (P : W → Type 0) (kept : IsKept kube P) where
  and_then-keeps :
      {A B : Type 0} (p : Result A × W) (f : A → Act W B)
      → P p.1
      → ((a : A) (w : W) → P w → P (f a w).1)
      → P (and_then p f).1
  and_then-keeps (ok a, w) f h k = k a w h
  and_then-keeps (err e, w) f h k = h
  and_then-keeps (panic, w) f h k = h

  deployment_case-keeps :
      (r : Result Deployment) (s : Service) (w : W) → P w → P (deployment_case kube r s w).1
  unfolding deployment_case
  deployment_case-keeps (ok d) s w h = h
  deployment_case-keeps (err (failure m)) s w h = h
  deployment_case-keeps panic s w h = h
  deployment_case-keeps (err (not_found m)) s w h =
      and_then-keeps _ _ (kept.by_deployment s.meta.namespace _ w h) (λ d v p. p)

  k8s_service_case-keeps :
      (r : Result K8sService) (s : Service) (w : W) → P w → P (k8s_service_case kube r s w).1
  unfolding k8s_service_case
  k8s_service_case-keeps (ok d) s w h = h
  k8s_service_case-keeps (err (failure m)) s w h = h
  k8s_service_case-keeps panic s w h = h
  k8s_service_case-keeps (err (not_found m)) s w h =
      and_then-keeps _ _ (kept.by_k8s_service s.meta.namespace _ w h) (λ d v p. p)

  exposed-keeps :
      (b : Bool) (s : Service) (w : W)
      → P w
      → P ((if b then reconcile_k8s_service kube s else pure tt) w).1
  unfolding reconcile_k8s_service
  exposed-keeps true s w h = k8s_service_case-keeps _ s w h
  exposed-keeps false s w h = h

  service_case-keeps : (r : Result Service) (w : W) → P w → P (service_case kube r w).1
  unfolding service_case reconcile_service reconcile_deployment
  service_case-keeps (ok s) w h =
      and_then-keeps (reconcile_deployment kube s w) _ (deployment_case-keeps _ s w h)
        (λ s' v p. exposed-keeps (wants_k8s_service s') s' v p)
  service_case-keeps (err (not_found m)) w h = h
  service_case-keeps (err (failure m)) w h = h
  service_case-keeps panic w h = h

  key_case-keeps : (r : Result (Text × Text)) (w : W) → P w → P (key_case kube r w).1
  unfolding key_case
  key_case-keeps (ok (ns, name)) w h = service_case-keeps _ w h
  key_case-keeps (err e) w h = h
  key_case-keeps panic w h = h

  -- What both creations keep, a reconciliation keeps, whatever it returns.
  pub reconcile-keeps : (key : Text) (w : W) → P w → P (reconcile kube key w).1
  unfolding reconcile
  reconcile-keeps key w h = key_case-keeps (kube.split_meta_namespace_key key) w h

-- A creation, also a failed one, takes no Deployment and no Kubernetes Service away.
pub record IsAdditive {W : Type 0} (kube : Kube W) : Type 0 where
  pub deployment_kept_by_deployment :
      (ns name ns' : Text) (d : Deployment) (w : W)
      → IsOk (kube.get_deployment ns name w)
      → IsOk (kube.get_deployment ns name (kube.create_deployment ns' d w).1)
  pub k8s_service_kept_by_deployment :
      (ns name ns' : Text) (d : Deployment) (w : W)
      → IsOk (kube.get_k8s_service ns name w)
      → IsOk (kube.get_k8s_service ns name (kube.create_deployment ns' d w).1)
  pub k8s_service_kept_by_k8s_service :
      (ns name ns' : Text) (s : K8sService) (w : W)
      → IsOk (kube.get_k8s_service ns name w)
      → IsOk (kube.get_k8s_service ns name (kube.create_k8s_service ns' s w).1)

module _ {W : Type 0} (kube : Kube W) (synced : IsSynced kube) where
  pub service_indexer-IsKept :
      (w : W) → IsKept kube (λ v. kube.service_indexer v ≡ kube.service_indexer w)
  service_indexer-IsKept w = record {
    by_deployment = λ ns d v h. synced.services_kept_by_deployment ns d v ∙ h;
    by_k8s_service = λ ns s v h. synced.services_kept_by_k8s_service ns s v ∙ h;
  }

  pub IsSettled-IsKept : IsAdditive kube → (s : Service) → IsKept kube (IsSettled kube s)
  IsSettled-IsKept additive s = record {
    by_deployment = λ ns d w h. record {
      deployed =
          additive.deployment_kept_by_deployment s.meta.namespace s.meta.name ns d w h.deployed;
      exposed = λ y.
          additive.k8s_service_kept_by_deployment s.meta.namespace s.meta.name ns d w (h.exposed y);
    };
    by_k8s_service = λ ns k w h. record {
      deployed = rw (synced.deployments_kept s.meta.namespace s.meta.name ns k w) h.deployed;
      exposed = λ y.
          additive.k8s_service_kept_by_k8s_service s.meta.namespace s.meta.name ns k w
            (h.exposed y);
    };
  }
