-- ===== src/Controller/Reconcile/Ordering.antt =====
-- In which order a reconciliation creates, when calls fail, too.
use lite_mesh.Base.{Text, Bool, true, false, if◌then◌else◌, ◌≡◌, refl, sym, ap, ◌∙◌, subst}
use lite_mesh.Kube.{Deployment, K8sService, not_found, failure, Result, ok, err, panic}
use lite_mesh.Apis.{Service}
use lite_mesh.Client.Listers.{service_get}
use lite_mesh.Controller.Meta.{deployment_name}
use lite_mesh.Controller.Resource.{create_service_deployment, create_service_k8s_service}
use lite_mesh.Controller.Reconcile.{
  Kube, Act, pure, and_then, reconcile_deployment, deployment_case, reconcile_k8s_service,
  k8s_service_case, wants_k8s_service, reconcile_service, service_case, key_case, reconcile,
}
use lite_mesh.Controller.Reconcile.Convergence.{IsOk, IsSynced, deployment_case-IsDeployed}
use lite_mesh.Controller.Reconcile.Phases.Apart.{IsSeparate}

module _ {W : Type 0} (kube : Kube W) (synced : IsSynced kube) (separate : IsSeparate kube) where
  created-state :
      {A B : Type 0} (p : Result A × W) (f : A → B) → (and_then p (λ a. pure (f a))).1 ≡ p.1
  created-state (ok a, w) f = refl
  created-state (err e, w) f = refl
  created-state (panic, w) f = refl

  -- The Deployment half changes no Kubernetes Service, and the other half no Deployment.
  deployment_case-get_k8s_service :
      (r : Result Deployment) (s : Service) (w : W) (ns name : Text)
      → kube.get_k8s_service ns name (deployment_case kube r s w).1 ≡ kube.get_k8s_service ns name w
  unfolding deployment_case
  deployment_case-get_k8s_service (ok d) s w ns name = refl
  deployment_case-get_k8s_service (err (failure m)) s w ns name = refl
  deployment_case-get_k8s_service panic s w ns name = refl
  deployment_case-get_k8s_service (err (not_found m)) s w ns name =
      let (d, s') = create_service_deployment kube.new_controller_ref s in
      ap (kube.get_k8s_service ns name)
        (created-state (kube.create_deployment s.meta.namespace d w) (λ _. s'))
      ∙ separate.k8s_services_kept ns name s.meta.namespace d w

  k8s_service_case-get_deployment :
      (r : Result K8sService) (s : Service) (w : W) (ns name : Text)
      → kube.get_deployment ns name (k8s_service_case kube r s w).1 ≡ kube.get_deployment ns name w
  unfolding k8s_service_case
  k8s_service_case-get_deployment (ok d) s w ns name = refl
  k8s_service_case-get_deployment (err (failure m)) s w ns name = refl
  k8s_service_case-get_deployment panic s w ns name = refl
  k8s_service_case-get_deployment (err (not_found m)) s w ns name =
      let x = create_service_k8s_service kube.new_controller_ref s in
      ap (kube.get_deployment ns name)
        (created-state (kube.create_k8s_service s.meta.namespace x w) (λ _. tt))
      ∙ synced.deployments_kept ns name s.meta.namespace x w

  exposed-get_deployment :
      (b : Bool) (s : Service) (w : W) (ns name : Text)
      → kube.get_deployment ns name ((if b then reconcile_k8s_service kube s else pure tt) w).1
        ≡ kube.get_deployment ns name w
  unfolding reconcile_k8s_service
  exposed-get_deployment true s w ns name = k8s_service_case-get_deployment _ s w ns name
  exposed-get_deployment false s w ns name = refl

  exposed : Service → Act W (Unit {0})
  exposed s = if wants_k8s_service s then reconcile_k8s_service kube s else pure tt

  unchanged :
      (s : Service) (w : W) (p : Result Service × W)
      → deployment_case kube (kube.get_deployment s.meta.namespace s.meta.name w) s w ≡ p
      → IsOk (kube.get_k8s_service s.meta.namespace s.meta.name p.1)
      → IsOk (kube.get_k8s_service s.meta.namespace s.meta.name w)
  unchanged s w p e = subst IsOk (
      ap (λ q. kube.get_k8s_service s.meta.namespace s.meta.name q.1) (sym e)
      ∙ deployment_case-get_k8s_service _ s w s.meta.namespace s.meta.name)

  and_then-ordered :
      (s : Service) (w : W) (p : Result Service × W)
      → deployment_case kube (kube.get_deployment s.meta.namespace s.meta.name w) s w ≡ p
      → ¬ IsOk (kube.get_k8s_service s.meta.namespace s.meta.name w)
      → IsOk (kube.get_k8s_service s.meta.namespace s.meta.name (and_then p exposed).1)
      → IsOk (kube.get_deployment s.meta.namespace s.meta.name (and_then p exposed).1)
  unfolding exposed
  and_then-ordered s w (ok s', v) e absent shown =
      subst IsOk
        (sym (exposed-get_deployment (wants_k8s_service s') s' v s.meta.namespace s.meta.name))
        (deployment_case-IsDeployed kube synced _ s w s' v refl e).deployed
  and_then-ordered s w (err x, v) e absent shown = absurd (absent (unchanged s w _ e shown))
  and_then-ordered s w (panic, v) e absent shown = absurd (absent (unchanged s w _ e shown))

  -- Whatever calls fail, a reconciliation creates the Kubernetes Service of a mesh service only with the
  -- Deployment in place: if the lister of Kubernetes services shows it afterwards and did not before, the
  -- lister of Deployments shows the Deployment. The caches follow the API server, and creating a
  -- Deployment shows no Kubernetes Service.
  pub reconcile-ordered :
      (key ns name : Text) (s : Service) (w : W)
      → kube.split_meta_namespace_key key ≡ ok (ns, name)
      → service_get (kube.service_indexer w) ns name ≡ ok s
      → ¬ IsOk (kube.get_k8s_service s.meta.namespace s.meta.name w)
      → IsOk (kube.get_k8s_service s.meta.namespace s.meta.name (reconcile kube key w).1)
      → IsOk (kube.get_deployment s.meta.namespace s.meta.name (reconcile kube key w).1)
  unfolding reconcile key_case service_case reconcile_service reconcile_deployment deployment_name
      exposed
  reconcile-ordered key ns name s w k g absent = rw (k, g) (and_then-ordered s w _ refl absent)
