-- ===== src/Controller/Reconcile/Success.antt =====
-- When a reconciliation succeeds, and when it leaves everything alone.
use lite_mesh.Base.{Text, Bool, true, false, ◌≡◌, ◌≢◌, if◌then◌else◌, refl, sym, subst, arith}
use lite_mesh.Kube.{Deployment, K8sService, not_found, failure, Result, ok, err, panic}
use lite_mesh.Apis.{Service}
use lite_mesh.Client.Listers.{service_get}
use lite_mesh.Controller.Meta.{deployment_name, k8s_service_name}
use lite_mesh.Controller.Resource.{create_service_deployment, create_service_k8s_service}
use lite_mesh.Controller.Reconcile.{
  Kube, Act, pure, and_then, reconcile_deployment, deployment_case, reconcile_k8s_service,
  k8s_service_case, wants_k8s_service, reconcile_service, service_case, key_case, reconcile,
}
use lite_mesh.Controller.Reconcile.Convergence.{IsOk, deployment_name_of, k8s_service_name_of}

-- A read that finds the thing or says that it is missing.
abbrev pub Answers : {A : Type 0} → Result A → Type 0
Answers (ok _) = Unit
Answers (err (not_found _)) = Unit
Answers (err (failure _)) = ⊥
Answers panic = ⊥

-- A read that says that the thing is missing.
abbrev pub IsMissing : {A : Type 0} → Result A → Type 0
IsMissing (ok _) = ⊥
IsMissing (err (not_found _)) = Unit
IsMissing (err (failure _)) = ⊥
IsMissing panic = ⊥

-- Every read is answered, and what is missing can be created; a key that does not split is no fault.
pub record IsHealthy {W : Type 0} (kube : Kube W) : Type 0 where
  pub key_read : (key : Text) → kube.split_meta_namespace_key key ≢ panic
  pub service_read :
      (ns name : Text) (w : W) → Answers (service_get (kube.service_indexer w) ns name)
  pub deployment_read : (ns name : Text) (w : W) → Answers (kube.get_deployment ns name w)
  pub k8s_service_read : (ns name : Text) (w : W) → Answers (kube.get_k8s_service ns name w)
  pub deployment_accepted :
      (ns : Text) (d : Deployment) (w : W)
      → IsMissing (kube.get_deployment ns d.meta.name w)
      → IsOk (kube.create_deployment ns d w).0
  pub k8s_service_accepted :
      (ns : Text) (s : K8sService) (w : W)
      → IsMissing (kube.get_k8s_service ns s.meta.name w)
      → IsOk (kube.create_k8s_service ns s w).0

module _ {W : Type 0} (kube : Kube W) (healthy : IsHealthy kube) where
  -- What `reconcile` creates once a lister has missed it is accepted.
  pub create_deployment-IsOk :
      (s : Service) (w : W)
      → IsMissing (kube.get_deployment s.meta.namespace s.meta.name w)
      → IsOk
          (kube.create_deployment s.meta.namespace
            (create_service_deployment kube.new_controller_ref s).0
            w).0
  create_deployment-IsOk s w h =
      healthy.deployment_accepted s.meta.namespace
        (create_service_deployment kube.new_controller_ref s).0 w
        (subst (λ m. IsMissing (kube.get_deployment s.meta.namespace m w))
          (sym (deployment_name_of kube s)) h)

  pub create_k8s_service-IsOk :
      (s : Service) (w : W)
      → IsMissing (kube.get_k8s_service s.meta.namespace s.meta.name w)
      → IsOk
          (kube.create_k8s_service s.meta.namespace
            (create_service_k8s_service kube.new_controller_ref s)
            w).0
  create_k8s_service-IsOk s w h =
      healthy.k8s_service_accepted s.meta.namespace
        (create_service_k8s_service kube.new_controller_ref s) w
        (subst (λ m. IsMissing (kube.get_k8s_service s.meta.namespace m w))
          (sym (k8s_service_name_of kube s)) h)

  deployment_case-IsOk :
      (r : Result Deployment) (s : Service) (w : W)
      → kube.get_deployment s.meta.namespace s.meta.name w ≡ r
      → Answers r
      → IsOk (deployment_case kube r s w).0
  unfolding deployment_case
  deployment_case-IsOk (ok d) s w g h = tt
  deployment_case-IsOk (err (failure m)) s w g h = absurd h
  deployment_case-IsOk panic s w g h = absurd h
  deployment_case-IsOk (err (not_found m)) s w g h =
      ground (arith, create_deployment-IsOk s w (subst IsMissing (sym g) tt))

  k8s_service_case-IsOk :
      (r : Result K8sService) (s : Service) (w : W)
      → kube.get_k8s_service s.meta.namespace s.meta.name w ≡ r
      → Answers r
      → IsOk (k8s_service_case kube r s w).0
  unfolding k8s_service_case
  k8s_service_case-IsOk (ok d) s w g h = tt
  k8s_service_case-IsOk (err (failure m)) s w g h = absurd h
  k8s_service_case-IsOk panic s w g h = absurd h
  k8s_service_case-IsOk (err (not_found m)) s w g h =
      ground (arith, create_k8s_service-IsOk s w (subst IsMissing (sym g) tt))

  and_then-IsOk :
      {A B : Type 0} (p : Result A × W) (f : A → Act W B)
      → IsOk p.0
      → ((a : A) (w : W) → IsOk (f a w).0)
      → IsOk (and_then p f).0
  and_then-IsOk (ok a, w) f h k = k a w
  and_then-IsOk (err e, w) f h k = absurd h
  and_then-IsOk (panic, w) f h k = absurd h

  exposed-IsOk :
      (b : Bool) (s : Service) (w : W)
      → IsOk ((if b then reconcile_k8s_service kube s else pure tt) w).0
  unfolding reconcile_k8s_service k8s_service_name
  exposed-IsOk true s w =
      k8s_service_case-IsOk _ s w refl (healthy.k8s_service_read s.meta.namespace s.meta.name w)
  exposed-IsOk false s w = tt

  reconcile_service-IsOk : (s : Service) (w : W) → IsOk (reconcile_service kube s w).0
  unfolding reconcile_service reconcile_deployment deployment_name
  reconcile_service-IsOk s w =
      and_then-IsOk (reconcile_deployment kube s w) _
        (deployment_case-IsOk _ s w refl (healthy.deployment_read s.meta.namespace s.meta.name w))
        (λ s' w'. exposed-IsOk (wants_k8s_service s') s' w')

  service_case-IsOk : (r : Result Service) (w : W) → Answers r → IsOk (service_case kube r w).0
  unfolding service_case
  service_case-IsOk (ok s) w h = reconcile_service-IsOk s w
  service_case-IsOk (err (not_found m)) w h = tt
  service_case-IsOk (err (failure m)) w h = absurd h
  service_case-IsOk panic w h = absurd h

  key_case-IsOk : (r : Result (Text × Text)) (w : W) → r ≢ panic → IsOk (key_case kube r w).0
  unfolding key_case
  key_case-IsOk (ok (ns, name)) w h = service_case-IsOk _ w (healthy.service_read ns name w)
  key_case-IsOk (err e) w h = tt
  key_case-IsOk panic w h = absurd (h refl)

  -- While every read is answered, and what is missing can be created, each reconciliation succeeds,
  -- whatever its key.
  pub reconcile-IsOk : (key : Text) (w : W) → IsOk (reconcile kube key w).0
  unfolding reconcile
  reconcile-IsOk key w = key_case-IsOk (kube.split_meta_namespace_key key) w (healthy.key_read key)
