-- ===== src/Controller/Reconcile/Phases/Alone.antt =====
-- The phases of a worker that nothing interferes with are `reconcile`.
use lite_mesh.Base.{ℕ, zero, suc, ap, ◌∙◌, Text, Bool, true, false, ◌≡◌, refl, if◌then◌else◌}
use lite_mesh.Kube.{Deployment, K8sService, not_found, failure, Result, ok, err, panic}
use lite_mesh.Apis.{Service}
use lite_mesh.Controller.Reconcile.{
  Kube, Act, pure, and_then, deployment_case, reconcile_deployment, k8s_service_case,
  reconcile_k8s_service, wants_k8s_service, reconcile_service, service_case, key_case, reconcile,
}
use lite_mesh.Controller.Reconcile.Phases.{
  Phase, getting_service, getting_k8s_service, ended, exposing, after_service, after_key,
  after_deployment, after_create_deployment, after_k8s_service, after_create_k8s_service, advance,
  advance_at, alone,
}

module _ {W : Type 0} (kube : Kube W) where
  abbrev ends_with : Result (Unit {0}) × W → Phase × W
  ends_with (r, w) = (ended r, w)

  alone-suc : (n : ℕ) (p : Phase × W) → alone kube (suc n) p ≡ advance_at kube (alone kube n p)
  unfolding alone
  alone-suc zero p = refl
  alone-suc (suc n) p = alone-suc n (advance_at kube p)

  -- One more call changes nothing once `reconcile` has returned.
  alone-more :
      (n : ℕ) (p : Phase × W) (q : Result (Unit {0}) × W)
      → alone kube n p ≡ ends_with q
      → alone kube (suc n) p ≡ ends_with q
  unfolding advance
  alone-more n p q e = alone-suc n p ∙ ap (advance_at kube) e

  created_k8s_service :
      (p : Result K8sService × W)
      → (after_create_k8s_service kube p.0, p.1) ≡ ends_with (and_then p (λ x. pure tt))
  unfolding after_create_k8s_service
  created_k8s_service (ok x, w) = refl
  created_k8s_service (err e, w) = refl
  created_k8s_service (panic, w) = refl

  alone-k8s_service :
      (r : Result K8sService) (s : Service) (w : W)
      → alone kube 1 (after_k8s_service kube r s, w) ≡ ends_with (k8s_service_case kube r s w)
  unfolding alone advance after_k8s_service k8s_service_case
  alone-k8s_service (ok x) s w = refl
  alone-k8s_service (err (not_found m)) s w = created_k8s_service _
  alone-k8s_service (err (failure m)) s w = refl
  alone-k8s_service panic s w = refl

  alone-exposed :
      (b : Bool) (s : Service) (w : W)
      → alone kube 2 (if b then getting_k8s_service s else ended (ok tt), w)
        ≡ ends_with ((if b then reconcile_k8s_service kube s else pure tt) w)
  unfolding alone advance reconcile_k8s_service
  alone-exposed true s w = alone-k8s_service _ s w
  alone-exposed false s w = refl

  abbrev exposed : Service → Act W (Unit {0})
  exposed s = if wants_k8s_service s then reconcile_k8s_service kube s else pure tt

  alone-exposing :
      (s : Service) (w : W) → alone kube 2 (exposing kube s, w) ≡ ends_with (exposed s w)
  unfolding exposing
  alone-exposing s w = alone-exposed (wants_k8s_service s) s w

  alone-created :
      (p : Result Deployment × W) (s : Service)
      → alone kube 2 (after_create_deployment kube p.0 s, p.1)
        ≡ ends_with (and_then (and_then p (λ d. pure s)) exposed)
  unfolding after_create_deployment alone advance
  alone-created (ok d, w) s = alone-exposing s w
  alone-created (err e, w) s = refl
  alone-created (panic, w) s = refl

  alone-deployment :
      (r : Result Deployment) (s : Service) (w : W)
      → alone kube 3 (after_deployment kube r s, w)
        ≡ ends_with (and_then (deployment_case kube r s w) exposed)
  unfolding alone advance after_deployment deployment_case
  alone-deployment (ok d) s w = alone-more 2 (exposing kube s, w) _ (alone-exposing s w)
  alone-deployment (err (not_found m)) s w = alone-created _ _
  alone-deployment (err (failure m)) s w = refl
  alone-deployment panic s w = refl

  alone-service :
      (r : Result Service) (w : W)
      → alone kube 4 (after_service kube r, w) ≡ ends_with (service_case kube r w)
  unfolding alone advance after_service service_case reconcile_service reconcile_deployment
  alone-service (ok s) w = alone-deployment _ s w
  alone-service (err (not_found m)) w = refl
  alone-service (err (failure m)) w = refl
  alone-service panic w = refl

  alone-key :
      (r : Result (Text × Text)) (w : W)
      → alone kube 4 (after_key kube r w, w) ≡ ends_with (key_case kube r w)
  unfolding alone advance after_key key_case
  alone-key (ok (namespace, name)) w = alone-service _ w
  alone-key (err e) w = refl
  alone-key panic w = refl

  -- A worker that nothing interferes with has returned from `reconcile` after five calls at most, with
  -- the result and in the state that `reconcile` gives.
  pub alone-reconcile :
      (key : Text) (w : W)
      → let (r, w') = reconcile kube key w in alone kube 5 (getting_service key, w) ≡ (ended r, w')
  unfolding alone advance reconcile
  alone-reconcile key w = alone-key (kube.split_meta_namespace_key key) w
