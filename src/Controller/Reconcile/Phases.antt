-- ===== src/Controller/Reconcile/Phases.antt =====
-- pkg/controller/controller.go: `reconcile` one call at a time. Between two calls other workers, the
-- other handlers and the users of the cluster may change the state. A phase is where a worker stands
-- in `reconcile`, with the service that it holds.
pub mod Alone
pub mod Standing
pub mod Interleaving
pub mod Apart
pub mod Together
use lite_mesh.Base.{ℕ, zero, suc, Text, Bool, true, false, if◌then◌else◌}
use lite_mesh.Kube.{Deployment, K8sService, not_found, failure, Result, ok, err, panic}
use lite_mesh.Apis.{Service}
use lite_mesh.Client.Listers.{service_get}
use lite_mesh.Controller.Meta.{deployment_name, k8s_service_name}
use lite_mesh.Controller.Resource.{create_service_deployment, create_service_k8s_service}
use lite_mesh.Controller.Reconcile.{Kube, wants_k8s_service}

-- The next call is of the lister of services, of the lister or the client of deployments, or of the
-- lister or the client of Kubernetes services; or `reconcile` has returned.
pub data Phase : Type 0 where
  getting_service : Text → Phase
  getting_deployment creating_deployment getting_k8s_service creating_k8s_service : Service → Phase
  ended : Result (Unit {0}) → Phase

module _ {W : Type 0} (kube : Kube W) where
  -- `if len(service.Spec.Ports()) > 0 || service.Spec.Gateway != nil`.
  unfoldable pub exposing : Service → Phase
  unfolding wants_k8s_service
  exposing s = if wants_k8s_service s then getting_k8s_service s else ended (ok tt)

  unfoldable pub after_service : Result Service → Phase
  after_service (ok s) = getting_deployment s
  after_service (err (not_found m)) = ended (ok tt)
  after_service (err (failure m)) = ended (err (failure m))
  after_service panic = ended panic

  unfoldable pub after_key : Result (Text × Text) → W → Phase
  unfolding after_service
  after_key (ok (namespace, name)) w =
      after_service (service_get (kube.service_indexer w) namespace name)
  after_key (err e) w = ended (ok tt)
  after_key panic w = ended panic

  unfoldable pub after_deployment : Result Deployment → Service → Phase
  unfolding exposing
  after_deployment (ok d) s = exposing s
  after_deployment (err (not_found m)) s = creating_deployment s
  after_deployment (err (failure m)) s = ended (err (failure m))
  after_deployment panic s = ended panic

  unfoldable pub after_create_deployment : Result Deployment → Service → Phase
  unfolding exposing
  after_create_deployment (ok d) s = exposing s
  after_create_deployment (err e) s = ended (err e)
  after_create_deployment panic s = ended panic

  unfoldable pub after_k8s_service : Result K8sService → Service → Phase
  after_k8s_service (ok x) s = ended (ok tt)
  after_k8s_service (err (not_found m)) s = creating_k8s_service s
  after_k8s_service (err (failure m)) s = ended (err (failure m))
  after_k8s_service panic s = ended panic

  unfoldable pub after_create_k8s_service : Result K8sService → Phase
  after_create_k8s_service (ok x) = ended (ok tt)
  after_create_k8s_service (err e) = ended (err e)
  after_create_k8s_service panic = ended panic

  -- The next call, and what the worker does up to the one after it.
  unfoldable pub advance : Phase → W → Phase × W
  unfolding after_key after_deployment after_create_deployment after_k8s_service
      after_create_k8s_service deployment_name k8s_service_name
  advance (getting_service key) w = (after_key (kube.split_meta_namespace_key key) w, w)
  advance (getting_deployment s) w =
      (after_deployment (kube.get_deployment s.meta.namespace (deployment_name s) w) s, w)
  advance (creating_deployment s) w =
      let (deployment, s') = create_service_deployment kube.new_controller_ref s in
      let (r, w') = kube.create_deployment s.meta.namespace deployment w in
      (after_create_deployment r s', w')
  advance (getting_k8s_service s) w =
      (after_k8s_service (kube.get_k8s_service s.meta.namespace (k8s_service_name s) w) s, w)
  advance (creating_k8s_service s) w =
      let x = create_service_k8s_service kube.new_controller_ref s in
      let (r, w') = kube.create_k8s_service s.meta.namespace x w in (after_create_k8s_service r, w')
  advance (ended r) w = (ended r, w)

  abbrev pub advance_at : Phase × W → Phase × W
  advance_at (p, w) = advance p w

  -- The worker alone, for a number of calls.
  unfoldable pub alone : ℕ → Phase × W → Phase × W
  alone zero p = p
  alone (suc n) p = alone n (advance_at p)
