-- ===== src/Controller/Reconcile.antt =====
-- pkg/controller/controller.go: `reconcile` and its two halves. The API server with the informers'
-- caches is a state `W`; the Kubernetes libraries' calls on it are the record `Kube`. Logging and
-- `utilruntime.HandleError` leave no trace in the state.
pub mod Convergence
pub mod Success
pub mod Keeping
pub mod Ordering
pub mod Phases
use lite_mesh.Base.{
  Text, ℤ, List, [], ◌∷◌, Option, none, some, Bool, true, false, ◌||◌, if◌then◌else◌,
}
use lite_mesh.Kube.{
  ObjectMeta, OwnerReference, GroupVersionKind, Deployment, K8sService, Error, not_found, failure,
  Result, ok, err, panic,
}
use lite_mesh.Apis.{Service, Gateway, ports}
use lite_mesh.Client.Listers.{Indexer, service_get}
use lite_mesh.Controller.Meta.{deployment_name, k8s_service_name}
use lite_mesh.Controller.Resource.{create_service_deployment, create_service_k8s_service}

-- Reads go to the informers' caches and leave the state alone; creations go to the API server.
pub record Kube (W : Type 0) : Type 0 where
  pub new_controller_ref : ObjectMeta → GroupVersionKind → OwnerReference
  pub split_meta_namespace_key : Text → Result (Text × Text)
  pub service_indexer : W → Indexer
  pub get_deployment : (namespace name : Text) → W → Result Deployment
  pub get_k8s_service : (namespace name : Text) → W → Result K8sService
  pub create_deployment : (namespace : Text) → Deployment → W → Result Deployment × W
  pub create_k8s_service : (namespace : Text) → K8sService → W → Result K8sService × W

-- A call with its effect on the state.
abbrev pub Act : Type 0 → Type 0 → Type 0
Act W A = W → Result A × W

module _ {W : Type 0} where
  abbrev pub pure : {A : Type 0} → A → Act W A
  pure a w = (ok a, w)

  abbrev pub fail : {A : Type 0} → Error → Act W A
  fail e w = (err e, w)

  abbrev pub crash : {A : Type 0} → Act W A
  crash w = (panic, w)

  -- `if err != nil { return err }`.
  abbrev pub and_then : {A B : Type 0} → Result A × W → (A → Act W B) → Result B × W
  and_then (ok a, w) f = f a w
  and_then (err e, w) f = (err e, w)
  and_then (panic, w) f = (panic, w)

  infixl 5 ◌>>=◌ ◌>>◌
  abbrev pub ◌>>=◌ : {A B : Type 0} → Act W A → (A → Act W B) → Act W B
  ◌>>=◌ m f w = and_then (m w) f

  abbrev pub ◌>>◌ : {A B : Type 0} → Act W A → Act W B → Act W B
  m >> n = m >>= λ _. n

abbrev has_ports : List ℤ → Bool
has_ports [] = false
has_ports (p ∷ ps) = true

abbrev is_gateway : Option Gateway → Bool
is_gateway none = false
is_gateway (some g) = true

-- `len(service.Spec.Ports()) > 0 || service.Spec.Gateway != nil`.
unfoldable pub wants_k8s_service : Service → Bool
wants_k8s_service s = has_ports (ports s.spec) || is_gateway s.spec.gateway

module _ {W : Type 0} (kube : Kube W) where
  -- The service is passed by reference: the result is the service as it is left.
  pub deployment_case : Result Deployment → Service → Act W Service
  deployment_case (ok _) s = pure s
  deployment_case (err (failure m)) s = fail (failure m)
  deployment_case panic s = crash
  deployment_case (err (not_found m)) s = do
    let (deployment, s') = create_service_deployment kube.new_controller_ref s
    kube.create_deployment s.meta.namespace deployment
    pure s'

  unfoldable pub reconcile_deployment : Service → Act W Service
  unfolding deployment_case
  reconcile_deployment s w =
      deployment_case (kube.get_deployment s.meta.namespace (deployment_name s) w) s w

  k8s_service_case : Result K8sService → Service → Act W (Unit {0})
  k8s_service_case (ok _) s = pure tt
  k8s_service_case (err (failure m)) s = fail (failure m)
  k8s_service_case panic s = crash
  k8s_service_case (err (not_found m)) s = do
    kube.create_k8s_service s.meta.namespace (create_service_k8s_service kube.new_controller_ref s)
    pure tt

  unfoldable pub reconcile_k8s_service : Service → Act W (Unit {0})
  unfolding k8s_service_case
  reconcile_k8s_service s w =
      k8s_service_case (kube.get_k8s_service s.meta.namespace (k8s_service_name s) w) s w

  -- `reconcile` from the copy of the service on.
  unfoldable pub reconcile_service : Service → Act W (Unit {0})
  unfolding wants_k8s_service
  reconcile_service s = do
    s' ← reconcile_deployment s
    if wants_k8s_service s' then reconcile_k8s_service s' else pure tt

  service_case : Result Service → Act W (Unit {0})
  service_case (ok s) = reconcile_service s
  service_case (err (not_found m)) = pure tt
  service_case (err (failure m)) = fail (failure m)
  service_case panic = crash

  key_case : Result (Text × Text) → Act W (Unit {0})
  unfolding service_case
  key_case (err e) w = pure tt w
  key_case panic w = crash w
  key_case (ok (namespace, name)) w =
      service_case (service_get (kube.service_indexer w) namespace name) w

  unfoldable pub reconcile : Text → Act W (Unit {0})
  unfolding key_case
  reconcile key = key_case (kube.split_meta_namespace_key key)
