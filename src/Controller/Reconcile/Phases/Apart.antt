-- ===== src/Controller/Reconcile/Phases/Apart.antt =====
-- The calls of a worker that reconciles a service, as seen by the worker of another service.
use lite_mesh.Base.{Text, Bool, true, false, ◌≡◌, ◌≢◌, refl, sym, ap, ◌∙◌, subst, if◌then◌else◌}
use lite_mesh.Kube.{Deployment, K8sService, not_found, failure, Result, ok, err, panic}
use lite_mesh.Apis.{Service}
use lite_mesh.Client.Listers.{Indexer, index_key, service_get}
use lite_mesh.Controller.Resource.{create_service_deployment}
use lite_mesh.Controller.Reconcile.{Kube, wants_k8s_service}
use lite_mesh.Controller.Reconcile.Convergence.{
  IsOk, IsSynced, deployment_name_of, k8s_service_name_of, service_left,
}
use lite_mesh.Controller.Reconcile.Success.{IsMissing}
use lite_mesh.Controller.Reconcile.Phases.{
  Phase, getting_service, getting_deployment, creating_deployment, getting_k8s_service,
  creating_k8s_service, ended, exposing, after_service, after_key, after_deployment,
  after_create_deployment, after_k8s_service, after_create_k8s_service, advance,
}
use lite_mesh.Controller.Reconcile.Phases.Interleaving.{IsBenign}

-- The listers find an object by its namespace and name: what is created under one key is not seen
-- under another, and a Deployment is not a Kubernetes Service.
pub record IsSeparate {W : Type 0} (kube : Kube W) : Type 0 where
  pub deployments_left :
      (ns name ns' : Text) (d : Deployment) (w : W)
      → index_key ns' d.meta.name ≢ index_key ns name
      → kube.get_deployment ns name (kube.create_deployment ns' d w).1
        ≡ kube.get_deployment ns name w
  pub k8s_services_left :
      (ns name ns' : Text) (x : K8sService) (w : W)
      → index_key ns' x.meta.name ≢ index_key ns name
      → kube.get_k8s_service ns name (kube.create_k8s_service ns' x w).1
        ≡ kube.get_k8s_service ns name w
  pub k8s_services_kept :
      (ns name ns' : Text) (d : Deployment) (w : W)
      → kube.get_k8s_service ns name (kube.create_deployment ns' d w).1
        ≡ kube.get_k8s_service ns name w

module _ {W : Type 0} (kube : Kube W) (synced : IsSynced kube) where
  -- No call of a worker changes the cache of mesh services.
  pub advance-service_indexer :
      (p : Phase) (w : W) → kube.service_indexer (advance kube p w).1 ≡ kube.service_indexer w
  unfolding advance
  advance-service_indexer (getting_service j) w = refl
  advance-service_indexer (getting_deployment x) w = refl
  advance-service_indexer (creating_deployment x) w =
      synced.services_kept_by_deployment x.meta.namespace _ w
  advance-service_indexer (getting_k8s_service x) w = refl
  advance-service_indexer (creating_k8s_service x) w =
      synced.services_kept_by_k8s_service x.meta.namespace _ w
  advance-service_indexer (ended r) w = refl

  module _ (s : Service) where
    abbrev pub Differs : Service → Type 0
    Differs x = index_key x.meta.namespace x.meta.name ≢ index_key s.meta.namespace s.meta.name

    -- The worker is about to get, or holds, a service with another key than `s`.
    abbrev pub IsApart : Indexer → Phase → Type 0
    IsApart ix (getting_service j) =
        (ns name : Text) (x : Service)
        → kube.split_meta_namespace_key j ≡ ok (ns, name)
        → service_get ix ns name ≡ ok x
        → Differs x
    IsApart ix (getting_deployment x) = Differs x
    IsApart ix (creating_deployment x) = Differs x
    IsApart ix (getting_k8s_service x) = Differs x
    IsApart ix (creating_k8s_service x) = Differs x
    IsApart ix (ended r) = Unit

    -- A call of a worker of another service.
    abbrev pub CallsApart : W → W → Type 0
    CallsApart v w = (p : Phase) × IsApart (kube.service_indexer v) p × ((advance kube p v).1 ≡ w)

    module _ (ix : Indexer) where
      exposed-IsApart :
          (b : Bool) (x : Service)
          → Differs x
          → IsApart ix (if b then getting_k8s_service x else ended (ok tt))
      exposed-IsApart true x h = h
      exposed-IsApart false x h = tt

      exposing-IsApart : (x : Service) → Differs x → IsApart ix (exposing kube x)
      unfolding exposing
      exposing-IsApart x h = exposed-IsApart (wants_k8s_service x) x h

      after_service-IsApart :
          (r : Result Service)
          → ((x : Service) → r ≡ ok x → Differs x)
          → IsApart ix (after_service kube r)
      unfolding after_service
      after_service-IsApart (ok x) h = h x refl
      after_service-IsApart (err (not_found m)) h = tt
      after_service-IsApart (err (failure m)) h = tt
      after_service-IsApart panic h = tt

      after_key-IsApart :
          (r : Result (Text × Text)) (w : W)
          → ((ns name : Text) (x : Service)
              → r ≡ ok (ns, name)
              → service_get (kube.service_indexer w) ns name ≡ ok x
              → Differs x)
          → IsApart ix (after_key kube r w)
      unfolding after_key
      after_key-IsApart (ok (ns, name)) w h = after_service-IsApart _ (λ x e. h ns name x refl e)
      after_key-IsApart (err e) w h = tt
      after_key-IsApart panic w h = tt

      after_deployment-IsApart :
          (r : Result Deployment) (x : Service) → Differs x → IsApart ix (after_deployment kube r x)
      unfolding after_deployment
      after_deployment-IsApart (ok d) x h = exposing-IsApart x h
      after_deployment-IsApart (err (not_found m)) x h = h
      after_deployment-IsApart (err (failure m)) x h = tt
      after_deployment-IsApart panic x h = tt

      after_create_deployment-IsApart :
          (r : Result Deployment) (x : Service)
          → Differs x
          → IsApart ix (after_create_deployment kube r x)
      unfolding after_create_deployment
      after_create_deployment-IsApart (ok d) x h = exposing-IsApart x h
      after_create_deployment-IsApart (err e) x h = tt
      after_create_deployment-IsApart panic x h = tt

      after_k8s_service-IsApart :
          (r : Result K8sService) (x : Service)
          → Differs x
          → IsApart ix (after_k8s_service kube r x)
      unfolding after_k8s_service
      after_k8s_service-IsApart (ok d) x h = tt
      after_k8s_service-IsApart (err (not_found m)) x h = h
      after_k8s_service-IsApart (err (failure m)) x h = tt
      after_k8s_service-IsApart panic x h = tt

      after_create_k8s_service-IsApart :
          (r : Result K8sService) → IsApart ix (after_create_k8s_service kube r)
      unfolding after_create_k8s_service
      after_create_k8s_service-IsApart (ok d) = tt
      after_create_k8s_service-IsApart (err e) = tt
      after_create_k8s_service-IsApart panic = tt

    -- A worker never comes to hold the service of another key.
    pub advance-IsApart :
        (ix : Indexer) (p : Phase) (w : W)
        → IsApart (kube.service_indexer w) p
        → IsApart ix (advance kube p w).0
    unfolding advance
    advance-IsApart ix (getting_service j) w h = after_key-IsApart ix _ w h
    advance-IsApart ix (getting_deployment x) w h = after_deployment-IsApart ix _ x h
    advance-IsApart ix (creating_deployment x) w h =
        after_create_deployment-IsApart ix _ (create_service_deployment kube.new_controller_ref x).1
          (subst (λ m. index_key m.namespace m.name ≢ index_key s.meta.namespace s.meta.name)
            (sym (service_left kube x).0) h)
    advance-IsApart ix (getting_k8s_service x) w h = after_k8s_service-IsApart ix _ x h
    advance-IsApart ix (creating_k8s_service x) w h = after_create_k8s_service-IsApart ix _
    advance-IsApart ix (ended r) w h = tt

    module _ (separate : IsSeparate kube) where
      advance-get_deployment :
          (p : Phase) (w : W)
          → IsApart (kube.service_indexer w) p
          → kube.get_deployment s.meta.namespace s.meta.name (advance kube p w).1
            ≡ kube.get_deployment s.meta.namespace s.meta.name w
      unfolding advance
      advance-get_deployment (getting_service j) w h = refl
      advance-get_deployment (getting_deployment x) w h = refl
      advance-get_deployment (creating_deployment x) w h =
          separate.deployments_left s.meta.namespace s.meta.name x.meta.namespace _ w (
            subst (λ m. index_key x.meta.namespace m ≢ index_key s.meta.namespace s.meta.name)
              (sym (deployment_name_of kube x)) h)
      advance-get_deployment (getting_k8s_service x) w h = refl
      advance-get_deployment (creating_k8s_service x) w h =
          synced.deployments_kept s.meta.namespace s.meta.name x.meta.namespace _ w
      advance-get_deployment (ended r) w h = refl

      advance-get_k8s_service :
          (p : Phase) (w : W)
          → IsApart (kube.service_indexer w) p
          → kube.get_k8s_service s.meta.namespace s.meta.name (advance kube p w).1
            ≡ kube.get_k8s_service s.meta.namespace s.meta.name w
      unfolding advance
      advance-get_k8s_service (getting_service j) w h = refl
      advance-get_k8s_service (getting_deployment x) w h = refl
      advance-get_k8s_service (creating_deployment x) w h =
          separate.k8s_services_kept s.meta.namespace s.meta.name x.meta.namespace _ w
      advance-get_k8s_service (getting_k8s_service x) w h = refl
      advance-get_k8s_service (creating_k8s_service x) w h =
          separate.k8s_services_left s.meta.namespace s.meta.name x.meta.namespace _ w (
            subst (λ m. index_key x.meta.namespace m ≢ index_key s.meta.namespace s.meta.name)
              (sym (k8s_service_name_of kube x)) h)
      advance-get_k8s_service (ended r) w h = refl

      pub CallsApart-IsBenign : (ns name : Text) → IsBenign kube CallsApart ns name s
      CallsApart-IsBenign ns name = record {
        cached_kept = λ v w (p, _, e) h.
            subst (λ u. service_get (kube.service_indexer u) ns name ≡ ok s) e
              (ap (λ i. service_get i ns name) (advance-service_indexer p v) ∙ h);
        deployment_kept =
            λ v w (p, a, e) h. subst IsOk (sym (advance-get_deployment p v a) ∙ deployments e) h;
        deployment_left = λ v w (p, a, e) h.
            subst IsMissing (sym (advance-get_deployment p v a) ∙ deployments e) h;
        k8s_service_kept =
            λ v w (p, a, e) h. subst IsOk (sym (advance-get_k8s_service p v a) ∙ k8s_services e) h;
        k8s_service_left = λ v w (p, a, e) h.
            subst IsMissing (sym (advance-get_k8s_service p v a) ∙ k8s_services e) h;
      }
        where
          deployments :
              {u w : W}
              → u ≡ w
              → kube.get_deployment s.meta.namespace s.meta.name u
                ≡ kube.get_deployment s.meta.namespace s.meta.name w
          deployments e = ap (kube.get_deployment s.meta.namespace s.meta.name) e

          k8s_services :
              {u w : W}
              → u ≡ w
              → kube.get_k8s_service s.meta.namespace s.meta.name u
                ≡ kube.get_k8s_service s.meta.namespace s.meta.name w
          k8s_services e = ap (kube.get_k8s_service s.meta.namespace s.meta.name) e
