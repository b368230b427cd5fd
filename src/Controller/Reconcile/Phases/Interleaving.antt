-- ===== src/Controller/Reconcile/Phases/Interleaving.antt =====
-- What a reconciliation achieves while others change the state between its calls.
use lite_mesh.Base.{ℕ, suc, ◌-◌, ◌≤◌, Text, ◌≡◌, refl, subst, arith}
use lite_mesh.Kube.{ok, err, panic}
use lite_mesh.Apis.{Service}
use lite_mesh.Client.Listers.{service_get}
use lite_mesh.Controller.Reconcile.{Kube}
use lite_mesh.Controller.Reconcile.Convergence.{IsOk, IsSynced, IsSettled}
use lite_mesh.Controller.Reconcile.Success.{IsMissing, IsHealthy}
use lite_mesh.Controller.Reconcile.Phases.Standing.{IsHalfway, Stands, StandsWithin, advance-Stands}
use lite_mesh.Controller.Reconcile.Phases.{
  Phase, getting_service, getting_deployment, creating_deployment, getting_k8s_service,
  creating_k8s_service, ended, advance,
}

module _ {W : Type 0} (kube : Kube W) (Others : W → W → Type 0) where
  -- A worker makes a number of calls, and others change the state in between.
  pub data Interleaved : ℕ → Phase × W → Phase × W → Type 0 where
    begun : {p : Phase × W} → Interleaved 0 p p
    works :
        {n : ℕ} {p r : Phase × W} {q : Phase} {w : W}
        → Interleaved n p (q, w)
        → advance kube q w ≡ r
        → Interleaved (suc n) p r
    others :
        {n : ℕ} {p : Phase × W} {q : Phase} {v w : W}
        → Interleaved n p (q, v)
        → Others v w
        → Interleaved n p (q, w)

  -- Others keep the service in the cache, and neither create nor remove the Deployment and the
  -- Kubernetes Service that carry its name.
  pub record IsBenign (ns name : Text) (s : Service) : Type 0 where
    pub cached_kept :
        (v w : W)
        → Others v w
        → service_get (kube.service_indexer v) ns name ≡ ok s
        → service_get (kube.service_indexer w) ns name ≡ ok s
    pub deployment_kept :
        (v w : W)
        → Others v w
        → IsOk (kube.get_deployment s.meta.namespace s.meta.name v)
        → IsOk (kube.get_deployment s.meta.namespace s.meta.name w)
    pub deployment_left :
        (v w : W)
        → Others v w
        → IsMissing (kube.get_deployment s.meta.namespace s.meta.name v)
        → IsMissing (kube.get_deployment s.meta.namespace s.meta.name w)
    pub k8s_service_kept :
        (v w : W)
        → Others v w
        → IsOk (kube.get_k8s_service s.meta.namespace s.meta.name v)
        → IsOk (kube.get_k8s_service s.meta.namespace s.meta.name w)
    pub k8s_service_left :
        (v w : W)
        → Others v w
        → IsMissing (kube.get_k8s_service s.meta.namespace s.meta.name v)
        → IsMissing (kube.get_k8s_service s.meta.namespace s.meta.name w)

  module _ (k ns name : Text) (s : Service) where
    module _ (benign : IsBenign ns name s) where
      IsHalfway-kept :
          (x : Service) (v w : W)
          → Others v w
          → IsHalfway kube k ns name s x v
          → IsHalfway kube k ns name s x w
      IsHalfway-kept x v w o h = record {
        meta_kept = h.meta_kept;
        wants_kept = h.wants_kept;
        deployed = benign.deployment_kept v w o h.deployed;
      }

      -- What others change leaves the worker where it stands.
      pub Others-Stands :
          (p : Phase) (v w : W)
          → Others v w
          → Stands kube k ns name s (p, v)
          → Stands kube k ns name s (p, w)
      Others-Stands (getting_service key) v w o (same, cached) =
          (same, benign.cached_kept v w o cached)
      Others-Stands (getting_deployment x) v w o h = h
      Others-Stands (creating_deployment x) v w o (e, missing) =
          (e, benign.deployment_left v w o missing)
      Others-Stands (getting_k8s_service x) v w o h = IsHalfway-kept x v w o h
      Others-Stands (creating_k8s_service x) v w o (h, missing) =
          (IsHalfway-kept x v w o h, benign.k8s_service_left v w o missing)
      Others-Stands (ended (ok r)) v w o h = record {
        deployed = benign.deployment_kept v w o h.deployed;
        exposed = λ y. benign.k8s_service_kept v w o (h.exposed y);
      }
      Others-Stands (ended (err e)) v w o h = h
      Others-Stands (ended panic) v w o h = h

  module _ (k ns name : Text) (s : Service) (synced : IsSynced kube) (healthy : IsHealthy kube)
      (is_key : kube.split_meta_namespace_key k ≡ ok (ns, name)) (benign : IsBenign ns name s) where
    Interleaved-Stands :
        (n : ℕ) (w : W) (r : Phase × W)
        → Interleaved n (getting_service k, w) r
        → service_get (kube.service_indexer w) ns name ≡ ok s
        → StandsWithin kube k ns name s (5 - n) r
    Interleaved-Stands _ w _ begun cached = ((refl, cached), omega arith)
    Interleaved-Stands _ w _ (works {n = n} {q = q} {w = v} steps e) cached =
        let (stands, left) = Interleaved-Stands n w (q, v) steps cached in
        let (stands', left') = advance-Stands kube k ns name s synced healthy is_key q v stands in
        subst (StandsWithin kube k ns name s (5 - suc n)) e (stands', omega (arith, left, left'))
    Interleaved-Stands n w _ (others {q = q} {v = v} {w = u} steps o) cached =
        let (stands, left) = Interleaved-Stands n w (q, v) steps cached in
        (Others-Stands k ns name s benign q v u o stands, left)

    ended-Stands :
        (p : Phase) (w : W)
        → StandsWithin kube k ns name s 0 (p, w)
        → (p ≡ ended (ok tt)) × IsSettled kube s w
    ended-Stands (getting_service key) w (h, n) = absurd (omega arith)
    ended-Stands (getting_deployment x) w (h, n) = absurd (omega arith)
    ended-Stands (creating_deployment x) w (h, n) = absurd (omega arith)
    ended-Stands (getting_k8s_service x) w (h, n) = absurd (omega arith)
    ended-Stands (creating_k8s_service x) w (h, n) = absurd (omega arith)
    ended-Stands (ended (ok tt)) w (h, n) = (refl, h)
    ended-Stands (ended (err e)) w (h, n) = absurd h
    ended-Stands (ended panic) w (h, n) = absurd h

    -- While others change the state between the calls of a worker, but keep the mesh service in the
    -- cache and neither create nor remove the objects that carry its name: a worker that reconciles
    -- the key of this service has returned without an error after five calls, and then the service
    -- has its Deployment, and its Kubernetes Service if it wants one. The caches follow the API
    -- server, reads are answered, and what is missing can be created.
    pub Interleaved-IsSettled :
        (n : ℕ) (p : Phase) (w w' : W)
        → Interleaved n (getting_service k, w) (p, w')
        → 5 ≤ n
        → service_get (kube.service_indexer w) ns name ≡ ok s
        → (p ≡ ended (ok tt)) × IsSettled kube s w'
    Interleaved-IsSettled n p w w' steps many cached =
        let (stands, left) = Interleaved-Stands n w (p, w') steps cached in
        ended-Stands p w' (stands, omega (arith, left))
