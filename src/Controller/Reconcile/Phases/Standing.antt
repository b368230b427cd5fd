-- ===== src/Controller/Reconcile/Phases/Standing.antt =====
-- What a worker that reconciles the key of a mesh service in the cache has reached at each phase.
use lite_mesh.Base.{
  ℕ, ◌-◌, ◌≤◌, Text, Bool, true, false, ◌≡◌, refl, sym, ap, subst, if◌then◌else◌, arith,
}
use lite_mesh.Kube.{Deployment, K8sService, not_found, failure, Result, ok, err, panic}
use lite_mesh.Apis.{Service}
use lite_mesh.Client.Listers.{service_get}
use lite_mesh.Controller.Meta.{deployment_name, k8s_service_name}
use lite_mesh.Controller.Resource.{create_service_deployment, create_service_k8s_service}
use lite_mesh.Controller.Reconcile.{Kube, wants_k8s_service}
use lite_mesh.Controller.Reconcile.Convergence.{
  IsOk, IsSynced, IsSettled, deployment_name_of, k8s_service_name_of, service_left,
}
use lite_mesh.Controller.Reconcile.Success.{
  Answers, IsMissing, IsHealthy, create_deployment-IsOk, create_k8s_service-IsOk,
}
use lite_mesh.Controller.Reconcile.Phases.{
  Phase, getting_service, getting_deployment, creating_deployment, getting_k8s_service,
  creating_k8s_service, ended, exposing, after_service, after_key, after_deployment,
  after_create_deployment, after_k8s_service, after_create_k8s_service, advance,
}

module _ {W : Type 0} (kube : Kube W) where
  -- How many calls there are left at most.
  abbrev pub remaining : Phase → ℕ
  remaining (getting_service k) = 5
  remaining (getting_deployment s) = 4
  remaining (creating_deployment s) = 3
  remaining (getting_k8s_service s) = 2
  remaining (creating_k8s_service s) = 1
  remaining (ended r) = 0

  module _ (k ns name : Text) (s : Service) where
    -- The worker holds the service, with its Deployment in place.
    pub record IsHalfway (x : Service) (w : W) : Type 0 where
      pub meta_kept : x.meta ≡ s.meta
      pub wants_kept : wants_k8s_service x ≡ wants_k8s_service s
      pub deployed : IsOk (kube.get_deployment s.meta.namespace s.meta.name w)

    -- What holds where a worker stands.
    abbrev pub Stands : Phase × W → Type 0
    Stands (getting_service key, w) =
        (key ≡ k) × (service_get (kube.service_indexer w) ns name ≡ ok s)
    Stands (getting_deployment x, w) = x ≡ s
    Stands (creating_deployment x, w) =
        (x ≡ s) × IsMissing (kube.get_deployment s.meta.namespace s.meta.name w)
    Stands (getting_k8s_service x, w) = IsHalfway x w
    Stands (creating_k8s_service x, w) =
        IsHalfway x w × IsMissing (kube.get_k8s_service s.meta.namespace s.meta.name w)
    Stands (ended (ok r), w) = IsSettled kube s w
    Stands (ended (err e), w) = ⊥
    Stands (ended panic, w) = ⊥

    -- A phase that the worker may be in with so many calls left.
    abbrev pub StandsWithin : ℕ → Phase × W → Type 0
    StandsWithin n (p, w) = Stands (p, w) × (remaining p ≤ n)

    exposed-Stands :
        (b : Bool) (x : Service) (w : W)
        → wants_k8s_service x ≡ b
        → IsHalfway x w
        → StandsWithin 2 (if b then getting_k8s_service x else ended (ok tt), w)
    exposed-Stands true x w e h = (h, omega arith)
    exposed-Stands false x w e h = (
      record { deployed = h.deployed; exposed = λ y. absurd (ground (arith, h.wants_kept)) },
      omega arith,
    )

    exposing-Stands : (x : Service) (w : W) → IsHalfway x w → StandsWithin 2 (exposing kube x, w)
    unfolding exposing
    exposing-Stands x w h = exposed-Stands (wants_k8s_service x) x w refl h

    module _ (synced : IsSynced kube) (healthy : IsHealthy kube)
        (is_key : kube.split_meta_namespace_key k ≡ ok (ns, name)) where
      after_key-Stands :
          (w : W)
          → service_get (kube.service_indexer w) ns name ≡ ok s
          → after_key kube (kube.split_meta_namespace_key k) w ≡ getting_deployment s
      unfolding after_key after_service
      after_key-Stands w e = rw (is_key, e) refl

      after_deployment-Stands :
          (r : Result Deployment) (w : W)
          → kube.get_deployment s.meta.namespace s.meta.name w ≡ r
          → Answers r
          → StandsWithin 3 (after_deployment kube r s, w)
      unfolding after_deployment
      after_deployment-Stands (ok d) w g h =
          let (stands, left) =
            exposing-Stands s w
              (record { meta_kept = refl; wants_kept = refl; deployed = subst IsOk (sym g) tt }) in
          (stands, omega (arith, left))
      after_deployment-Stands (err (not_found m)) w g h =
          ((refl, subst IsMissing (sym g) tt), omega arith)
      after_deployment-Stands (err (failure m)) w g h = absurd h
      after_deployment-Stands panic w g h = absurd h

      created_deployment-Stands :
          (p : Result Deployment × W) (x : Service)
          → IsOk p.0
          → IsHalfway x p.1
          → StandsWithin 2 (after_create_deployment kube p.0 x, p.1)
      unfolding after_create_deployment
      created_deployment-Stands (ok d, w) x h halfway = exposing-Stands x w halfway
      created_deployment-Stands (err e, w) x h halfway = absurd h
      created_deployment-Stands (panic, w) x h halfway = absurd h

      after_k8s_service-Stands :
          (r : Result K8sService) (x : Service) (w : W)
          → kube.get_k8s_service s.meta.namespace s.meta.name w ≡ r
          → Answers r
          → IsHalfway x w
          → StandsWithin 1 (after_k8s_service kube r x, w)
      unfolding after_k8s_service
      after_k8s_service-Stands (ok d) x w g h halfway = (
        record { deployed = halfway.deployed; exposed = λ _. subst IsOk (sym g) tt },
        omega arith,
      )
      after_k8s_service-Stands (err (not_found m)) x w g h halfway =
          ((halfway, subst IsMissing (sym g) tt), omega arith)
      after_k8s_service-Stands (err (failure m)) x w g h halfway = absurd h
      after_k8s_service-Stands panic x w g h halfway = absurd h

      created_k8s_service-Stands :
          (p : Result K8sService × W)
          → IsOk p.0
          → IsSettled kube s p.1
          → StandsWithin 0 (after_create_k8s_service kube p.0, p.1)
      unfolding after_create_k8s_service
      created_k8s_service-Stands (ok d, w) h settled = (settled, omega arith)
      created_k8s_service-Stands (err e, w) h settled = absurd h
      created_k8s_service-Stands (panic, w) h settled = absurd h

      creating_deployment-Stands :
          (w : W)
          → IsMissing (kube.get_deployment s.meta.namespace s.meta.name w)
          → StandsWithin 2 (advance kube (creating_deployment s) w)
      unfolding advance
      creating_deployment-Stands w missing =
          let (d, s') = create_service_deployment kube.new_controller_ref s in
          let accepted = create_deployment-IsOk kube healthy s w missing in
          let (meta_kept, wants_kept) = service_left kube s in
          created_deployment-Stands (kube.create_deployment s.meta.namespace d w) s' accepted
            (record {
              meta_kept = meta_kept;
              wants_kept = wants_kept;
              deployed =
                  subst
                    (λ m. IsOk (
                      kube.get_deployment s.meta.namespace m
                        (kube.create_deployment s.meta.namespace d w).1))
                    (deployment_name_of kube s)
                    (synced.deployment_shown s.meta.namespace d w accepted);
            })

      creating_k8s_service-Stands :
          (x : Service) (w : W)
          → IsHalfway x w
          → IsMissing (kube.get_k8s_service s.meta.namespace s.meta.name w)
          → StandsWithin 0 (advance kube (creating_k8s_service x) w)
      unfolding advance
      creating_k8s_service-Stands x w h missing =
          let d = create_service_k8s_service kube.new_controller_ref x in
          let accepted = create_k8s_service-IsOk kube healthy x w (
            subst (λ m. IsMissing (kube.get_k8s_service m.namespace m.name w)) (sym h.meta_kept)
              missing) in
          let w' = (kube.create_k8s_service x.meta.namespace d w).1 in
          created_k8s_service-Stands (kube.create_k8s_service x.meta.namespace d w) accepted
            (record {
              deployed =
                  rw (synced.deployments_kept s.meta.namespace s.meta.name x.meta.namespace d w)
                    h.deployed;
              exposed = λ _.
                  subst (λ m. IsOk (kube.get_k8s_service m.namespace m.name w')) h.meta_kept
                    (subst (λ m. IsOk (kube.get_k8s_service x.meta.namespace m w'))
                      (k8s_service_name_of kube x)
                      (synced.k8s_service_shown x.meta.namespace d w accepted));
            })

      -- The next call of the worker brings it on.
      pub advance-Stands :
          (p : Phase) (w : W) → Stands (p, w) → StandsWithin (remaining p - 1) (advance kube p w)
      unfolding advance deployment_name k8s_service_name
      advance-Stands (getting_service key) w (same, cached) =
          subst (λ j. StandsWithin 4 (after_key kube (kube.split_meta_namespace_key j) w, w))
            (sym same)
            (subst (λ q. StandsWithin 4 (q, w)) (sym (after_key-Stands w cached))
              (refl, omega arith))
      advance-Stands (getting_deployment x) w e =
          subst (λ y. StandsWithin 3 (advance kube (getting_deployment y) w)) (sym e)
            (after_deployment-Stands _ w refl
              (healthy.deployment_read s.meta.namespace s.meta.name w))
      advance-Stands (creating_deployment x) w (e, missing) =
          subst (λ y. StandsWithin 2 (advance kube (creating_deployment y) w)) (sym e)
            (creating_deployment-Stands w missing)
      advance-Stands (getting_k8s_service x) w h =
          after_k8s_service-Stands (kube.get_k8s_service x.meta.namespace x.meta.name w) x w
            (ap (λ m. kube.get_k8s_service m.namespace m.name w) (sym h.meta_kept))
            (healthy.k8s_service_read x.meta.namespace x.meta.name w) h
      advance-Stands (creating_k8s_service x) w (h, missing) =
          creating_k8s_service-Stands x w h missing
      advance-Stands (ended (ok r)) w h = (h, omega arith)
      advance-Stands (ended (err e)) w h = absurd h
      advance-Stands (ended panic) w h = absurd h
