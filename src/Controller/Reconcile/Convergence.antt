-- ===== src/Controller/Reconcile/Convergence.antt =====
-- What a reconciliation achieves when the caches follow the API server.
use lite_mesh.Base.{Text, true, ◌≡◌, refl, ap, ◌∙◌, inl, inr, Bool-cases, arith}
use lite_mesh.Kube.{Deployment, K8sService, not_found, failure, Result, ok, err, panic}
use lite_mesh.Apis.{Service, ports}
use lite_mesh.Client.Listers.{service_get}
use lite_mesh.Controller.Meta.{deployment_name, k8s_service_name}
use lite_mesh.Controller.Resource.{create_service_deployment, create_service_k8s_service}
use lite_mesh.Controller.Reconcile.{
  Kube, Act, and_then, reconcile_deployment, deployment_case, reconcile_k8s_service,
  k8s_service_case, wants_k8s_service, reconcile_service, service_case, key_case, reconcile,
}

abbrev pub IsOk : {A : Type 0} → Result A → Type 0
IsOk (ok _) = Unit
IsOk (err _) = ⊥
IsOk panic = ⊥

-- The informers' caches show what was created, a creation of one kind does not touch the other kind,
-- and none touches the mesh services.
pub record IsSynced {W : Type 0} (kube : Kube W) : Type 0 where
  pub deployment_shown :
      (ns : Text) (d : Deployment) (w : W)
      → IsOk (kube.create_deployment ns d w).0
      → IsOk (kube.get_deployment ns d.meta.name (kube.create_deployment ns d w).1)
  pub k8s_service_shown :
      (ns : Text) (s : K8sService) (w : W)
      → IsOk (kube.create_k8s_service ns s w).0
      → IsOk (kube.get_k8s_service ns s.meta.name (kube.create_k8s_service ns s w).1)
  pub deployments_kept :
      (ns name ns' : Text) (s : K8sService) (w : W)
      → kube.get_deployment ns name (kube.create_k8s_service ns' s w).1
        ≡ kube.get_deployment ns name w
  pub services_kept_by_deployment :
      (ns : Text) (d : Deployment) (w : W)
      → kube.service_indexer (kube.create_deployment ns d w).1 ≡ kube.service_indexer w
  pub services_kept_by_k8s_service :
      (ns : Text) (s : K8sService) (w : W)
      → kube.service_indexer (kube.create_k8s_service ns s w).1 ≡ kube.service_indexer w

and_then-ok :
    {W A B : Type 0} (p : Result A × W) (f : A → Act W B) (b : B) (w' : W)
    → and_then p f ≡ (ok b, w')
    → (a : A) × (v : W) × (p ≡ (ok a, v)) × (f a v ≡ (ok b, w'))
and_then-ok (ok a, v) f b w' e = (a, v, refl, e)
and_then-ok (err x, v) f b w' e = absurd (ground arith)
and_then-ok (panic, v) f b w' e = absurd (ground arith)

module _ {W : Type 0} (kube : Kube W) where
  -- The Deployment of the service is there, and its Kubernetes Service if it wants one.
  pub record IsSettled (s : Service) (w : W) : Type 0 where
    pub deployed : IsOk (kube.get_deployment s.meta.namespace s.meta.name w)
    pub exposed :
        wants_k8s_service s ≡ true → IsOk (kube.get_k8s_service s.meta.namespace s.meta.name w)

  deployment_case_ok :
      (r : Result Deployment) (s : Service) (w : W)
      → IsOk r
      → deployment_case kube r s w ≡ (ok s, w)
  unfolding deployment_case
  deployment_case_ok (ok d) s w h = refl
  deployment_case_ok (err e) s w h = absurd h
  deployment_case_ok panic s w h = absurd h

  k8s_service_case_ok :
      (r : Result K8sService) (s : Service) (w : W)
      → IsOk r
      → k8s_service_case kube r s w ≡ (ok tt, w)
  unfolding k8s_service_case
  k8s_service_case_ok (ok d) s w h = refl
  k8s_service_case_ok (err e) s w h = absurd h
  k8s_service_case_ok panic s w h = absurd h

  -- Where a service is settled, reconciling it makes no change and succeeds.
  IsSettled-reconcile_service :
      (s : Service) (w : W) → IsSettled s w → reconcile_service kube s w ≡ (ok tt, w)
  unfolding reconcile_service reconcile_deployment reconcile_k8s_service deployment_name
      k8s_service_name
  IsSettled-reconcile_service s w h = elim (Bool-cases (wants_k8s_service s)) [
    | inl e ↦ ground (
      arith,
      deployment_case_ok (kube.get_deployment s.meta.namespace s.meta.name w) s w h.deployed,
      k8s_service_case_ok (kube.get_k8s_service s.meta.namespace s.meta.name w) s w (h.exposed e),
    )
    | inr e ↦ ground (
      arith,
      deployment_case_ok (kube.get_deployment s.meta.namespace s.meta.name w) s w h.deployed,
    )
  ]

  pub deployment_name_of :
      (s : Service)
      → (create_service_deployment kube.new_controller_ref s).0.meta.name ≡ s.meta.name
  unfolding create_service_deployment
  deployment_name_of s = refl

  pub k8s_service_name_of :
      (s : Service) → (create_service_k8s_service kube.new_controller_ref s).meta.name ≡ s.meta.name
  unfolding create_service_k8s_service
  k8s_service_name_of s = refl

  pub service_left :
      (s : Service)
      → let s' = (create_service_deployment kube.new_controller_ref s).1 in
        (s'.meta ≡ s.meta) × (wants_k8s_service s' ≡ wants_k8s_service s)
  unfolding create_service_deployment wants_k8s_service ports
  service_left s = (refl, refl)

  -- What holds after the Deployment half has returned the service `s'` in the state `w'`.
  pub record IsDeployed (s : Service) (w : W) (s' : Service) (w' : W) : Type 0 where
    pub deployed : IsOk (kube.get_deployment s.meta.namespace s.meta.name w')
    services_kept : kube.service_indexer w' ≡ kube.service_indexer w
    meta_kept : s'.meta ≡ s.meta
    wants_kept : wants_k8s_service s' ≡ wants_k8s_service s

  module _ (synced : IsSynced kube) where
    pub deployment_case-IsDeployed :
        (r : Result Deployment) (s : Service) (w : W) (s' : Service) (w' : W)
        → kube.get_deployment s.meta.namespace s.meta.name w ≡ r
        → deployment_case kube r s w ≡ (ok s', w')
        → IsDeployed s w s' w'
    unfolding deployment_case
    deployment_case-IsDeployed (ok d) s w s' w' g e = ground arith
    deployment_case-IsDeployed (err (failure m)) s w s' w' g e = absurd (ground arith)
    deployment_case-IsDeployed panic s w s' w' g e = absurd (ground arith)
    deployment_case-IsDeployed (err (not_found m)) s w s' w' g e = ground (
      arith,
      synced.deployment_shown s.meta.namespace
          (create_service_deployment kube.new_controller_ref s).0 w,
      synced.services_kept_by_deployment s.meta.namespace
          (create_service_deployment kube.new_controller_ref s).0 w,
      deployment_name_of s,
      service_left s,
    )

    k8s_service_case-IsOk :
        (r : Result K8sService) (s : Service) (w w' : W)
        → kube.get_k8s_service s.meta.namespace s.meta.name w ≡ r
        → k8s_service_case kube r s w ≡ (ok tt, w')
        → IsOk (kube.get_k8s_service s.meta.namespace s.meta.name w')
          × ((ns name : Text) → kube.get_deployment ns name w' ≡ kube.get_deployment ns name w)
          × (kube.service_indexer w' ≡ kube.service_indexer w)
    unfolding k8s_service_case
    k8s_service_case-IsOk (ok d) s w w' g e = (ground arith, λ ns name. ground arith, ground arith)
    k8s_service_case-IsOk (err (failure m)) s w w' g e = absurd (ground arith)
    k8s_service_case-IsOk panic s w w' g e = absurd (ground arith)
    k8s_service_case-IsOk (err (not_found m)) s w w' g e =
        let k = create_service_k8s_service kube.new_controller_ref s in
        let shown = synced.k8s_service_shown s.meta.namespace k w in
        (
          ground (arith, shown, k8s_service_name_of s),
          λ ns name. ground (arith, synced.deployments_kept ns name s.meta.namespace k w),
          ground (arith, synced.services_kept_by_k8s_service s.meta.namespace k w),
        )

    -- A successful reconciliation of a service settles it and leaves the mesh services alone.
    reconcile_service-IsSettled :
        (s : Service) (w w' : W)
        → reconcile_service kube s w ≡ (ok tt, w')
        → IsSettled s w' × (kube.service_indexer w' ≡ kube.service_indexer w)
    unfolding reconcile_service reconcile_deployment reconcile_k8s_service deployment_name
        k8s_service_name
    reconcile_service-IsSettled s w w' e =
        let (s', v, d, k) = and_then-ok (reconcile_deployment kube s w) _ tt w' e in
        let after =
          deployment_case-IsDeployed (kube.get_deployment s.meta.namespace s.meta.name w) s w s' v
            refl d in
        elim (Bool-cases (wants_k8s_service s')) [
          | inl y ↦
              let (shown, kept, same) =
                k8s_service_case-IsOk (kube.get_k8s_service s'.meta.namespace s'.meta.name v) s' v
                  w' refl (rw y at k) in
              (
                record {
                  deployed = rw kept after.deployed;
                  exposed = λ _. rw (← after.meta_kept) shown;
                },
                same ∙ after.services_kept,
              )
          | inr n ↦
              let same : v ≡ w' = ap (λ q. q.1) (rw n at k) in
              (
                record {
                  deployed = rw (← same) after.deployed;
                  exposed = λ y. absurd (ground (arith, y, n, after.wants_kept));
                },
                rw (← same) after.services_kept,
              )
        ]

    service_case-again :
        (r : Result Service) (w w' : W)
        → service_case kube r w ≡ (ok tt, w')
        → (service_case kube r w' ≡ (ok tt, w'))
          × (kube.service_indexer w' ≡ kube.service_indexer w)
    unfolding service_case
    service_case-again (ok s) w w' e =
        let (settled, kept) = reconcile_service-IsSettled s w w' e in
        (IsSettled-reconcile_service s w' settled, kept)
    service_case-again (err (not_found m)) w w' e = (refl, ground arith)
    service_case-again (err (failure m)) w w' e = absurd (ground arith)
    service_case-again panic w w' e = absurd (ground arith)

    key_case-again :
        (r : Result (Text × Text)) (w w' : W)
        → key_case kube r w ≡ (ok tt, w')
        → key_case kube r w' ≡ (ok tt, w')
    unfolding key_case
    key_case-again (err e) w w' h = refl
    key_case-again panic w w' h = absurd (ground arith)
    key_case-again (ok (ns, name)) w w' h =
        let (again, kept) =
          service_case-again (service_get (kube.service_indexer w) ns name) w w' h in
        rw kept again

    -- After a successful reconciliation of a key, reconciling it again succeeds and changes nothing,
    -- if the caches follow the API server.
    pub reconcile-again :
        (key : Text) (w w' : W)
        → reconcile kube key w ≡ (ok tt, w')
        → reconcile kube key w' ≡ (ok tt, w')
    unfolding reconcile
    reconcile-again key w w' e = key_case-again (kube.split_meta_namespace_key key) w w' e

    -- A successful reconciliation of the key of a mesh service in the cache leaves its Deployment in
    -- place, and its Kubernetes Service too if it is a gateway or has container ports, if the caches
    -- follow the API server.
    pub reconcile-IsSettled :
        (key ns name : Text) (s : Service) (w w' : W)
        → kube.split_meta_namespace_key key ≡ ok (ns, name)
        → service_get (kube.service_indexer w) ns name ≡ ok s
        → reconcile kube key w ≡ (ok tt, w')
        → IsSettled s w'
    unfolding reconcile key_case service_case
    reconcile-IsSettled key ns name s w w' k g e =
        (reconcile_service-IsSettled s w w' (rw (k, g) at e)).0
