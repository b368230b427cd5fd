-- ===== src/Controller/Worker/Settling.antt =====
-- What a worker achieves on a queue that hands out some items and is then shut down.
use lite_mesh.Base.{
  suc, Text, List, [], ◌∷◌, some, ◌≡◌, ◌≢◌, refl, subst, length, All, All-imp, All-In, In,
}
use lite_mesh.Kube.{Result, ok, err, panic}
use lite_mesh.Apis.{Service}
use lite_mesh.Client.Listers.{service_get}
use lite_mesh.Controller.Reconcile.{Kube, reconcile}
use lite_mesh.Controller.Reconcile.Convergence.{IsOk, IsSynced, IsSettled, reconcile-IsSettled}
use lite_mesh.Controller.Reconcile.Success.{IsHealthy, reconcile-IsOk}
use lite_mesh.Controller.Reconcile.Keeping.{
  IsKept, reconcile-keeps, IsAdditive, service_indexer-IsKept, IsSettled-IsKept,
}
use lite_mesh.Controller.Worker.{Item, key, invalid, Workqueue, run_worker}
use lite_mesh.Controller.Worker.Drain.{Delivers, reconcile_items, run_worker-reconcile_items}

module _ {Q W : Type 0} (queue : Workqueue Q) (kube : Kube W) where
  -- If the item is the key of a mesh service in the cache of `w`, the service is settled in `w'`.
  abbrev Settles : W → W → Item → Type 0
  Settles w w' (invalid n) = Unit
  Settles w w' (key k) =
      (ns name : Text) (s : Service)
      → kube.split_meta_namespace_key k ≡ ok (ns, name)
      → service_get (kube.service_indexer w) ns name ≡ ok s
      → IsSettled kube s w'

  reconcile_items-keeps :
      (P : W → Type 0)
      → IsKept kube P
      → (is : List Item) (w : W) → P w
      → P (reconcile_items queue kube is w)
  reconcile_items-keeps P kept [] w h = h
  reconcile_items-keeps P kept (key k ∷ is) w h =
      reconcile_items-keeps P kept is _ (reconcile-keeps kube P kept k w h)
  reconcile_items-keeps P kept (invalid n ∷ is) w h = reconcile_items-keeps P kept is w h

  module _ (synced : IsSynced kube) (healthy : IsHealthy kube) (additive : IsAdditive kube) where
    IsOk-reconcile : (r : Result (Unit {0}) × W) → IsOk r.0 → r ≡ (ok tt, r.1)
    IsOk-reconcile (ok tt, w) h = refl
    IsOk-reconcile (err e, w) h = absurd h
    IsOk-reconcile (panic, w) h = absurd h

    reconciled-Settles :
        (k : Text) (is : List Item) (w : W)
        → Settles w (reconcile_items queue kube is (reconcile kube k w).1) (key k)
    reconciled-Settles k is w ns name s split found =
        reconcile_items-keeps (IsSettled kube s) (IsSettled-IsKept kube synced additive s) is _ (
          reconcile-IsSettled kube synced k ns name s w _ split found
            (IsOk-reconcile _ (reconcile-IsOk kube healthy k w)))

    Settles-earlier :
        (w v w' : W)
        → kube.service_indexer v ≡ kube.service_indexer w
        → (i : Item) → Settles v w' i
        → Settles w w' i
    Settles-earlier w v w' same (invalid n) h = tt
    Settles-earlier w v w' same (key k) h =
        λ ns name s split found. h ns name s split (rw same found)

    reconcile_items-Settles :
        (is : List Item) (w : W) → All (Settles w (reconcile_items queue kube is w)) is
    reconcile_items-Settles [] w = tt
    reconcile_items-Settles (invalid n ∷ is) w = (tt, reconcile_items-Settles is w)
    reconcile_items-Settles (key k ∷ is) w = (
      reconciled-Settles k is w,
      All-imp _ _ is
          (Settles-earlier w (reconcile kube k w).1 _
            (reconcile-keeps kube _ (service_indexer-IsKept kube synced w) k w refl))
          (reconcile_items-Settles is (reconcile kube k w).1),
    )

    never_panics : (k : Text) (w : W) → (reconcile kube k w).0 ≢ panic
    never_panics k w e = subst IsOk e (reconcile-IsOk kube healthy k w)

    -- While the caches follow the API server, every read is answered, what is missing can
    -- be created, and creations take nothing away: a worker that is handed some items before the queue shuts down ends,
    -- after one round more than the items, and then a mesh service that the cache held under a key
    -- among the items has its Deployment, and its Kubernetes Service if it wants one.
    pub run_worker-IsSettled :
        (is : List Item) (q : Q) (w : W) (k ns name : Text) (s : Service)
        → Delivers queue is q
        → In (key k) is
        → kube.split_meta_namespace_key k ≡ ok (ns, name)
        → service_get (kube.service_indexer w) ns name ≡ ok s
        → (q' : Q) × ((w' : W) × ((run_worker queue kube (suc (length is)) (q, w)
                ≡ some (ok tt, (q', w')))
              × IsSettled kube s w'))
    run_worker-IsSettled is q w k ns name s d i split found =
        let (q', done) = run_worker-reconcile_items queue kube is q w never_panics d in
        let settled = All-In _ (key k) is (reconcile_items-Settles is w) i ns name s split found in
        (q', (reconcile_items queue kube is w, (done, settled)))
