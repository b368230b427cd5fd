-- ===== src/Tests/Controller.antt =====
-- The theorems on the controller, at three mesh services.
use lite_mesh.Base.{
  List, insert, inl, [], ◌∷◌, Text, codes, none, text_dec, lookup, map, some, ◌≡◌, ◌≢◌, refl, subst,
  Distinct, arith, split, All, length, ◌≤◌,
}
use lite_mesh.Kube.{ok, panic}
use lite_mesh.Apis.{ports}
use lite_mesh.Client.Listers.{service_get}
use lite_mesh.Controller.Resource.{create_service_deployment, create_service_k8s_service}
use lite_mesh.Controller.Resource.Selection.{Selects, not-Selects-other}
use lite_mesh.Controller.Resource.Orders.{reordered, reordered-Selects}
use mathlib.Core.List.{Permᴰ}
use lite_mesh.Apis.{Service}
use lite_mesh.Controller.Resource.Labels.{of_entries, with_app, created_labels-with_app}
use lite_mesh.Controller.Reconcile.Ordering.{reconcile-ordered}
use lite_mesh.Controller.Reconcile.{
  reconcile, reconcile_deployment, reconcile_k8s_service, reconcile_service,
}
use lite_mesh.Controller.Reconcile.Convergence.{
  IsOk, IsSettled, reconcile-again, reconcile-IsSettled,
}
use lite_mesh.Controller.Reconcile.Success.{reconcile-IsOk}
use lite_mesh.Controller.Worker.{key, process_next_work_item, run_worker}
use lite_mesh.Controller.Worker.Requeue.{process-not-Waits}
use lite_mesh.Controller.Worker.Drain.{Delivers, reconcile_items, run_worker-reconcile_items}
use lite_mesh.Controller.Worker.Settling.{run_worker-IsSettled}
use lite_mesh.Controller.Resource.PortNames.{IsDnsLabel, k8s_service-names-IsDnsLabel}
use lite_mesh.Tests.Cluster.{
  Cluster, kube, kube-IsSynced, kube-IsHealthy, kube-IsAdditive, kube-IsSeparate, fresh,
}
use lite_mesh.Tests.Queue.{Queue, queue, queue-laws, pending, item_dec}
use lite_mesh.Tests.Objects.{mesh_service, web, db, controller_ref}

-- A service with two labels.
abbrev labelled : Service
labelled =
    mesh_service (codes "web") ((codes "tier", codes "front") ∷ (codes "env", codes "test") ∷ [])
      none []

abbrev swapped_labels : List (Text × Text)
swapped_labels = (codes "env", codes "test") ∷ (codes "tier", codes "front") ∷ []

reordered-Selects_example :
    let pod_labels =
      (create_service_deployment controller_ref (
        reordered labelled (
          (codes "env", codes "test")
          ∷ (codes "tier", codes "front")
          ∷ []))).0.template.meta.labels in
    Selects (create_service_deployment controller_ref labelled).0.match_labels pod_labels
    × Selects (create_service_k8s_service controller_ref labelled).selector pod_labels
reordered-Selects_example =
    reordered-Selects controller_ref labelled
      ((codes "env", codes "test") ∷ (codes "tier", codes "front") ∷ [])
      ((λ e. ground arith, tt), (tt, tt)) (Permᴰ.swap refl refl)

created_labels-with_app_example :
    let wanted =
      with_app
        (codes "web")
        (of_entries ((codes "tier", codes "front") ∷ (codes "env", codes "test") ∷ [])) in
    (of_entries (create_service_deployment controller_ref labelled).0.match_labels ≡ wanted)
    × (of_entries
          (create_service_deployment controller_ref
            (reordered labelled swapped_labels)).0.template.meta.labels
        ≡ wanted)
    × (of_entries
          (create_service_k8s_service controller_ref (reordered labelled swapped_labels)).selector
        ≡ wanted)
created_labels-with_app_example =
    created_labels-with_app controller_ref labelled labelled.meta.labels swapped_labels
      swapped_labels ((λ e. ground arith, tt), (tt, tt))
      (Permᴰ.cons refl (Permᴰ.cons refl Permᴰ.nil)) (Permᴰ.swap refl refl) (Permᴰ.swap refl refl)

not-Selects-other_example :
    ¬ Selects
      (create_service_k8s_service controller_ref web).selector
      (create_service_deployment controller_ref db).0.template.meta.labels
unfolding lookup text_dec
not-Selects-other_example = not-Selects-other controller_ref web db (tt, tt) tt refl refl (λ e. cc)

abbrev web_key : Text
web_key = codes "default/web"

settled : Cluster
settled = (reconcile kube web_key fresh).1

reconcile_web : reconcile kube web_key fresh ≡ (ok tt, settled)
unfolding settled reconcile split lookup text_dec service_get reconcile_service reconcile_deployment
    reconcile_k8s_service ports create_service_deployment
reconcile_web = refl

reconcile-again_example : reconcile kube web_key settled ≡ (ok tt, settled)
reconcile-again_example = reconcile-again kube kube-IsSynced web_key fresh settled reconcile_web

reconcile-IsSettled_example : IsSettled kube web settled
unfolding split lookup text_dec service_get
reconcile-IsSettled_example =
    reconcile-IsSettled kube kube-IsSynced web_key (codes "default") (codes "web") web fresh settled
      refl refl reconcile_web

reconcile-ordered_example :
    IsOk (kube.get_deployment (codes "default") (codes "web") (reconcile kube web_key fresh).1)
unfolding settled reconcile split lookup text_dec service_get reconcile_service reconcile_deployment
    reconcile_k8s_service ports create_service_deployment create_service_k8s_service insert
reconcile-ordered_example =
    reconcile-ordered kube kube-IsSynced kube-IsSeparate web_key (codes "default") (codes "web") web
      fresh refl refl (λ h. h) tt

process-not-Waits_example :
    ¬ queue-laws.Waits (key web_key) (process_next_work_item queue kube (pending, fresh)).1.0
process-not-Waits_example =
    process-not-Waits queue kube queue-laws (key web_key) pending (queue.get pending).1 fresh refl

never_panics : (k : Text) (w : Cluster) → (reconcile kube k w).0 ≢ panic
never_panics k w e = subst IsOk e (reconcile-IsOk kube kube-IsHealthy k w)

pending-Delivers : Delivers queue pending.waiting pending
unfolding item_dec text_dec
pending-Delivers = (
  _,
  refl,
  (_, refl, (_, refl, (_, _, refl), (_, _, refl)), (_, refl, (_, _, refl), (_, _, refl))),
  (_, refl, (_, refl, (_, _, refl), (_, _, refl)), (_, refl, (_, _, refl), (_, _, refl))),
)

run_worker-IsSettled_example :
    (q : Queue) × ((w : Cluster) × ((run_worker queue kube 4 (pending, fresh)
          ≡ some (ok tt, (q, w)))
        × IsSettled kube web w))
unfolding split lookup text_dec service_get
run_worker-IsSettled_example =
    run_worker-IsSettled queue kube kube-IsSynced kube-IsHealthy kube-IsAdditive pending.waiting
      pending fresh web_key (codes "default") (codes "web") web pending-Delivers (inl refl) refl
      refl

k8s_service-names-IsDnsLabel_example :
    All
      (λ p. IsDnsLabel p.name × (length p.name ≤ 15))
      (create_service_k8s_service controller_ref web).ports
    × Distinct (map (λ p. p.name) (create_service_k8s_service controller_ref web).ports)
k8s_service-names-IsDnsLabel_example =
    k8s_service-names-IsDnsLabel controller_ref web (omega arith, (omega arith, tt))
      ((λ e. ground arith, tt), (tt, tt))

run_worker-reconcile_items_example :
    (q : Queue) × (run_worker queue kube 4 (pending, fresh)
      ≡ some (ok tt, (q, reconcile_items queue kube pending.waiting fresh)))
run_worker-reconcile_items_example =
    run_worker-reconcile_items queue kube pending.waiting pending fresh never_panics
      pending-Delivers
