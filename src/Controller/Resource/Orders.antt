-- ===== src/Controller/Resource/Orders.antt =====
-- The labels of the created objects, whichever order the map of the service's labels is walked in.
use lite_mesh.Base.{
  Text, text_dec, ite, some, none, List, ◌≡◌, sym, ap, ◌∙◌, lookup, or_else, IsMap, Includes-refl,
  All-imp, Reorders, IsMap-Reorders, lookup-Reorders,
}
use lite_mesh.Kube.{ObjectMeta, OwnerReference, GroupVersionKind}
use lite_mesh.Apis.{Service}
use lite_mesh.Controller.Meta.{app, create_labels}
use lite_mesh.Controller.Resource.{create_service_deployment, create_service_k8s_service}
use lite_mesh.Controller.Resource.Selection.{Selects, lookup-create_labels, create_labels-IsMap}

-- The service with its labels in another order.
abbrev pub reordered : Service → List (Text × Text) → Service
reordered s labels = record s { meta = record s.meta { labels = labels } }

create_labels-reordered :
    (s : Service) (labels : List (Text × Text)) (k : Text)
    → IsMap s.meta.labels
    → Reorders s.meta.labels labels
    → lookup k (create_labels (reordered s labels)) ≡ lookup k (create_labels s)
create_labels-reordered s labels k m r =
    lookup-create_labels (reordered s labels) k (IsMap-Reorders s.meta.labels labels r m)
    ∙ ap (λ o. or_else o (ite (text_dec app k) (some s.meta.name) none))
        (sym (lookup-Reorders k s.meta.labels labels r m))
    ∙ sym (lookup-create_labels s k m)

create_labels-Selects :
    (s : Service) (labels : List (Text × Text))
    → IsMap s.meta.labels
    → Reorders s.meta.labels labels
    → Selects (create_labels s) (create_labels (reordered s labels))
create_labels-Selects s labels m r =
    All-imp _ _ (create_labels s) (λ e h. create_labels-reordered s labels e.0 m r ∙ h)
      (Includes-refl (create_labels s) (create_labels-IsMap s))

module _ (new_controller_ref : ObjectMeta → GroupVersionKind → OwnerReference) where
  -- Go may walk the labels of the service in another order in each call of `createLabels`. The
  -- selector of the created Deployment and the selector of the created Kubernetes Service select the
  -- pods that the Deployment makes from its template, whatever order each of them was made in.
  pub reordered-Selects :
      (s : Service) (labels : List (Text × Text))
      → IsMap s.meta.labels
      → Reorders s.meta.labels labels
      → let pod_labels =
          (create_service_deployment new_controller_ref
            (reordered s labels)).0.template.meta.labels in
        Selects (create_service_deployment new_controller_ref s).0.match_labels pod_labels
        × Selects (create_service_k8s_service new_controller_ref s).selector pod_labels
  unfolding create_service_deployment create_service_k8s_service create_labels
  reordered-Selects s labels m r =
      let selects = create_labels-Selects s labels m r in (selects, selects)
