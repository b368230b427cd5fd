-- ===== src/Controller/Resource/Selection.antt =====
-- Labels and selectors: which pods the created objects select.
use lite_mesh.Base.{
  Text, text_dec, List, [], none, some, ◌≡◌, ◌≢◌, ap, ◌∙◌, ite, arith, lookup, insert, or_else,
  IsMap, Includes, lookup-insert, lookup-insert_all, insert_all-IsMap, Includes-refl,
  lookup-Includes,
}
use lite_mesh.Kube.{ObjectMeta, OwnerReference, GroupVersionKind, Deployment, K8sService}
use lite_mesh.Apis.{Service}
use lite_mesh.Controller.Meta.{app, create_labels}
use lite_mesh.Controller.Resource.{create_service_deployment, create_service_k8s_service}

-- Reading a label of the created objects gives the service's own label of that key if it has one,
-- else the name of the service at the key `app`, and else nothing.
pub lookup-create_labels :
    (s : Service) (k : Text)
    → IsMap s.meta.labels
    → lookup k (create_labels s)
      ≡ or_else (lookup k s.meta.labels) (ite (text_dec app k) (some s.meta.name) none)
unfolding create_labels lookup
lookup-create_labels s k h =
    lookup-insert_all k s.meta.labels (insert app s.meta.name []) h
    ∙ ap (or_else (lookup k s.meta.labels)) (lookup-insert app k s.meta.name [])

pub create_labels-IsMap : (s : Service) → IsMap (create_labels s)
unfolding create_labels insert
create_labels-IsMap s = insert_all-IsMap s.meta.labels _ (tt, tt)

-- A selector of equalities selects the pods that carry each of its labels.
abbrev pub Selects : List (Text × Text) → List (Text × Text) → Type 0
Selects selector labels = Includes selector labels

module _ (new_controller_ref : ObjectMeta → GroupVersionKind → OwnerReference) where
  abbrev deployment_of : Service → Deployment
  deployment_of s = (create_service_deployment new_controller_ref s).0

  abbrev k8s_service_of : Service → K8sService
  k8s_service_of s = create_service_k8s_service new_controller_ref s

  -- The selector of the created Deployment and the selector of the created Kubernetes Service both
  -- select the pods that the Deployment makes from its template.
  pub selectors-Selects :
      (s : Service)
      → Selects (deployment_of s).match_labels (deployment_of s).template.meta.labels
        × Selects (k8s_service_of s).selector (deployment_of s).template.meta.labels
  unfolding create_service_deployment create_service_k8s_service create_labels
  selectors-Selects s =
      let self = Includes-refl (create_labels s) (create_labels-IsMap s) in (self, self)

  labels_of_pod : (s : Service) → (deployment_of s).template.meta.labels ≡ create_labels s
  unfolding create_service_deployment create_labels
  labels_of_pod s = ground arith

  selector_of : (s : Service) → (k8s_service_of s).selector ≡ create_labels s
  unfolding create_service_k8s_service
  selector_of s = ground arith

  lookup-app :
      (s : Service)
      → IsMap s.meta.labels
      → lookup app s.meta.labels ≡ none
      → lookup app (create_labels s) ≡ some s.meta.name
  unfolding text_dec
  lookup-app s m h = lookup-create_labels s app m ∙ rw h

  -- Two services of different names, none of which sets the label `app` itself, do not share pods:
  -- the Kubernetes Service of one does not select the pods of the other.
  pub not-Selects-other :
      (s t : Service)
      → IsMap s.meta.labels
      → IsMap t.meta.labels
      → lookup app s.meta.labels ≡ none
      → lookup app t.meta.labels ≡ none
      → s.meta.name ≢ t.meta.name
      → ¬ Selects (k8s_service_of s).selector (deployment_of t).template.meta.labels
  not-Selects-other s t ms mt hs ht n sel = n (cc (found, lookup-app t mt ht))
    where
      found : lookup app (create_labels t) ≡ some s.meta.name
      found =
          lookup-Includes app s.meta.name (create_labels s) (create_labels t)
            (rw (selector_of s, labels_of_pod t) at sel) (lookup-app s ms hs)
