-- ===== src/Controller/Resource/Labels.antt =====
-- The labels of the created objects as maps: what is left of a list of entries when its order, which Go
-- chooses, is forgotten.
use lite_mesh.Base.{
  Text, text_dec, List, [], ◌∷◌, ◌++◌, none, some, ite, ◌≡◌, refl, sym, ap, ◌∙◌, lookup, or_else,
  IsMap, Reorders, IsMap-Reorders, lookup-Reorders, arith,
}
use mathlib.Core.Quot
use mathlib.Core.Quot.{Quot, Quot-set}
use lite_mesh.Kube.{ObjectMeta, OwnerReference, GroupVersionKind}
use lite_mesh.Apis.{Service}
use lite_mesh.Controller.Meta.{app, create_labels}
use lite_mesh.Controller.Resource.{create_service_deployment, create_service_k8s_service}
use lite_mesh.Controller.Resource.Selection.{lookup-create_labels}
use lite_mesh.Controller.Resource.Orders.{reordered}

-- Every key reads the same.
abbrev pub ReadsSame : List (Text × Text) → List (Text × Text) → Type 0
ReadsSame m n = (k : Text) → lookup k m ≡ lookup k n

abbrev pub Labels : Type 0
Labels = Quot ReadsSame

abbrev pub of_entries : List (Text × Text) → Labels
of_entries m = Quot.mk m

lookup-append :
    (k : Text) (m n : List (Text × Text)) → lookup k (m ++ n) ≡ or_else (lookup k m) (lookup k n)
unfolding lookup
lookup-append k [] n = refl
lookup-append k ((j, v) ∷ m) n = ground (arith, lookup-append k m n)

-- Some labels, and the name at the key `app` if they do not have the key.
pub with_app : Text → Labels → Labels
with_app name =
    Quot.lift Quot-set (λ m. of_entries (m ++ (app, name) ∷ []))
      (λ m n h. Quot.sound (λ k.
        lookup-append k m ((app, name) ∷ [])
        ∙ ap (λ o. or_else o (lookup k ((app, name) ∷ []))) (h k)
        ∙ sym (lookup-append k n ((app, name) ∷ []))))

lookup-single : (k j v : Text) → lookup k ((j, v) ∷ []) ≡ ite (text_dec j k) (some v) none
unfolding lookup
lookup-single k j v = refl

create_labels-with_app :
    (s : Service)
    → IsMap s.meta.labels
    → of_entries (create_labels s) ≡ with_app s.meta.name (of_entries s.meta.labels)
unfolding with_app
create_labels-with_app s m = Quot.sound (λ k.
    lookup-create_labels s k m
    ∙ ap (or_else (lookup k s.meta.labels)) (sym (lookup-single k app s.meta.name))
    ∙ sym (lookup-append k s.meta.labels ((app, s.meta.name) ∷ [])))

-- Any walk over the labels of the service gives the same map.
walked :
    (s : Service) (labels : List (Text × Text))
    → IsMap s.meta.labels
    → Reorders s.meta.labels labels
    → of_entries (create_labels (reordered s labels))
      ≡ with_app s.meta.name (of_entries s.meta.labels)
walked s labels m r =
    create_labels-with_app (reordered s labels) (IsMap-Reorders s.meta.labels labels r m)
    ∙ ap (with_app s.meta.name) (Quot.sound (λ k. sym (lookup-Reorders k s.meta.labels labels r m)))

-- As maps, the selector of the created Deployment, the labels of its pods and the selector of the
-- created Kubernetes Service are the same: the labels of the mesh service, with its name at the key
-- `app` if they do not have the key. Each of the three may be made in an order of its own.
pub created_labels-with_app :
    (new_controller_ref : ObjectMeta → GroupVersionKind → OwnerReference) (s : Service)
    (labels labels' labels'' : List (Text × Text))
    → IsMap s.meta.labels
    → Reorders s.meta.labels labels
    → Reorders s.meta.labels labels'
    → Reorders s.meta.labels labels''
    → let wanted = with_app s.meta.name (of_entries s.meta.labels) in
      (of_entries (create_service_deployment new_controller_ref (reordered s labels)).0.match_labels
        ≡ wanted)
      × (of_entries
            (create_service_deployment new_controller_ref
              (reordered s labels')).0.template.meta.labels
          ≡ wanted)
      × (of_entries (create_service_k8s_service new_controller_ref (reordered s labels'')).selector
          ≡ wanted)
unfolding create_service_deployment create_service_k8s_service create_labels
created_labels-with_app new_controller_ref s labels labels' labels'' m r r' r'' =
    (walked s labels m r, walked s labels' m r', walked s labels'' m r'')
