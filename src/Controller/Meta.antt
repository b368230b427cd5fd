-- ===== src/Controller/Meta.antt =====
-- pkg/controller/meta.go: the names, labels and owner of what the controller creates.
use lite_mesh.Base.{Text, codes, List, [], insert, insert_all}
use lite_mesh.Kube.{ObjectMeta, OwnerReference, GroupVersionKind}
use lite_mesh.Apis.{Service, group_name, group_version}

unfoldable pub deployment_name : Service → Text
deployment_name s = s.meta.name

unfoldable pub k8s_service_name : Service → Text
k8s_service_name s = s.meta.name

abbrev pub app : Text
app = codes "app"

-- The label `app`, under which the labels of the service are written over.
unfoldable pub create_labels : Service → List (Text × Text)
create_labels s = insert_all s.meta.labels (insert app s.meta.name [])

-- The `MatchLabels` of the selector.
unfoldable pub create_selector : Service → List (Text × Text)
unfolding create_labels
create_selector s = create_labels s

-- `metav1.NewControllerRef` is the parameter.
unfoldable pub create_service_owner_ref :
    (ObjectMeta → GroupVersionKind → OwnerReference) → ObjectMeta → OwnerReference
create_service_owner_ref new_controller_ref obj =
    new_controller_ref obj
      (record { group = group_name; version = group_version; kind = codes "Service" })
