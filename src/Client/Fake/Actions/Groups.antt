-- ===== src/Client/Fake/Actions/Groups.antt =====
-- The API group that the fake clients act in.
use lite_mesh.Base.{Text, codes, List, [], ◌∷◌, ◌++◌, ◌≢◌, All, All-append, arith}
use lite_mesh.Apis.{Service, Configuration, group_name}
use lite_mesh.Client.Requests.{
  ClientOp, op_get, op_list, op_watch, op_create, op_update, op_update_status, op_delete,
  op_delete_collection, op_patch, Op, on_services, on_configurations,
}
use lite_mesh.Kube.{GroupVersionResource}
use lite_mesh.Client.Fake.Services.{
  services_gvr, fake_services_get, fake_services_list, fake_services_watch, fake_services_create,
  fake_services_update, fake_services_update_status, fake_services_delete,
  fake_services_delete_collection, fake_services_patch,
}
use lite_mesh.Client.Fake.Configurations.{
  configurations_gvr, fake_configurations_get, fake_configurations_list, fake_configurations_watch,
  fake_configurations_create, fake_configurations_update, fake_configurations_update_status,
  fake_configurations_delete, fake_configurations_delete_collection, fake_configurations_patch,
}
use lite_mesh.Client.Fake.Actions.{
  gvr_of, fake_services_op, fake_configurations_op, run_fake_ops, recorder,
}

-- Another group than the one in which the types are registered.
abbrev pub IsForeign : GroupVersionResource → Type 0
IsForeign gvr = gvr.group ≢ group_name

mesh-IsForeign : codes "mesh" ≢ group_name
mesh-IsForeign = ground arith

IsForeign-append :
    (log : List GroupVersionResource) (gvr : GroupVersionResource)
    → IsForeign gvr
    → All IsForeign log
    → All IsForeign (log ++ gvr ∷ [])
IsForeign-append log gvr g h = All-append IsForeign log (gvr ∷ []) h (g, tt)

fake_services_op-IsForeign :
    (ns : Text) (op : ClientOp Service) (log : List GroupVersionResource)
    → All IsForeign log
    → All IsForeign (fake_services_op (record { fake = recorder gvr_of; ns = ns }) op log)
unfolding fake_services_op fake_services_get fake_services_list fake_services_watch
    fake_services_create fake_services_update fake_services_update_status fake_services_delete
    fake_services_delete_collection fake_services_patch
fake_services_op-IsForeign ns (op_get n o) log h =
    IsForeign-append log services_gvr mesh-IsForeign h
fake_services_op-IsForeign ns (op_list o) log h = IsForeign-append log services_gvr mesh-IsForeign h
fake_services_op-IsForeign ns (op_watch o) log h =
    IsForeign-append log services_gvr mesh-IsForeign h
fake_services_op-IsForeign ns (op_create x) log h =
    IsForeign-append log services_gvr mesh-IsForeign h
fake_services_op-IsForeign ns (op_update x) log h =
    IsForeign-append log services_gvr mesh-IsForeign h
fake_services_op-IsForeign ns (op_update_status x) log h =
    IsForeign-append log services_gvr mesh-IsForeign h
fake_services_op-IsForeign ns (op_delete n o) log h =
    IsForeign-append log services_gvr mesh-IsForeign h
fake_services_op-IsForeign ns (op_delete_collection o l) log h =
    IsForeign-append log services_gvr mesh-IsForeign h
fake_services_op-IsForeign ns (op_patch n t d u) log h =
    IsForeign-append log services_gvr mesh-IsForeign h

fake_configurations_op-IsForeign :
    (ns : Text) (op : ClientOp Configuration) (log : List GroupVersionResource)
    → All IsForeign log
    → All IsForeign (fake_configurations_op (record { fake = recorder gvr_of; ns = ns }) op log)
unfolding fake_configurations_op fake_configurations_get fake_configurations_list
    fake_configurations_watch fake_configurations_create fake_configurations_update
    fake_configurations_update_status fake_configurations_delete
    fake_configurations_delete_collection fake_configurations_patch
fake_configurations_op-IsForeign ns (op_get n o) log h =
    IsForeign-append log configurations_gvr mesh-IsForeign h
fake_configurations_op-IsForeign ns (op_list o) log h =
    IsForeign-append log configurations_gvr mesh-IsForeign h
fake_configurations_op-IsForeign ns (op_watch o) log h =
    IsForeign-append log configurations_gvr mesh-IsForeign h
fake_configurations_op-IsForeign ns (op_create x) log h =
    IsForeign-append log configurations_gvr mesh-IsForeign h
fake_configurations_op-IsForeign ns (op_update x) log h =
    IsForeign-append log configurations_gvr mesh-IsForeign h
fake_configurations_op-IsForeign ns (op_update_status x) log h =
    IsForeign-append log configurations_gvr mesh-IsForeign h
fake_configurations_op-IsForeign ns (op_delete n o) log h =
    IsForeign-append log configurations_gvr mesh-IsForeign h
fake_configurations_op-IsForeign ns (op_delete_collection o l) log h =
    IsForeign-append log configurations_gvr mesh-IsForeign h
fake_configurations_op-IsForeign ns (op_patch n t d u) log h =
    IsForeign-append log configurations_gvr mesh-IsForeign h

-- Whatever operations of the fake clients run: every action that they invoke names another API group
-- than the one in which the types are registered.
pub run_fake_ops-IsForeign :
    (ops : List Op) (log : List GroupVersionResource)
    → All IsForeign log
    → All IsForeign (run_fake_ops (recorder gvr_of) ops log)
unfolding run_fake_ops
run_fake_ops-IsForeign [] log h = h
run_fake_ops-IsForeign (on_services ns op ∷ ops) log h =
    run_fake_ops-IsForeign ops _ (fake_services_op-IsForeign ns op log h)
run_fake_ops-IsForeign (on_configurations ns op ∷ ops) log h =
    run_fake_ops-IsForeign ops _ (fake_configurations_op-IsForeign ns op log h)
