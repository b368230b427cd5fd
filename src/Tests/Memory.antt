-- ===== src/Tests/Memory.antt =====
-- The theorems on deep copies, at a small heap whose Kubernetes structs are values.
use lite_mesh.Base.{ℕ, codes, pos, List, [], ◌∷◌, ◌++◌, none, some, length, ◌≡◌, refl}
use lite_mesh.Kube.{TypeMeta, ObjectMeta, Container}
use lite_mesh.Apis.{ConfigurationList, ServiceList}
use lite_mesh.Apis.Memory.{copy_value}
use lite_mesh.Apis.Memory.Readers.{
  read_struct, read_ref, read_list, read_both, read_value, read_value-IsStable,
}
use lite_mesh.Apis.Memory.Faithful.{copy_value-IsFaithful}
use lite_mesh.Apis.DeepCopy.{
  Configuration, Service, ObjectList, Cell, int32, strings, string_map, https, filters, clusters,
  rules, configurations, services, other, copy_configuration_list, copy_service, copy_service_list,
  deep_copy,
}
use lite_mesh.Apis.DeepCopy.Reading.{read_configuration_list, read_service_list}
use lite_mesh.Apis.DeepCopy.Copies.{
  deep_copy-configuration_list, deep_copy-service_list, copy_service-gateway,
}
use lite_mesh.Tests.Objects.{meta, web}

abbrev Slot : Type 0
Slot = Cell ObjectMeta Container

abbrev no_type : TypeMeta
no_type = record { kind = []; api_version = [] }

abbrev held_list : ℕ → ObjectList
held_list a = record {
  type_meta = no_type;
  list_meta = record { resource_version = codes "7"; continue_token = [] };
  items = some a;
}

abbrev held_configuration : Configuration ObjectMeta
held_configuration = record { type_meta = no_type; meta = meta (codes "routes") []; rules = some 5 }

abbrev heap : List Slot
heap =
    strings (codes "web" ∷ codes "api" ∷ [])
    ∷ https (record { domains = some 0; cluster = codes "web-v1" } ∷ [])
    ∷ filters (record { port = 80; http = some 1; tcp = record { cluster = [] } } ∷ [])
    ∷ clusters (record { name = codes "web-v1"; host = codes "web"; port = 80 } ∷ [])
    ∷ string_map ((codes "app", codes "web") ∷ [])
    ∷ rules (record { match_labels = some 4; filters = some 2; clusters = some 3 } ∷ [])
    ∷ configurations (held_configuration ∷ [])
    ∷ []

abbrev configurations_value : ConfigurationList
configurations_value = record {
  type_meta = no_type;
  list_meta = record { resource_version = codes "7"; continue_token = [] };
  items =
      record {
        type_meta = no_type;
        meta = meta (codes "routes") [];
        rules =
            record {
              match_labels = (codes "app", codes "web") ∷ [];
              filters =
                  record {
                    port = 80;
                    http =
                        record {
                          domains = codes "web" ∷ codes "api" ∷ [];
                          cluster = codes "web-v1";
                        }
                        ∷ [];
                    tcp = record { cluster = [] };
                  }
                  ∷ [];
              clusters = record { name = codes "web-v1"; host = codes "web"; port = 80 } ∷ [];
            }
            ∷ [];
      }
      ∷ [];
}

deep_copy-configuration_list_example :
    (out : ObjectList) × ((t : List Slot) × ((deep_copy
            (copy_configuration_list copy_value)
            (some (held_list 6))
            heap
          ≡ some (some out, heap ++ t))
        × ((g : List Slot)
            → length g ≡ length heap
            → read_configuration_list read_value (g ++ t) out ≡ some configurations_value)))
unfolding read_configuration_list read_struct read_ref read_list read_both read_value
deep_copy-configuration_list_example =
    deep_copy-configuration_list copy_value read_value read_value-IsStable copy_value-IsFaithful
      (held_list 6) heap configurations_value refl

abbrev held_service : Service ObjectMeta Container
held_service = record {
  type_meta = no_type;
  meta = web.meta;
  spec = record {
    replicas = some 0;
    gateway = some 1;
    container = web.spec.container;
    envoy = web.spec.envoy;
  };
}

abbrev service_heap : List Slot
service_heap = int32 (pos 2) ∷ other ∷ services (held_service ∷ []) ∷ []

abbrev services_value : ServiceList
services_value = record {
  type_meta = no_type;
  list_meta = record { resource_version = codes "7"; continue_token = [] };
  items =
      record {
        type_meta = no_type;
        meta = web.meta;
        spec = record {
          replicas = some (pos 2);
          gateway = none;
          container = web.spec.container;
          envoy = web.spec.envoy;
        };
      }
      ∷ [];
}

deep_copy-service_list_example :
    (out : ObjectList) × ((t : List Slot) × ((deep_copy
            (copy_service_list copy_value copy_value)
            (some (held_list 2))
            service_heap
          ≡ some (some out, service_heap ++ t))
        × ((g : List Slot)
            → length g ≡ length service_heap
            → read_service_list read_value read_value (g ++ t) out ≡ some services_value)))
unfolding read_service_list read_struct read_ref read_list read_both read_value
deep_copy-service_list_example =
    deep_copy-service_list copy_value read_value read_value-IsStable copy_value-IsFaithful
      copy_value read_value read_value-IsStable copy_value-IsFaithful (held_list 2) service_heap
      services_value refl

abbrev copied_service : Service ObjectMeta Container
copied_service = record held_service {
  spec = record {
    replicas = some 3;
    gateway = some 1;
    container = web.spec.container;
    envoy = web.spec.envoy;
  };
}

copy_service-gateway_example : copied_service.spec.gateway ≡ held_service.spec.gateway
unfolding copy_service copy_value
copy_service-gateway_example =
    copy_service-gateway copy_value copy_value held_service copied_service service_heap
      (service_heap ++ int32 (pos 2) ∷ []) refl
