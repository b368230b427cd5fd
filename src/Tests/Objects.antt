-- ===== src/Tests/Objects.antt =====
-- Mesh services and a configuration to try the definitions on.
use lite_mesh.Base.{Text, codes, ℤ, pos, true, List, [], ◌∷◌, Option, none, some}
use lite_mesh.Kube.{ObjectMeta, OwnerReference, GroupVersionKind, Container, ContainerPort}
use lite_mesh.Apis.{Service, Gateway, Filter, Rule, Configuration}

abbrev pub meta : Text → List (Text × Text) → ObjectMeta
meta name labels = record {
  name = name;
  namespace = codes "default";
  uid = codes "u-1";
  resource_version = codes "42";
  labels = labels;
  annotations = [];
  owner_references = [];
}

abbrev pub container : List ContainerPort → Container
container ports = record {
  name = [];
  image = codes "hello:1";
  args = [];
  env = [];
  ports = ports;
  add_capabilities = [];
}

abbrev pub port : ℤ → ContainerPort
port v = record { port_name = []; container_port = v }

abbrev pub mesh_service : Text → List (Text × Text) → Option Gateway → List ContainerPort → Service
mesh_service name labels gateway ports = record {
  type_meta = record { kind = codes "Service"; api_version = codes "mesh.lite.io/v1alpha1" };
  meta = meta name labels;
  spec = record {
    replicas = some (pos 2);
    gateway = gateway;
    container = container ports;
    envoy = record { log_level = codes "debug"; discovery_address = []; discovery_port = [] };
  };
}

abbrev pub web : Service
web =
    mesh_service (codes "web") ((codes "tier", codes "front") ∷ []) none
      (port (pos 8080) ∷ port (pos 8443) ∷ [])

abbrev pub db : Service
db = mesh_service (codes "db") [] none (port (pos 5432) ∷ [])

abbrev pub edge : Service
edge = mesh_service (codes "edge") [] (some (record { ports = pos 80 ∷ pos 443 ∷ [] })) []

abbrev pub http_filter : Filter
http_filter = record {
  port = 80;
  http =
      record { domains = codes "web" ∷ []; cluster = codes "web-v1" }
      ∷ record { domains = codes "api" ∷ []; cluster = codes "api-v2" }
      ∷ [];
  tcp = record { cluster = [] };
}

abbrev pub tcp_filter : Filter
tcp_filter = record { port = 5432; http = []; tcp = record { cluster = codes "db" } }

abbrev pub rule : List (Text × Text) → List Filter → Rule
rule labels filters = record {
  match_labels = labels;
  filters = filters;
  clusters = record { name = codes "db"; host = codes "db.default"; port = 5432 } ∷ [];
}

abbrev pub routing : Configuration
routing = record {
  type_meta = record { kind = codes "Configuration"; api_version = codes "mesh.lite.io/v1alpha1" };
  meta = meta (codes "routing") [];
  rules =
      rule [] (tcp_filter ∷ [])
      ∷ rule ((codes "app", codes "web") ∷ []) (http_filter ∷ tcp_filter ∷ [])
      ∷ [];
}

-- As `metav1.NewControllerRef` fills a reference.
abbrev pub controller_ref : ObjectMeta → GroupVersionKind → OwnerReference
controller_ref m gvk = record {
  api_version = gvk.version;
  kind = gvk.kind;
  name = m.name;
  uid = m.uid;
  controller = true;
}
