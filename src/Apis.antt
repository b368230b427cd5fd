-- ===== src/Apis.antt =====
-- pkg/apis/mesh and pkg/apis/mesh/v1alpha1: the custom resources `Service` and `Configuration`.
-- A pointer that may be nil is an `Option`, an `int32` is a `ℤ`, and a `uint32` is an `ℕ`.
use lite_mesh.Base.{ℕ, Text, codes, ℤ, List, [], ◌∷◌, ◌++◌, Option, none}
pub mod Ports
pub mod Memory
pub mod DeepCopy
pub mod Register
use lite_mesh.Kube.{TypeMeta, ObjectMeta, ListMeta, Container, ContainerPort}

pub record Gateway : Type 0 where
  pub ports : List ℤ

pub record Envoy : Type 0 where
  pub log_level : Text
  pub discovery_address : Text
  pub discovery_port : Text

pub record ServiceSpec : Type 0 where
  pub replicas : Option ℤ
  pub gateway : Option Gateway
  pub container : Container
  pub envoy : Envoy

pub record Service : Type 0 where
  pub type_meta : TypeMeta
  pub meta : ObjectMeta
  pub spec : ServiceSpec

-- The status of a resource has no fields.
abbrev pub ServiceStatus : Type 0
ServiceStatus = Unit {0}

pub record ServiceList : Type 0 where
  pub type_meta : TypeMeta
  pub list_meta : ListMeta
  pub items : List Service

-- The loop of `Ports`, which appends to the ports found so far.
ports_loop : List ContainerPort → List ℤ → List ℤ
ports_loop [] ports = ports
ports_loop (v ∷ vs) ports = ports_loop vs (ports ++ v.container_port ∷ [])

unfoldable pub ports : ServiceSpec → List ℤ
unfolding ports_loop
ports s = ports_loop s.container.ports []

pub record Http : Type 0 where
  pub domains : List Text
  pub cluster : Text

pub record Tcp : Type 0 where
  pub cluster : Text

pub record Filter : Type 0 where
  pub port : ℕ
  pub http : List Http
  pub tcp : Tcp

pub record Cluster : Type 0 where
  pub name : Text
  pub host : Text
  pub port : ℕ

pub record Rule : Type 0 where
  pub match_labels : List (Text × Text)
  pub filters : List Filter
  pub clusters : List Cluster

pub record Configuration : Type 0 where
  pub type_meta : TypeMeta
  pub meta : ObjectMeta
  pub rules : List Rule

abbrev pub ConfigurationStatus : Type 0
ConfigurationStatus = Unit {0}

pub record ConfigurationList : Type 0 where
  pub type_meta : TypeMeta
  pub list_meta : ListMeta
  pub items : List Configuration

-- The zero values of the Go types, which `&v1alpha1.Service{}` and the like allocate.
abbrev zero_type_meta : TypeMeta
zero_type_meta = record { kind = []; api_version = [] }

abbrev zero_list_meta : ListMeta
zero_list_meta = record { resource_version = []; continue_token = [] }

abbrev zero_meta : ObjectMeta
zero_meta = record {
  name = [];
  namespace = [];
  uid = [];
  resource_version = [];
  labels = [];
  annotations = [];
  owner_references = [];
}

abbrev pub zero_service : Service
zero_service = record {
  type_meta = zero_type_meta;
  meta = zero_meta;
  spec = record {
    replicas = none;
    gateway = none;
    container = record {
      name = [];
      image = [];
      args = [];
      env = [];
      ports = [];
      add_capabilities = [];
    };
    envoy = record { log_level = []; discovery_address = []; discovery_port = [] };
  };
}

abbrev pub zero_service_list : ServiceList
zero_service_list = record { type_meta = zero_type_meta; list_meta = zero_list_meta; items = [] }

abbrev pub zero_configuration : Configuration
zero_configuration = record { type_meta = zero_type_meta; meta = zero_meta; rules = [] }

abbrev pub zero_configuration_list : ConfigurationList
zero_configuration_list = record {
  type_meta = zero_type_meta;
  list_meta = zero_list_meta;
  items = [];
}

abbrev pub group_name : Text
group_name = codes "mesh.lite.io"

abbrev pub group_version : Text
group_version = codes "v1alpha1"
