-- ===== src/Kube.antt =====
-- The objects of the Kubernetes libraries, as far as the program reads or writes their fields, and
-- the results of API calls. The libraries themselves are parameters of the definitions that call
-- them.
use lite_mesh.Base.{Text, ℤ, List, Option, Bool, true, false}

pub record GroupVersionKind : Type 0 where
  pub group : Text
  pub version : Text
  pub kind : Text

pub record GroupVersionResource : Type 0 where
  pub group : Text
  pub version : Text
  pub resource : Text

pub record OwnerReference : Type 0 where
  pub api_version : Text
  pub kind : Text
  pub name : Text
  pub uid : Text
  pub controller : Bool

pub record TypeMeta : Type 0 where
  pub kind : Text
  pub api_version : Text

pub record ObjectMeta : Type 0 where
  pub name : Text
  pub namespace : Text
  pub uid : Text
  pub resource_version : Text
  pub labels : List (Text × Text)
  pub annotations : List (Text × Text)
  pub owner_references : List OwnerReference

pub record ContainerPort : Type 0 where
  pub port_name : Text
  pub container_port : ℤ

pub data EnvSource : Type 0 where
  plain : Text → EnvSource
  field_ref : (api_version field_path : Text) → EnvSource

pub record EnvVar : Type 0 where
  pub name : Text
  pub source : EnvSource

pub record Container : Type 0 where
  pub name : Text
  pub image : Text
  pub args : List Text
  pub env : List EnvVar
  pub ports : List ContainerPort
  pub add_capabilities : List Text

pub record PodTemplate : Type 0 where
  pub meta : ObjectMeta
  pub init_containers : List Container
  pub containers : List Container

pub record Deployment : Type 0 where
  pub meta : ObjectMeta
  pub replicas : Option ℤ
  pub match_labels : List (Text × Text)
  pub template : PodTemplate

pub data Protocol : Type 0 where
  tcp udp : Protocol

pub record ServicePort : Type 0 where
  pub name : Text
  pub protocol : Protocol
  pub port : ℤ
  pub target_port : ℤ

pub record K8sService : Type 0 where
  pub meta : ObjectMeta
  pub ports : List ServicePort
  pub selector : List (Text × Text)

-- An error of an API call: the one that `errors.IsNotFound` recognises, or another one.
pub data Error : Type 0 where
  not_found : Text → Error
  failure : Text → Error

abbrev pub is_not_found : Error → Bool
is_not_found (not_found _) = true
is_not_found (failure _) = false

-- What a call that returns `(T, error)` does: it returns a value, it returns an error, or it panics.
pub data Result (A : Type 0) : Type 0 where
  ok : A → Result A
  err : Error → Result A
  panic : Result A

-- The options of reads, of lists and watches, and of deletions.
pub record GetOptions : Type 0 where
  pub resource_version : Text

pub record ListOptions : Type 0 where
  pub label_selector : Text
  pub field_selector : Text
  pub resource_version : Text
  pub watch : Bool

pub record DeleteOptions : Type 0 where
  pub grace_period_seconds : Option ℤ

pub record ListMeta : Type 0 where
  pub resource_version : Text
  pub continue_token : Text

-- A selector of labels, as a test of the labels of an object.
abbrev pub Selector : Type 0
Selector = List (Text × Text) → Bool
