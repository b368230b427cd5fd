-- ===== src/Apis/DeepCopy.antt =====
-- pkg/apis/mesh/v1alpha1/zz_generated.deepcopy.go: the structs as they lie in memory, and their deep
-- copies. `M` and `C` stand for the structs `ObjectMeta` and `Container` of the Kubernetes libraries,
-- whose own `DeepCopyInto` are parameters.
pub mod Reading
pub mod Pointers
pub mod Copies
use lite_mesh.Base.{ℕ, Text, ℤ, List, Option, none, some}
use lite_mesh.Kube.{TypeMeta, ListMeta}
use lite_mesh.Apis.{Envoy, Tcp, Cluster}
use lite_mesh.Apis.Memory.{
  Address, Copy, CellType, and_then, copy_value, copy_list, copy_ref, copy_both, copy_struct,
}

pub record Http : Type 0 where
  pub domains : Address
  pub cluster : Text

pub record Filter : Type 0 where
  pub port : ℕ
  pub http : Address
  pub tcp : Tcp

pub record Rule : Type 0 where
  pub match_labels : Address
  pub filters : Address
  pub clusters : Address

pub record Configuration (M : Type 0) : Type 0 where
  pub type_meta : TypeMeta
  pub meta : M
  pub rules : Address

pub record ServiceSpec (C : Type 0) : Type 0 where
  pub replicas : Address
  pub gateway : Address
  pub container : C
  pub envoy : Envoy

pub record Service (M C : Type 0) : Type 0 where
  pub type_meta : TypeMeta
  pub meta : M
  pub spec : ServiceSpec C

-- `ServiceList` and `ConfigurationList`.
pub record ObjectList : Type 0 where
  pub type_meta : TypeMeta
  pub list_meta : ListMeta
  pub items : Address

pub data Cell (M C : Type 0) : Type 0 where
  int32 : ℤ → Cell M C
  strings : List Text → Cell M C
  string_map : List (Text × Text) → Cell M C
  https : List Http → Cell M C
  filters : List Filter → Cell M C
  clusters : List Cluster → Cell M C
  rules : List Rule → Cell M C
  configurations : List (Configuration M) → Cell M C
  services : List (Service M C) → Cell M C
  other : Cell M C

module _ {M C : Type 0} where
  abbrev pub of_int32 : Cell M C → Option ℤ
  of_int32 (int32 x) = some x
  of_int32 _ = none

  abbrev pub int32_cell : CellType (Cell M C) ℤ
  int32_cell = record { to_cell = int32; of_cell = of_int32 }

  abbrev pub of_strings : Cell M C → Option (List Text)
  of_strings (strings x) = some x
  of_strings _ = none

  abbrev pub strings_cell : CellType (Cell M C) (List Text)
  strings_cell = record { to_cell = strings; of_cell = of_strings }

  abbrev pub of_string_map : Cell M C → Option (List (Text × Text))
  of_string_map (string_map x) = some x
  of_string_map _ = none

  abbrev pub string_map_cell : CellType (Cell M C) (List (Text × Text))
  string_map_cell = record { to_cell = string_map; of_cell = of_string_map }

  abbrev pub of_https : Cell M C → Option (List Http)
  of_https (https x) = some x
  of_https _ = none

  abbrev pub https_cell : CellType (Cell M C) (List Http)
  https_cell = record { to_cell = https; of_cell = of_https }

  abbrev pub of_filters : Cell M C → Option (List Filter)
  of_filters (filters x) = some x
  of_filters _ = none

  abbrev pub filters_cell : CellType (Cell M C) (List Filter)
  filters_cell = record { to_cell = filters; of_cell = of_filters }

  abbrev pub of_clusters : Cell M C → Option (List Cluster)
  of_clusters (clusters x) = some x
  of_clusters _ = none

  abbrev pub clusters_cell : CellType (Cell M C) (List Cluster)
  clusters_cell = record { to_cell = clusters; of_cell = of_clusters }

  abbrev pub of_rules : Cell M C → Option (List Rule)
  of_rules (rules x) = some x
  of_rules _ = none

  abbrev pub rules_cell : CellType (Cell M C) (List Rule)
  rules_cell = record { to_cell = rules; of_cell = of_rules }

  abbrev pub of_configurations : Cell M C → Option (List (Configuration M))
  of_configurations (configurations x) = some x
  of_configurations _ = none

  abbrev pub configurations_cell : CellType (Cell M C) (List (Configuration M))
  configurations_cell = record { to_cell = configurations; of_cell = of_configurations }

  abbrev pub of_services : Cell M C → Option (List (Service M C))
  of_services (services x) = some x
  of_services _ = none

  abbrev pub services_cell : CellType (Cell M C) (List (Service M C))
  services_cell = record { to_cell = services; of_cell = of_services }

  unfoldable pub copy_http : Copy (Cell M C) Http
  unfolding copy_struct copy_ref copy_value
  copy_http =
      copy_struct (λ x. x.domains) (λ x d. record x { domains = d })
        (copy_ref strings_cell copy_value)

  unfoldable pub copy_filter : Copy (Cell M C) Filter
  unfolding copy_struct copy_ref copy_list copy_http
  copy_filter =
      copy_struct (λ x. x.http) (λ x s. record x { http = s })
        (copy_ref https_cell (copy_list copy_http))

  unfoldable pub copy_rule : Copy (Cell M C) Rule
  unfolding copy_struct copy_both copy_ref copy_list copy_value copy_filter
  copy_rule =
      copy_struct (λ x. (x.match_labels, (x.filters, x.clusters)))
        (λ x f. record x { match_labels = f.0; filters = f.1.0; clusters = f.1.1 })
        (copy_both (copy_ref string_map_cell copy_value) (
          copy_both (copy_ref filters_cell (copy_list copy_filter))
            (copy_ref clusters_cell copy_value)))

  -- `ConfigurationSpec` has one field, the rules.
  unfoldable pub copy_configuration_spec : Copy (Cell M C) Address
  unfolding copy_ref copy_list copy_rule
  copy_configuration_spec = copy_ref rules_cell (copy_list copy_rule)

  unfoldable pub copy_configuration : Copy (Cell M C) M → Copy (Cell M C) (Configuration M)
  unfolding copy_struct copy_both copy_configuration_spec
  copy_configuration copy_meta =
      copy_struct (λ x. (x.meta, x.rules)) (λ x f. record x { meta = f.0; rules = f.1 })
        (copy_both copy_meta copy_configuration_spec)

  unfoldable pub copy_configuration_list : Copy (Cell M C) M → Copy (Cell M C) ObjectList
  unfolding copy_struct copy_ref copy_list copy_configuration
  copy_configuration_list copy_meta =
      copy_struct (λ x. x.items) (λ x i. record x { items = i })
        (copy_ref configurations_cell (copy_list (copy_configuration copy_meta)))

  -- The gateway is not among the copied fields.
  unfoldable pub copy_service_spec : Copy (Cell M C) C → Copy (Cell M C) (ServiceSpec C)
  unfolding copy_struct copy_both copy_ref copy_value
  copy_service_spec copy_container =
      copy_struct (λ x. (x.replicas, x.container))
        (λ x f. record x { replicas = f.0; container = f.1 })
        (copy_both (copy_ref int32_cell copy_value) copy_container)

  unfoldable pub copy_service :
      Copy (Cell M C) M → Copy (Cell M C) C → Copy (Cell M C) (Service M C)
  unfolding copy_struct copy_both copy_service_spec
  copy_service copy_meta copy_container =
      copy_struct (λ x. (x.meta, x.spec)) (λ x f. record x { meta = f.0; spec = f.1 })
        (copy_both copy_meta (copy_service_spec copy_container))

  unfoldable pub copy_service_list :
      Copy (Cell M C) M → Copy (Cell M C) C → Copy (Cell M C) ObjectList
  unfolding copy_struct copy_ref copy_list copy_service
  copy_service_list copy_meta copy_container =
      copy_struct (λ x. x.items) (λ x i. record x { items = i })
        (copy_ref services_cell (copy_list (copy_service copy_meta copy_container)))

  -- `DeepCopy`: of nil, nil, else a new struct that `DeepCopyInto` fills.
  unfoldable pub deep_copy : {T : Type 0} → Copy (Cell M C) T → Copy (Cell M C) (Option T)
  unfolding and_then
  deep_copy copy_into none h = some (none, h)
  deep_copy copy_into (some x) h = and_then (copy_into x h) (λ out h'. some (some out, h'))
