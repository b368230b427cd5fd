-- ===== src/Apis/DeepCopy/Reading.antt =====
-- What the structs of pkg/apis/mesh/v1alpha1 in memory stand for: the values of `Apis`. A nil slice or
-- map reads as an empty one. The gateway of a service is read apart.
use lite_mesh.Base.{List, [], Option, none, some}
use lite_mesh.Kube.{ObjectMeta, Container}
use lite_mesh.Apis.{ConfigurationList, ServiceList}
use lite_mesh.Apis.Memory.Readers.{
  Reader, IsStable, read_value, read_list, read_ref, read_both, read_struct, read_value-IsStable,
  read_list-IsStable, read_ref-IsStable, read_both-IsStable, read_struct-IsStable,
}
use lite_mesh.Apis.DeepCopy.{
  Http, Filter, Rule, Configuration, ServiceSpec, Service, ObjectList, Cell, int32_cell,
  strings_cell, string_map_cell, https_cell, filters_cell, clusters_cell, rules_cell,
  configurations_cell, services_cell,
}

abbrev or_nil : {T : Type 0} → Option (List T) → List T
or_nil none = []
or_nil (some xs) = xs

module _ {M C : Type 0} where
  unfoldable pub read_http : Reader (Cell M C) Http lite_mesh.Apis.Http
  read_http =
      read_struct (λ x. x.domains) (λ x d. record { domains = or_nil d; cluster = x.cluster })
        (read_ref strings_cell read_value)

  unfoldable pub read_filter : Reader (Cell M C) Filter lite_mesh.Apis.Filter
  unfolding read_http
  read_filter =
      read_struct (λ x. x.http) (λ x s. record { port = x.port; http = or_nil s; tcp = x.tcp })
        (read_ref https_cell (read_list read_http))

  unfoldable pub read_rule : Reader (Cell M C) Rule lite_mesh.Apis.Rule
  unfolding read_filter
  read_rule =
      read_struct (λ x. (x.match_labels, (x.filters, x.clusters)))
        (λ x f. record {
          match_labels = or_nil f.0;
          filters = or_nil f.1.0;
          clusters = or_nil f.1.1;
        })
        (read_both (read_ref string_map_cell read_value) (
          read_both (read_ref filters_cell (read_list read_filter))
            (read_ref clusters_cell read_value)))

  unfoldable pub read_configuration :
      Reader (Cell M C) M ObjectMeta
      → Reader (Cell M C) (Configuration M) lite_mesh.Apis.Configuration
  unfolding read_rule
  read_configuration read_meta =
      read_struct (λ x. (x.meta, x.rules))
        (λ x f. record { type_meta = x.type_meta; meta = f.0; rules = or_nil f.1 })
        (read_both read_meta (read_ref rules_cell (read_list read_rule)))

  unfoldable pub read_configuration_list :
      Reader (Cell M C) M ObjectMeta → Reader (Cell M C) ObjectList ConfigurationList
  unfolding read_configuration
  read_configuration_list read_meta =
      read_struct (λ x. x.items)
        (λ x i. record { type_meta = x.type_meta; list_meta = x.list_meta; items = or_nil i })
        (read_ref configurations_cell (read_list (read_configuration read_meta)))

  unfoldable pub read_service_spec :
      Reader (Cell M C) C Container → Reader (Cell M C) (ServiceSpec C) lite_mesh.Apis.ServiceSpec
  read_service_spec read_container =
      read_struct (λ x. (x.replicas, x.container))
        (λ x f. record { replicas = f.0; gateway = none; container = f.1; envoy = x.envoy })
        (read_both (read_ref int32_cell read_value) read_container)

  unfoldable pub read_service :
      Reader (Cell M C) M ObjectMeta
      → Reader (Cell M C) C Container
      → Reader (Cell M C) (Service M C) lite_mesh.Apis.Service
  unfolding read_service_spec
  read_service read_meta read_container =
      read_struct (λ x. (x.meta, x.spec))
        (λ x f. record { type_meta = x.type_meta; meta = f.0; spec = f.1 })
        (read_both read_meta (read_service_spec read_container))

  unfoldable pub read_service_list :
      Reader (Cell M C) M ObjectMeta
      → Reader (Cell M C) C Container
      → Reader (Cell M C) ObjectList ServiceList
  unfolding read_service
  read_service_list read_meta read_container =
      read_struct (λ x. x.items)
        (λ x i. record { type_meta = x.type_meta; list_meta = x.list_meta; items = or_nil i })
        (read_ref services_cell (read_list (read_service read_meta read_container)))

  pub read_http-IsStable : IsStable read_http
  unfolding read_http
  read_http-IsStable =
      read_struct-IsStable _ _ _ (read_ref-IsStable strings_cell _ read_value-IsStable)

  pub read_filter-IsStable : IsStable read_filter
  unfolding read_filter
  read_filter-IsStable =
      read_struct-IsStable _ _ _
        (read_ref-IsStable https_cell _ (read_list-IsStable _ read_http-IsStable))

  pub read_rule-IsStable : IsStable read_rule
  unfolding read_rule
  read_rule-IsStable = read_struct-IsStable _ _ _ (
      read_both-IsStable _ _ (read_ref-IsStable string_map_cell _ read_value-IsStable) (
        read_both-IsStable _ _
          (read_ref-IsStable filters_cell _ (read_list-IsStable _ read_filter-IsStable))
          (read_ref-IsStable clusters_cell _ read_value-IsStable)))

  module _ (read_meta : Reader (Cell M C) M ObjectMeta) (meta_stable : IsStable read_meta) where
    pub read_configuration-IsStable : IsStable (read_configuration read_meta)
    unfolding read_configuration
    read_configuration-IsStable = read_struct-IsStable _ _ _ (
        read_both-IsStable _ _ meta_stable
          (read_ref-IsStable rules_cell _ (read_list-IsStable _ read_rule-IsStable)))

    module _ (read_container : Reader (Cell M C) C Container)
        (container_stable : IsStable read_container) where
      pub read_service_spec-IsStable : IsStable (read_service_spec read_container)
      unfolding read_service_spec
      read_service_spec-IsStable = read_struct-IsStable _ _ _ (
          read_both-IsStable _ _ (read_ref-IsStable int32_cell _ read_value-IsStable)
            container_stable)

      pub read_service-IsStable : IsStable (read_service read_meta read_container)
      unfolding read_service
      read_service-IsStable =
          read_struct-IsStable _ _ _ (read_both-IsStable _ _ meta_stable read_service_spec-IsStable)
