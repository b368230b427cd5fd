-- ===== src/Apis/DeepCopy/Pointers.antt =====
-- The methods `DeepCopy` of pkg/apis/mesh/v1alpha1/zz_generated.deepcopy.go.
use lite_mesh.Base.{Option}
use lite_mesh.Apis.{Cluster, Tcp, ConfigurationStatus, ServiceStatus}
use lite_mesh.Apis.Memory.{Address, Copy, copy_value}
use lite_mesh.Apis.DeepCopy.{
  Http, Filter, Rule, Configuration, ServiceSpec, Service, ObjectList, Cell, copy_http, copy_filter,
  copy_rule, copy_configuration_spec, copy_configuration, copy_configuration_list,
  copy_service_spec, copy_service, copy_service_list, deep_copy,
}

module _ {M C : Type 0} where
  -- `DeepCopy` of each type; `DeepCopyObject` is the same function.
  unfoldable pub cluster_deep_copy : Copy (Cell M C) (Option Cluster)
  unfolding deep_copy copy_value
  cluster_deep_copy = deep_copy copy_value

  unfoldable pub tcp_deep_copy : Copy (Cell M C) (Option Tcp)
  unfolding deep_copy copy_value
  tcp_deep_copy = deep_copy copy_value

  unfoldable pub configuration_status_deep_copy : Copy (Cell M C) (Option ConfigurationStatus)
  unfolding deep_copy copy_value
  configuration_status_deep_copy = deep_copy copy_value

  unfoldable pub service_status_deep_copy : Copy (Cell M C) (Option ServiceStatus)
  unfolding deep_copy copy_value
  service_status_deep_copy = deep_copy copy_value

  unfoldable pub http_deep_copy : Copy (Cell M C) (Option Http)
  unfolding deep_copy copy_http
  http_deep_copy = deep_copy copy_http

  unfoldable pub filter_deep_copy : Copy (Cell M C) (Option Filter)
  unfolding deep_copy copy_filter
  filter_deep_copy = deep_copy copy_filter

  unfoldable pub rule_deep_copy : Copy (Cell M C) (Option Rule)
  unfolding deep_copy copy_rule
  rule_deep_copy = deep_copy copy_rule

  unfoldable pub configuration_spec_deep_copy : Copy (Cell M C) (Option Address)
  unfolding deep_copy copy_configuration_spec
  configuration_spec_deep_copy = deep_copy copy_configuration_spec

  unfoldable pub configuration_deep_copy :
      Copy (Cell M C) M → Copy (Cell M C) (Option (Configuration M))
  unfolding deep_copy copy_configuration
  configuration_deep_copy copy_meta = deep_copy (copy_configuration copy_meta)

  unfoldable pub configuration_list_deep_copy :
      Copy (Cell M C) M → Copy (Cell M C) (Option ObjectList)
  unfolding deep_copy copy_configuration_list
  configuration_list_deep_copy copy_meta = deep_copy (copy_configuration_list copy_meta)

  unfoldable pub service_spec_deep_copy :
      Copy (Cell M C) C → Copy (Cell M C) (Option (ServiceSpec C))
  unfolding deep_copy copy_service_spec
  service_spec_deep_copy copy_container = deep_copy (copy_service_spec copy_container)

  unfoldable pub service_deep_copy :
      Copy (Cell M C) M → Copy (Cell M C) C → Copy (Cell M C) (Option (Service M C))
  unfolding deep_copy copy_service
  service_deep_copy copy_meta copy_container = deep_copy (copy_service copy_meta copy_container)

  unfoldable pub service_list_deep_copy :
      Copy (Cell M C) M → Copy (Cell M C) C → Copy (Cell M C) (Option ObjectList)
  unfolding deep_copy copy_service_list
  service_list_deep_copy copy_meta copy_container =
      deep_copy (copy_service_list copy_meta copy_container)
