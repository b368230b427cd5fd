-- ===== src/Client/Listers/Typed.antt =====
-- The listers as values: the interfaces of pkg/client/listers/mesh/v1alpha1 and what implements them.
use lite_mesh.Base.{Text}
use lite_mesh.Kube.{Result, Selector}
use lite_mesh.Apis.{Service, Configuration}
use lite_mesh.Client.Listers.{
  Indexer, Listing, service_list, service_namespace_list, service_get, configuration_list,
  configuration_namespace_list, configuration_get,
}

-- `ServiceNamespaceLister` and `ConfigurationNamespaceLister`.
pub record NamespaceLister (T : Type 0) : Type 0 where
  pub list : Selector → Listing T
  pub get : Text → Result T

pub record ServiceLister : Type 0 where
  pub list : Selector → Listing Service
  pub services : Text → NamespaceLister Service

pub record ConfigurationLister : Type 0 where
  pub list : Selector → Listing Configuration
  pub configurations : Text → NamespaceLister Configuration

-- `Services` and `Configurations` of a lister.
unfoldable pub service_namespace_lister : Indexer → Text → NamespaceLister Service
service_namespace_lister indexer namespace = record {
  list = service_namespace_list indexer namespace;
  get = service_get indexer namespace;
}

unfoldable pub configuration_namespace_lister : Indexer → Text → NamespaceLister Configuration
configuration_namespace_lister indexer namespace = record {
  list = configuration_namespace_list indexer namespace;
  get = configuration_get indexer namespace;
}

unfoldable pub new_service_lister : Indexer → ServiceLister
unfolding service_namespace_lister
new_service_lister indexer = record {
  list = service_list indexer;
  services = service_namespace_lister indexer;
}

unfoldable pub new_configuration_lister : Indexer → ConfigurationLister
unfolding configuration_namespace_lister
new_configuration_lister indexer = record {
  list = configuration_list indexer;
  configurations = configuration_namespace_lister indexer;
}
