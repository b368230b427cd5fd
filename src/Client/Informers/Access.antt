-- ===== src/Client/Informers/Access.antt =====
-- The way from a factory to an informer, `f.Mesh().V1alpha1().Services()`: factory.go,
-- mesh/interface.go and mesh/v1alpha1 (interface.go, service.go and configuration.go). Each step holds
-- the factory, which is the state here, with its namespace and its tweak of the list options.
use lite_mesh.Base.{ℕ, Text, List, [], ◌∷◌, Option, none, ◌≡◌}
use lite_mesh.Client.Listers.{Indexer}
use lite_mesh.Client.Listers.Typed.{
  ServiceLister, ConfigurationLister, new_service_lister, new_configuration_lister,
}
use lite_mesh.Client.Informers.{
  SharedIndexInformer, Client, Factory, service_type, configuration_type, namespace_index,
  new_filtered_service_informer, new_filtered_configuration_informer, informer_for,
}

pub record Group (O : Type 0) : Type 0 where
  pub namespace : Text
  pub tweak_list_options : Option (O → O)

pub record Version (O : Type 0) : Type 0 where
  pub namespace : Text
  pub tweak_list_options : Option (O → O)

-- `serviceInformer` and `configurationInformer`.
pub record TypedInformer (O : Type 0) : Type 0 where
  pub namespace : Text
  pub tweak_list_options : Option (O → O)

module _ {O R : Type 0} where
  -- `Mesh` of the factory, with `New` of the group.
  unfoldable pub mesh : Factory O R → Group O
  mesh f = record { namespace = f.namespace; tweak_list_options = f.tweak_list_options }

module _ {O : Type 0} where
  unfoldable pub v1alpha1 : Group O → Version O
  v1alpha1 g = record { namespace = g.namespace; tweak_list_options = g.tweak_list_options }

  unfoldable pub services : Version O → TypedInformer O
  services v = record { namespace = v.namespace; tweak_list_options = v.tweak_list_options }

  unfoldable pub configurations : Version O → TypedInformer O
  configurations v = record { namespace = v.namespace; tweak_list_options = v.tweak_list_options }

module _ {O R : Type 0} where
  -- `NewServiceInformer` and `NewConfigurationInformer`.
  unfoldable pub new_service_informer : Client O R → Text → ℕ → List Text → SharedIndexInformer O R
  new_service_informer client namespace resync_period indexers =
      new_filtered_service_informer client namespace resync_period indexers none

  unfoldable pub new_configuration_informer :
      Client O R → Text → ℕ → List Text → SharedIndexInformer O R
  new_configuration_informer client namespace resync_period indexers =
      new_filtered_configuration_informer client namespace resync_period indexers none

  default_service : TypedInformer O → Client O R → ℕ → SharedIndexInformer O R
  default_service i client resync_period =
      new_filtered_service_informer client i.namespace resync_period (namespace_index ∷ [])
        i.tweak_list_options

  default_configuration : TypedInformer O → Client O R → ℕ → SharedIndexInformer O R
  default_configuration i client resync_period =
      new_filtered_configuration_informer client i.namespace resync_period (namespace_index ∷ [])
        i.tweak_list_options

  -- `Informer`.
  unfoldable pub service_informer :
      TypedInformer O → Factory O R → SharedIndexInformer O R × Factory O R
  unfolding default_service
  service_informer i f = informer_for f service_type (default_service i)

  unfoldable pub configuration_informer :
      TypedInformer O → Factory O R → SharedIndexInformer O R × Factory O R
  unfolding default_configuration
  configuration_informer i f = informer_for f configuration_type (default_configuration i)

  -- `Lister`; the first argument is `GetIndexer` of an informer.
  unfoldable pub service_lister :
      (SharedIndexInformer O R → Indexer)
      → TypedInformer O
      → Factory O R
      → ServiceLister × Factory O R
  unfolding service_informer
  service_lister get_indexer i f =
      let (informer, f') = service_informer i f in (new_service_lister (get_indexer informer), f')

  unfoldable pub configuration_lister :
      (SharedIndexInformer O R → Indexer)
      → TypedInformer O
      → Factory O R
      → ConfigurationLister × Factory O R
  unfolding configuration_informer
  configuration_lister get_indexer i f =
      let (informer, f') = configuration_informer i f in
      (new_configuration_lister (get_indexer informer), f')

  -- What a factory hands out of its own namespace and tweak does not change later.
  abbrev SameOptions : Factory O R → Factory O R → Type 0
  SameOptions f g = (f.namespace ≡ g.namespace) × (f.tweak_list_options ≡ g.tweak_list_options)
