-- ===== src/Client/Typed/Creation.antt =====
-- What a typed client creates, it reads back.
use lite_mesh.Base.{Text, [], none, some, ◌≡◌, ◌≢◌, ap, ◌∙◌, arith}
use lite_mesh.Kube.{GetOptions}
use lite_mesh.Apis.{Service, Configuration}
use lite_mesh.Client.Interfaces.{create_get}
use lite_mesh.Client.Rest.{Rest}
use lite_mesh.Client.Requests.{StoresWrites, ReportsErrors}
use lite_mesh.Client.Requests.Storing.{
  services_get-services_create, configurations_get-configurations_create,
}
use lite_mesh.Client.Typed.{
  new_services, new_configurations, mesh_services, mesh_configurations, mesh_interface,
  clientset_interface, new_clientset,
}

module _ {S R W D : Type 0} (rest : Rest S R W) (stores : StoresWrites rest)
    (reports : ReportsErrors rest) (new_discovery_client : Rest S R W → D) where
  -- With a REST client of an API server that stores what is written: a named service that the
  -- clientset of that client creates without an error reads back, in the same namespace and by its
  -- name, as the creation returned it.
  pub services-new_clientset :
      (ns : Text) (x y : Service) (options : GetOptions) (s : S)
      → x.meta.name ≢ []
      → (create_get
          ((clientset_interface (new_clientset new_discovery_client rest)).mesh.services ns)
          x
          x.meta.name
          options
          s).0
        ≡ some (some y, none)
      → (create_get
          ((clientset_interface (new_clientset new_discovery_client rest)).mesh.services ns)
          x
          x.meta.name
          options
          s).1
        ≡ some (some y, none)
  unfolding clientset_interface new_clientset mesh_interface mesh_services new_services
  services-new_clientset ns x y options s n e =
      ap (λ p. some (some p.0, p.1))
        (services_get-services_create rest stores reports ns x options s n (ground arith))
      ∙ e

  -- The same of configurations.
  pub configurations-new_clientset :
      (ns : Text) (x y : Configuration) (options : GetOptions) (s : S)
      → x.meta.name ≢ []
      → (create_get
          ((clientset_interface (new_clientset new_discovery_client rest)).mesh.configurations ns)
          x
          x.meta.name
          options
          s).0
        ≡ some (some y, none)
      → (create_get
          ((clientset_interface (new_clientset new_discovery_client rest)).mesh.configurations ns)
          x
          x.meta.name
          options
          s).1
        ≡ some (some y, none)
  unfolding clientset_interface new_clientset mesh_interface mesh_configurations new_configurations
  configurations-new_clientset ns x y options s n e =
      ap (λ p. some (some p.0, p.1))
        (configurations_get-configurations_create rest stores reports ns x options s n
          (ground arith))
      ∙ e
