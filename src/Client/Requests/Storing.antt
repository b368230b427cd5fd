-- ===== src/Client/Requests/Storing.antt =====
-- Reads of an object after a typed client wrote it.
use lite_mesh.Base.{Text, [], none, ◌≡◌, ◌≢◌, ap, refl}
use lite_mesh.Kube.{GetOptions}
use lite_mesh.Apis.{Service, Configuration, zero_service, zero_configuration}
use lite_mesh.Client.Rest.{Rest, do_into}
use lite_mesh.Client.Services.{services_resource, services_get, services_create, services_update}
use lite_mesh.Client.Configurations.{
  configurations_resource, configurations_get, configurations_create, configurations_update,
}
use lite_mesh.Client.Requests.{
  scoped, request_of, apply_calls, apply_call, read, written_by, written, read_by, body_name,
  StoresWrites, ReportsErrors,
}

module _ {S R W : Type 0} (rest : Rest S R W) (stores : StoresWrites rest)
    (reports : ReportsErrors rest) where
  -- On an API server that stores what is written: a named service that was created without an error
  -- reads back as the create returned it, in the same namespace and under its name.
  pub services_get-services_create :
      (ns : Text) (service : Service) (options : GetOptions) (s : S)
      → service.meta.name ≢ []
      → (services_create (scoped rest ns) service s).0.1 ≡ none
      → (services_get
          (scoped rest ns)
          service.meta.name
          options
          (services_create (scoped rest ns) service s).1).0
        ≡ (services_create (scoped rest ns) service s).0
  unfolding services_get services_create do_into request_of apply_calls apply_call read read_by
      written written_by body_name
  services_get-services_create ns service options s n e =
      ap (λ r. rest.into_service r zero_service)
        (stores _ _ ns services_resource service.meta.name s n refl refl
          (reports.0 _ zero_service e))

  -- On an API server that stores what is written: a named configuration that was created without an error
  -- reads back as the create returned it, in the same namespace and under its name.
  pub configurations_get-configurations_create :
      (ns : Text) (configu : Configuration) (options : GetOptions) (s : S)
      → configu.meta.name ≢ []
      → (configurations_create (scoped rest ns) configu s).0.1 ≡ none
      → (configurations_get
          (scoped rest ns)
          configu.meta.name
          options
          (configurations_create (scoped rest ns) configu s).1).0
        ≡ (configurations_create (scoped rest ns) configu s).0
  unfolding configurations_get configurations_create do_into request_of apply_calls apply_call read
      read_by written written_by body_name
  configurations_get-configurations_create ns configu options s n e =
      ap (λ r. rest.into_configuration r zero_configuration)
        (stores _ _ ns configurations_resource configu.meta.name s n refl refl
          (reports.1 _ zero_configuration e))

  -- On an API server that stores what is written: a named service that was updated without an error
  -- reads back as the update returned it, in the same namespace and under its name.
  pub services_get-services_update :
      (ns : Text) (service : Service) (options : GetOptions) (s : S)
      → service.meta.name ≢ []
      → (services_update (scoped rest ns) service s).0.1 ≡ none
      → (services_get
          (scoped rest ns)
          service.meta.name
          options
          (services_update (scoped rest ns) service s).1).0
        ≡ (services_update (scoped rest ns) service s).0
  unfolding services_get services_update do_into request_of apply_calls apply_call read read_by
      written written_by body_name
  services_get-services_update ns service options s n e =
      ap (λ r. rest.into_service r zero_service)
        (stores _ _ ns services_resource service.meta.name s n refl refl
          (reports.0 _ zero_service e))

  -- On an API server that stores what is written: a named configuration that was updated without an error
  -- reads back as the update returned it, in the same namespace and under its name.
  pub configurations_get-configurations_update :
      (ns : Text) (configu : Configuration) (options : GetOptions) (s : S)
      → configu.meta.name ≢ []
      → (configurations_update (scoped rest ns) configu s).0.1 ≡ none
      → (configurations_get
          (scoped rest ns)
          configu.meta.name
          options
          (configurations_update (scoped rest ns) configu s).1).0
        ≡ (configurations_update (scoped rest ns) configu s).0
  unfolding configurations_get configurations_update do_into request_of apply_calls apply_call read
      read_by written written_by body_name
  configurations_get-configurations_update ns configu options s n e =
      ap (λ r. rest.into_configuration r zero_configuration)
        (stores _ _ ns configurations_resource configu.meta.name s n refl refl
          (reports.1 _ zero_configuration e))
