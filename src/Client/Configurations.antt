-- ===== src/Client/Configurations.antt =====
-- pkg/client/clientset/versioned/typed/mesh/v1alpha1/configuration.go: the typed client of configurations.
use lite_mesh.Base.{Text, codes, List, [], ◌∷◌, Option, true}
use lite_mesh.Kube.{Error, GetOptions, ListOptions, DeleteOptions}
use lite_mesh.Apis.{Configuration, ConfigurationList, zero_configuration, zero_configuration_list}
use lite_mesh.Client.Rest.{
  http_get, http_post, http_put, http_delete, http_patch, get_params, list_params,
  configuration_body, delete_body, data_body, verb, in_namespace, of_resource, named, sub_resource,
  with_params, with_body, Scoped, do_into, do_error,
}

abbrev pub configurations_resource : Text
configurations_resource = codes "configurations"

module _ {S R W : Type 0} where
  unfoldable pub configurations_get :
      Scoped S R W → Text → GetOptions → S → (Configuration × Option Error) × S
  unfolding do_into
  configurations_get c name options =
      do_into c.client c.client.into_configuration zero_configuration (
        verb http_get
        ∷ in_namespace c.ns
        ∷ of_resource configurations_resource
        ∷ named name
        ∷ with_params (get_params options)
        ∷ [])

  unfoldable pub configurations_list :
      Scoped S R W → ListOptions → S → (ConfigurationList × Option Error) × S
  unfolding do_into
  configurations_list c opts =
      do_into c.client c.client.into_configuration_list zero_configuration_list (
        verb http_get
        ∷ in_namespace c.ns
        ∷ of_resource configurations_resource
        ∷ with_params (list_params opts)
        ∷ [])

  unfoldable pub configurations_watch : Scoped S R W → ListOptions → S → W × S
  configurations_watch c opts =
      let opts' = record opts { watch = true } in
      c.client.watch_request (
        verb http_get
        ∷ in_namespace c.ns
        ∷ of_resource configurations_resource
        ∷ with_params (list_params opts')
        ∷ [])

  unfoldable pub configurations_create :
      Scoped S R W → Configuration → S → (Configuration × Option Error) × S
  unfolding do_into
  configurations_create c configuration =
      do_into c.client c.client.into_configuration zero_configuration (
        verb http_post
        ∷ in_namespace c.ns
        ∷ of_resource configurations_resource
        ∷ with_body (configuration_body configuration)
        ∷ [])

  unfoldable pub configurations_update :
      Scoped S R W → Configuration → S → (Configuration × Option Error) × S
  unfolding do_into
  configurations_update c configuration =
      do_into c.client c.client.into_configuration zero_configuration (
        verb http_put
        ∷ in_namespace c.ns
        ∷ of_resource configurations_resource
        ∷ named configuration.meta.name
        ∷ with_body (configuration_body configuration)
        ∷ [])

  unfoldable pub configurations_update_status :
      Scoped S R W → Configuration → S → (Configuration × Option Error) × S
  unfolding do_into
  configurations_update_status c configuration =
      do_into c.client c.client.into_configuration zero_configuration (
        verb http_put
        ∷ in_namespace c.ns
        ∷ of_resource configurations_resource
        ∷ named configuration.meta.name
        ∷ sub_resource (codes "status" ∷ [])
        ∷ with_body (configuration_body configuration)
        ∷ [])

  unfoldable pub configurations_delete :
      Scoped S R W → Text → Option DeleteOptions → S → Option Error × S
  unfolding do_error
  configurations_delete c name options = do_error c.client (
      verb http_delete
      ∷ in_namespace c.ns
      ∷ of_resource configurations_resource
      ∷ named name
      ∷ with_body (delete_body options)
      ∷ [])

  unfoldable pub configurations_delete_collection :
      Scoped S R W → Option DeleteOptions → ListOptions → S → Option Error × S
  unfolding do_error
  configurations_delete_collection c options list_options = do_error c.client (
      verb http_delete
      ∷ in_namespace c.ns
      ∷ of_resource configurations_resource
      ∷ with_params (list_params list_options)
      ∷ with_body (delete_body options)
      ∷ [])

  unfoldable pub configurations_patch :
      Scoped S R W → Text → Text → Text → List Text → S → (Configuration × Option Error) × S
  unfolding do_into
  configurations_patch c name pt patch_data subresources =
      do_into c.client c.client.into_configuration zero_configuration (
        verb (http_patch pt)
        ∷ in_namespace c.ns
        ∷ of_resource configurations_resource
        ∷ sub_resource subresources
        ∷ named name
        ∷ with_body (data_body patch_data)
        ∷ [])
