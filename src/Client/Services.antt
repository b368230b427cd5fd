-- ===== src/Client/Services.antt =====
-- pkg/client/clientset/versioned/typed/mesh/v1alpha1/service.go: the typed client of services.
use lite_mesh.Base.{Text, codes, List, [], ◌∷◌, Option, true}
use lite_mesh.Kube.{Error, GetOptions, ListOptions, DeleteOptions}
use lite_mesh.Apis.{Service, ServiceList, zero_service, zero_service_list}
use lite_mesh.Client.Rest.{
  http_get, http_post, http_put, http_delete, http_patch, get_params, list_params, service_body,
  delete_body, data_body, verb, in_namespace, of_resource, named, sub_resource, with_params,
  with_body, Scoped, do_into, do_error,
}

abbrev pub services_resource : Text
services_resource = codes "services"

module _ {S R W : Type 0} where
  unfoldable pub services_get : Scoped S R W → Text → GetOptions → S → (Service × Option Error) × S
  unfolding do_into
  services_get c name options = do_into c.client c.client.into_service zero_service (
      verb http_get
      ∷ in_namespace c.ns
      ∷ of_resource services_resource
      ∷ named name
      ∷ with_params (get_params options)
      ∷ [])

  unfoldable pub services_list : Scoped S R W → ListOptions → S → (ServiceList × Option Error) × S
  unfolding do_into
  services_list c opts = do_into c.client c.client.into_service_list zero_service_list (
      verb http_get
      ∷ in_namespace c.ns
      ∷ of_resource services_resource
      ∷ with_params (list_params opts)
      ∷ [])

  unfoldable pub services_watch : Scoped S R W → ListOptions → S → W × S
  services_watch c opts =
      let opts' = record opts { watch = true } in
      c.client.watch_request (
        verb http_get
        ∷ in_namespace c.ns
        ∷ of_resource services_resource
        ∷ with_params (list_params opts')
        ∷ [])

  unfoldable pub services_create : Scoped S R W → Service → S → (Service × Option Error) × S
  unfolding do_into
  services_create c service = do_into c.client c.client.into_service zero_service (
      verb http_post
      ∷ in_namespace c.ns
      ∷ of_resource services_resource
      ∷ with_body (service_body service)
      ∷ [])

  unfoldable pub services_update : Scoped S R W → Service → S → (Service × Option Error) × S
  unfolding do_into
  services_update c service = do_into c.client c.client.into_service zero_service (
      verb http_put
      ∷ in_namespace c.ns
      ∷ of_resource services_resource
      ∷ named service.meta.name
      ∷ with_body (service_body service)
      ∷ [])

  unfoldable pub services_update_status : Scoped S R W → Service → S → (Service × Option Error) × S
  unfolding do_into
  services_update_status c service = do_into c.client c.client.into_service zero_service (
      verb http_put
      ∷ in_namespace c.ns
      ∷ of_resource services_resource
      ∷ named service.meta.name
      ∷ sub_resource (codes "status" ∷ [])
      ∷ with_body (service_body service)
      ∷ [])

  unfoldable pub services_delete : Scoped S R W → Text → Option DeleteOptions → S → Option Error × S
  unfolding do_error
  services_delete c name options = do_error c.client (
      verb http_delete
      ∷ in_namespace c.ns
      ∷ of_resource services_resource
      ∷ named name
      ∷ with_body (delete_body options)
      ∷ [])

  unfoldable pub services_delete_collection :
      Scoped S R W → Option DeleteOptions → ListOptions → S → Option Error × S
  unfolding do_error
  services_delete_collection c options list_options = do_error c.client (
      verb http_delete
      ∷ in_namespace c.ns
      ∷ of_resource services_resource
      ∷ with_params (list_params list_options)
      ∷ with_body (delete_body options)
      ∷ [])

  unfoldable pub services_patch :
      Scoped S R W → Text → Text → Text → List Text → S → (Service × Option Error) × S
  unfolding do_into
  services_patch c name pt patch_data subresources =
      do_into c.client c.client.into_service zero_service (
        verb (http_patch pt)
        ∷ in_namespace c.ns
        ∷ of_resource services_resource
        ∷ sub_resource subresources
        ∷ named name
        ∷ with_body (data_body patch_data)
        ∷ [])
