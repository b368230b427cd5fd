-- ===== src/Client/Rest.antt =====
-- pkg/client/clientset/versioned: the requests that the typed clients send. A `rest.Request` is the
-- list of the calls that built it, in order. The REST client, which executes it, is a parameter: `S`
-- stands for the API server, `R` for a response and `W` for what a watch returns.
use lite_mesh.Base.{Text, List, Option}
use lite_mesh.Kube.{Error, GetOptions, ListOptions, DeleteOptions}
use lite_mesh.Apis.{Service, ServiceList, Configuration, ConfigurationList}

-- `http_patch` carries the type of the patch.
pub data Verb : Type 0 where
  http_get http_post http_put http_delete : Verb
  http_patch : Text → Verb

-- The arguments of `VersionedParams` and of `Body`.
pub data Params : Type 0 where
  get_params : GetOptions → Params
  list_params : ListOptions → Params

pub data Body : Type 0 where
  service_body : Service → Body
  configuration_body : Configuration → Body
  delete_body : Option DeleteOptions → Body
  data_body : Text → Body

pub data Call : Type 0 where
  verb : Verb → Call
  in_namespace : Text → Call
  of_resource : Text → Call
  named : Text → Call
  sub_resource : List Text → Call
  with_params : Params → Call
  with_body : Body → Call

-- `Do`, `Watch`, `Into` for each type of result, and `Error`. `Into` writes the object that it is
-- given, also when it reports an error.
pub record Rest (S R W : Type 0) : Type 0 where
  pub do_request : List Call → S → R × S
  pub watch_request : List Call → S → W × S
  pub into_service : R → Service → Service × Option Error
  pub into_service_list : R → ServiceList → ServiceList × Option Error
  pub into_configuration : R → Configuration → Configuration × Option Error
  pub into_configuration_list : R → ConfigurationList → ConfigurationList × Option Error
  pub error_of : R → Option Error

-- `services` and `configurations`: a REST client and a namespace.
pub record Scoped (S R W : Type 0) : Type 0 where
  pub client : Rest S R W
  pub ns : Text

module _ {S R W : Type 0} (rest : Rest S R W) where
  -- `Do().Into(result)`.
  unfoldable pub do_into :
      {T : Type 0} → (R → T → T × Option Error) → T → List Call → S → (T × Option Error) × S
  do_into into result calls s =
      let (response, s') = rest.do_request calls s in (into response result, s')

  -- `Do().Error()`.
  unfoldable pub do_error : List Call → S → Option Error × S
  do_error calls s = let (response, s') = rest.do_request calls s in (rest.error_of response, s')
