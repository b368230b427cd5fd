-- ===== src/Client/Clientset.antt =====
-- pkg/client/clientset/versioned: clientset.go and typed/mesh/v1alpha1/mesh_client.go, the
-- construction of the clients. `F` stands for a `float32`, `L` for a rate limiter, `N` for a
-- serializer, `C` for a REST client and `D` for a discovery client.
pub mod Construction
use lite_mesh.Base.{
  Text, text_dec, codes, ℤ, [], Option, none, some, Bool, true, false, ◌&&◌, ite, if◌then◌else◌,
}
use lite_mesh.Kube.{Error, Result, ok, err, panic}
use lite_mesh.Apis.{group_name, group_version}

-- `rest.Config`, as far as its fields are read or written.
pub record Config (F L N : Type 0) : Type 0 where
  pub group_version : Option (Text × Text)
  pub api_path : Text
  pub negotiated_serializer : Option N
  pub user_agent : Text
  pub rate_limiter : Option L
  pub qps : F
  pub burst : ℤ

-- The calls of client-go.
pub record ClientGo (F L N C D : Type 0) : Type 0 where
  pub is_positive : F → Bool
  pub new_token_bucket_rate_limiter : F → ℤ → L
  pub default_user_agent : Text
  pub codecs : N
  pub rest_client_for : Config F L N → Result C
  pub new_discovery_client_for_config : Config F L N → Result D
  pub new_discovery_client_for_config_or_die : Config F L N → Result D

pub record Clientset (C D : Type 0) : Type 0 where
  pub discovery_client : D
  pub mesh_v1alpha1 : C

-- A function that panics with the error that another one returns.
abbrev pub or_die : {A : Type 0} → Result A → Result A
or_die (ok a) = ok a
or_die (err _) = panic
or_die panic = panic

abbrev pub is_none : {A : Type 0} → Option A → Bool
is_none none = true
is_none (some _) = false

module _ {F L N C D : Type 0} (go : ClientGo F L N C D) where
  -- `setConfigDefaults`: the config that it leaves, and its error, which is always nil.
  unfoldable pub set_config_defaults : Config F L N → Config F L N × Option Error
  set_config_defaults config =
      let user_agent =
        ite (text_dec config.user_agent []) go.default_user_agent config.user_agent in
      (
        record config {
          group_version = some (lite_mesh.Apis.group_name, lite_mesh.Apis.group_version);
          api_path = codes "/apis";
          negotiated_serializer = some go.codecs;
          user_agent = user_agent;
        },
        none,
      )

  after_defaults : Config F L N × Option Error → Result C
  after_defaults (config, some e) = err e
  after_defaults (config, none) = go.rest_client_for config

  -- `v1alpha1.NewForConfig` and `v1alpha1.NewForConfigOrDie`.
  unfoldable pub mesh_for_config : Config F L N → Result C
  unfolding after_defaults set_config_defaults
  mesh_for_config config = after_defaults (set_config_defaults config)

  unfoldable pub mesh_for_config_or_die : Config F L N → Result C
  unfolding mesh_for_config
  mesh_for_config_or_die config = or_die (mesh_for_config config)

  -- The shallow copy of a config, with a rate limiter if it asks for one and has none.
  unfoldable pub with_rate_limiter : Config F L N → Config F L N
  with_rate_limiter config =
      let limited = record config {
        rate_limiter = some (go.new_token_bucket_rate_limiter config.qps config.burst);
      } in
      if is_none config.rate_limiter && go.is_positive config.qps then limited else config

  with_discovery : C → Result D → Result (Clientset C D)
  with_discovery mesh (ok discovery) =
      ok (record { discovery_client = discovery; mesh_v1alpha1 = mesh })
  with_discovery mesh (err e) = err e
  with_discovery mesh panic = panic

  with_mesh : Result C → Result D → Result (Clientset C D)
  unfolding with_discovery
  with_mesh (ok mesh) discovery = with_discovery mesh discovery
  with_mesh (err e) discovery = err e
  with_mesh panic discovery = panic

  unfoldable pub new_for_config : Config F L N → Result (Clientset C D)
  unfolding with_mesh with_rate_limiter mesh_for_config
  new_for_config c =
      let config = with_rate_limiter c in
      with_mesh (mesh_for_config config) (go.new_discovery_client_for_config config)

  unfoldable pub new_for_config_or_die : Config F L N → Result (Clientset C D)
  unfolding with_mesh mesh_for_config_or_die
  new_for_config_or_die c =
      with_mesh (mesh_for_config_or_die c) (go.new_discovery_client_for_config_or_die c)
