-- ===== src/Bootstrap.antt =====
-- cmd/envoy-bootstrap/envoy-bootstrap.go: the entry point of the sidecar's image. Environment, files,
-- templates and processes are a state `W` with the calls of the record `Os`.
pub mod CommandLine
pub mod Start
pub mod Sidecar
pub mod Connection
use lite_mesh.Base.{Text, codes, List, [], ◌∷◌, ◌++◌, Option, none, some, ℕ}
use CommandLine.{Flags, default_flags, parse}

pub record XdsConfig : Type 0 where
  pub discovery_type : Text
  pub connection_timeout : Text
  pub address : Text
  pub port : Text

pub record BootstrapConfig : Type 0 where
  pub node_id : Text
  pub service_cluster : Text
  pub xds : XdsConfig

-- `parse_file` reads a template, as a function from a configuration to the text of the file; `none`
-- is the error that `template.Must` panics at. The other calls say whether they return an error.
pub data Success : Type 0 where
  done : Success
  failed : Success

pub record Os (W : Type 0) : Type 0 where
  pub getenv : Text → W → Text
  pub parse_file : Text → W → Option (BootstrapConfig → Text)
  pub create : Text → W → Success × W
  pub write : Text → Text → W → W
  pub start : (binary : Text) (args : List Text) → W → Success × W
  pub wait : W → Success × W

-- How the process ends.
pub data Exit : Type 0 where
  returns : Exit
  exits : ℕ → Exit
  panics : Exit

-- `fmt.Sprintf("%s@%s", ip, name)`.
unfoldable pub format_node_id : Text → Text → Text
format_node_id ip name = ip ++ b'@' ∷ name

unfoldable pub build_args : (config_path log_level : Text) → List Text
build_args config_path log_level =
    codes "--v2-config-only" ∷ codes "-l" ∷ log_level ∷ codes "-c" ∷ config_path ∷ []

module _ {W : Type 0} (os : Os W) where
  unfoldable pub build_node_id : W → Text
  unfolding format_node_id
  build_node_id w = format_node_id (os.getenv (codes "POD_IP") w) (os.getenv (codes "POD_NAME") w)

  -- The literal in `main`.
  unfoldable pub bootstrap_config : Flags → W → BootstrapConfig
  unfolding build_node_id
  bootstrap_config flags w = record {
    node_id = build_node_id w;
    service_cluster = flags.service_cluster;
    xds = record {
      discovery_type = codes "STATIC";
      connection_timeout = codes "5s";
      address = flags.discovery_address;
      port = flags.discovery_port;
    };
  }

  -- `check(err)`, and then the rest of `main`.
  checked : Success × W → (W → Exit × W) → Exit × W
  checked (done, w) rest = rest w
  checked (failed, w) rest = (exits 1, w)

  run_envoy : Flags → W → Exit × W
  unfolding checked build_args
  run_envoy flags w =
      checked (os.start flags.envoy_binary (build_args flags.bootstrap_config flags.log_level) w)
        (λ w'. checked (os.wait w') (λ w''. (returns, w'')))

  with_template : Option (BootstrapConfig → Text) → BootstrapConfig → Flags → W → Exit × W
  unfolding run_envoy
  with_template none cfg flags w = (panics, w)
  with_template (some t) cfg flags w =
      checked (os.create flags.bootstrap_config w)
        (λ w'. run_envoy flags (os.write flags.bootstrap_config (t cfg) w'))

  with_flags : Option Flags → W → Exit × W
  unfolding with_template bootstrap_config
  with_flags none w = (exits 2, w)
  with_flags (some flags) w =
      with_template (os.parse_file flags.bootstrap_template w) (bootstrap_config flags w) flags w

  -- `main`, with the arguments of the command line.
  unfoldable pub main : List Text → W → Exit × W
  unfolding with_flags
  main args = with_flags (parse args default_flags)
