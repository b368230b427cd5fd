-- ===== src/Bootstrap/CommandLine.antt =====
-- cmd/envoy-bootstrap/envoy-bootstrap.go: the flags that `init` declares.
use lite_mesh.Base.{Text, text_dec, codes, List, [], Option, Bool, false, ite}
use lite_mesh.GoFlag.{FlagKind, text_flag, bool_flag, unknown, parse_flags}

pub record Flags : Type 0 where
  pub envoy_binary : Text
  pub log_level : Text
  pub bootstrap_template : Text
  pub bootstrap_config : Text
  pub discovery_address : Text
  pub discovery_port : Text
  pub service_cluster : Text
  pub base64_encoded : Bool

unfoldable pub default_flags : Flags
default_flags = record {
  envoy_binary = [];
  log_level = codes "info";
  bootstrap_template = [];
  bootstrap_config = [];
  discovery_address = [];
  discovery_port = [];
  service_cluster = [];
  base64_encoded = false;
}

-- The calls of `flag.StringVar` and `flag.BoolVar`.
unfoldable pub find_flag : Text → FlagKind Flags
unfolding text_dec
find_flag name =
    ite (text_dec name (codes "envoyBinary")) (text_flag (λ v f. record f { envoy_binary = v })) (
      ite (text_dec name (codes "logLevel")) (text_flag (λ v f. record f { log_level = v })) (
        ite (text_dec name (codes "bootstrapTemplate"))
          (text_flag (λ v f. record f { bootstrap_template = v }))
          (ite (text_dec name (codes "bootstrapConfig"))
            (text_flag (λ v f. record f { bootstrap_config = v }))
            (ite (text_dec name (codes "discoveryAddress"))
              (text_flag (λ v f. record f { discovery_address = v }))
              (ite (text_dec name (codes "discoveryPort"))
                (text_flag (λ v f. record f { discovery_port = v }))
                (ite (text_dec name (codes "serviceCluster"))
                  (text_flag (λ v f. record f { service_cluster = v }))
                  (ite (text_dec name (codes "base64"))
                    (bool_flag (λ v f. record f { base64_encoded = v })) unknown)))))))

unfoldable pub parse : List Text → Flags → Option Flags
unfolding parse_flags find_flag
parse = parse_flags find_flag
