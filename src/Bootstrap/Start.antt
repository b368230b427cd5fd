-- ===== src/Bootstrap/Start.antt =====
-- When `main` runs Envoy to its end, and what the sidecar of a mesh service is started with.
use lite_mesh.Base.{
  Text, codes, List, some, false, ◌≡◌, refl, Lacks, split-append, split-Lacks, arith,
}
use lite_mesh.Apis.{Service}
use lite_mesh.Controller.Resource.{
  envoy_log_level, envoy_discovery_address, envoy_discovery_port, proxy_args,
}
use lite_mesh.Xds.Server.{node_id}
use lite_mesh.Bootstrap.CommandLine.{Flags, default_flags, parse}
use lite_mesh.Bootstrap.{BootstrapConfig, done, Os, format_node_id, build_args, bootstrap_config}

-- The flags that the sidecar's arguments set.
abbrev pub proxy_flags : Service → Flags
proxy_flags s = record {
  envoy_binary = codes "/usr/local/bin/envoy";
  log_level = envoy_log_level s;
  bootstrap_template = codes "/etc/conf/envoy-bootstrap-template.yaml";
  bootstrap_config = codes "/etc/conf/envoy-bootstrap.yaml";
  discovery_address = envoy_discovery_address s;
  discovery_port = envoy_discovery_port s;
  service_cluster = s.meta.name;
  base64_encoded = false;
}

-- The arguments that the controller gives to the sidecar parse, whatever the fields of the service
-- hold, and set the flags to the paths of the image, the log level, the address and port of the
-- discovery server and the name of the service.
pub parse-proxy_args : (s : Service) → parse (proxy_args s) default_flags ≡ some (proxy_flags s)
unfolding parse default_flags proxy_args
parse-proxy_args s = refl

-- The discovery server reads the name of the pod back from the node identifier that the sidecar
-- builds from the address and the name of the pod, if neither holds an `@`.
pub node_id-format_node_id :
    (ip name : Text)
    → Lacks b'@' ip
    → Lacks b'@' name
    → node_id (format_node_id ip name) ≡ some name
unfolding node_id format_node_id
node_id-format_node_id ip name h n =
    ground (arith, split-append b'@' ip name h, split-Lacks b'@' name n)

module _ {W : Type 0} (os : Os W) where
  -- A run in which the arguments parse, the template is read, the configuration file is created and
  -- filled from it, and Envoy is started on that file and ends well.
  pub record IsRun (args : List Text) (w w' : W) : Type 0 where
    pub flags : Flags
    pub template : BootstrapConfig → Text
    pub w_created : W
    pub w_started : W
    pub parsed : parse args default_flags ≡ some flags
    pub template_read : os.parse_file flags.bootstrap_template w ≡ some template
    pub file_created : os.create flags.bootstrap_config w ≡ (done, w_created)
    pub envoy_started :
        os.start flags.envoy_binary
          (build_args flags.bootstrap_config flags.log_level)
          (os.write flags.bootstrap_config (template (bootstrap_config os flags w)) w_created)
        ≡ (done, w_started)
    pub envoy_ended : os.wait w_started ≡ (done, w')
