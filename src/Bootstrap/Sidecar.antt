-- ===== src/Bootstrap/Sidecar.antt =====
-- From the mesh service to the snapshot of its sidecar: the three programs put together.
use lite_mesh.Base.{
  Text, text_dec, codes, List, [], Option, some, ite, or_else, All, Lacks, ◌≡◌, refl, ap, ◌∙◌,
}
use lite_mesh.Kube.{Container, EnvSource, plain, field_ref}
use lite_mesh.Apis.{Service}
use lite_mesh.Controller.Resource.{proxy_container, envoy_discovery_address, envoy_discovery_port}
use lite_mesh.Xds.Envoy.{Snapshot}
use lite_mesh.Xds.Server.{Backend, node_id}
use lite_mesh.Xds.Server.Snapshots.{IsCache}
use lite_mesh.Xds.Server.Replay.{Moment, run, last_given, run-last_given}
use lite_mesh.Bootstrap.{Os, BootstrapConfig, bootstrap_config, build_node_id, format_node_id}
use lite_mesh.Bootstrap.CommandLine.{Flags, default_flags, parse}
use lite_mesh.Bootstrap.Start.{proxy_flags, parse-proxy_args, node_id-format_node_id}

-- A pod's fields, as the downward API of Kubernetes names them; other paths are not used.
abbrev pub field_value : (pod_name pod_ip : Text) → EnvSource → Text
field_value pod_name pod_ip (plain v) = v
field_value pod_name pod_ip (field_ref version path) =
    ite (text_dec path (codes "metadata.name")) pod_name
      (ite (text_dec path (codes "status.podIP")) pod_ip [])

-- A process of the container has the environment that the container's variables describe.
abbrev pub HasEnv : {W : Type 0} → Os W → (pod_name pod_ip : Text) → Container → W → Type 0
HasEnv os pod_name pod_ip c w =
    All (λ v. os.getenv v.name w ≡ field_value pod_name pod_ip v.source) c.env

-- What the sidecar knows and gets: it is pointed at the discovery server and the cluster of the
-- service, and the discovery server finds its pod's snapshot under the node id it sends.
pub record IsServed {S : Type 0} (s : Service) (snapshot_of : Text → Option (Snapshot S))
    (wanted : Option (Snapshot S)) (config : BootstrapConfig) : Type 0 where
  pub cluster : config.service_cluster ≡ s.meta.name
  pub address : config.xds.address ≡ envoy_discovery_address s
  pub port : config.xds.port ≡ envoy_discovery_port s
  pub node : Text
  pub identified : node_id config.node_id ≡ some node
  pub snapshot : snapshot_of node ≡ wanted

module _ {W : Type 0} (os : Os W) where
  pub node_id-sidecar :
      (s : Service) (pod ip : Text) (w : W)
      → HasEnv os pod ip (proxy_container s) w
      → build_node_id os w ≡ format_node_id ip pod
  unfolding build_node_id format_node_id text_dec
  node_id-sidecar s pod ip w (name, (address, _)) = rw (name, address) refl

  -- The sidecar that the controller creates for a mesh service, in a pod whose name and address hold
  -- no `@` and whose environment is as the container describes it: the arguments parse to flags with
  -- which the bootstrap configuration names the service as its cluster and points at the discovery
  -- server of the service; and after any run of events the discovery server, asked with the node id
  -- of that configuration, finds the snapshot that the last event for that pod gave to it, or the one
  -- from before the run.
  pub sidecar-IsServed :
      {S B C : Type 0} (backend : Backend S B C) (snapshot_of : Text → C → Option (Snapshot S))
      → IsCache backend snapshot_of
      → (s : Service) (pod ip : Text) (w : W) (ms : List Moment) (cache : C)
      → HasEnv os pod ip (proxy_container s) w
      → Lacks b'@' ip
      → Lacks b'@' pod
      → (flags : Flags) × ((parse (proxy_container s).args default_flags ≡ some flags)
          × IsServed s
              (λ node. snapshot_of node (run backend ms cache).1)
              (or_else (last_given backend ms pod) (snapshot_of pod cache))
              (bootstrap_config os flags w))
  unfolding bootstrap_config
  sidecar-IsServed backend snapshot_of is_cache s pod ip w ms cache env i p = (
    proxy_flags s,
    (
      parse-proxy_args s,
      record {
        cluster = refl;
        address = refl;
        port = refl;
        node = pod;
        identified =
            ap node_id (node_id-sidecar s pod ip w env) ∙ node_id-format_node_id ip pod i p;
        snapshot = run-last_given backend snapshot_of is_cache ms cache pod;
      },
    ),
  )
