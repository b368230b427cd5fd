-- ===== src/Xds/Listeners.antt =====
-- pkg/xds/server.go: `MessageToStruct`, `buildListeners` and `buildClusters`.
pub mod Routing
pub mod Names
use lite_mesh.Base.{ℕ, suc, ◌+◌, Text, codes, format, List, [], ◌∷◌, ◌++◌, Option, none, some}
use lite_mesh.Apis.{Filter, Http, Cluster}
use lite_mesh.Xds.Envoy.{
  Route, VirtualHost, AccessLog, HttpConnectionManager, Message, tcp_proxy, file_access_log,
  http_connection_manager, NetworkFilter, FilterChain, Listener, strict_dns, v4_only, SocketAddress,
  EnvoyCluster,
}

-- The JSON codec of protobuf messages, over buffers `B`; `none` is an error.
pub record Jsonpb (S B : Type 0) : Type 0 where
  pub marshal : Message S → Option B
  pub unmarshal : B → Option S

-- `fmt.Sprintf("http-%d-%d", port, i)`.
unfoldable pub vhost_name : ℕ → ℕ → Text
vhost_name port i = codes "http-" ++ format port ++ b'-' ∷ format i

abbrev pub vhost : ℕ → ℕ → Http → VirtualHost
vhost port i v = record {
  name = vhost_name port i;
  domains = v.domains;
  routes = record { prefix = codes "/"; cluster = v.cluster } ∷ [];
}

-- `for i, v := range filter.Http`.
unfoldable pub vhosts_loop : ℕ → ℕ → List Http → List VirtualHost → List VirtualHost
vhosts_loop port i [] vhosts = vhosts
vhosts_loop port i (v ∷ vs) vhosts = vhosts_loop port (i + 1) vs (vhosts ++ vhost port i v ∷ [])

abbrev pub black_hole : Text
black_hole = codes "BlackHoleCluster"

module _ {S B : Type 0} (jsonpb : Jsonpb S B) where
  unmarshal_marshalled : Option B → Option S
  unmarshal_marshalled none = none
  unmarshal_marshalled (some buf) = jsonpb.unmarshal buf

  -- `none` is nil.
  unfoldable pub message_to_struct : Message S → Option S
  unfolding unmarshal_marshalled
  message_to_struct msg = unmarshal_marshalled (jsonpb.marshal msg)

  abbrev pub http_filter : ℕ → List VirtualHost → NetworkFilter S
  http_filter port vhosts = record {
    name = codes "envoy.http_connection_manager";
    config = message_to_struct (
        http_connection_manager (record {
          stat_prefix = codes "http-" ++ format port;
          access_log =
              record {
                name = codes "envoy.file_access_log";
                config = message_to_struct (file_access_log (codes "/dev/stdout"));
              }
              ∷ [];
          route_config_name = codes "http-route-" ++ format port;
          virtual_hosts = vhosts;
          http_filters = codes "envoy.router" ∷ [];
        }));
  }

  abbrev pub tcp_filter : Text → Text → NetworkFilter S
  tcp_filter stat_prefix cluster = record {
    name = codes "envoy.tcp_proxy";
    config = message_to_struct (tcp_proxy stat_prefix cluster);
  }

  -- The filters of the chain: HTTP if the filter has an entry for it, else TCP.
  chain_filters : Filter → List Http → List (NetworkFilter S)
  unfolding vhosts_loop
  chain_filters f [] = tcp_filter (codes "tcp-" ++ format f.port) f.tcp.cluster ∷ []
  chain_filters f (h ∷ hs) = http_filter f.port (vhosts_loop f.port 0 (h ∷ hs) []) ∷ []

  abbrev chain : Filter → FilterChain S
  chain f = record { destination_port = some f.port; filters = chain_filters f f.http }

  chains_loop : List Filter → List (FilterChain S) → List (FilterChain S)
  unfolding chain_filters
  chains_loop [] fchain = fchain
  chains_loop (f ∷ fs) fchain = chains_loop fs (fchain ++ chain f ∷ [])

  abbrev pub black_hole_chain : FilterChain S
  black_hole_chain = record {
    destination_port = none;
    filters = tcp_filter black_hole black_hole ∷ [];
  }

  unfoldable pub build_listeners : List Filter → List (Listener S)
  unfolding chains_loop
  build_listeners filters =
      record {
        name = codes "virtual";
        address = codes "0.0.0.0";
        port = 15001;
        listener_filters = codes "envoy.listener.original_dst" ∷ [];
        filter_chains = chains_loop filters (black_hole_chain ∷ []);
      }
      ∷ []

abbrev pub envoy_cluster : Cluster → EnvoyCluster
envoy_cluster c = record {
  name = c.name;
  connect_timeout_seconds = 10;
  discovery_type = strict_dns;
  hosts = record { address = c.host; port = c.port } ∷ [];
  dns_lookup_family = v4_only;
}

unfoldable pub clusters_loop : List Cluster → List EnvoyCluster → List EnvoyCluster
clusters_loop [] envoy_clusters = envoy_clusters
clusters_loop (c ∷ cs) envoy_clusters = clusters_loop cs (envoy_clusters ++ envoy_cluster c ∷ [])

unfoldable pub build_clusters : List Cluster → List EnvoyCluster
unfolding clusters_loop
build_clusters clusters = clusters_loop clusters []
