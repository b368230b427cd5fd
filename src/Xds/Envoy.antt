-- ===== src/Xds/Envoy.antt =====
-- The Envoy API objects that pkg/xds/server.go builds, as far as it sets their fields. `S` is the
-- library's `types.Struct`, into which a filter's configuration is packed.
use lite_mesh.Base.{ℕ, Text, List, Option}

pub record Route : Type 0 where
  pub prefix : Text
  pub cluster : Text

pub record VirtualHost : Type 0 where
  pub name : Text
  pub domains : List Text
  pub routes : List Route

pub record AccessLog (S : Type 0) : Type 0 where
  pub name : Text
  pub config : Option S

pub record HttpConnectionManager (S : Type 0) : Type 0 where
  pub stat_prefix : Text
  pub access_log : List (AccessLog S)
  pub route_config_name : Text
  pub virtual_hosts : List VirtualHost
  pub http_filters : List Text

-- The messages that `MessageToStruct` is called with.
pub data Message (S : Type 0) : Type 0 where
  tcp_proxy : (stat_prefix cluster : Text) → Message S
  file_access_log : (path : Text) → Message S
  http_connection_manager : HttpConnectionManager S → Message S

pub record NetworkFilter (S : Type 0) : Type 0 where
  pub name : Text
  pub config : Option S

-- `none` is a chain with no `FilterChainMatch`.
pub record FilterChain (S : Type 0) : Type 0 where
  pub destination_port : Option ℕ
  pub filters : List (NetworkFilter S)

pub record Listener (S : Type 0) : Type 0 where
  pub name : Text
  pub address : Text
  pub port : ℕ
  pub listener_filters : List Text
  pub filter_chains : List (FilterChain S)

pub data DiscoveryType : Type 0 where
  strict_dns other_discovery : DiscoveryType

pub data DnsLookupFamily : Type 0 where
  v4_only other_family : DnsLookupFamily

pub record SocketAddress : Type 0 where
  pub address : Text
  pub port : ℕ

pub record EnvoyCluster : Type 0 where
  pub name : Text
  pub connect_timeout_seconds : ℕ
  pub discovery_type : DiscoveryType
  pub hosts : List SocketAddress
  pub dns_lookup_family : DnsLookupFamily

pub record Snapshot (S : Type 0) : Type 0 where
  pub version : Text
  pub clusters : List EnvoyCluster
  pub listeners : List (Listener S)
