-- ===== src/Xds/Server/Endpoints.antt =====
-- Where a connection of a sidecar ends: the listeners of a snapshot together with its clusters.
use lite_mesh.Base.{
  ℕ, Text, text_dec, ite, List, [], ◌∷◌, ◌++◌, append-nil, append_assoc, map, Option, ◌≡◌, refl,
  sym, ap, ◌∙◌, arith,
}
use lite_mesh.Apis.{Cluster, Rule, Configuration}
use lite_mesh.Xds.Envoy.{Message, SocketAddress, EnvoyCluster}
use lite_mesh.Xds.Listeners.{envoy_cluster, clusters_loop, build_clusters}
use lite_mesh.Xds.Listeners.Routing.{
  Target, to_cluster, no_host, refused, routed, wanted, IsFaithful, routed-build_listeners,
}
use lite_mesh.Xds.Server.{Backend, rule_snapshot}

-- The addresses of the first cluster of that name; without one, Envoy closes the connection.
abbrev pub hosts_of : Text → List EnvoyCluster → List SocketAddress
hosts_of name [] = []
hosts_of name (c ∷ cs) = ite (text_dec c.name name) c.hosts (hosts_of name cs)

abbrev pub reached : Target → List EnvoyCluster → List SocketAddress
reached (to_cluster name) clusters = hosts_of name clusters
reached no_host clusters = []
reached refused clusters = []

-- The host and the port that a rule's clusters give to a name.
abbrev pub address_of : Text → List Cluster → List SocketAddress
address_of name [] = []
address_of name (c ∷ cs) =
    ite (text_dec c.name name) (record { address = c.host; port = c.port } ∷ [])
      (address_of name cs)

abbrev pub asked : Target → List Cluster → List SocketAddress
asked (to_cluster name) clusters = address_of name clusters
asked no_host clusters = []
asked refused clusters = []

clusters_loop-map :
    (cs : List Cluster) (acc : List EnvoyCluster)
    → clusters_loop cs acc ≡ acc ++ map envoy_cluster cs
unfolding clusters_loop
clusters_loop-map [] acc = sym (append-nil acc)
clusters_loop-map (c ∷ cs) acc = simp (clusters_loop-map cs, append_assoc)

hosts_of-map :
    (name : Text) (cs : List Cluster) → hosts_of name (map envoy_cluster cs) ≡ address_of name cs
hosts_of-map name [] = refl
hosts_of-map name (c ∷ cs) = ground (arith, hosts_of-map name cs)

reached-build_clusters :
    (t : Target) (cs : List Cluster) → reached t (build_clusters cs) ≡ asked t cs
unfolding build_clusters
reached-build_clusters (to_cluster name) cs =
    ap (hosts_of name) (clusters_loop-map cs []) ∙ hosts_of-map name cs
reached-build_clusters no_host cs = refl
reached-build_clusters refused cs = refl

-- A sidecar with the snapshot of a rule connects to the host and port that the rule declares for the
-- cluster of the entry or of the TCP filter, in the first filter that names the port and the first
-- cluster of that name; to nothing if no cluster has that name, as for the black hole of the ports
-- that no filter names. The codec is assumed to be faithful; which set of domains answers for a host
-- is left open.
pub rule_snapshot-reached :
    {S B C : Type 0} (backend : Backend S B C) (decode : S → Message S)
    → IsFaithful backend.jsonpb decode
    → (pick : List (List Text) → Option ℕ) (c : Configuration) (rule : Rule) (port : ℕ)
    → let snapshot = rule_snapshot backend c rule in
      reached (routed pick decode port snapshot.listeners) snapshot.clusters
      ≡ asked (wanted pick port rule.filters) rule.clusters
rule_snapshot-reached backend decode faithful pick c rule port =
    ap (λ t. reached t (build_clusters rule.clusters))
      (routed-build_listeners backend.jsonpb decode faithful pick port rule.filters)
    ∙ reached-build_clusters (wanted pick port rule.filters) rule.clusters
