-- ===== src/Tests/Xds.antt =====
-- The theorems on the discovery server, at one configuration and two pods.
use lite_mesh.Base.{
  Lacks, ◌↔◌, ℕ, Text, codes, text_dec, ite, split, List, [], ◌∷◌, map, Option, none, some, true,
  ◌≡◌, refl, Distinct, arith, or_else,
}
use lite_mesh.Kube.{ObjectMeta, Error, Selector, failure, Result, ok, err}
use lite_mesh.Client.Listers.{Object, service, configuration, other, Indexer, index_key}
use lite_mesh.Xds.Envoy.{Message, Snapshot}
use lite_mesh.Xds.Listeners.{build_listeners}
use lite_mesh.Xds.Listeners.Routing.{routed, wanted, routed-build_listeners}
use lite_mesh.Xds.Listeners.Names.{built_vhosts, built_vhosts-Distinct}
use lite_mesh.Xds.Server.{rule_snapshot, Backend, added, updated, deleted, node_id}
use lite_mesh.Xds.Server.Snapshots.{IsCache}
use lite_mesh.Xds.Server.Endpoints.{reached, asked, rule_snapshot-reached}
use lite_mesh.Xds.Server.Replay.{Moment, run, last_given, run-last_given}
use lite_mesh.Tests.Objects.{rule, routing, http_filter, tcp_filter, meta}
use lite_mesh.Tests.Cluster.{split_parts}
use lite_mesh.Tests.Codec.{Struct, codec, unpack, codec-IsFaithful}
use lite_mesh.Xds.Server.Identity.{node_id-none_iff}

-- The second set of domains answers.
pub second : List (List Text) → Option ℕ
second domains = some 1

routed-build_listeners_example :
    routed second unpack 80 (build_listeners codec (tcp_filter ∷ http_filter ∷ []))
    ≡ wanted second 80 (tcp_filter ∷ http_filter ∷ [])
routed-build_listeners_example =
    routed-build_listeners codec unpack codec-IsFaithful second 80 (tcp_filter ∷ http_filter ∷ [])

built_vhosts-Distinct_example :
    Distinct (map (λ v. v.name) (built_vhosts (tcp_filter ∷ http_filter ∷ [])))
built_vhosts-Distinct_example =
    built_vhosts-Distinct (tcp_filter ∷ http_filter ∷ []) ((λ e. omega arith, tt), (tt, tt))

abbrev pub Cache : Type 0
Cache = Text → Option (Snapshot Struct)

abbrev pub index : Indexer
index = record {
  get_by_key =
      λ k. ok (ite (text_dec (codes "default/routing") k) (some (configuration routing)) none);
  list_all = λ sel. ([], none);
  list_all_by_namespace = λ ns sel. ([], none);
}

abbrev object_key : Object → Result Text
object_key (configuration c) = ok (index_key c.meta.namespace c.meta.name)
object_key (service s) = ok (index_key s.meta.namespace s.meta.name)
object_key other = err (failure [])

abbrev pub backend : Backend Struct (Message Struct) Cache
backend = record {
  jsonpb = codec;
  meta_namespace_key = object_key;
  split_meta_namespace_key = λ k. split_parts (split b'/' k);
  configuration_indexer = index;
  selector_from_set = λ m labels. true;
  list_pods = λ sel. (meta (codes "web-0") [] ∷ meta (codes "web-1") [] ∷ [], none);
  set_snapshot = λ node s cache. (none, λ other. ite (text_dec node other) (some s) (cache other));
}

pub backend-IsCache : IsCache backend (λ node cache. cache node)
backend-IsCache = record { snapshot_set = λ node other s cache. refl }

abbrev pub empty : Cache
empty node = none

abbrev both_pods : Selector → List ObjectMeta × Option Error
both_pods sel = (meta (codes "web-0") [] ∷ meta (codes "web-1") [] ∷ [], none)

-- The configuration is added, a thing that is not one is updated, and the configuration is deleted.
abbrev pub history : List Moment
history =
    record { event = added (configuration routing); configurations = index; pods = both_pods }
    ∷ record { event = updated other other; configurations = index; pods = both_pods }
    ∷ record { event = deleted (configuration routing); configurations = index; pods = both_pods }
    ∷ []

run-last_given_example :
    (run backend history empty).1 (codes "web-1")
    ≡ or_else (last_given backend history (codes "web-1")) none
run-last_given_example =
    run-last_given backend (λ node cache. cache node) backend-IsCache history empty (codes "web-1")

node_id-none_iff_example : (node_id (codes "sidecar") ≡ none) ↔ Lacks b'@' (codes "sidecar")
node_id-none_iff_example = node_id-none_iff (codes "sidecar")

rule_snapshot-reached_example :
    let snapshot = rule_snapshot backend routing (rule [] (tcp_filter ∷ [])) in
    reached (routed second unpack 5432 snapshot.listeners) snapshot.clusters
    ≡ asked (wanted second 5432 (tcp_filter ∷ [])) (rule [] (tcp_filter ∷ [])).clusters
rule_snapshot-reached_example =
    rule_snapshot-reached backend unpack codec-IsFaithful second routing (rule [] (tcp_filter ∷ []))
      5432
