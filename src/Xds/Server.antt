-- ===== src/Xds/Server.antt =====
-- pkg/xds/server.go: the server's state, its event handlers, `ID` and `update`. The informers'
-- caches and the snapshot cache of go-control-plane are parameters.
pub mod Snapshots
pub mod Identity
pub mod Replay
pub mod Endpoints
use lite_mesh.Base.{Text, List, [], ◌∷◌, Option, none, some, split, get_elem?}
use lite_mesh.Kube.{ObjectMeta, Error, Result, ok, err, panic, Selector}
use lite_mesh.Apis.{Rule, Configuration}
use lite_mesh.Client.Listers.{Object, Indexer, configuration_get}
use lite_mesh.Xds.Envoy.{Snapshot}
use lite_mesh.Xds.Listeners.{Jsonpb, build_listeners, build_clusters}

-- `strings.Split(node.Id, "@")[1]`; `none` is the panic of an index out of range.
unfoldable pub node_id : Text → Option Text
node_id id = get_elem? (split b'@' id) 1

-- What the server calls: the caches of configurations and pods as they are when an event is handled,
-- and the snapshot cache with its state `C`.
pub record Backend (S B C : Type 0) : Type 0 where
  pub jsonpb : Jsonpb S B
  pub meta_namespace_key : Object → Result Text
  pub split_meta_namespace_key : Text → Result (Text × Text)
  pub configuration_indexer : Indexer
  pub selector_from_set : List (Text × Text) → Selector
  pub list_pods : Selector → List ObjectMeta × Option Error
  pub set_snapshot : Text → Snapshot S → C → Option Error × C

pub data Event : Type 0 where
  added : Object → Event
  updated : (old new : Object) → Event
  deleted : Object → Event

module _ {S B C : Type 0} (backend : Backend S B C) where
  open backend use {
    jsonpb, meta_namespace_key, split_meta_namespace_key, configuration_indexer, selector_from_set,
    list_pods, set_snapshot,
  }

  -- `xdscache.NewSnapshot` with the version of the configuration and no endpoints or routes.
  abbrev pub rule_snapshot : Configuration → Rule → Snapshot S
  rule_snapshot c rule = record {
    version = c.meta.resource_version;
    clusters = build_clusters rule.clusters;
    listeners = build_listeners jsonpb rule.filters;
  }

  -- `for _, pod := range pods`; an error of `SetSnapshot` is printed.
  pods_loop : Configuration → Rule → List ObjectMeta → C → C
  pods_loop c rule [] cache = cache
  pods_loop c rule (pod ∷ pods) cache =
      pods_loop c rule pods (set_snapshot pod.name (rule_snapshot c rule) cache).1

  -- An error of `List` is printed, and the loop goes on with the pods that it returned.
  abbrev pub rule_pods : Rule → List ObjectMeta
  rule_pods rule = (list_pods (selector_from_set rule.match_labels)).0

  pub rules_loop : Configuration → List Rule → C → C
  unfolding pods_loop
  rules_loop c [] cache = cache
  rules_loop c (rule ∷ rules) cache = rules_loop c rules (pods_loop c rule (rule_pods rule) cache)

  configuration_case : Result Configuration → C → Result (Unit {0}) × C
  unfolding rules_loop
  configuration_case (ok c) cache = (ok tt, rules_loop c c.rules cache)
  configuration_case (err e) cache = (ok tt, cache)
  configuration_case panic cache = (panic, cache)

  split_case : Result (Text × Text) → C → Result (Unit {0}) × C
  unfolding configuration_case
  split_case (ok (namespace, name)) =
      configuration_case (configuration_get configuration_indexer namespace name)
  split_case (err e) = configuration_case (err e)
  split_case panic = configuration_case panic

  key_case : Result Text → C → Result (Unit {0}) × C
  unfolding split_case
  key_case (ok key) = split_case (split_meta_namespace_key key)
  key_case (err e) = configuration_case (err e)
  key_case panic = configuration_case panic

  unfoldable pub update : Object → C → Result (Unit {0}) × C
  unfolding key_case
  update obj = key_case (meta_namespace_key obj)

  -- The handlers that `NewServer` registers: none for a deletion.
  unfoldable pub on_event : Event → C → Result (Unit {0}) × C
  unfolding update
  on_event (added obj) cache = update obj cache
  on_event (updated old new) cache = update new cache
  on_event (deleted obj) cache = (ok tt, cache)
