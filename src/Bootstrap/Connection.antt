-- ===== src/Bootstrap/Connection.antt =====
-- From a mesh service and a configuration to a connection: the pods that the controller's Deployment
-- makes, the snapshot that the discovery server gives them, and the node id that their sidecars send.
use lite_mesh.Base.{
  ℕ, Text, List, [], ◌∷◌, ◌++◌, Option, none, some, or_else, All-imp, In, inl, inr, Includes,
  lookup-Includes, Lacks, ◌≡◌, ap, ◌∙◌, arith,
}
use lite_mesh.Kube.{ObjectMeta, OwnerReference, GroupVersionKind, ok}
use lite_mesh.Apis.{Service, Rule, Configuration}
use lite_mesh.Client.Listers.{Object, configuration_get}
use lite_mesh.Controller.Resource.{proxy_container, create_service_deployment}
use lite_mesh.Xds.Envoy.{Message, Snapshot}
use lite_mesh.Xds.Listeners.Routing
use lite_mesh.Xds.Server.{Backend, rule_snapshot, rule_pods, update, node_id}
use lite_mesh.Xds.Server.Snapshots.{IsCache, listed, wanted, update-wanted}
use lite_mesh.Xds.Server.Endpoints.{reached, asked, rule_snapshot-reached}
use lite_mesh.Bootstrap.{Os, bootstrap_config}
use lite_mesh.Bootstrap.CommandLine.{Flags}
use lite_mesh.Bootstrap.Start.{node_id-format_node_id}
use lite_mesh.Bootstrap.Sidecar.{HasEnv, node_id-sidecar}

-- The pod lister finds each of some pods by any labels that the pod carries.
abbrev pub Lists : {S B C : Type 0} → Backend S B C → List ObjectMeta → Type 0
Lists backend pods =
    (labels : List (Text × Text)) (pod : ObjectMeta)
    → In pod pods
    → Includes labels pod.labels
    → In pod (backend.list_pods (backend.selector_from_set labels)).0

listed-In :
    {A : Type 0} (pod : ObjectMeta) (pods : List ObjectMeta) (a : A)
    → In pod pods
    → listed pod.name pods a ≡ some a
listed-In pod [] a h = elim h [ ]
listed-In pod (p ∷ pods) a (inl e) = ground (arith, ap (λ m. m.name) e)
listed-In pod (p ∷ pods) a (inr h) = ground (arith, listed-In pod pods a h)

Includes-trans : (l m n : List (Text × Text)) → Includes l m → Includes m n → Includes l n
Includes-trans l m n h k = All-imp _ _ l (λ e f. lookup-Includes e.0 e.1 m n k f) h

module _ {S B C : Type 0} (backend : Backend S B C) where
  -- The rule that selects the pod, and that no later one overrides, gives the snapshot.
  wanted-selected :
      (c : Configuration) (before later : List Rule) (rule : Rule) (pod : ObjectMeta)
      → In pod (rule_pods backend rule)
      → wanted backend c later pod.name ≡ none
      → wanted backend c (before ++ rule ∷ later) pod.name ≡ some (rule_snapshot backend c rule)
  wanted-selected c [] later rule pod h n =
      rw n (listed-In pod (rule_pods backend rule) (rule_snapshot backend c rule) h)
  wanted-selected c (b ∷ before) later rule pod h n =
      ap (λ o. or_else o (listed pod.name (rule_pods backend b) (rule_snapshot backend c b)))
        (wanted-selected c before later rule pod h n)

-- A sidecar that sends the node id is given a snapshot, with which its connections to the port go where
-- the rule says.
pub record IsConnected {S : Type 0} (snapshot_of : Text → Option (Snapshot S))
    (decode : S → Message S) (pick : List (List Text) → Option ℕ) (port : ℕ) (rule : Rule)
    (sent : Text) : Type 0 where
  pub node : Text
  pub identified : node_id sent ≡ some node
  pub snapshot : Snapshot S
  pub given : snapshot_of node ≡ some snapshot
  pub connected :
      reached (Routing.routed pick decode port snapshot.listeners) snapshot.clusters
      ≡ asked (Routing.wanted pick port rule.filters) rule.clusters

module _ {W : Type 0} (os : Os W)
    (new_controller_ref : ObjectMeta → GroupVersionKind → OwnerReference) {S B C : Type 0}
    (backend : Backend S B C) (snapshot_of : Text → C → Option (Snapshot S))
    (is_cache : IsCache backend snapshot_of) (decode : S → Message S)
    (faithful : Routing.IsFaithful backend.jsonpb decode) (pods : List ObjectMeta)
    (lists : Lists backend pods) where
  -- A rule of a configuration whose labels are among those that the controller gives to the pods of a
  -- mesh service decides about the connections of those pods: when an event for the configuration has
  -- been handled, with the configuration in the cache and no later rule of it for the pod, the sidecar
  -- of each listed pod with the labels of the service's Deployment sends a node id under which the
  -- discovery server finds a snapshot; and with this snapshot a connection ends at the host and port
  -- that the rule declares for it, or nowhere where the rule declares none. The pod's name and address
  -- hold no `@`, and its environment is as its container describes it; the codec is faithful, and the
  -- lister finds pods by any labels that they carry; which set of domains answers is left open.
  pub sidecar-IsConnected :
      (s : Service) (pod : ObjectMeta) (ip : Text) (w : W) (flags : Flags) (obj : Object)
      (key ns name : Text) (c : Configuration) (before later : List Rule) (rule : Rule) (cache : C)
      (pick : List (List Text) → Option ℕ) (port : ℕ)
      → HasEnv os pod.name ip (proxy_container s) w
      → Lacks b'@' ip
      → Lacks b'@' pod.name
      → In pod pods
      → Includes (create_service_deployment new_controller_ref s).0.template.meta.labels pod.labels
      → Includes rule.match_labels
          (create_service_deployment new_controller_ref s).0.template.meta.labels
      → backend.meta_namespace_key obj ≡ ok key
      → backend.split_meta_namespace_key key ≡ ok (ns, name)
      → configuration_get backend.configuration_indexer ns name ≡ ok c
      → c.rules ≡ before ++ rule ∷ later
      → wanted backend c later pod.name ≡ none
      → IsConnected
          (λ node. snapshot_of node (update backend obj cache).1)
          decode
          pick
          port
          rule
          (bootstrap_config os flags w).node_id
  unfolding bootstrap_config
  sidecar-IsConnected s pod ip w flags obj key ns name c before later rule cache pick port env i p
        listed_pod of_service selects k sp g rules last =
      record {
        node = pod.name;
        identified =
            ap node_id (node_id-sidecar os s pod.name ip w env)
            ∙ node_id-format_node_id ip pod.name i p;
        snapshot = rule_snapshot backend c rule;
        given =
            update-wanted backend snapshot_of is_cache obj key ns name c cache pod.name k sp g
            ∙ ap (λ o. or_else o (snapshot_of pod.name cache))
                (ap (λ rs. wanted backend c rs pod.name) rules
                  ∙ wanted-selected backend c before later rule pod
                      (lists rule.match_labels pod listed_pod
                        (Includes-trans rule.match_labels _ pod.labels selects of_service))
                      last);
        connected = rule_snapshot-reached backend decode faithful pick c rule port;
      }
