-- ===== src/Tests/Connection.antt =====
-- A connection of a sidecar of `web`, with the rule of a configuration that selects its label `app`.
use lite_mesh.Base.{
  insert_all, insert, Text, codes, text_dec, split, ite, lookup, List, [], ◌∷◌, Bool, true, false,
  if◌then◌else◌, In, inl, inr, keep, Includes, ◌≡◌, refl, ap, ◌∙◌, arith, ◌&&◌, Option, none, some,
}
use lite_mesh.Kube.{ObjectMeta}
use lite_mesh.Client.Listers.{configuration, configuration_get}
use lite_mesh.Controller.Resource.{create_service_deployment}
use lite_mesh.Xds.Envoy.{Message}
use lite_mesh.Xds.Server.{Backend, update}
use lite_mesh.Bootstrap.{Os, bootstrap_config}
use lite_mesh.Bootstrap.CommandLine.{default_flags}
use lite_mesh.Bootstrap.Connection.{Lists, IsConnected, sidecar-IsConnected}
use lite_mesh.Tests.Objects.{web, rule, routing, http_filter, tcp_filter, meta, controller_ref}
use lite_mesh.Tests.Codec.{Struct, unpack, codec-IsFaithful}
use lite_mesh.Tests.Xds.{Cache, backend, empty, second}
use lite_mesh.Xds.Server.Snapshots.{IsCache}
use lite_mesh.Tests.Bootstrap.{os, sidecar_env}

abbrev has : Option Text → Text → Bool
has none v = false
has (some u) v = ite (text_dec u v) true false

-- Whether a map has each of some entries.
abbrev carries : List (Text × Text) → List (Text × Text) → Bool
carries [] labels = true
carries ((k, v) ∷ m) labels = has (lookup k labels) v && carries m labels

Includes-carries : (m labels : List (Text × Text)) → Includes m labels → carries m labels ≡ true
Includes-carries [] labels h = refl
Includes-carries ((k, v) ∷ m) labels (e, h) = ground (arith, Includes-carries m labels h)

kept :
    (b : Bool) (pod p : ObjectMeta) (pods : List ObjectMeta)
    → In pod pods
    → In pod (if b then p ∷ pods else pods)
kept true pod p pods h = inr h
kept false pod p pods h = h

keep-In :
    (test : ObjectMeta → Bool) (pod : ObjectMeta) (pods : List ObjectMeta)
    → In pod pods
    → test pod ≡ true
    → In pod (keep test pods)
keep-In test pod [] h e = h
keep-In test pod (p ∷ pods) (inl same) e = rw (ap test same ∙ e) (inl same)
keep-In test pod (p ∷ pods) (inr h) e =
    kept (test p) pod p (keep test pods) (keep-In test pod pods h e)

-- A pod of the Deployment of `web`, and another one.
abbrev web_pod : ObjectMeta
web_pod = meta (codes "web-1") (
    (codes "pod-template-hash", codes "5f4d")
    ∷ (create_service_deployment controller_ref web).0.template.meta.labels)

abbrev pods : List ObjectMeta
pods = meta (codes "db-0") [] ∷ web_pod ∷ []

abbrev lister : Backend Struct (Message Struct) Cache
lister = record backend {
  selector_from_set = carries;
  list_pods = λ sel. (keep (λ pod. sel pod.labels) pods, none);
}

lister-Lists : Lists lister pods
lister-Lists labels pod h i =
    keep-In (λ p. carries labels p.labels) pod pods h (Includes-carries labels pod.labels i)

lister-IsCache : IsCache lister (λ node cache. cache node)
lister-IsCache = record { snapshot_set = λ node other s cache. refl }

abbrev in_pod : Os (List Text)
in_pod = record os { getenv = λ k w. sidecar_env k }

sidecar-IsConnected_example :
    IsConnected
      (λ node. (update lister (configuration routing) empty).1 node)
      unpack
      second
      80
      (rule ((codes "app", codes "web") ∷ []) (http_filter ∷ tcp_filter ∷ []))
      (bootstrap_config in_pod default_flags []).node_id
unfolding split text_dec configuration_get lookup create_service_deployment insert_all insert
sidecar-IsConnected_example =
    sidecar-IsConnected in_pod controller_ref lister (λ node cache. cache node) lister-IsCache
      unpack codec-IsFaithful pods lister-Lists web web_pod (codes "10.0.0.7") [] default_flags
      (configuration routing) (codes "default/routing") (codes "default") (codes "routing") routing
      (rule [] (tcp_filter ∷ []) ∷ []) []
      (rule ((codes "app", codes "web") ∷ []) (http_filter ∷ tcp_filter ∷ [])) empty second 80
      (refl, (refl, tt)) (omega arith) (omega arith) (inr (inl refl)) (refl, (refl, tt)) (refl, tt)
      refl refl refl refl refl
