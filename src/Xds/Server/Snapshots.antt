-- ===== src/Xds/Server/Snapshots.antt =====
-- Which snapshot each pod has after an update.
use lite_mesh.Base.{
  Text, text_dec, List, [], ◌∷◌, Option, none, some, ite, ◌≡◌, ◌≢◌, refl, ◌∙◌, arith, or_else,
  or_else_assoc, ap, ◌⊎◌, inl,
}
use lite_mesh.Kube.{ObjectMeta, Result, ok, err, panic}
use lite_mesh.Apis.{Rule, Configuration}
use lite_mesh.Client.Listers.{Object, configuration_get}
use lite_mesh.Xds.Envoy.{Snapshot}
use lite_mesh.Xds.Server.{
  Backend, rule_snapshot, pods_loop, rule_pods, rules_loop, configuration_case, split_case,
  key_case, update,
}

-- `snapshot_of` reads the snapshot of a node. Setting the snapshot of a node replaces that one only.
pub record IsCache {S B C : Type 0} (backend : Backend S B C)
    (snapshot_of : Text → C → Option (Snapshot S)) : Type 0 where
  pub snapshot_set :
      (node other : Text) (s : Snapshot S) (cache : C)
      → snapshot_of other (backend.set_snapshot node s cache).1
        ≡ ite (text_dec node other) (some s) (snapshot_of other cache)

-- Whether a pod of that name is listed.
abbrev pub listed : {A : Type 0} → Text → List ObjectMeta → A → Option A
listed node [] a = none
listed node (pod ∷ pods) a = ite (text_dec pod.name node) (some a) (listed node pods a)

listed-cases :
    {A : Type 0} (node : Text) (pods : List ObjectMeta) (a : A)
    → (listed node pods a ≡ none) ⊎ (listed node pods a ≡ some a)
listed-cases node [] a = inl refl
listed-cases node (pod ∷ pods) a = ground (arith, listed-cases node pods a)

module _ {S B C : Type 0} (backend : Backend S B C) where
  -- The snapshot that the rules give to a pod: that of the last rule that selects it.
  abbrev pub wanted : Configuration → List Rule → Text → Option (Snapshot S)
  wanted c [] node = none
  wanted c (rule ∷ rules) node =
      or_else (wanted c rules node)
        (listed node (rule_pods backend rule) (rule_snapshot backend c rule))

  module _ (snapshot_of : Text → C → Option (Snapshot S))
      (is_cache : IsCache backend snapshot_of) where
    pods_loop-listed :
        (c : Configuration) (rule : Rule) (pods : List ObjectMeta) (cache : C) (node : Text)
        → snapshot_of node (pods_loop backend c rule pods cache)
          ≡ or_else (listed node pods (rule_snapshot backend c rule)) (snapshot_of node cache)
    unfolding pods_loop
    pods_loop-listed c rule [] cache node = refl
    pods_loop-listed c rule (pod ∷ pods) cache node =
        let s = rule_snapshot backend c rule in
        ground (
          arith,
          pods_loop-listed c rule pods (backend.set_snapshot pod.name s cache).1 node,
          is_cache.snapshot_set pod.name node s cache,
          listed-cases node pods s,
        )

    pub rules_loop-wanted :
        (c : Configuration) (rules : List Rule) (cache : C) (node : Text)
        → snapshot_of node (rules_loop backend c rules cache)
          ≡ or_else (wanted c rules node) (snapshot_of node cache)
    unfolding rules_loop
    rules_loop-wanted c [] cache node = refl
    rules_loop-wanted c (rule ∷ rules) cache node =
        rules_loop-wanted c rules (pods_loop backend c rule (rule_pods backend rule) cache) node
        ∙ ap (or_else (wanted c rules node))
            (pods_loop-listed c rule (rule_pods backend rule) cache node)
        ∙ or_else_assoc (wanted c rules node) _ (snapshot_of node cache)

    -- Handling an event for a configuration in the cache gives each pod the snapshot of the last of
    -- its rules that selects the pod, and leaves the snapshot of every other pod as it was.
    pub update-wanted :
        (obj : Object) (key ns name : Text) (c : Configuration) (cache : C) (node : Text)
        → backend.meta_namespace_key obj ≡ ok key
        → backend.split_meta_namespace_key key ≡ ok (ns, name)
        → configuration_get backend.configuration_indexer ns name ≡ ok c
        → snapshot_of node (update backend obj cache).1
          ≡ or_else (wanted c c.rules node) (snapshot_of node cache)
    unfolding update key_case split_case configuration_case
    update-wanted obj key ns name c cache node k s g =
        rw (k, s, g) (rules_loop-wanted c c.rules cache node)

  configuration_case-lost :
      (r : Result Configuration) (cache : C)
      → ((c : Configuration) → r ≢ ok c)
      → (configuration_case backend r cache).1 ≡ cache
  unfolding configuration_case
  configuration_case-lost (ok c) cache h = absurd (h c refl)
  configuration_case-lost (err e) cache h = refl
  configuration_case-lost panic cache h = refl

  split_case-lost :
      (r : Result (Text × Text)) (cache : C)
      → ((ns name : Text) (c : Configuration)
          → r ≡ ok (ns, name)
          → configuration_get backend.configuration_indexer ns name ≢ ok c)
      → (split_case backend r cache).1 ≡ cache
  unfolding split_case configuration_case
  split_case-lost (ok (ns, name)) cache h = configuration_case-lost _ cache (λ c. h ns name c refl)
  split_case-lost (err e) cache h = refl
  split_case-lost panic cache h = refl

  key_case-lost :
      (r : Result Text) (cache : C)
      → ((key ns name : Text) (c : Configuration)
          → r ≡ ok key
          → backend.split_meta_namespace_key key ≡ ok (ns, name)
          → configuration_get backend.configuration_indexer ns name ≢ ok c)
      → (key_case backend r cache).1 ≡ cache
  unfolding key_case configuration_case
  key_case-lost (ok key) cache h =
      split_case-lost (backend.split_meta_namespace_key key) cache
        (λ ns name c. h key ns name c refl)
  key_case-lost (err e) cache h = refl
  key_case-lost panic cache h = refl

  -- An event for an object that has no key, whose key does not split, or whose configuration is not
  -- read from the cache leaves the snapshot cache as it was.
  pub update-lost :
      (obj : Object) (cache : C)
      → ((key ns name : Text) (c : Configuration)
          → backend.meta_namespace_key obj ≡ ok key
          → backend.split_meta_namespace_key key ≡ ok (ns, name)
          → configuration_get backend.configuration_indexer ns name ≢ ok c)
      → (update backend obj cache).1 ≡ cache
  unfolding update
  update-lost obj cache h = key_case-lost (backend.meta_namespace_key obj) cache h
