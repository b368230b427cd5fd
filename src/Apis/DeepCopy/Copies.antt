-- ===== src/Apis/DeepCopy/Copies.antt =====
-- The deep copies read like their originals and share no memory with them, the gateway left out.
use lite_mesh.Base.{List, ◌++◌, some, length, ◌≡◌, refl, sym, ap, ◌∙◌}
use lite_mesh.Kube.{ObjectMeta, Container}
use lite_mesh.Apis.{ConfigurationList, ServiceList}
use lite_mesh.Apis.Memory.{Copy, and_then, copy_value, copy_ref, copy_both}
use lite_mesh.Apis.Memory.Readers.{
  Reader, IsStable, read_value-IsStable, read_list-IsStable, read_ref-IsStable, read_both-IsStable,
}
use lite_mesh.Apis.Memory.Faithful.{
  IsFaithful, copy_value-IsFaithful, copy_list-IsFaithful, copy_ref-IsFaithful,
  copy_both-IsFaithful, copy_struct-IsFaithful, copy_struct-some, copy_both-second,
}
use lite_mesh.Apis.DeepCopy.{
  Service, ObjectList, Cell, int32_cell, strings_cell, string_map_cell, https_cell, filters_cell,
  clusters_cell, rules_cell, configurations_cell, services_cell, copy_http, copy_filter, copy_rule,
  copy_configuration_spec, copy_configuration, copy_configuration_list, copy_service_spec,
  copy_service, copy_service_list, deep_copy,
}
use lite_mesh.Apis.DeepCopy.Pointers.{service_list_deep_copy, configuration_list_deep_copy}
use lite_mesh.Apis.DeepCopy.Reading.{
  read_http, read_filter, read_rule, read_configuration, read_configuration_list, read_service_spec,
  read_service, read_service_list, read_http-IsStable, read_filter-IsStable, read_rule-IsStable,
  read_configuration-IsStable, read_service_spec-IsStable, read_service-IsStable,
}

module _ {M C : Type 0} where
  copy_http-IsFaithful : IsFaithful {K = Cell M C} copy_http read_http
  unfolding copy_http read_http
  copy_http-IsFaithful =
      copy_struct-IsFaithful _ _ _ _ _ (λ x f. refl) (λ x f v. refl)
        (copy_ref-IsFaithful strings_cell _ _ (λ x. refl) read_value-IsStable copy_value-IsFaithful)

  copy_filter-IsFaithful : IsFaithful {K = Cell M C} copy_filter read_filter
  unfolding copy_filter read_filter
  copy_filter-IsFaithful =
      copy_struct-IsFaithful _ _ _ _ _ (λ x f. refl) (λ x f v. refl)
        (copy_ref-IsFaithful https_cell _ _ (λ x. refl) (read_list-IsStable _ read_http-IsStable)
          (copy_list-IsFaithful _ _ read_http-IsStable copy_http-IsFaithful))

  copy_rule-IsFaithful : IsFaithful {K = Cell M C} copy_rule read_rule
  unfolding copy_rule read_rule
  copy_rule-IsFaithful =
      let filters_stable =
        read_ref-IsStable filters_cell _ (read_list-IsStable _ read_filter-IsStable) in
      let clusters_stable = read_ref-IsStable clusters_cell _ read_value-IsStable in
      copy_struct-IsFaithful _ _ _ _ _ (λ x f. refl) (λ x f v. refl)
        (copy_both-IsFaithful _ _ _ _ (read_ref-IsStable string_map_cell _ read_value-IsStable)
          (read_both-IsStable _ _ filters_stable clusters_stable)
          (copy_ref-IsFaithful string_map_cell _ _ (λ x. refl) read_value-IsStable
            copy_value-IsFaithful)
          (copy_both-IsFaithful _ _ _ _ filters_stable clusters_stable
            (copy_ref-IsFaithful filters_cell _ _ (λ x. refl)
              (read_list-IsStable _ read_filter-IsStable)
              (copy_list-IsFaithful _ _ read_filter-IsStable copy_filter-IsFaithful))
            (copy_ref-IsFaithful clusters_cell _ _ (λ x. refl) read_value-IsStable
              copy_value-IsFaithful)))

  module _ (copy_meta : Copy (Cell M C) M) (read_meta : Reader (Cell M C) M ObjectMeta)
      (meta_stable : IsStable read_meta) (meta_faithful : IsFaithful copy_meta read_meta) where
    copy_configuration-IsFaithful :
        IsFaithful (copy_configuration copy_meta) (read_configuration read_meta)
    unfolding copy_configuration copy_configuration_spec read_configuration
    copy_configuration-IsFaithful =
        copy_struct-IsFaithful _ _ _ _ _ (λ x f. refl) (λ x f v. refl)
          (copy_both-IsFaithful _ _ _ _ meta_stable
            (read_ref-IsStable rules_cell _ (read_list-IsStable _ read_rule-IsStable)) meta_faithful
            (copy_ref-IsFaithful rules_cell _ _ (λ x. refl)
              (read_list-IsStable _ read_rule-IsStable)
              (copy_list-IsFaithful _ _ read_rule-IsStable copy_rule-IsFaithful)))

    copy_configuration_list-IsFaithful :
        IsFaithful (copy_configuration_list copy_meta) (read_configuration_list read_meta)
    unfolding copy_configuration_list read_configuration_list
    copy_configuration_list-IsFaithful =
        let stable = read_configuration-IsStable read_meta meta_stable in
        copy_struct-IsFaithful _ _ _ _ _ (λ x f. refl) (λ x f v. refl)
          (copy_ref-IsFaithful configurations_cell _ _ (λ x. refl) (read_list-IsStable _ stable)
            (copy_list-IsFaithful _ _ stable copy_configuration-IsFaithful))

    module _ (copy_container : Copy (Cell M C) C) (read_container : Reader (Cell M C) C Container)
        (container_stable : IsStable read_container)
        (container_faithful : IsFaithful copy_container read_container) where
      copy_service_spec-IsFaithful :
          IsFaithful (copy_service_spec copy_container) (read_service_spec read_container)
      unfolding copy_service_spec read_service_spec
      copy_service_spec-IsFaithful =
          copy_struct-IsFaithful _ _ _ _ _ (λ x f. refl) (λ x f v. refl)
            (copy_both-IsFaithful _ _ _ _ (read_ref-IsStable int32_cell _ read_value-IsStable)
              container_stable
              (copy_ref-IsFaithful int32_cell _ _ (λ x. refl) read_value-IsStable
                copy_value-IsFaithful)
              container_faithful)

      copy_service-IsFaithful :
          IsFaithful (copy_service copy_meta copy_container) (read_service read_meta read_container)
      unfolding copy_service read_service
      copy_service-IsFaithful =
          copy_struct-IsFaithful _ _ _ _ _ (λ x f. refl) (λ x f v. refl)
            (copy_both-IsFaithful _ _ _ _ meta_stable
              (read_service_spec-IsStable read_meta meta_stable read_container container_stable)
              meta_faithful copy_service_spec-IsFaithful)

      copy_service_list-IsFaithful :
          IsFaithful
            (copy_service_list copy_meta copy_container)
            (read_service_list read_meta read_container)
      unfolding copy_service_list read_service_list
      copy_service_list-IsFaithful =
          let stable =
            read_service-IsStable read_meta meta_stable read_container container_stable in
          copy_struct-IsFaithful _ _ _ _ _ (λ x f. refl) (λ x f v. refl)
            (copy_ref-IsFaithful services_cell _ _ (λ x. refl) (read_list-IsStable _ stable)
              (copy_list-IsFaithful _ _ stable copy_service-IsFaithful))

      -- If the deep copies of the Kubernetes structs are deep: `DeepCopy` of a readable list of services
      -- returns a list that reads the same, the gateways left out. It only allocates, and the copy reads
      -- the same whatever is written to the memory there was before.
      pub deep_copy-service_list :
          (x : ObjectList) (h : List (Cell M C)) (v : ServiceList)
          → read_service_list read_meta read_container h x ≡ some v
          → (out : ObjectList) × ((t : List (Cell M C)) × ((deep_copy
                    (copy_service_list copy_meta copy_container)
                    (some x)
                    h
                  ≡ some (some out, h ++ t))
                × ((g : List (Cell M C))
                    → length g ≡ length h
                    → read_service_list read_meta read_container (g ++ t) out ≡ some v)))
      unfolding service_list_deep_copy deep_copy and_then
      deep_copy-service_list x h v e =
          let (out, (t, (c, r))) = copy_service_list-IsFaithful x h v e in
          (out, (t, (ap (λ o. and_then o (λ y h'. some (some y, h'))) c, r)))

    -- If the deep copy of `ObjectMeta` is deep: `DeepCopy` of a readable list of configurations returns a
    -- list that reads the same. It only allocates, and the copy reads the same whatever is written to
    -- the memory there was before.
    pub deep_copy-configuration_list :
        (x : ObjectList) (h : List (Cell M C)) (v : ConfigurationList)
        → read_configuration_list read_meta h x ≡ some v
        → (out : ObjectList) × ((t : List (Cell M C)) × ((deep_copy
                  (copy_configuration_list copy_meta)
                  (some x)
                  h
                ≡ some (some out, h ++ t))
              × ((g : List (Cell M C))
                  → length g ≡ length h
                  → read_configuration_list read_meta (g ++ t) out ≡ some v)))
    unfolding configuration_list_deep_copy deep_copy and_then
    deep_copy-configuration_list x h v e =
        let (out, (t, (c, r))) = copy_configuration_list-IsFaithful x h v e in
        (out, (t, (ap (λ o. and_then o (λ y h'. some (some y, h'))) c, r)))

  -- The copy of a service refers to the gateway of the original, at the same address: the gateway is
  -- not copied.
  pub copy_service-gateway :
      (copy_meta : Copy (Cell M C) M) (copy_container : Copy (Cell M C) C) (x out : Service M C)
      (h h' : List (Cell M C))
      → copy_service copy_meta copy_container x h ≡ some (out, h')
      → out.spec.gateway ≡ x.spec.gateway
  unfolding copy_service copy_service_spec
  copy_service-gateway copy_meta copy_container x out h h' e =
      let (f, (h1, (c, eq))) =
        copy_struct-some (λ y. (y.meta, y.spec)) (λ y g. record y { meta = g.0; spec = g.1 })
          (copy_both copy_meta (copy_service_spec copy_container)) x out h h' e in
      let (k, (k', c')) =
        copy_both-second copy_meta (copy_service_spec copy_container) x.meta x.spec f h h1 c in
      let (f', (h2, (c'', eq'))) =
        copy_struct-some (λ y. (y.replicas, y.container))
          (λ y g. record y { replicas = g.0; container = g.1 })
          (copy_both (copy_ref int32_cell copy_value) copy_container) x.spec f.1 k k' c' in
      sym (ap (λ s. s.spec.gateway) eq) ∙ sym (ap (λ s. s.gateway) eq')
