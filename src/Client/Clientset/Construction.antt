-- ===== src/Client/Clientset/Construction.antt =====
-- When the construction of a clientset succeeds, and with which configs.
use lite_mesh.Base.{some, Bool, false, ◌≡◌, refl, sym, ◌&&◌, if◌then◌else◌, ap, ◌∙◌}
use lite_mesh.Kube.{Result, ok, err, panic}
use lite_mesh.Client.Clientset.{
  Config, ClientGo, or_die, is_none, mesh_for_config, mesh_for_config_or_die, with_rate_limiter,
  with_discovery, with_mesh, new_for_config, new_for_config_or_die,
}

module _ {C D : Type 0} where
  with_mesh-die :
      {F L N : Type 0} (go : ClientGo F L N C D) (m : Result C) (d : Result D)
      → with_mesh go (or_die m) (or_die d) ≡ or_die (with_mesh go m d)
  unfolding with_mesh with_discovery
  with_mesh-die go (ok m) (ok d) = refl
  with_mesh-die go (ok m) (err e) = refl
  with_mesh-die go (ok m) panic = refl
  with_mesh-die go (err e) d = refl
  with_mesh-die go panic d = refl

module _ {F L N C D : Type 0} (go : ClientGo F L N C D) where
  abbrev limited : Config F L N → Bool → Config F L N
  limited c b = record c {
    rate_limiter =
        if b then some (go.new_token_bucket_rate_limiter c.qps c.burst) else c.rate_limiter;
  }

  unlimited :
      (c : Config F L N)
      → (is_none c.rate_limiter && go.is_positive c.qps) ≡ false
      → with_rate_limiter go c ≡ c
  unfolding with_rate_limiter
  unlimited c h =
      ap
        (λ b.
          if b
          then record c { rate_limiter = some (go.new_token_bucket_rate_limiter c.qps c.burst) }
          else c)
        h

  -- If the discovery client's own `OrDie` panics exactly where its constructor fails, and the config
  -- needs no new rate limiter: `NewForConfigOrDie` returns the clientset that `NewForConfig` returns,
  -- and panics where that one reports an error.
  pub new_for_config_or_die-or_die :
      ((config : Config F L N)
        → go.new_discovery_client_for_config_or_die config
          ≡ or_die (go.new_discovery_client_for_config config))
      → (c : Config F L N) → (is_none c.rate_limiter && go.is_positive c.qps) ≡ false
      → new_for_config_or_die go c ≡ or_die (new_for_config go c)
  unfolding new_for_config new_for_config_or_die mesh_for_config_or_die
  new_for_config_or_die-or_die dies c h =
      ap (with_mesh go (or_die (mesh_for_config go c))) (dies c)
      ∙ with_mesh-die go (mesh_for_config go c) (go.new_discovery_client_for_config c)
      ∙ ap
          (λ k. or_die (with_mesh go (mesh_for_config go k) (go.new_discovery_client_for_config k)))
          (sym (unlimited c h))
