-- ===== src/Commands/Startup.antt =====
-- What has happened when a program serves.
use lite_mesh.Base.{ℕ, ◌*◌, Text, List, [], ◌∷◌, none, some, true, lookup, ◌≡◌}
use lite_mesh.Kube.{ok}
use lite_mesh.Client.Informers.{
  Client, Factory, service_type, configuration_type, new_filtered_service_informer,
  new_filtered_configuration_informer, namespace_index,
}
use lite_mesh.Client.Informers.Starting.{IsStarted}
use lite_mesh.Commands.{Libraries, second}

module _ {O R G C K : Type 0} (lib : Libraries O R G C K) where
  -- What is so when the controller serves.
  abbrev pub ControllerServes : Text → Text → K → Factory O R → List Text → ℕ → Type 0
  ControllerServes master_url kubeconfig k f running n =
      (cfg : G) × ((kube : C) × ((mesh : Client O R) × ((lib.build_config_from_flags master_url
                kubeconfig
              ≡ ok cfg)
            × (lib.kube_for_config cfg ≡ ok kube)
            × (lib.mesh_for_config cfg ≡ ok mesh)
            × (k
                ≡ lib.start_kube
                    (lib.k8s_services (lib.deployments (lib.new_kube_factory kube (30 * second)))))
            × (running ≡ service_type ∷ [])
            × IsStarted f.started_informers service_type
            × (lookup service_type f.informers
                ≡ some (
                    new_filtered_service_informer mesh [] (30 * second) (namespace_index ∷ [])
                      none))
            × (lib.wait_for_cache_sync k running ≡ true)
            × (n ≡ 2))))

  -- What is so when the discovery server serves.
  abbrev pub DiscoveryServes : Text → Text → K → Factory O R → List Text → ℕ → Type 0
  DiscoveryServes master_url kubeconfig k f running n =
      (cfg : G) × ((kube : C) × ((mesh : Client O R) × ((lib.build_config_from_flags master_url
                kubeconfig
              ≡ ok cfg)
            × (lib.kube_for_config cfg ≡ ok kube)
            × (lib.mesh_for_config cfg ≡ ok mesh)
            × (k ≡ lib.start_kube (lib.pods (lib.new_kube_factory kube (10 * second))))
            × (running ≡ configuration_type ∷ [])
            × IsStarted f.started_informers configuration_type
            × (lookup configuration_type f.informers
                ≡ some (
                    new_filtered_configuration_informer mesh [] (10 * second) (namespace_index ∷ [])
                      none))
            × (lib.wait_for_cache_sync k running ≡ true)
            × (n ≡ 0))))
