-- ===== src/Commands.antt =====
-- cmd/controller/controller.go and cmd/discovery/discovery.go: the `main` functions, from the parsed
-- flags to the wait for `stopCh`, with what `New` of pkg/controller and `NewServer` of pkg/xds do to
-- the informers. `O` and `R` are as in the informers, `G` stands for a `rest.Config`, `C` for a
-- Kubernetes clientset and `K` for the factory of the Kubernetes informers.
pub mod Flags
pub mod Startup
pub mod Serving
use lite_mesh.Base.{ℕ, ◌*◌, Text, codes, List, [], ◌∷◌, Option, Bool, true, false}
use lite_mesh.Kube.{Error, Result, ok, err, panic}
use lite_mesh.Client.Informers.{
  Client, Factory, SharedIndexInformer, services_informer, configurations_informer,
  new_shared_informer_factory, start,
}

-- The libraries and the operating system. `wait_for_cache_sync` waits for the informers that are
-- running; the last argument of it says which of the mesh informers are.
pub record Libraries (O R G C K : Type 0) : Type 0 where
  pub build_config_from_flags : (master_url kubeconfig : Text) → Result G
  pub kube_for_config : G → Result C
  pub mesh_for_config : G → Result (Client O R)
  pub new_kube_factory : C → ℕ → K
  pub deployments : K → K
  pub k8s_services : K → K
  pub pods : K → K
  pub start_kube : K → K
  pub wait_for_cache_sync : K → List Text → Bool

-- A program that serves until `stopCh` is closed, with its number of workers; one that `log.Fatal` has
-- ended, with its message up to the text of the error; and one that panicked.
pub data Outcome (O R K : Type 0) : Type 0 where
  serving : K → Factory O R → List Text → ℕ → Outcome O R K
  fatal : Text → Outcome O R K
  crashed : Outcome O R K

-- `time.Second`, in nanoseconds.
abbrev pub second : ℕ
second = 1000000000

abbrev pub threads_per_controller : ℕ
threads_per_controller = 2

module _ {O R G C K : Type 0} (lib : Libraries O R G C K) where
  -- `Lister` makes the informer, too.
  abbrev services_lister : Factory O R → Factory O R
  services_lister f = (services_informer f).1

  abbrev configurations_lister : Factory O R → Factory O R
  configurations_lister f = (configurations_informer f).1

  -- `controller.New`: the listers of deployments, Kubernetes services and services, and the informer
  -- of services, which gets the handlers.
  unfoldable pub new_controller : K → Factory O R → K × Factory O R
  new_controller k f =
      (lib.k8s_services (lib.deployments k), (services_informer (services_lister f)).1)

  -- `xds.NewServer`.
  unfoldable pub new_server : K → Factory O R → K × Factory O R
  new_server k f = (lib.pods k, (configurations_informer (configurations_lister f)).1)

  synced : Bool → K → Factory O R × List Text → ℕ → Outcome O R K
  synced true k (f, running) threadiness = serving k f running threadiness
  synced false k (f, running) threadiness = fatal (codes "failed to wait for caches to sync")

  -- The factories are started, and their caches waited for.
  started : K × Factory O R → ℕ → Outcome O R K
  unfolding synced
  started (k, f) threadiness =
      let (f', running) = start (f, []) in
      let k' = lib.start_kube k in
      synced (lib.wait_for_cache_sync k' running) k' (f', running) threadiness

  -- The tests of `err` in both programs.
  with_result : {A : Type 0} → Text → Result A → (A → Outcome O R K) → Outcome O R K
  with_result message (ok a) next = next a
  with_result message (err e) next = fatal message
  with_result message panic next = crashed

  with_clients : Text → Text → (C → Client O R → Outcome O R K) → Outcome O R K
  unfolding with_result
  with_clients master_url kubeconfig next =
      with_result (codes "Error building kubeconfig")
        (lib.build_config_from_flags master_url kubeconfig)
        (λ cfg.
          with_result (codes "Error building kubernetes clientset") (lib.kube_for_config cfg)
            (λ kube_client.
              with_result (codes "Error building mesh clientset") (lib.mesh_for_config cfg)
                (λ mesh_client. next kube_client mesh_client)))

  unfoldable pub controller_main : Text → Text → Outcome O R K
  unfolding with_clients started new_controller
  controller_main master_url kubeconfig =
      with_clients master_url kubeconfig (λ kube_client mesh_client.
        started
          (new_controller (lib.new_kube_factory kube_client (30 * second))
            (new_shared_informer_factory mesh_client (30 * second)))
          threads_per_controller)

  -- The discovery server has no workers.
  unfoldable pub discovery_main : Text → Text → Outcome O R K
  unfolding with_clients started new_server
  discovery_main master_url kubeconfig =
      with_clients master_url kubeconfig (λ kube_client mesh_client.
        started
          (new_server (lib.new_kube_factory kube_client (10 * second))
            (new_shared_informer_factory mesh_client (10 * second)))
          0)
