-- ===== src/Commands/Serving.antt =====
-- When the programs serve.
use lite_mesh.Base.{◌*◌}
use lite_mesh.Client.Informers.{Client}
use lite_mesh.Commands.{Libraries, second}
use lite_mesh.Commands.Flags.{Flags}

module _ {O R G C K : Type 0} (lib : Libraries O R G C K) where
  -- The Kubernetes informers of the controller, and those of the discovery server, once started.
  abbrev pub controller_kube : C → K
  controller_kube c =
      lib.start_kube (lib.k8s_services (lib.deployments (lib.new_kube_factory c (30 * second))))

  abbrev pub discovery_kube : C → K
  discovery_kube c = lib.start_kube (lib.pods (lib.new_kube_factory c (10 * second)))
