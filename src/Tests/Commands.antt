-- ===== src/Tests/Commands.antt =====
-- The theorems on the start of the programs, with libraries that note the calls on the Kubernetes
-- informers.
use lite_mesh.Base.{◌*◌, Text, codes, List, [], ◌∷◌, ◌++◌, true}
use lite_mesh.Kube.{ok}
use lite_mesh.Client.Informers.{
  Client, Factory, services_informer, configurations_informer, new_shared_informer_factory, start,
}
use lite_mesh.Commands.{Libraries, second}
use lite_mesh.Commands.Flags.{Flags}

abbrev api_client : Client Unit Text
api_client = record {
  list_services = λ ns o. ns;
  watch_services = λ ns o. ns;
  list_configurations = λ ns o. ns;
  watch_configurations = λ ns o. ns;
}

abbrev libraries : Libraries Unit Text Text Text (List Text)
libraries = record {
  build_config_from_flags = λ master kubeconfig. ok master;
  kube_for_config = ok;
  mesh_for_config = λ cfg. ok api_client;
  new_kube_factory = λ c resync. c ∷ [];
  deployments = λ k. k ++ codes "deployments" ∷ [];
  k8s_services = λ k. k ++ codes "services" ∷ [];
  pods = λ k. k ++ codes "pods" ∷ [];
  start_kube = λ k. k ++ codes "start" ∷ [];
  wait_for_cache_sync = λ k running. true;
}

abbrev controller_start : Factory Unit Text × List Text
controller_start = start (
  (services_informer
      (services_informer (new_shared_informer_factory api_client (30 * second))).1).1,
  [],
)

abbrev controller_kube : List Text
controller_kube = codes "local" ∷ codes "deployments" ∷ codes "services" ∷ codes "start" ∷ []

abbrev discovery_start : Factory Unit Text × List Text
discovery_start = start (
  (configurations_informer
      (configurations_informer (new_shared_informer_factory api_client (10 * second))).1).1,
  [],
)

abbrev discovery_kube : List Text
discovery_kube = codes "local" ∷ codes "pods" ∷ codes "start" ∷ []

abbrev arguments : List Text
arguments = codes "-master=local" ∷ codes "--kubeconfig" ∷ codes "conf" ∷ []

abbrev flags : Flags
flags = record { master_url = codes "local"; kubeconfig = codes "conf" }
