-- ===== src/Controller/Resource.antt =====
-- pkg/controller/resource.go: the Deployment and the Kubernetes Service of a mesh service.
pub mod Selection
pub mod Ports
pub mod PortNames
pub mod Orders
pub mod Labels
pub mod Containers
use lite_mesh.Base.{Text, codes, ℤ, format_int, List, [], ◌∷◌, ◌++◌, Option, none, some}
use lite_mesh.Kube.{
  ObjectMeta, OwnerReference, GroupVersionKind, Container, field_ref, Deployment, tcp, ServicePort,
  K8sService,
}
use lite_mesh.Apis.{Service, Gateway, ports}
use lite_mesh.Controller.Meta.{
  deployment_name, k8s_service_name, create_labels, create_selector, create_service_owner_ref,
}

abbrev or_default : Text → Text → Text
or_default [] d = d
or_default (c ∷ s) d = c ∷ s

unfoldable pub envoy_log_level : Service → Text
envoy_log_level s = or_default s.spec.envoy.log_level (codes "info")

unfoldable pub envoy_discovery_address : Service → Text
envoy_discovery_address s = or_default s.spec.envoy.discovery_address (codes "10.100.5.46")

unfoldable pub envoy_discovery_port : Service → Text
envoy_discovery_port s = or_default s.spec.envoy.discovery_port (codes "9000")

-- The arguments of the sidecar, which cmd/envoy-bootstrap parses.
unfoldable pub proxy_args : Service → List Text
unfolding envoy_log_level envoy_discovery_address envoy_discovery_port
proxy_args s =
    codes "--bootstrapTemplate"
    ∷ codes "/etc/conf/envoy-bootstrap-template.yaml"
    ∷ codes "--bootstrapConfig"
    ∷ codes "/etc/conf/envoy-bootstrap.yaml"
    ∷ codes "--envoyBinary"
    ∷ codes "/usr/local/bin/envoy"
    ∷ codes "--logLevel"
    ∷ envoy_log_level s
    ∷ codes "--serviceCluster"
    ∷ s.meta.name
    ∷ codes "--discoveryAddress"
    ∷ envoy_discovery_address s
    ∷ codes "--discoveryPort"
    ∷ envoy_discovery_port s
    ∷ []

abbrev pub proxy_container : Service → Container
proxy_container s = record {
  name = codes "envoy-proxy";
  image = codes "mirage20/lite-mesh-envoy-bootstrap";
  args = proxy_args s;
  env =
      record { name = codes "POD_NAME"; source = field_ref (codes "v1") (codes "metadata.name") }
      ∷ record { name = codes "POD_IP"; source = field_ref (codes "v1") (codes "status.podIP") }
      ∷ [];
  ports = [];
  add_capabilities = [];
}

abbrev pub init_container : Container
init_container = record {
  name = codes "iptable-init";
  image = codes "gcr.io/istio-release/proxy_init:1.0.2";
  args =
      codes "-p"
      ∷ codes "15001"
      ∷ codes "-u"
      ∷ codes "2020"
      ∷ codes "-m"
      ∷ codes "REDIRECT"
      ∷ codes "-i"
      ∷ codes "*"
      ∷ codes "-x"
      ∷ []
      ∷ codes "-b"
      ∷ codes "*"
      ∷ codes "-d"
      ∷ []
      ∷ [];
  env = [];
  ports = [];
  add_capabilities = codes "NET_ADMIN" ∷ [];
}

-- `if len(service.Spec.Container.Name) == 0 { … }`, a write to the service that the caller holds.
unfoldable pub name_container : Service → Service
name_container s = record s { spec = record spec { container = record container { name = name' } } }
  where
    open s use {spec}
    open spec use {container}

    name' : Text
    name' = or_default container.name s.meta.name

abbrev containers_for : Option Gateway → Service → List Container
containers_for none s = proxy_container s ∷ s.spec.container ∷ []
containers_for (some g) s = proxy_container s ∷ []

abbrev owned_meta : (ObjectMeta → GroupVersionKind → OwnerReference) → Text → Service → ObjectMeta
owned_meta new_controller_ref name s = record {
  name = name;
  namespace = s.meta.namespace;
  uid = [];
  resource_version = [];
  labels = create_labels s;
  annotations = [];
  owner_references = create_service_owner_ref new_controller_ref s.meta ∷ [];
}

-- `CreateServiceDeployment`: the deployment, and the service as it is left.
unfoldable pub create_service_deployment :
    (ObjectMeta → GroupVersionKind → OwnerReference) → Service → Deployment × Service
unfolding name_container proxy_args create_labels create_selector create_service_owner_ref
    deployment_name
create_service_deployment new_controller_ref service =
    let s = name_container service in
    (
      record {
        meta = owned_meta new_controller_ref (deployment_name s) s;
        replicas = s.spec.replicas;
        match_labels = create_selector s;
        template = record {
          meta = record {
            name = [];
            namespace = [];
            uid = [];
            resource_version = [];
            labels = create_labels s;
            annotations = (codes "sidecar.istio.io/inject", codes "false") ∷ [];
            owner_references = [];
          };
          init_containers = init_container ∷ [];
          containers = containers_for s.spec.gateway s;
        };
      },
      s,
    )

abbrev pub service_port : ℤ → ServicePort
service_port v = record {
  name = codes "tcp-" ++ format_int v;
  protocol = tcp;
  port = v;
  target_port = v;
}

-- The loop over the ports, which appends to the service ports found so far.
service_ports_loop : List ℤ → List ServicePort → List ServicePort
service_ports_loop [] ports = ports
service_ports_loop (v ∷ vs) ports = service_ports_loop vs (ports ++ service_port v ∷ [])

abbrev ports_for : Option Gateway → Service → List ℤ
ports_for none s = ports s.spec
ports_for (some g) s = g.ports

unfoldable pub create_service_k8s_service :
    (ObjectMeta → GroupVersionKind → OwnerReference) → Service → K8sService
unfolding service_ports_loop ports create_labels create_service_owner_ref k8s_service_name
create_service_k8s_service new_controller_ref s = record {
  meta = owned_meta new_controller_ref (k8s_service_name s) s;
  ports = service_ports_loop (ports_for s.spec.gateway s) [];
  selector = create_labels s;
}
