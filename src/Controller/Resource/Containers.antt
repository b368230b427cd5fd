-- ===== src/Controller/Resource/Containers.antt =====
-- The containers of the created Deployment, and what its construction leaves of the service.
use lite_mesh.Base.{List, [], ◌∷◌, Option, none, some, ◌≡◌, ◌≢◌, refl, arith}
use lite_mesh.Kube.{ObjectMeta, OwnerReference, GroupVersionKind, Container}
use lite_mesh.Apis.{Service, Gateway}
use lite_mesh.Controller.Resource.{
  proxy_args, proxy_container, containers_for, name_container, create_service_deployment,
  create_service_k8s_service,
}

-- The containers that the pods of a service must run: the sidecar, and for a service that is no
-- gateway its own container, under the name of the service if it has no name.
abbrev pub RunsFor : Option Gateway → Service → List Container → Type 0
RunsFor (some g) s cs = cs ≡ proxy_container s ∷ []
RunsFor none s cs =
    (own : Container) × (cs ≡ proxy_container s ∷ own ∷ [])
    × (own ≡ record (s.spec.container) { name = own.name })
    × (s.spec.container.name ≡ [] → own.name ≡ s.meta.name)
    × (s.spec.container.name ≢ [] → own.name ≡ s.spec.container.name)

abbrev pub Runs : Service → List Container → Type 0
Runs s = RunsFor s.spec.gateway s

named-Runs : (g : Option Gateway) (s : Service) → RunsFor g s (containers_for g (name_container s))
unfolding name_container proxy_args
named-Runs (some g) s = refl
named-Runs none s = ((name_container s).spec.container, refl, refl, ground arith, ground arith)

module _ (new_controller_ref : ObjectMeta → GroupVersionKind → OwnerReference) where
  -- The pods of the created Deployment run what the service asks for.
  pub create_service_deployment-Runs :
      (s : Service) → Runs s (create_service_deployment new_controller_ref s).0.template.containers
  unfolding create_service_deployment
  create_service_deployment-Runs s = named-Runs s.spec.gateway s

  -- Building the Deployment changes the service that it is given, and yet the Kubernetes Service
  -- built afterwards is the one that would have been built before, and building the Deployment
  -- again gives the same Deployment and changes nothing more.
  pub create_service_deployment-again :
      (s : Service)
      → let s' = (create_service_deployment new_controller_ref s).1 in
        (create_service_k8s_service new_controller_ref s'
          ≡ create_service_k8s_service new_controller_ref s)
        × (create_service_deployment new_controller_ref s'
            ≡ create_service_deployment new_controller_ref s)
  unfolding create_service_deployment create_service_k8s_service
  create_service_deployment-again s = ground arith
