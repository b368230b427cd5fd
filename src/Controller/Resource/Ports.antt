-- ===== src/Controller/Resource/Ports.antt =====
-- The ports of the created Kubernetes Service.
use lite_mesh.Base.{
  ℤ, format_int-injective, List, [], ◌∷◌, ◌++◌, append_assoc, append-nil, map, none, some, ◌≡◌, ◌≢◌,
  sym, All, Distinct, arith,
}
use lite_mesh.Kube.{ObjectMeta, OwnerReference, GroupVersionKind, ServicePort}
use lite_mesh.Apis.{Service}
use lite_mesh.Apis.Ports.{ports-map}
use lite_mesh.Controller.Resource.{
  service_port, service_ports_loop, ports_for, create_service_k8s_service,
}

service_ports_loop-map :
    (vs : List ℤ) (ps : List ServicePort) → service_ports_loop vs ps ≡ ps ++ map service_port vs
unfolding service_ports_loop
service_ports_loop-map [] ps = sym (append-nil ps)
service_ports_loop-map (v ∷ vs) ps = simp (service_ports_loop-map vs, append_assoc)

prefix-injective : (v w : ℤ) → (service_port v).name ≡ (service_port w).name → v ≡ w
prefix-injective v w e = format_int-injective v w (cc)

fresh_name :
    (v : ℤ) (vs : List ℤ)
    → All (λ w. w ≢ v) vs
    → All (λ n. n ≢ (service_port v).name) (map (λ p. p.name) (map service_port vs))
fresh_name v [] h = tt
fresh_name v (w ∷ vs) (h, hs) = (λ e. h (prefix-injective w v e), fresh_name v vs hs)

service_port-Distinct :
    (vs : List ℤ) → Distinct vs → Distinct (map (λ p. p.name) (map service_port vs))
service_port-Distinct [] h = tt
service_port-Distinct (v ∷ vs) (h, hs) = (fresh_name v vs h, service_port-Distinct vs hs)

-- The ports that a mesh service asks for: those of its gateway if it has one, else those of its
-- container.
abbrev pub requested_ports : Service → List ℤ
requested_ports s = elim s.spec.gateway [
  | none ↦ map (λ v. v.container_port) s.spec.container.ports
  | some g ↦ g.ports
]

module _ (new_controller_ref : ObjectMeta → GroupVersionKind → OwnerReference) where
  -- The created Kubernetes Service has one TCP port for each requested port, in order, that
  -- forwards to the same port of the pods.
  pub k8s_service-ports :
      (s : Service)
      → (create_service_k8s_service new_controller_ref s).ports
        ≡ map service_port (requested_ports s)
  unfolding create_service_k8s_service
  k8s_service-ports s =
      ground (arith, service_ports_loop-map (ports_for s.spec.gateway s) [], ports-map s.spec)

  -- If no port is requested twice, the ports of the created Kubernetes Service have different names.
  pub k8s_service-names-Distinct :
      (s : Service)
      → Distinct (requested_ports s)
      → Distinct (map (λ p. p.name) (create_service_k8s_service new_controller_ref s).ports)
  k8s_service-names-Distinct s h =
      rw (k8s_service-ports s) (service_port-Distinct (requested_ports s) h)
