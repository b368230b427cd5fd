-- ===== src/Apis/Ports.antt =====
-- `Ports` against its specification.
use lite_mesh.Base.{ℤ, List, [], ◌∷◌, ◌++◌, append_assoc, append-nil, map, ◌≡◌, sym}
use lite_mesh.Kube.{ContainerPort}
use lite_mesh.Apis.{ServiceSpec, ports_loop, ports}

ports_loop-map :
    (vs : List ContainerPort) (ps : List ℤ)
    → ports_loop vs ps ≡ ps ++ map (λ v. v.container_port) vs
unfolding ports_loop
ports_loop-map [] ps = sym (append-nil ps)
ports_loop-map (v ∷ vs) ps = simp (ports_loop-map vs, append_assoc)

-- `Ports` lists the port of each container port, in order.
pub ports-map : (s : ServiceSpec) → ports s ≡ map (λ v. v.container_port) s.container.ports
unfolding ports
ports-map s = ports_loop-map s.container.ports []
