-- ===== src/Controller/Resource/PortNames.antt =====
-- The names of the ports of the created Kubernetes Service, against the rules of the API server.
use lite_mesh.Base.{
  ℕ, suc, ◌^◌, ◌≤◌, ◌<◌, ℤ, pos, negsuc, Text, codes, format, format_int, IsDigit, format-IsDigit,
  format-Ends, length-format, List, [], ◌∷◌, map, length, ◌≡◌, refl, ◌⊎◌, inl, inr, All, All-imp,
  All-append, Starts, Ends, Distinct, Ends-append, arith,
}
use lite_mesh.Kube.{ObjectMeta, OwnerReference, GroupVersionKind}
use lite_mesh.Apis.{Service}
use lite_mesh.Controller.Resource.{service_port, create_service_k8s_service}
use lite_mesh.Controller.Resource.Ports.{
  requested_ports, k8s_service-ports, k8s_service-names-Distinct,
}

-- An `int32`.
abbrev pub IsInt32 : ℤ → Type 0
IsInt32 (pos n) = n < 2 ^ 31
IsInt32 (negsuc n) = n < 2 ^ 31

abbrev pub IsAlphanumeric : ℕ → Type 0
IsAlphanumeric c = ((b'a' ≤ c) × (c ≤ b'z')) ⊎ IsDigit c

-- A DNS label, which Kubernetes wants the name of a port to be: lower case letters, digits and dashes,
-- with a letter or a digit at both ends.
abbrev pub IsDnsLabel : Text → Type 0
IsDnsLabel t =
    All (λ c. IsAlphanumeric c ⊎ (c ≡ b'-')) t × Starts IsAlphanumeric t × Ends IsAlphanumeric t

Ends-imp : (P Q : ℕ → Type 0) (t : Text) → ((c : ℕ) → P c → Q c) → Ends P t → Ends Q t
Ends-imp P Q [] f h = elim h [ ]
Ends-imp P Q (c ∷ []) f h = f c h
Ends-imp P Q (c ∷ d ∷ t) f h = Ends-imp P Q (d ∷ t) f h

digits-IsAlphanumeric : (n : ℕ) → All (λ c. IsAlphanumeric c ⊎ (c ≡ b'-')) (format n)
digits-IsAlphanumeric n = All-imp IsDigit _ (format n) (λ c h. inl (inr h)) (format-IsDigit n)

digits-end : (n : ℕ) → Ends IsAlphanumeric (format n)
digits-end n = Ends-imp IsDigit IsAlphanumeric (format n) (λ c h. inr h) (format-Ends n)

format_int-characters : (v : ℤ) → All (λ c. IsAlphanumeric c ⊎ (c ≡ b'-')) (format_int v)
unfolding format_int
format_int-characters (pos n) = digits-IsAlphanumeric n
format_int-characters (negsuc n) = (inr refl, digits-IsAlphanumeric (suc n))

format_int-end : (v : ℤ) → Ends IsAlphanumeric (format_int v)
unfolding format_int
format_int-end (pos n) = digits-end n
format_int-end (negsuc n) =
    Ends-append IsAlphanumeric (b'-' ∷ []) (format (suc n)) (digits-end (suc n))

format_int-length : (v : ℤ) → IsInt32 v → length (format_int v) ≤ 11
unfolding format_int
format_int-length (pos n) h = omega (arith, length-format 9 n (omega arith))
format_int-length (negsuc n) h = omega (arith, length-format 9 (suc n) (omega arith))

service_port-IsDnsLabel :
    (v : ℤ) → IsInt32 v → IsDnsLabel (service_port v).name × (length (service_port v).name ≤ 15)
service_port-IsDnsLabel v h = (
  (
    All-append _ (codes "tcp-") (format_int v) (omega arith) (format_int-characters v),
    omega arith,
    Ends-append IsAlphanumeric (codes "tcp-") (format_int v) (format_int-end v),
  ),
  omega (arith, format_int-length v h),
)

each-IsDnsLabel :
    (vs : List ℤ)
    → All IsInt32 vs
    → All (λ p. IsDnsLabel p.name × (length p.name ≤ 15)) (map service_port vs)
each-IsDnsLabel [] h = tt
each-IsDnsLabel (v ∷ vs) (h, hs) = (service_port-IsDnsLabel v h, each-IsDnsLabel vs hs)

module _ (new_controller_ref : ObjectMeta → GroupVersionKind → OwnerReference) where
  -- If the requested ports are 32-bit integers, negative ones too, and none is requested twice: the
  -- name of each port of the created Kubernetes Service is a DNS label of at most 15 bytes, and no two
  -- ports have the same name, as the API server wants it.
  pub k8s_service-names-IsDnsLabel :
      (s : Service)
      → All IsInt32 (requested_ports s)
      → Distinct (requested_ports s)
      → All
          (λ p. IsDnsLabel p.name × (length p.name ≤ 15))
          (create_service_k8s_service new_controller_ref s).ports
        × Distinct (map (λ p. p.name) (create_service_k8s_service new_controller_ref s).ports)
  k8s_service-names-IsDnsLabel s h d = (
    rw (k8s_service-ports new_controller_ref s) (each-IsDnsLabel (requested_ports s) h),
    k8s_service-names-Distinct new_controller_ref s d,
  )
