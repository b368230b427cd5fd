-- ===== src/Client/Listers/Reads.antt =====
-- What a lister reads from an index that keys its objects by namespace and name.
use lite_mesh.Base.{
  Text, List, [], ◌∷◌, ◌++◌, append-nil, append_assoc, map, Option, none, some, ◌≡◌, ◌≢◌, ◌↔◌, refl,
  sym, ap, ◌∙◌, Lacks, split, split-append, split-Lacks, arith, Option-cases, inl, inr,
}
use lite_mesh.Kube.{ObjectMeta, Error, Result, ok, err, panic, Selector}
use lite_mesh.Apis.{Service, Configuration}
use lite_mesh.Client.Listers.{
  Object, service, configuration, other, Indexer, index_key, collect, collect_all, get_found,
  service_namespace_list, service_get, configuration_list, as_service, as_configuration,
}

-- Splitting a key at the slash gives the namespace and the name back.
pub split-index_key :
    (ns name : Text)
    → Lacks b'/' ns
    → Lacks b'/' name
    → split b'/' (index_key ns name) ≡ ns ∷ name ∷ []
split-index_key ns name h n = split-append b'/' ns name h ∙ ap (◌∷◌ ns) (split-Lacks b'/' name n)

-- Keys are unambiguous, since neither a namespace nor a name holds a slash.
pub index_key-injective :
    (ns ns' name name' : Text)
    → Lacks b'/' ns
    → Lacks b'/' ns'
    → Lacks b'/' name
    → Lacks b'/' name'
    → index_key ns name ≡ index_key ns' name'
    → (ns ≡ ns') × (name ≡ name')
index_key-injective ns ns' name name' h h' n n' e =
    ground (arith, split-index_key ns name h n, split-index_key ns' name' h' n', ap (split b'/') e)

index_key-ne : (ns name key : Text) → Lacks b'/' key → index_key ns name ≢ key
index_key-ne [] name [] h e = cc
index_key-ne [] name (c ∷ key) (h, hs) e = h (ground arith)
index_key-ne (c ∷ ns) name [] h e = cc
index_key-ne (c ∷ ns) name (d ∷ key) (h, hs) e = index_key-ne ns name key hs (ground arith)

-- `cache.MetaNamespaceKeyFunc`, the key under which an informer's index holds an object.
abbrev pub meta_key : ObjectMeta → Text
meta_key m = elim m.namespace [ [] ↦ m.name | c ∷ ns ↦ index_key (c ∷ ns) m.name ]

-- The names that the API server accepts hold no slash.
abbrev pub IsNamed : ObjectMeta → Type 0
IsNamed m = Lacks b'/' m.namespace × Lacks b'/' m.name

abbrev pub meta_of : Object → Option ObjectMeta
meta_of (service s) = some s.meta
meta_of (configuration c) = some c.meta
meta_of other = none

-- The index holds an object under its own key, and names are slash-free.
abbrev pub IsKeyed : Indexer → Type 0
IsKeyed ix =
    (key : Text) (o : Object) (m : ObjectMeta)
    → ix.get_by_key key ≡ ok (some o)
    → meta_of o ≡ some m
    → (meta_key m ≡ key) × IsNamed m

found_at :
    (ns name ns' name' : Text)
    → Lacks b'/' ns
    → Lacks b'/' name
    → Lacks b'/' ns'
    → Lacks b'/' name'
    → elim ns' [ [] ↦ name' | c ∷ r ↦ index_key (c ∷ r) name' ] ≡ index_key ns name
    → (ns' ≡ ns) × (name' ≡ name)
found_at ns name [] name' h n h' n' e = absurd (index_key-ne ns name name' n' (sym e))
found_at ns name (c ∷ r) name' h n h' n' e = index_key-injective (c ∷ r) ns name' name h' h n' n e

service_found :
    (name : Text) (r : Result (Option Object)) (s : Service)
    → get_found as_service name r ≡ ok s
    → r ≡ ok (some (service s))
unfolding get_found
service_found name (err e) s h = cc
service_found name panic s h = cc
service_found name (ok none) s h = cc
service_found name (ok (some (service t))) s h = ground arith
service_found name (ok (some (configuration t))) s h = cc
service_found name (ok (some other)) s h = cc

-- A service that the lister returns has the key under which it was asked for.
pub service_get-index_key :
    (ix : Indexer) (ns name : Text) (s : Service)
    → IsKeyed ix
    → service_get ix ns name ≡ ok s
    → index_key s.meta.namespace s.meta.name ≡ index_key ns name
unfolding service_get
service_get-index_key ix ns name s keyed e =
    let (k, (h, n)) =
      keyed (index_key ns name) (service s) s.meta
        (service_found name (ix.get_by_key (index_key ns name)) s e) refl in
    keyed_at s.meta.namespace s.meta.name n k
  where
    keyed_at :
        (ns' name' : Text)
        → Lacks b'/' name'
        → elim ns' [ [] ↦ name' | c ∷ r ↦ index_key (c ∷ r) name' ] ≡ index_key ns name
        → index_key ns' name' ≡ index_key ns name
    keyed_at [] name' n' e = absurd (index_key-ne ns name name' n' (sym e))
    keyed_at (c ∷ r) name' n' e = e

-- A service that the lister returns has the namespace and the name that were asked for, if the index
-- is keyed by namespace and name and the asked names hold no slash.
pub service_get-names :
    (ix : Indexer) (ns name : Text) (s : Service)
    → IsKeyed ix
    → Lacks b'/' ns
    → Lacks b'/' name
    → service_get ix ns name ≡ ok s
    → (s.meta.namespace ≡ ns) × (s.meta.name ≡ name)
unfolding service_get
service_get-names ix ns name s keyed h n e =
    let (k, (h', n')) =
      keyed (index_key ns name) (service s) s.meta
        (service_found name (ix.get_by_key (index_key ns name)) s e) refl in
    found_at ns name s.meta.namespace s.meta.name h n h' n' k

module _ {T : Type 0} (as_type : Object → Option T) where
  -- `ret` lists the objects, each asserted to its type, in order.
  abbrev pub Lists : List Object → List T → Type 0
  Lists ms ret = map as_type ms ≡ map some ret

  collect-Lists :
      (ms : List Object) (acc ret : List T) (e e' : Option Error)
      → collect as_type ms acc e ≡ some (ret, e')
      → (new : List T) × (ret ≡ acc ++ new) × Lists ms new × (e' ≡ e)
  unfolding collect
  collect-Lists [] acc ret e e' h = ([], ground (arith, append-nil acc), refl, ground arith)
  collect-Lists (m ∷ ms) acc ret e e' h = elim (Option-cases (as_type m)) [
    | inl n ↦ absurd (ground arith)
    | inr (t, p) ↦
        let (new, q, l, r) = collect-Lists ms (acc ++ t ∷ []) ret e e' (ground arith) in
        (t ∷ new, cc (q, append_assoc acc (t ∷ []) new), cc (p, l), r)
  ]

  Lists-collect :
      (ms : List Object) (acc new : List T) (e : Option Error)
      → Lists ms new
      → collect as_type ms acc e ≡ some (acc ++ new, e)
  unfolding collect
  Lists-collect [] acc [] e h = ground (arith, append-nil acc)
  Lists-collect [] acc (t ∷ new) e h = cc
  Lists-collect (m ∷ ms) acc [] e h = cc
  Lists-collect (m ∷ ms) acc (t ∷ new) e h =
      ground (
        arith,
        Lists-collect ms (acc ++ t ∷ []) new e (ground arith),
        append_assoc acc (t ∷ []) new,
      )

  collect_iff :
      (ms : List Object) (ret : List T) (e e' : Option Error)
      → (collect as_type ms [] e ≡ some (ret, e')) ↔ (Lists ms ret × (e' ≡ e))
  collect_iff ms ret e e' = (
    λ h. let (new, q, l, r) = collect-Lists ms [] ret e e' h in (cc (q, l), r),
    λ h. Lists-collect ms [] ret e h.0 ∙ ground arith,
  )

-- Listing a namespace returns exactly the objects that the walk of the index selects there, in
-- order, together with the walk's error, whenever each of them is a service; it panics otherwise.
pub service_namespace_list_iff :
    (ix : Indexer) (ns : Text) (sel : Selector) (ret : List Service) (e : Option Error)
    → (service_namespace_list ix ns sel ≡ some (ret, e)) ↔ (
        (map as_service (ix.list_all_by_namespace ns sel).0 ≡ map some ret)
        × (e ≡ (ix.list_all_by_namespace ns sel).1))
unfolding service_namespace_list collect_all
service_namespace_list_iff ix ns sel ret e = collect_iff as_service _ ret _ e

-- Listing all configurations returns exactly the objects that the walk of the index selects, in
-- order, together with the walk's error, whenever each of them is a configuration; it panics
-- otherwise.
pub configuration_list_iff :
    (ix : Indexer) (sel : Selector) (ret : List Configuration) (e : Option Error)
    → (configuration_list ix sel ≡ some (ret, e))
      ↔ ((map as_configuration (ix.list_all sel).0 ≡ map some ret) × (e ≡ (ix.list_all sel).1))
unfolding configuration_list collect_all
configuration_list_iff ix sel ret e = collect_iff as_configuration _ ret _ e
