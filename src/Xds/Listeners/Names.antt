-- ===== src/Xds/Listeners/Names.antt =====
-- The names of the virtual hosts.
use lite_mesh.Base.{
  ℕ, ◌+◌, ◌<◌, Text, format, format-injective, format-Lacks, split, split-append, split-Lacks, List,
  [], ◌∷◌, ◌++◌, map, ◌≡◌, ◌≢◌, ap, ◌∙◌, All, All-append, Distinct, Distinct-append, arith,
  map-append, refl,
}
use lite_mesh.Apis.{Filter, Http}
use lite_mesh.Xds.Envoy.{VirtualHost}
use lite_mesh.Xds.Listeners.{vhost_name, vhosts_loop}
use lite_mesh.Xds.Listeners.Routing.{numbered, vhosts_loop-numbered}

split-pair : (p i : ℕ) → split b'-' (format p ++ b'-' ∷ format i) ≡ format p ∷ format i ∷ []
split-pair p i =
    split-append b'-' (format p) (format i) (format-Lacks p)
    ∙ ap (◌∷◌ (format p)) (split-Lacks b'-' (format i) (format-Lacks i))

-- Two virtual hosts have the same name only if they have the same port and the same index.
pub vhost_name-injective : (p q i j : ℕ) → vhost_name p i ≡ vhost_name q j → (p ≡ q) × (i ≡ j)
unfolding vhost_name
vhost_name-injective p q i j e =
    let tails : format p ++ b'-' ∷ format i ≡ format q ++ b'-' ∷ format j = cc in
    let parts : format p ∷ format i ∷ [] ≡ format q ∷ format j ∷ [] =
      cc (split-pair p i, split-pair q j, ap (split b'-') tails) in
    (format-injective p q (cc), format-injective i j (cc))

abbrev names : List VirtualHost → List Text
names = map (λ v. v.name)

fresh_index :
    (p i j : ℕ) (vs : List Http) → i < j → All (λ n. n ≢ vhost_name p i) (names (numbered p j vs))
fresh_index p i j [] h = tt
fresh_index p i j (v ∷ vs) h = (
  λ e. absurd (omega (arith, (vhost_name-injective p p j i e).1)),
  fresh_index p i (j + 1) vs (omega arith),
)

numbered-Distinct : (p i : ℕ) (vs : List Http) → Distinct (names (numbered p i vs))
numbered-Distinct p i [] = tt
numbered-Distinct p i (v ∷ vs) =
    (fresh_index p i (i + 1) vs (omega arith), numbered-Distinct p (i + 1) vs)

fresh_port :
    (p q i j : ℕ) (vs : List Http) → q ≢ p → All (λ n. n ≢ vhost_name p i) (names (numbered q j vs))
fresh_port p q i j [] h = tt
fresh_port p q i j (v ∷ vs) h =
    (λ e. h (vhost_name-injective q p j i e).0, fresh_port p q i (j + 1) vs h)

-- The names of all virtual hosts of the filters.
abbrev vhost_names : List Filter → List Text
vhost_names [] = []
vhost_names (f ∷ fs) = names (numbered f.port 0 f.http) ++ vhost_names fs

fresh_filters :
    (p i : ℕ) (fs : List Filter)
    → All (λ q. q ≢ p) (map (λ f. f.port) fs)
    → All (λ n. n ≢ vhost_name p i) (vhost_names fs)
fresh_filters p i [] h = tt
fresh_filters p i (f ∷ fs) (h, hs) =
    All-append (λ n. n ≢ vhost_name p i) (names (numbered f.port 0 f.http)) (vhost_names fs)
      (fresh_port p f.port i 0 f.http h) (fresh_filters p i fs hs)

fresh_hosts :
    (p i : ℕ) (vs : List Http) (fs : List Filter)
    → All (λ q. q ≢ p) (map (λ f. f.port) fs)
    → All (λ x. All (λ y. y ≢ x) (vhost_names fs)) (names (numbered p i vs))
fresh_hosts p i [] fs h = tt
fresh_hosts p i (v ∷ vs) fs h = (fresh_filters p i fs h, fresh_hosts p (i + 1) vs fs h)

vhost_names-Distinct :
    (fs : List Filter) → Distinct (map (λ f. f.port) fs) → Distinct (vhost_names fs)
vhost_names-Distinct [] h = tt
vhost_names-Distinct (f ∷ fs) (h, hs) =
    Distinct-append (names (numbered f.port 0 f.http)) (vhost_names fs)
      (numbered-Distinct f.port 0 f.http) (vhost_names-Distinct fs hs)
      (fresh_hosts f.port 0 f.http fs h)

-- The virtual hosts that the filters' HTTP entries are turned into, filter by filter.
abbrev pub built_vhosts : List Filter → List VirtualHost
built_vhosts [] = []
built_vhosts (f ∷ fs) = vhosts_loop f.port 0 f.http [] ++ built_vhosts fs

names-built_vhosts : (fs : List Filter) → names (built_vhosts fs) ≡ vhost_names fs
names-built_vhosts [] = refl
names-built_vhosts (f ∷ fs) = rw (vhosts_loop-numbered f.port 0 f.http []) (
    map-append (λ v. v.name) (numbered f.port 0 f.http) (built_vhosts fs)
    ∙ ap (◌++◌ (names (numbered f.port 0 f.http))) (names-built_vhosts fs))

-- If no two filters name the same port, all virtual hosts of a configuration have different names.
pub built_vhosts-Distinct :
    (fs : List Filter)
    → Distinct (map (λ f. f.port) fs)
    → Distinct (map (λ v. v.name) (built_vhosts fs))
built_vhosts-Distinct fs h = rw (names-built_vhosts fs) (vhost_names-Distinct fs h)
