-- ===== src/Apis/Register.antt =====
-- The registration of the types: pkg/apis/mesh/v1alpha1/register.go, and the schemes of the clients in
-- pkg/client/clientset/versioned/scheme/register.go and pkg/client/clientset/versioned/fake/register.go.
-- A scheme is a state `S`, with the calls of apimachinery that the program makes on it.
use lite_mesh.Base.{Text, codes, List, [], ◌∷◌, Option, none, In, ◌≡◌, sym, subst}
use lite_mesh.Kube.{Error}
use lite_mesh.Apis.{group_name, group_version}

-- A `schema.GroupVersion`.
abbrev pub GroupVersion : Type 0
GroupVersion = Text × Text

unfoldable pub scheme_group_version : GroupVersion
scheme_group_version = (group_name, group_version)

-- `Kind` and `Resource`: a `schema.GroupKind` and a `schema.GroupResource`.
unfoldable pub kind : Text → Text × Text
unfolding scheme_group_version
kind name = (scheme_group_version.0, name)

unfoldable pub resource : Text → Text × Text
unfolding scheme_group_version
resource name = (scheme_group_version.0, name)

-- `add_to_scheme` is the method of a `runtime.SchemeBuilder`, the list of its functions.
pub record Runtime (S : Type 0) : Type 0 where
  pub add_known_types : GroupVersion → List Text → S → S
  pub add_to_group_version : GroupVersion → S → S
  pub add_to_scheme : List (S → Option Error × S) → S → Option Error × S

abbrev pub known_types : List Text
known_types =
    codes "Configuration" ∷ codes "ConfigurationList" ∷ codes "Service" ∷ codes "ServiceList" ∷ []

module _ {S : Type 0} (runtime : Runtime S) where
  -- `addKnownTypes`.
  unfoldable pub add_known_types : S → Option Error × S
  unfolding scheme_group_version
  add_known_types scheme =
      let scheme' = runtime.add_known_types scheme_group_version known_types scheme in
      (none, runtime.add_to_group_version scheme_group_version scheme')

  -- `v1alpha1.AddToScheme`.
  unfoldable pub add_to_scheme : S → Option Error × S
  unfolding add_known_types
  add_to_scheme = runtime.add_to_scheme (add_known_types ∷ [])

  -- `AddToScheme` of both clients ignores the error, and so does `init`.
  unfoldable pub add_mesh_to_scheme : S → S
  unfolding add_to_scheme
  add_mesh_to_scheme scheme = (add_to_scheme scheme).1

  unfoldable pub init : S → S
  unfolding add_mesh_to_scheme
  init scheme = add_mesh_to_scheme (runtime.add_to_group_version ([], codes "v1") scheme)

  -- A scheme knows a kind once it was added, and forgets none; a builder runs its functions.
  pub record IsScheme (Knows : S → GroupVersion → Text → Type 0) : Type 0 where
    pub knows_added :
        (gv : GroupVersion) (names : List Text) (name : Text) (s : S)
        → In name names
        → Knows (runtime.add_known_types gv names s) gv name
    pub knows_kept :
        (gv gv' : GroupVersion) (name : Text) (s : S)
        → Knows s gv name
        → Knows (runtime.add_to_group_version gv' s) gv name
    pub builds : (f : S → Option Error × S) (s : S) → runtime.add_to_scheme (f ∷ []) s ≡ f s

  -- The schemes of the clients know the resources and the lists of them in the group and the version
  -- that the REST client asks for.
  pub init-Knows :
      (Knows : S → GroupVersion → Text → Type 0)
      → IsScheme Knows
      → (s : S) (name : Text) → In name known_types
      → Knows (init s) (group_name, group_version) name
  unfolding init add_mesh_to_scheme add_to_scheme add_known_types scheme_group_version
  init-Knows Knows scheme s name i =
      subst (λ p. Knows p.1 (group_name, group_version) name)
        (sym (scheme.builds add_known_types (runtime.add_to_group_version ([], codes "v1") s)))
        (scheme.knows_kept _ _ name _ (scheme.knows_added _ known_types name _ i))
