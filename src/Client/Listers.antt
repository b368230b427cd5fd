-- ===== src/Client/Listers.antt =====
-- pkg/client/listers/mesh/v1alpha1: typed reads of an informer's index. The index, a
-- `cache.Indexer`, is a parameter, as are the walks `cache.ListAll` and `cache.ListAllByNamespace`.
pub mod Reads
pub mod Typed
use lite_mesh.Base.{Text, codes, List, [], ◌∷◌, ◌++◌, Option, none, some}
use lite_mesh.Kube.{Error, not_found, Result, ok, err, panic, Selector}
use lite_mesh.Apis.{Service, Configuration}

-- An `interface{}` that an index holds.
pub data Object : Type 0 where
  service : Service → Object
  configuration : Configuration → Object
  other : Object

-- A walk passes the selected objects to its callback and may then return an error.
pub record Indexer : Type 0 where
  pub get_by_key : Text → Result (Option Object)
  pub list_all : Selector → List Object × Option Error
  pub list_all_by_namespace : Text → Selector → List Object × Option Error

-- The assertions `m.(*v1alpha1.Service)` and `m.(*v1alpha1.Configuration)`.
abbrev pub as_service : Object → Option Service
as_service (service s) = some s
as_service _ = none

abbrev pub as_configuration : Object → Option Configuration
as_configuration (configuration c) = some c
as_configuration _ = none

-- `namespace + "/" + name`.
abbrev pub index_key : Text → Text → Text
index_key namespace name = namespace ++ b'/' ∷ name

-- What a walk returns: the list and an error, or nothing if an assertion panics.
abbrev pub Listing : Type 0 → Type 0
Listing T = Option (List T × Option Error)

module _ {T : Type 0} (as_type : Object → Option T) where
  assert_type : Option T → Result T
  assert_type none = panic
  assert_type (some t) = ok t

  -- `errors.NewNotFound` is `not_found`.
  get_found : Text → Result (Option Object) → Result T
  unfolding assert_type
  get_found name (err e) = err e
  get_found name panic = panic
  get_found name (ok none) = err (not_found name)
  get_found name (ok (some obj)) = assert_type (as_type obj)

  append_asserted : Option T → List T → Option (List T)
  append_asserted none ret = none
  append_asserted (some t) ret = some (ret ++ t ∷ [])

  -- The callback of a walk appends each object to `ret`.
  collect : List Object → List T → Option Error → Listing T
  unfolding append_asserted
  collect [] ret e = some (ret, e)
  collect (m ∷ ms) ret e = elim (append_asserted (as_type m) ret) [
    | none ↦ none
    | some ret' ↦ collect ms ret' e
  ]

  collect_all : List Object × Option Error → Listing T
  unfolding collect
  collect_all (ms, e) = collect ms [] e

unfoldable pub service_list : Indexer → Selector → Listing Service
unfolding collect_all
service_list indexer selector = collect_all as_service (indexer.list_all selector)

unfoldable pub service_namespace_list : Indexer → Text → Selector → Listing Service
unfolding collect_all
service_namespace_list indexer namespace selector =
    collect_all as_service (indexer.list_all_by_namespace namespace selector)

unfoldable pub service_get : Indexer → Text → Text → Result Service
unfolding get_found
service_get indexer namespace name =
    get_found as_service name (indexer.get_by_key (index_key namespace name))

unfoldable pub configuration_list : Indexer → Selector → Listing Configuration
unfolding collect_all
configuration_list indexer selector = collect_all as_configuration (indexer.list_all selector)

unfoldable pub configuration_namespace_list : Indexer → Text → Selector → Listing Configuration
unfolding collect_all
configuration_namespace_list indexer namespace selector =
    collect_all as_configuration (indexer.list_all_by_namespace namespace selector)

unfoldable pub configuration_get : Indexer → Text → Text → Result Configuration
unfolding get_found
configuration_get indexer namespace name =
    get_found as_configuration name (indexer.get_by_key (index_key namespace name))
