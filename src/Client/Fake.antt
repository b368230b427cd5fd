-- ===== src/Client/Fake.antt =====
-- pkg/client/clientset/versioned/fake and typed/mesh/v1alpha1/fake: what the fake typed clients share.
-- The recorder `testing.Fake`, which executes actions, is a parameter: `S` stands for its state and
-- `W` for what a watch returns.
pub mod Services
pub mod Configurations
pub mod Actions
pub mod Clientset
use lite_mesh.Base.{
  Text, codes, List, [], ◌∷◌, ◌++◌, Option, none, some, Bool, if◌then◌else◌, ◌≡◌, sym, ◌∙◌,
  append-nil, append_assoc, keep, true, false,
}
use lite_mesh.Kube.{GroupVersionResource, Error, GroupVersionKind, ListOptions, Selector}
use lite_mesh.Apis.{Service, ServiceList, Configuration, ConfigurationList}
pub use lite_mesh.Client.Interfaces.{Returned}

-- A `runtime.Object`.
pub data Object : Type 0 where
  service : Service → Object
  service_list : ServiceList → Object
  configuration : Configuration → Object
  configuration_list : ConfigurationList → Object
  other : Object

-- The actions, by the functions that make them.
pub data Action : Type 0 where
  get_action : GroupVersionResource → Text → Text → Action
  list_action : GroupVersionResource → GroupVersionKind → Text → ListOptions → Action
  watch_action : GroupVersionResource → Text → ListOptions → Action
  create_action : GroupVersionResource → Text → Object → Action
  update_action : GroupVersionResource → Text → Object → Action
  update_subresource_action : GroupVersionResource → Text → Text → Object → Action
  delete_action : GroupVersionResource → Text → Text → Action
  delete_collection_action : GroupVersionResource → Text → ListOptions → Action
  patch_subresource_action : GroupVersionResource → Text → Text → Text → List Text → Action

-- `Invokes`, whose second argument is the object returned if no reactor handles the action;
-- `InvokesWatch`; the label selector of `ExtractFromListOptions`; and `labels.Everything`.
pub record Fake (S W : Type 0) : Type 0 where
  pub invokes : Action → Object → S → (Option Object × Option Error) × S
  pub invokes_watch : Action → S → W × S
  pub extract_label : ListOptions → Option Selector
  pub everything : Selector

pub record Scoped (S W : Type 0) : Type 0 where
  pub fake : Fake S W
  pub ns : Text

abbrev pub with_error : {T : Type 0} → Option Error → Option T → Returned T
with_error e none = none
with_error e (some t) = some (some t, e)

-- `if obj == nil { return nil, err }; return obj.(*T), err`.
unfoldable pub asserted :
    {T : Type 0} → (Object → Option T) → Option Object × Option Error → Returned T
asserted as_type (none, e) = some (none, e)
asserted as_type (some obj, e) = with_error e (as_type obj)

-- The loop of `List`, which appends the items whose labels match.
unfoldable pub matching :
    {T : Type 0} → (T → List (Text × Text)) → Selector → List T → List T → List T
matching labels label [] items = items
matching labels label (item ∷ rest) items =
    let with_item = matching labels label rest (items ++ item ∷ []) in
    let without = matching labels label rest items in
    if label (labels item) then with_item else without

pub matching-keep :
    {T : Type 0} (labels : T → List (Text × Text)) (label : Selector) (rest items : List T)
    → matching labels label rest items ≡ items ++ keep (λ item. label (labels item)) rest
unfolding matching
matching-keep labels label [] items = sym (append-nil items)
matching-keep labels label (item ∷ rest) items =
    elim (label (labels item))
      as (λ b.
        (if b
          then matching labels label rest (items ++ item ∷ [])
          else matching labels label rest items)
        ≡ items
          ++ (if b
              then item ∷ keep (λ i. label (labels i)) rest
              else keep (λ i. label (labels i)) rest)) [
                | true ↦
                    matching-keep labels label rest (items ++ item ∷ [])
                    ∙ append_assoc items (item ∷ []) (keep (λ i. label (labels i)) rest)
                | false ↦ matching-keep labels label rest items
              ]

abbrev pub or_everything : Option Selector → Selector → Selector
or_everything none everything = everything
or_everything (some label) everything = label
