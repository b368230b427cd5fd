-- ===== src/Client/Informers.antt =====
-- pkg/client/informers/externalversions: the shared informer factory. A `reflect.Type` is the name of
-- the type. `O` stands for the list options and `R` for what a list or a watch returns.
pub mod Starting
pub mod Sharing
pub mod Access
pub mod Orders
use lite_mesh.Base.{
  ℕ, Text, text_dec, codes, List, [], ◌∷◌, ◌++◌, Option, none, some, Bool, true, false, ◌&&◌, ite,
  if◌then◌else◌, lookup, insert, insert_all,
}
use lite_mesh.Apis.{group_name, group_version}

pub record ListWatch (O R : Type 0) : Type 0 where
  pub list_func : O → R
  pub watch_func : O → R

-- What `cache.NewSharedIndexInformer` is called with.
pub record SharedIndexInformer (O R : Type 0) : Type 0 where
  pub list_watch : ListWatch O R
  pub object_type : Text
  pub resync_period : ℕ
  pub indexers : List Text

-- The typed client: lists and watches of both resources in a namespace.
pub record Client (O R : Type 0) : Type 0 where
  pub list_services : Text → O → R
  pub watch_services : Text → O → R
  pub list_configurations : Text → O → R
  pub watch_configurations : Text → O → R

pub record Factory (O R : Type 0) : Type 0 where
  pub client : Client O R
  pub namespace : Text
  pub tweak_list_options : Option (O → O)
  pub default_resync : ℕ
  pub custom_resync : List (Text × ℕ)
  pub informers : List (Text × SharedIndexInformer O R)
  pub started_informers : List (Text × Bool)

abbrev pub service_type : Text
service_type = codes "v1alpha1.Service"

abbrev pub configuration_type : Text
configuration_type = codes "v1alpha1.Configuration"

-- `if tweakListOptions != nil { tweakListOptions(&options) }`.
abbrev pub tweaked : {O : Type 0} → Option (O → O) → O → O
tweaked none options = options
tweaked (some tweak) options = tweak options

abbrev pub or_value : {A : Type 0} → Option A → A → A
or_value none d = d
or_value (some a) d = a

abbrev pub namespace_index : Text
namespace_index = codes "namespace"

module _ {O R : Type 0} where
  unfoldable pub new_filtered_service_informer :
      Client O R → Text → ℕ → List Text → Option (O → O) → SharedIndexInformer O R
  new_filtered_service_informer client namespace resync_period indexers tweak = record {
    list_watch = record {
      list_func = λ options. client.list_services namespace (tweaked tweak options);
      watch_func = λ options. client.watch_services namespace (tweaked tweak options);
    };
    object_type = service_type;
    resync_period = resync_period;
    indexers = indexers;
  }

  unfoldable pub new_filtered_configuration_informer :
      Client O R → Text → ℕ → List Text → Option (O → O) → SharedIndexInformer O R
  new_filtered_configuration_informer client namespace resync_period indexers tweak = record {
    list_watch = record {
      list_func = λ options. client.list_configurations namespace (tweaked tweak options);
      watch_func = λ options. client.watch_configurations namespace (tweaked tweak options);
    };
    object_type = configuration_type;
    resync_period = resync_period;
    indexers = indexers;
  }

  -- `defaultInformer` of a service informer and of a configuration informer of the factory.
  unfoldable pub default_service_informer : Factory O R → Client O R → ℕ → SharedIndexInformer O R
  unfolding new_filtered_service_informer
  default_service_informer f client resync_period =
      new_filtered_service_informer client f.namespace resync_period (namespace_index ∷ [])
        f.tweak_list_options

  unfoldable pub default_configuration_informer :
      Factory O R → Client O R → ℕ → SharedIndexInformer O R
  unfolding new_filtered_configuration_informer
  default_configuration_informer f client resync_period =
      new_filtered_configuration_informer client f.namespace resync_period (namespace_index ∷ [])
        f.tweak_list_options

  informer_case :
      Option (SharedIndexInformer O R)
      → Factory O R
      → Text
      → (Client O R → ℕ → SharedIndexInformer O R)
      → SharedIndexInformer O R × Factory O R
  informer_case (some informer) f informer_type new_func = (informer, f)
  informer_case none f informer_type new_func =
      let informer =
        new_func f.client (or_value (lookup informer_type f.custom_resync) f.default_resync) in
      (informer, record f { informers = insert informer_type informer f.informers })

  unfoldable pub informer_for :
      Factory O R
      → Text
      → (Client O R → ℕ → SharedIndexInformer O R)
      → SharedIndexInformer O R × Factory O R
  unfolding informer_case
  informer_for f informer_type = informer_case (lookup informer_type f.informers) f informer_type

  -- `f.Mesh().V1alpha1().Services().Informer()`, and the same of configurations.
  unfoldable pub services_informer : Factory O R → SharedIndexInformer O R × Factory O R
  unfolding default_service_informer
  services_informer f = informer_for f service_type (default_service_informer f)

  unfoldable pub configurations_informer : Factory O R → SharedIndexInformer O R × Factory O R
  unfolding default_configuration_informer
  configurations_informer f = informer_for f configuration_type (default_configuration_informer f)

  -- The options of `NewSharedInformerFactoryWithOptions`.
  unfoldable pub with_custom_resync_config : List (Text × ℕ) → Factory O R → Factory O R
  with_custom_resync_config resync f = record f {
    custom_resync = insert_all resync f.custom_resync;
  }

  unfoldable pub with_tweak_list_options : Option (O → O) → Factory O R → Factory O R
  with_tweak_list_options tweak f = record f { tweak_list_options = tweak }

  unfoldable pub with_namespace : Text → Factory O R → Factory O R
  with_namespace namespace f = record f { namespace = namespace }

  apply_options : List (Factory O R → Factory O R) → Factory O R → Factory O R
  apply_options [] f = f
  apply_options (opt ∷ opts) f = apply_options opts (opt f)

  unfoldable pub new_shared_informer_factory_with_options :
      Client O R → ℕ → List (Factory O R → Factory O R) → Factory O R
  unfolding apply_options
  new_shared_informer_factory_with_options client default_resync options =
      apply_options options (record {
        client = client;
        namespace = [];
        tweak_list_options = none;
        default_resync = default_resync;
        custom_resync = [];
        informers = [];
        started_informers = [];
      })

  unfoldable pub new_shared_informer_factory : Client O R → ℕ → Factory O R
  unfolding new_shared_informer_factory_with_options
  new_shared_informer_factory client default_resync =
      new_shared_informer_factory_with_options client default_resync []

  unfoldable pub new_filtered_shared_informer_factory :
      Client O R → ℕ → Text → Option (O → O) → Factory O R
  unfolding new_shared_informer_factory_with_options with_namespace with_tweak_list_options
  new_filtered_shared_informer_factory client default_resync namespace tweak =
      new_shared_informer_factory_with_options client default_resync
        (with_namespace namespace ∷ with_tweak_list_options tweak ∷ [])

  -- The loop of `Start`: the last argument lists the informers that were set running, in order.
  start_loop :
      List (Text × SharedIndexInformer O R)
      → List (Text × Bool)
      → List Text
      → List (Text × Bool) × List Text
  start_loop [] started running = (started, running)
  start_loop ((informer_type, informer) ∷ rest) started running =
      let skip = start_loop rest started running in
      let go =
        start_loop rest (insert informer_type true started) (running ++ informer_type ∷ []) in
      if or_value (lookup informer_type started) false then skip else go

  -- `Start`, with the informers that were set running before it.
  unfoldable pub start : Factory O R × List Text → Factory O R × List Text
  unfolding start_loop
  start (f, running) =
      let (started, running') = start_loop f.informers f.started_informers running in
      (record f { started_informers = started }, running')

  -- `WaitForCacheSync`: the started informers, each with the outcome of its wait.
  sync_loop :
      (SharedIndexInformer O R → Bool)
      → List (Text × SharedIndexInformer O R)
      → List (Text × Bool)
      → List (Text × Bool)
  sync_loop wait [] started = []
  sync_loop wait ((informer_type, informer) ∷ rest) started =
      let res = sync_loop wait rest started in
      if or_value (lookup informer_type started) false
      then (informer_type, wait informer) ∷ res
      else res

  unfoldable pub wait_for_cache_sync :
      (SharedIndexInformer O R → Bool) → Factory O R → List (Text × Bool)
  unfolding sync_loop
  wait_for_cache_sync wait f = sync_loop wait f.informers f.started_informers
