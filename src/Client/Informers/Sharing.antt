-- ===== src/Client/Informers/Sharing.antt =====
-- Which informer a factory hands out, and how it is configured.
use lite_mesh.Base.{
  ℕ, Text, text_dec, List, [], ◌∷◌, Option, none, some, ◌≡◌, refl, ap, ◌∙◌, lookup, insert,
  lookup-insert, lookup-insert_all, or_else, IsMap, arith,
}
use lite_mesh.Client.Informers.{
  SharedIndexInformer, Client, Factory, or_value, tweaked, service_type, informer_case,
  informer_for, services_informer, configurations_informer, with_custom_resync_config,
  new_shared_informer_factory_with_options, new_filtered_shared_informer_factory,
}

or_else-none : {A : Type 0} (o : Option A) → or_else o none ≡ o
or_else-none none = refl
or_else-none (some a) = refl

module _ {O R : Type 0} where
  shared-case :
      (o : Option (SharedIndexInformer O R)) (f : Factory O R) (k : Text)
      (new_func : Client O R → ℕ → SharedIndexInformer O R)
      → lookup k f.informers ≡ o
      → lookup k (informer_case o f k new_func).1.informers ≡ some (informer_case o f k new_func).0
  unfolding informer_case
  shared-case (some i) f k new_func e = e
  shared-case none f k new_func e = ground (
    arith,
    lookup-insert k k (new_func f.client (or_value (lookup k f.custom_resync) f.default_resync))
        f.informers,
  )

  -- Once a factory has handed out an informer of a type, it hands out the same informer of that type
  -- ever after, whatever constructor it is given, and is not changed by that.
  pub informer_for-again :
      (f : Factory O R) (k : Text) (new_func other_func : Client O R → ℕ → SharedIndexInformer O R)
      → let (informer, f') = informer_for f k new_func in
        informer_for f' k other_func ≡ (informer, f')
  unfolding informer_for
  informer_for-again f k new_func other_func =
      ap (λ o. informer_case o (informer_for f k new_func).1 k other_func)
        (shared-case (lookup k f.informers) f k new_func refl)
      ∙ unfold informer_case in refl

  -- The informers of a factory that was made for a namespace list and watch in that namespace, with
  -- the options tweaked as the factory says, and resynchronise at the default period.
  pub filtered_informers :
      (client : Client O R) (resync : ℕ) (ns : Text) (tweak : Option (O → O)) (options : O)
      → let f = new_filtered_shared_informer_factory client resync ns tweak in
        let s = (services_informer f).0 in
        let c = (configurations_informer (services_informer f).1).0 in
        (s.list_watch.list_func options ≡ client.list_services ns (tweaked tweak options))
        × (s.list_watch.watch_func options ≡ client.watch_services ns (tweaked tweak options))
        × (c.list_watch.list_func options ≡ client.list_configurations ns (tweaked tweak options))
        × (c.list_watch.watch_func options ≡ client.watch_configurations ns (tweaked tweak options))
        × (s.resync_period ≡ resync)
        × (c.resync_period ≡ resync)
  unfolding new_filtered_shared_informer_factory services_informer configurations_informer
      informer_for lookup insert text_dec
  filtered_informers client resync ns tweak options = (refl, refl, refl, refl, refl, refl)

  -- A factory with custom periods resynchronises its service informer at the period set for that type,
  -- and at the default period if none is set.
  pub custom_resync_period :
      (client : Client O R) (resync : ℕ) (custom : List (Text × ℕ))
      → IsMap custom
      → let f =
          new_shared_informer_factory_with_options client resync
            (with_custom_resync_config custom ∷ []) in
        (services_informer f).0.resync_period ≡ or_value (lookup service_type custom) resync
  unfolding new_shared_informer_factory_with_options with_custom_resync_config services_informer
      informer_for lookup
  custom_resync_period client resync custom h =
      rw (lookup-insert_all service_type custom [] h)
        (ap (λ o. or_value o resync) (or_else-none (lookup service_type custom)))
