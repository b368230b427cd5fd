-- ===== src/Client/Informers/Orders.antt =====
-- `Start`, whichever order the map of the informers is walked in.
use lite_mesh.Base.{Text, List, map, Bool, true, false, not, lookup}
use lite_mesh.Client.Informers.{SharedIndexInformer, or_value}

abbrev is_new : List (Text × Bool) → Text → Bool
is_new started k = not (or_value (lookup k started) false)

module _ {O R : Type 0} where
  abbrev marks : List (Text × SharedIndexInformer O R) → List (Text × Bool)
  marks = map (λ e. (e.0, true))
