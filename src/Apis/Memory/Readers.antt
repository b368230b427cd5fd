-- ===== src/Apis/Memory/Readers.antt =====
-- What the values of the Go heap stand for, and that an allocation does not change it.
use lite_mesh.Base.{
  ℕ, zero, suc, List, [], ◌∷◌, ◌++◌, Option, none, some, get_elem?, ◌≡◌, refl, ap, ◌∙◌, arith,
}
use lite_mesh.Apis.Memory.{Address, CellType, bind}

-- What a value in memory stands for, if every address in it is good.
abbrev pub Reader : Type 0 → Type 0 → Type 0 → Type 0
Reader K T V = List K → T → Option V

-- An allocation changes no reading.
abbrev pub IsStable : {K T V : Type 0} → Reader K T V → Type 0
IsStable {K} {T} {V} rd = (h u : List K) (x : T) (v : V) → rd h x ≡ some v → rd (h ++ u) x ≡ some v

unfoldable pub read_value : {K T : Type 0} → Reader K T T
read_value h x = some x

unfoldable pub read_list : {K T V : Type 0} → Reader K T V → Reader K (List T) (List V)
unfolding bind
read_list rd h [] = some []
read_list rd h (x ∷ xs) = bind (rd h x) (λ v. bind (read_list rd h xs) (λ vs. some (v ∷ vs)))

unfoldable pub read_ref :
    {K A V : Type 0} → CellType K A → Reader K A V → Reader K Address (Option V)
unfolding bind
read_ref ct rd h none = some none
read_ref ct rd h (some a) =
    bind (get_elem? h a) (λ c. bind (ct.of_cell c) (λ x. bind (rd h x) (λ v. some (some v))))

unfoldable pub read_both :
    {K A B V W : Type 0} → Reader K A V → Reader K B W → Reader K (A × B) (V × W)
unfolding bind
read_both rd rq h (a, b) = bind (rd h a) (λ v. bind (rq h b) (λ w. some (v, w)))

unfoldable pub read_struct :
    {K T F V W : Type 0} → (T → F) → (T → V → W) → Reader K F V → Reader K T W
unfolding bind
read_struct fields make rd h x = bind (rd h (fields x)) (λ v. some (make x v))

-- What a chain that succeeds went through.
pub bind-some :
    {A B : Type 0} (o : Option A) (f : A → Option B) (b : B)
    → bind o f ≡ some b
    → (a : A) × ((o ≡ some a) × (f a ≡ some b))
unfolding bind
bind-some none f b e = ground arith
bind-some (some a) f b e = (a, (refl, e))

pub read_value-IsStable : {K T : Type 0} → IsStable (read_value {K = K} {T = T})
unfolding read_value
read_value-IsStable h u x v e = e

module _ {K : Type 0} where
  pub read_list-cons :
      {T V : Type 0} (rd : Reader K T V) (h : List K) (x : T) (xs : List T) (v : V) (vs : List V)
      → rd h x ≡ some v
      → read_list rd h xs ≡ some vs
      → read_list rd h (x ∷ xs) ≡ some (v ∷ vs)
  unfolding read_list bind
  read_list-cons rd h x xs v vs e es =
      ap (λ o. bind o (λ w. bind (read_list rd h xs) (λ ws. some (w ∷ ws)))) e
      ∙ ap (λ o. bind o (λ ws. some (v ∷ ws))) es

  pub read_list-IsStable :
      {T V : Type 0} (rd : Reader K T V) → IsStable rd → IsStable (read_list rd)
  unfolding read_list
  read_list-IsStable rd st h u [] v e = e
  read_list-IsStable rd st h u (x ∷ xs) v e =
      let (w, (ew, k)) = bind-some (rd h x) _ v e in
      let (ws, (ews, k')) = bind-some (read_list rd h xs) _ v k in
      read_list-cons rd (h ++ u) x xs w ws (st h u x w ew) (read_list-IsStable rd st h u xs ws ews)
      ∙ k'

  get_elem?-append :
      (h u : List K) (a : ℕ) (c : K) → get_elem? h a ≡ some c → get_elem? (h ++ u) a ≡ some c
  get_elem?-append [] u a c e = ground arith
  get_elem?-append (d ∷ h) u zero c e = e
  get_elem?-append (d ∷ h) u (suc a) c e = get_elem?-append h u a c e

  module _ {A V : Type 0} (ct : CellType K A) (rd : Reader K A V) where
    pub read_ref-cell :
        (h : List K) (a : ℕ) (c : K) (x : A) (v : V)
        → get_elem? h a ≡ some c
        → ct.of_cell c ≡ some x
        → rd h x ≡ some v
        → read_ref ct rd h (some a) ≡ some (some v)
    unfolding read_ref bind
    read_ref-cell h a c x v ec ex ev =
        ap (λ o. bind o (λ d. bind (ct.of_cell d) (λ y. bind (rd h y) (λ w. some (some w))))) ec
        ∙ ap (λ o. bind o (λ y. bind (rd h y) (λ w. some (some w)))) ex
        ∙ ap (λ o. bind o (λ w. some (some w))) ev

    pub read_ref-IsStable : IsStable rd → IsStable (read_ref ct rd)
    unfolding read_ref
    read_ref-IsStable st h u none v e = e
    read_ref-IsStable st h u (some a) v e =
        let (c, (ec, k)) = bind-some (get_elem? h a) _ v e in
        let (x, (ex, k')) = bind-some (ct.of_cell c) _ v k in
        let (w, (ew, k'')) = bind-some (rd h x) _ v k' in
        read_ref-cell (h ++ u) a c x w (get_elem?-append h u a c ec) ex (st h u x w ew) ∙ k''

  module _ {A B V W : Type 0} (rd : Reader K A V) (rq : Reader K B W) where
    pub read_both-pair :
        (h : List K) (a : A) (b : B) (v : V) (w : W)
        → rd h a ≡ some v
        → rq h b ≡ some w
        → read_both rd rq h (a, b) ≡ some (v, w)
    unfolding read_both bind
    read_both-pair h a b v w e e' =
        ap (λ o. bind o (λ x. bind (rq h b) (λ y. some (x, y)))) e
        ∙ ap (λ o. bind o (λ y. some (v, y))) e'

    pub read_both-IsStable : IsStable rd → IsStable rq → IsStable (read_both rd rq)
    unfolding read_both
    read_both-IsStable st st' h u (a, b) v e =
        let (x, (ex, k)) = bind-some (rd h a) _ v e in
        let (y, (ey, k')) = bind-some (rq h b) _ v k in
        read_both-pair (h ++ u) a b x y (st h u a x ex) (st' h u b y ey) ∙ k'

  module _ {T F V W : Type 0} (fields : T → F) (make : T → V → W) (rd : Reader K F V) where
    pub read_struct-IsStable : IsStable rd → IsStable (read_struct fields make rd)
    unfolding read_struct bind
    read_struct-IsStable st h u x v e =
        let (w, (ew, k)) = bind-some (rd h (fields x)) _ v e in
        ap (λ o. bind o (λ y. some (make x y))) (st h u (fields x) w ew) ∙ k
