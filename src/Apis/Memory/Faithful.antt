-- ===== src/Apis/Memory/Faithful.antt =====
-- When a copy reads like its original and shares no memory with it, and that the ways to put copies
-- together keep this.
use lite_mesh.Base.{
  List, [], ◌∷◌, ◌++◌, append-nil, append_assoc, Option, none, some, length, get_elem?,
  length-append, ◌≡◌, refl, sym, ap, ◌∙◌, subst, arith,
}
use lite_mesh.Apis.Memory.{
  Copy, CellType, bind, and_then, copy_value, copy_list, copy_ref, copy_both, copy_struct,
}
use lite_mesh.Apis.Memory.Readers.{
  Reader, IsStable, read_value, read_list, read_ref, read_both, read_struct, bind-some,
  read_list-cons, read_list-IsStable, read_ref-cell, read_both-pair,
}

-- The copy of a readable value succeeds, it only allocates, and the copy reads the same whatever
-- becomes of the cells that were there before.
abbrev pub IsFaithful : {K T V : Type 0} → Copy K T → Reader K T V → Type 0
IsFaithful {K} {T} {V} cp rd =
    (x : T) (h : List K) (v : V)
    → rd h x ≡ some v
    → (out : T) × ((t : List K) × ((cp x h ≡ some (out, h ++ t))
          × ((g : List K) → length g ≡ length h → rd (g ++ t) out ≡ some v)))

pub copy_value-IsFaithful : {K T : Type 0} → IsFaithful (copy_value {K = K} {T = T}) read_value
unfolding copy_value read_value
copy_value-IsFaithful x h v e = (x, ([], (ap (λ k. some (x, k)) (sym (append-nil h)), λ g l. e)))

module _ {K : Type 0} where
  -- A reading after two allocations in a row.
  stable-twice :
      {T V : Type 0} (rd : Reader K T V)
      → IsStable rd
      → (g t u : List K) (x : T) (v : V) → rd (g ++ t) x ≡ some v
      → rd (g ++ (t ++ u)) x ≡ some v
  stable-twice rd st g t u x v e =
      subst (λ k. rd k x ≡ some v) (append_assoc g t u) (st (g ++ t) u x v e)

  length-same : (g h t : List K) → length g ≡ length h → length (g ++ t) ≡ length (h ++ t)
  length-same g h t e = omega (arith, length-append g t, length-append h t)

  pub copy_list-IsFaithful :
      {T V : Type 0} (cp : Copy K T) (rd : Reader K T V)
      → IsStable rd
      → IsFaithful cp rd
      → IsFaithful (copy_list cp) (read_list rd)
  unfolding copy_list read_list and_then
  copy_list-IsFaithful cp rd st f [] h v e =
      ([], ([], (ap (λ k. some ([], k)) (sym (append-nil h)), λ g l. e)))
  copy_list-IsFaithful cp rd st f (x ∷ xs) h v e =
      let (w, (ew, k)) = bind-some (rd h x) _ v e in
      let (ws, (ews, k')) = bind-some (read_list rd h xs) _ v k in
      let (out, (t, (c, r))) = f x h w ew in
      let (outs, (u, (cs, rs))) =
        copy_list-IsFaithful cp rd st f xs (h ++ t) ws (read_list-IsStable rd st h t xs ws ews) in
      (
        out ∷ outs,
        (
          t ++ u,
          (
            ap
                  (λ o.
                    and_then o
                      (λ y h'. and_then (copy_list cp xs h') (λ ys h''. some (y ∷ ys, h''))))
                  c
                ∙ ap (λ o. and_then o (λ ys h''. some (out ∷ ys, h''))) cs
                ∙ ap (λ m. some (out ∷ outs, m)) (append_assoc h t u),
            λ g l.
                read_list-cons rd (g ++ (t ++ u)) out outs w ws
                  (stable-twice rd st g t u out w (r g l))
                  (subst (λ m. read_list rd m outs ≡ some ws) (append_assoc g t u)
                    (rs (g ++ t) (length-same g h t l)))
                ∙ k',
          ),
        ),
      )

  get_elem?-length : (h : List K) (c : K) → get_elem? (h ++ c ∷ []) (length h) ≡ some c
  get_elem?-length [] c = refl
  get_elem?-length (d ∷ h) c = get_elem?-length h c

  module _ {A V : Type 0} (ct : CellType K A) (rd : Reader K A V) where
    pub copy_ref-IsFaithful :
        (cp : Copy K A)
        → ((x : A) → ct.of_cell (ct.to_cell x) ≡ some x)
        → IsStable rd
        → IsFaithful cp rd
        → IsFaithful (copy_ref ct cp) (read_ref ct rd)
    unfolding copy_ref read_ref bind and_then
    copy_ref-IsFaithful cp law st f none h v e =
        (none, ([], (ap (λ k. some (none, k)) (sym (append-nil h)), λ g l. e)))
    copy_ref-IsFaithful cp law st f (some a) h v e =
        let (c, (ec, k)) = bind-some (get_elem? h a) _ v e in
        let (x, (ex, k')) = bind-some (ct.of_cell c) _ v k in
        let (w, (ew, k'')) = bind-some (rd h x) _ v k' in
        let (out, (t, (cs, r))) = f x h w ew in
        let cell = ct.to_cell out ∷ [] in
        (
          some (length (h ++ t)),
          (
            t ++ cell,
            (
              ap
                    (λ o. bind o (λ d. bind (ct.of_cell d) (λ y.
                      and_then (cp y h)
                        (λ y' h'. some (some (length h'), h' ++ ct.to_cell y' ∷ [])))))
                    ec
                  ∙ ap
                      (λ o. bind o (λ y.
                        and_then (cp y h)
                          (λ y' h'. some (some (length h'), h' ++ ct.to_cell y' ∷ []))))
                      ex
                  ∙ ap
                      (λ o. and_then o (λ y' h'. some (some (length h'), h' ++ ct.to_cell y' ∷ [])))
                      cs
                  ∙ ap (λ m. some (some (length (h ++ t)), m)) (append_assoc h t cell),
              λ g l.
                  read_ref-cell ct rd (g ++ (t ++ cell)) (length (h ++ t)) (ct.to_cell out) out w
                    (subst (λ n. get_elem? (g ++ (t ++ cell)) n ≡ some (ct.to_cell out))
                      (length-same g h t l)
                      (subst (λ m. get_elem? m (length (g ++ t)) ≡ some (ct.to_cell out))
                        (append_assoc g t cell) (get_elem?-length (g ++ t) (ct.to_cell out))))
                    (law out) (stable-twice rd st g t cell out w (r g l))
                  ∙ k'',
            ),
          ),
        )

  module _ {A B V W : Type 0} (rd : Reader K A V) (rq : Reader K B W) where
    pub copy_both-IsFaithful :
        (cp : Copy K A) (cq : Copy K B)
        → IsStable rd
        → IsStable rq
        → IsFaithful cp rd
        → IsFaithful cq rq
        → IsFaithful (copy_both cp cq) (read_both rd rq)
    unfolding copy_both read_both and_then
    copy_both-IsFaithful cp cq st st' f f' (a, b) h v e =
        let (x, (ex, k)) = bind-some (rd h a) _ v e in
        let (y, (ey, k')) = bind-some (rq h b) _ v k in
        let (out, (t, (c, r))) = f a h x ex in
        let (out', (u, (c', r'))) = f' b (h ++ t) y (st' h t b y ey) in
        (
          (out, out'),
          (
            t ++ u,
            (
              ap (λ o. and_then o (λ p h'. and_then (cq b h') (λ q h''. some ((p, q), h'')))) c
                  ∙ ap (λ o. and_then o (λ q h''. some ((out, q), h''))) c'
                  ∙ ap (λ m. some ((out, out'), m)) (append_assoc h t u),
              λ g l.
                  read_both-pair rd rq (g ++ (t ++ u)) out out' x y
                    (stable-twice rd st g t u out x (r g l))
                    (subst (λ m. rq m out' ≡ some y) (append_assoc g t u)
                      (r' (g ++ t) (length-same g h t l)))
                  ∙ k',
            ),
          ),
        )

  module _ {T F V W : Type 0} (fields : T → F) (set : T → F → T) (make : T → V → W)
      (rd : Reader K F V) where
    pub copy_struct-IsFaithful :
        (cp : Copy K F)
        → ((x : T) (f : F) → fields (set x f) ≡ f)
        → ((x : T) (f : F) (v : V) → make (set x f) v ≡ make x v)
        → IsFaithful cp rd
        → IsFaithful (copy_struct fields set cp) (read_struct fields make rd)
    unfolding copy_struct read_struct bind and_then
    copy_struct-IsFaithful cp sets kept f x h v e =
        let (w, (ew, k)) = bind-some (rd h (fields x)) _ v e in
        let (out, (t, (c, r))) = f (fields x) h w ew in
        (
          set x out,
          (
            t,
            (
              ap (λ o. and_then o (λ y h'. some (set x y, h'))) c,
              λ g l.
                  ap (λ o. bind o (λ y. some (make (set x out) y)))
                    (subst (λ y. rd (g ++ t) y ≡ some w) (sym (sets x out)) (r g l))
                  ∙ ap some (kept x out w)
                  ∙ k,
            ),
          ),
        )

-- What a chain of copies that succeeds went through.
and_then-some :
    {K A B : Type 0} (o : Option (A × List K)) (f : A → List K → Option (B × List K))
    (r : B × List K)
    → and_then o f ≡ some r
    → (a : A) × ((h : List K) × ((o ≡ some (a, h)) × (f a h ≡ some r)))
unfolding and_then
and_then-some none f r e = ground arith
and_then-some (some (a, h)) f r e = (a, (h, (refl, e)))

pub copy_struct-some :
    {K T F : Type 0} (fields : T → F) (set : T → F → T) (cp : Copy K F) (x out : T) (h h' : List K)
    → copy_struct fields set cp x h ≡ some (out, h')
    → (f : F) × ((h'' : List K) × ((cp (fields x) h ≡ some (f, h'')) × (set x f ≡ out)))
unfolding copy_struct
copy_struct-some fields set cp x out h h' e =
    let (f, (h'', (c, k))) = and_then-some (cp (fields x) h) _ (out, h') e in
    (f, (h'', (c, ground arith)))

pub copy_both-second :
    {K A B : Type 0} (cp : Copy K A) (cq : Copy K B) (a : A) (b : B) (out : A × B) (h h' : List K)
    → copy_both cp cq (a, b) h ≡ some (out, h')
    → (k : List K) × ((k' : List K) × (cq b k ≡ some (out.1, k')))
unfolding copy_both
copy_both-second cp cq a b out h h' e =
    let (p, (k, (c, r))) = and_then-some (cp a h) _ (out, h') e in
    let (q, (k', (c', r'))) = and_then-some (cq b k) _ (out, h') r in (k, (k', c' ∙ ground arith))
