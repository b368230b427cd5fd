-- ===== src/Controller/Reconcile/Phases/Together.antt =====
-- Workers that reconcile different services at the same time, call by call.
use lite_mesh.Base.{ℕ, suc, ◌≤◌, Text, List, [], ◌∷◌, map, All, ◌≡◌, ◌≢◌, refl, sym, ap, ◌∙◌, subst}
use lite_mesh.Kube.{Result, ok}
use lite_mesh.Apis.{Service}
use lite_mesh.Client.Listers.{Indexer, index_key, service_get}
use lite_mesh.Client.Listers.Reads.{IsKeyed, service_get-index_key}
use lite_mesh.Controller.Reconcile.{Kube}
use lite_mesh.Controller.Reconcile.Convergence.{IsSynced, IsSettled}
use lite_mesh.Controller.Reconcile.Success.{IsHealthy}
use lite_mesh.Controller.Reconcile.Phases.{Phase, getting_service, ended, advance}
use lite_mesh.Controller.Reconcile.Phases.Interleaving.{
  Interleaved, begun, works, others, Interleaved-IsSettled,
}
use lite_mesh.Controller.Reconcile.Phases.Apart.{
  IsSeparate, IsApart, advance-IsApart, advance-service_indexer, CallsApart, CallsApart-IsBenign,
}

module _ {W : Type 0} (kube : Kube W) (ns name : Text) where
  -- A key of another service, or of none.
  abbrev IsOther : Text → Type 0
  IsOther j =
      (ns' name' : Text)
      → kube.split_meta_namespace_key j ≡ ok (ns', name')
      → index_key ns' name' ≢ index_key ns name

  -- One worker of a list makes its next call, or starts on another key once it has returned.
  data Calls : List Phase × W → List Phase × W → Type 0 where
    calls :
        {p q : Phase} {ps : List Phase} {v w : W}
        → advance kube p v ≡ (q, w)
        → Calls (p ∷ ps, v) (q ∷ ps, w)
    starts :
        {r : Result (Unit {0})} {ps : List Phase} {w : W} (j : Text)
        → IsOther j
        → Calls (ended r ∷ ps, w) (getting_service j ∷ ps, w)
    later :
        {p : Phase} {ps qs : List Phase} {v w : W}
        → Calls (ps, v) (qs, w)
        → Calls (p ∷ ps, v) (p ∷ qs, w)

  -- The calls of one worker, so many, among those of other workers.
  data Together : ℕ → Phase × (List Phase × W) → Phase × (List Phase × W) → Type 0 where
    together : {c : Phase × (List Phase × W)} → Together 0 c c
    own :
        {n : ℕ} {c : Phase × (List Phase × W)} {p q : Phase} {ps : List Phase} {v w : W}
        → Together n c (p, (ps, v))
        → advance kube p v ≡ (q, w)
        → Together (suc n) c (q, (ps, w))
    theirs :
        {n : ℕ} {c : Phase × (List Phase × W)} {p : Phase} {ps qs : List Phase} {v w : W}
        → Together n c (p, (ps, v))
        → Calls (ps, v) (qs, w)
        → Together n c (p, (qs, w))

  module _ (k : Text) (s : Service) (synced : IsSynced kube) where
    -- The other workers keep apart from the service, with the cache as it was.
    record AreApart (ix : Indexer) (ps : List Phase) (w : W) : Type 0 where
      cache_kept : kube.service_indexer w ≡ ix
      apart : All (IsApart kube synced s ix) ps

    module _ (ix : Indexer) (keyed : IsKeyed ix) (cached : service_get ix ns name ≡ ok s) where
      getting-IsApart : (j : Text) → IsOther j → IsApart kube synced s ix (getting_service j)
      getting-IsApart j h ns' name' x e found same = h ns' name' e (
          sym (service_get-index_key ix ns' name' x keyed found)
          ∙ same
          ∙ service_get-index_key ix ns name s keyed cached)

      All-IsOther :
          (js : List Text)
          → All IsOther js
          → All (IsApart kube synced s ix) (map getting_service js)
      All-IsOther [] h = tt
      All-IsOther (j ∷ js) (h, hs) = (getting-IsApart j h, All-IsOther js hs)

      module _ (separate : IsSeparate kube) where
        moved-AreApart :
            (p q : Phase) (v w : W)
            → advance kube p v ≡ (q, w)
            → kube.service_indexer v ≡ ix
            → IsApart kube synced s ix p
            → (kube.service_indexer w ≡ ix)
              × IsApart kube synced s ix q
              × CallsApart kube synced s v w
        moved-AreApart p q v w e kept h =
            let at = subst (λ i. IsApart kube synced s i p) (sym kept) h in
            (
              ap (λ r. kube.service_indexer r.1) (sym e)
                  ∙ advance-service_indexer kube synced p v
                  ∙ kept,
              subst (λ i. IsApart kube synced s i q) kept
                  (subst (λ r. IsApart kube synced s (kube.service_indexer v) r.0) e
                    (advance-IsApart kube synced s (kube.service_indexer v) p v at)),
              (p, at, ap (λ r. r.1) e),
            )

        Calls-AreApart :
            (ps qs : List Phase) (v w : W)
            → Calls (ps, v) (qs, w)
            → AreApart ix ps v
            → AreApart ix qs w × CallsApart kube synced s v w
        unfolding advance
        Calls-AreApart _ _ v w (calls {p = p} {q = q} e) h =
            let (kept, at, call) = moved-AreApart p q v w e h.cache_kept h.apart.0 in
            (record { cache_kept = kept; apart = (at, h.apart.1) }, call)
        Calls-AreApart _ _ w _ (starts {r = r} j o) h = (
          record { cache_kept = h.cache_kept; apart = (getting-IsApart j o, h.apart.1) },
          (ended r, tt, refl),
        )
        Calls-AreApart (p ∷ ps) (_ ∷ qs) v w (later c) h =
            let (rest, call) =
              Calls-AreApart ps qs v w c
                (record { cache_kept = h.cache_kept; apart = h.apart.1 }) in
            (record { cache_kept = rest.cache_kept; apart = (h.apart.0, rest.apart) }, call)

        Together-Interleaved :
            (n : ℕ) (c d : Phase × (List Phase × W))
            → Together n c d
            → AreApart ix c.1.0 c.1.1
            → Interleaved kube (CallsApart kube synced s) n (c.0, c.1.1) (d.0, d.1.1)
              × AreApart ix d.1.0 d.1.1
        Together-Interleaved _ c _ together h = (begun, h)
        Together-Interleaved _ c _ (own {n = n} {p = p} {ps = ps} {v = v} t e) h =
            let (steps, apart) = Together-Interleaved n c (p, (ps, v)) t h in
            (
              works steps e,
              record {
                cache_kept =
                    ap (λ r. kube.service_indexer r.1) (sym e)
                    ∙ advance-service_indexer kube synced p v
                    ∙ apart.cache_kept;
                apart = apart.apart;
              },
            )
        Together-Interleaved n c _ (theirs {p = p} {ps = ps} {qs = qs} {v = v} {w = w} t a) h =
            let (steps, apart) = Together-Interleaved n c (p, (ps, v)) t h in
            let (apart', call) = Calls-AreApart ps qs v w a apart in (others steps call, apart')

    -- Workers that reconcile other services make their calls in any order between those of a worker
    -- that reconciles the key of a mesh service in the cache, and start on further keys of other
    -- services: after five calls of its own, the worker has returned without an error, and then the
    -- service has its Deployment, and its Kubernetes Service if it wants one. The caches follow the API
    -- server and hold objects under their own keys, reads are answered, and what is missing can be
    -- created.
    Together-IsSettled :
        (healthy : IsHealthy kube) (separate : IsSeparate kube) (n : ℕ) (js : List Text) (p : Phase)
        (qs : List Phase) (w w' : W)
        → IsKeyed (kube.service_indexer w)
        → kube.split_meta_namespace_key k ≡ ok (ns, name)
        → service_get (kube.service_indexer w) ns name ≡ ok s
        → All IsOther js
        → Together n (getting_service k, (map getting_service js, w)) (p, (qs, w'))
        → 5 ≤ n
        → (p ≡ ended (ok tt)) × IsSettled kube s w'
    Together-IsSettled healthy separate n js p qs w w' keyed is_key cached apart t many =
        let ix = kube.service_indexer w in
        let (steps, _) =
          Together-Interleaved ix keyed cached separate n _ _ t
            (record { cache_kept = refl; apart = All-IsOther ix keyed cached js apart }) in
        Interleaved-IsSettled kube (CallsApart kube synced s) k ns name s synced healthy is_key
          (CallsApart-IsBenign kube synced s separate ns name) n p w w' steps many cached
