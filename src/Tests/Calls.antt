-- ===== src/Tests/Calls.antt =====
-- Two workers that make their calls in turns, while an event adds a key and the cluster changes.
use lite_mesh.Base.{
  grow, ℕ, insert, Text, codes, List, [], ◌∷◌, ◌++◌, Bool, true, false, if◌then◌else◌, ◌≡◌, ◌≢◌,
  ◌==◌, refl, sym, ap, ◌∙◌, subst, inl, inr, split, lookup, text_dec, ℕ_discrete, arith,
}
use lite_mesh.Kube.{ok}
use lite_mesh.Apis.{ports}
use lite_mesh.Client.Listers.{service, index_key, service_get}
use lite_mesh.Client.Listers.Reads.{IsKeyed}
use lite_mesh.Controller.Resource.{create_service_deployment}
use lite_mesh.Controller.Reconcile.{wants_k8s_service}
use lite_mesh.Controller.Reconcile.Convergence.{IsSettled}
use lite_mesh.Controller.Reconcile.Phases.{Phase, getting_service, advance}
use lite_mesh.Controller.Worker.{added, on_event, enqueue, key, with_done, report}
use lite_mesh.Controller.Worker.Calls.{
  Crew, crew, begin, returned, takes, calls, finishes, changes, Moves, at_rest, and_move,
}
use lite_mesh.Controller.Worker.Calls.Settling.{Moves-IsSettled}
use lite_mesh.Tests.Objects.{web}
use lite_mesh.Tests.Queue.{item_dec}
use lite_mesh.Tests.Pool.{Pool, pool, close, keyed, pool-laws, pool_waiting, first}
use lite_mesh.Tests.Phases.{web_key, db_key, with_db, Others, Others-IsBenign, fresh-IsKeyed}
use lite_mesh.Tests.Cluster.{
  Cluster, kube, split_parts, kube-IsSynced, kube-IsHealthy, kube-IsAdditive, kube-IsSeparate,
  fresh,
}

abbrev join : List Text → Text
join [] = []
join (p ∷ []) = p
join (p ∷ q ∷ ps) = p ++ b'/' ∷ join (q ∷ ps)

join-grow : (c : ℕ) (ps : List Text) → join (grow c ps) ≡ c ∷ join ps
join-grow c [] = refl
join-grow c (p ∷ []) = refl
join-grow c (p ∷ q ∷ ps) = refl

join-cut : (ps : List Text) → ps ≢ [] → join ([] ∷ ps) ≡ b'/' ∷ join ps
join-cut [] n = absurd (n refl)
join-cut (p ∷ ps) n = refl

join-one :
    (b : Bool) (c : ℕ) (ps : List Text)
    → (c == b'/') ≡ b
    → ps ≢ []
    → join (if b then [] ∷ ps else grow c ps) ≡ c ∷ join ps
join-one true c ps e n = ground (arith, join-cut ps n)
join-one false c ps e n = join-grow c ps

split-some : (s : Text) → split b'/' s ≢ []
unfolding split
split-some [] e = ground arith
split-some (c ∷ s) e = ground (arith, split-some s)

-- Joining the parts of a split gives the text back.
join-split : (s : Text) → join (split b'/' s) ≡ s
unfolding split
join-split [] = refl
join-split (c ∷ s) =
    join-one (c == b'/') c (split b'/' s) refl (split-some s) ∙ ap (◌∷◌ c) (join-split s)

parts-index_key :
    (ps : List Text) (ns name : Text)
    → split_parts ps ≡ ok (ns, name)
    → index_key ns name ≡ web_key
    → join ps ≡ web_key
parts-index_key [] ns name e h = ground arith
parts-index_key (p ∷ []) ns name e h = ground arith
parts-index_key (p ∷ q ∷ []) ns name e h = ground arith
parts-index_key (p ∷ q ∷ r ∷ ps) ns name e h = ground arith

web-own_key :
    (j ns name : Text)
    → kube.split_meta_namespace_key j ≡ ok (ns, name)
    → index_key ns name ≡ index_key (codes "default") (codes "web")
    → j ≡ web_key
web-own_key j ns name e h = sym (join-split j) ∙ parts-index_key (split b'/' j) ns name e h

Others-IsKeyed :
    (v w : Cluster)
    → Others v w
    → IsKeyed (kube.service_indexer v)
    → IsKeyed (kube.service_indexer w)
Others-IsKeyed v w o h = subst (λ u. IsKeyed (kube.service_indexer u)) o h

abbrev db_waits : Pool
db_waits = record { waiting = key db_key ∷ []; busy = λ i. false }

-- A worker has got `db` and read it; then the event of `web` comes, and the other worker gets it.
abbrev before : Crew Pool Cluster
before = record {
  idle = 1;
  hands = (key db_key, (advance kube (getting_service db_key) fresh).0) ∷ [];
  stopped = false;
  queue_state = (pool.get db_waits).1;
  cluster = fresh;
}

abbrev web_waits : Pool
web_waits = (on_event pool keyed (added (service web)) (pool.get db_waits).1).1

-- The calls of both workers in turns, with the Deployment of `db` created by somebody else.
after_calls : (Phase × Phase) × Cluster
after_calls =
    let (b, w) = advance kube (getting_service db_key) fresh in
    let (a, w) = advance kube (getting_service web_key) w in
    let w = with_db w in
    let (b, w) = advance kube b w in
    let (a, w) = advance kube a w in
    let (a, w) = advance kube a w in
    let (b, w) = advance kube b w in
    let (a, w) = advance kube a w in let (a, w) = advance kube a w in ((a, b), w)

abbrev after : Crew Pool Cluster
after = record {
  idle = 1;
  hands = (key db_key, after_calls.0.1) ∷ [];
  stopped = false;
  queue_state = pool.done (key web_key) (pool.get web_waits).1;
  cluster = after_calls.1;
}

db_begun :
    Moves pool close kube keyed Others (crew pool close kube keyed Others 2 db_waits fresh) before
unfolding crew begin first item_dec text_dec ℕ_discrete advance
db_begun =
    let m = at_rest in
    let m = and_move m (takes (key db_key) refl) in and_move m (calls [] [] (key db_key) _ _ refl)

web_handled : Moves pool close kube keyed Others (record before { queue_state = web_waits }) after
unfolding begin after_calls first item_dec text_dec ℕ_discrete returned with_done report on_event
    enqueue keyed advance split lookup service_get ports create_service_deployment wants_k8s_service
    insert
web_handled =
    let m = at_rest {s = record before { queue_state = web_waits }} in
    let m = and_move m (takes (key web_key) refl) in
    let m = and_move m (calls [] (_ ∷ []) (key web_key) _ _ refl) in
    let m = and_move m (changes refl) in
    let m = and_move m (calls (_ ∷ []) [] (key db_key) _ _ refl) in
    let m = and_move m (calls [] (_ ∷ []) (key web_key) _ _ refl) in
    let m = and_move m (calls [] (_ ∷ []) (key web_key) _ _ refl) in
    let m = and_move m (calls (_ ∷ []) [] (key db_key) _ _ refl) in
    let m = and_move m (calls [] (_ ∷ []) (key web_key) _ _ refl) in
    let m = and_move m (calls [] (_ ∷ []) (key web_key) _ _ refl) in
    and_move m (finishes [] (_ ∷ []) (key web_key) (ok tt) refl)

Moves-IsSettled_example : IsSettled kube web after_calls.1
unfolding split lookup text_dec service_get first item_dec ℕ_discrete on_event enqueue keyed
Moves-IsSettled_example =
    Moves-IsSettled pool close kube keyed Others pool-laws pool_waiting kube-IsSynced kube-IsHealthy
      kube-IsAdditive kube-IsSeparate web_key (codes "default") (codes "web") web refl web-own_key
      Others-IsBenign Others-IsKeyed 2 db_waits web_waits fresh before after (added (service web))
      (service web) fresh-IsKeyed db_begun refl refl refl tt refl web_handled (λ h. h)
      (λ h. elim h [ inl e ↦ cc | inr b ↦ b ])
