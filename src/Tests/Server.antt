-- ===== src/Tests/Server.antt =====
-- A small API server: it answers a write with the object written, keeps the objects by namespace,
-- resource and name, and fails all other requests.
use lite_mesh.Base.{
  Text, text_dec, codes, List, [], ◌∷◌, Option, none, some, ite, ◌≡◌, ◌≢◌, refl, sym, ap, ◌∙◌,
  arith,
}
use lite_mesh.Kube.{Error, failure}
use lite_mesh.Apis.{Service, Configuration}
use lite_mesh.Client.Rest.{
  Verb, http_get, http_post, http_put, http_delete, http_patch, Body, service_body,
  configuration_body, Rest,
}
use lite_mesh.Client.Requests.{
  Request, request_of, written_by, written, read_by, read, StoresWrites, IsolatesTargets,
  ReportsErrors,
}

abbrev Key : Type 0
Key = Text × Text × Text

pub data Response : Type 0 where
  answered : Body → Response
  failed : Error → Response

abbrev pub Store : Type 0
Store = Key → Response

unfoldable put : Key → Response → Store → Store
put (ns, res, n) v st (ns', res', n') =
    ite (text_dec ns ns')
      (ite (text_dec res res') (ite (text_dec n n') v (st (ns', res', n'))) (st (ns', res', n')))
      (st (ns', res', n'))

abbrev bad_request : Response
bad_request = failed (failure (codes "bad request"))

abbrev pub answer_body : Option Body → Response
answer_body (some b) = answered b
answer_body none = bad_request

unfoldable answer : Option Key → Option Key → Request → Store → Response × Store
unfolding put
answer (some k) _ r st = (answer_body r.body, put k (answer_body r.body) st)
answer none (some k) r st = (st k, st)
answer none none r st = (bad_request, st)

unfoldable serve : Request → Store → Response × Store
unfolding answer
serve r = answer (written r) (read r) r

abbrev pub error_in : Response → Option Error
error_in (answered _) = none
error_in (failed e) = some e

abbrev service_in : Response → Service → Service × Option Error
service_in (answered (service_body s)) _ = (s, none)
service_in (answered _) s = (s, some (failure (codes "kind")))
service_in (failed e) s = (s, some e)

abbrev configuration_in : Response → Configuration → Configuration × Option Error
configuration_in (answered (configuration_body c)) _ = (c, none)
configuration_in (answered _) c = (c, some (failure (codes "kind")))
configuration_in (failed e) c = (c, some e)

unfoldable pub server : Rest Store Response (Option Error)
unfolding serve
server = record {
  do_request = λ calls st. serve (request_of calls) st;
  watch_request = λ calls st. (none, st);
  into_service = service_in;
  into_service_list = λ r l. (l, error_in r);
  into_configuration = configuration_in;
  into_configuration_list = λ r l. (l, error_in r);
  error_of = error_in;
}

reads-not_writes :
    (m : Option Verb) (sub : List Text) (r : Request) (k : Key)
    → read_by m sub r ≡ some k
    → written_by m sub r ≡ none
unfolding read_by written_by
reads-not_writes (some http_get) [] r k e = refl
reads-not_writes (some http_get) (x ∷ sub) r k e = refl
reads-not_writes (some http_post) [] r k e = ground arith
reads-not_writes (some http_post) (x ∷ sub) r k e = refl
reads-not_writes (some http_put) [] r k e = ground arith
reads-not_writes (some http_put) (x ∷ sub) r k e = refl
reads-not_writes (some http_delete) sub r k e = refl
reads-not_writes (some (http_patch _)) sub r k e = refl
reads-not_writes none sub r k e = refl

writes-target :
    (m : Option Verb) (sub : List Text) (r : Request) (ns res n : Text)
    → written_by m sub r ≡ some (ns, res, n)
    → (r.namespace ≡ ns) × (r.resource ≡ res)
unfolding written_by
writes-target (some http_get) [] r ns res n e = ground arith
writes-target (some http_get) (x ∷ sub) r ns res n e = ground arith
writes-target (some http_post) [] r ns res n e = ground arith
writes-target (some http_post) (x ∷ sub) r ns res n e = ground arith
writes-target (some http_put) [] r ns res n e = ground arith
writes-target (some http_put) (x ∷ sub) r ns res n e = ground arith
writes-target (some http_delete) sub r ns res n e = ground arith
writes-target (some (http_patch _)) sub r ns res n e = ground arith
writes-target none sub r ns res n e = ground arith

put-same : (k : Key) (v : Response) (st : Store) → put k v st k ≡ v
unfolding put text_dec
put-same (ns, res, n) v st = ground arith

put-other :
    (ns res n ns' res' n' : Text) (v : Response) (st : Store)
    → ◌≢◌ {A = Text × Text} (ns, res) (ns', res')
    → put (ns, res, n) v st (ns', res', n') ≡ st (ns', res', n')
unfolding put text_dec
put-other ns res n ns' res' n' v st d = ground arith

serve-read : (r : Request) (k : Key) (st : Store) → read r ≡ some k → (serve r st).0 ≡ st k
unfolding serve read written
serve-read r k st e =
    ap (λ o. (answer o (read r) r st).0) (reads-not_writes r.method r.subresource r k e)
    ∙ ap (λ o. (answer none o r st).0) e

serve-written :
    (r : Request) (k : Key) (st : Store)
    → written r ≡ some k
    → serve r st ≡ (answer_body r.body, put k (answer_body r.body) st)
unfolding serve
serve-written r k st e = ap (λ o. answer o (read r) r st) e

serve-others :
    (o o' : Option Key) (r : Request) (ns res n : Text) (st : Store)
    → written r ≡ o
    → ◌≢◌ {A = Text × Text} (r.namespace, r.resource) (ns, res)
    → (answer o o' r st).1 (ns, res, n) ≡ st (ns, res, n)
unfolding answer written
serve-others none none r ns res n st e d = refl
serve-others none (some _) r ns res n st e d = refl
serve-others (some (ns', res', n')) o' r ns res n st e d =
    let (a, b) = writes-target r.method r.subresource r ns' res' n' e in
    put-other ns' res' n' ns res n (answer_body r.body) st
      (λ q. d (ap (λ x. (x, r.resource)) a ∙ ap (λ x. (ns', x)) b ∙ q))

pub server-StoresWrites : StoresWrites server
unfolding server
server-StoresWrites w c ns res n st ne ew er ok =
    let v = answer_body (request_of w).body in
    serve-read (request_of c) (ns, res, n) (serve (request_of w) st).1 er
    ∙ ap (λ p. p.1 (ns, res, n)) (serve-written (request_of w) (ns, res, n) st ew)
    ∙ put-same (ns, res, n) v st
    ∙ sym (ap (λ p. p.0) (serve-written (request_of w) (ns, res, n) st ew))

pub server-IsolatesTargets : IsolatesTargets server
unfolding server serve
server-IsolatesTargets calls c ns res n st er ne d = (
  serve-read (request_of c) (ns, res, n) (serve (request_of calls) st).1 er
      ∙ serve-others (written (request_of calls)) (read (request_of calls)) (request_of calls) ns
          res n st refl d
      ∙ sym (serve-read (request_of c) (ns, res, n) st er),
  refl,
)

service_in-error : (r : Response) (s : Service) → (service_in r s).1 ≡ none → error_in r ≡ none
service_in-error (answered b) s e = refl
service_in-error (failed _) s e = ground arith

configuration_in-error :
    (r : Response) (c : Configuration) → (configuration_in r c).1 ≡ none → error_in r ≡ none
configuration_in-error (answered b) s e = refl
configuration_in-error (failed _) s e = ground arith

pub server-ReportsErrors : ReportsErrors server
unfolding server
server-ReportsErrors = (service_in-error, configuration_in-error)

-- The server without objects.
abbrev pub empty_store : Store
empty_store _ = bad_request
