-- ===== src/Tests/Client.antt =====
-- The theorems on the client library, at a small index and a new factory.
use lite_mesh.Base.{
  Text, codes, text_dec, ite, List, [], ◌∷◌, Option, none, some, true, ◌≡◌, refl, Distinct, arith,
}
use lite_mesh.Kube.{ok, Selector}
use lite_mesh.Client.Listers.{Object, service, configuration, Indexer, service_get}
use lite_mesh.Client.Listers.Reads.{meta_key, IsKeyed, service_get-names}
use lite_mesh.Client.Informers.{
  Client, Factory, SharedIndexInformer, service_type, configuration_type, services_informer,
  configurations_informer, default_service_informer, new_shared_informer_factory,
}
use lite_mesh.Client.Informers.Starting.{Call, asks, starts, run, run-Distinct}
use lite_mesh.Tests.Objects.{web, db, routing}

-- An index with one service.
abbrev index_entry : Text → Option Object
index_entry k = ite (text_dec (meta_key web.meta) k) (some (service web)) none

abbrev index : Indexer
index = record {
  get_by_key = λ k. ok (index_entry k);
  list_all = λ sel. (configuration routing ∷ [], none);
  list_all_by_namespace = λ ns sel. (service web ∷ service db ∷ [], none);
}

index-IsKeyed : IsKeyed index
index-IsKeyed k o m e h = ground arith

all_labels : Selector
all_labels labels = true

service_get-names_example : (web.meta.namespace ≡ codes "default") × (web.meta.name ≡ codes "web")
unfolding text_dec service_get
service_get-names_example =
    service_get-names index (codes "default") (codes "web") web index-IsKeyed (omega arith)
      (omega arith) refl

-- List options and results that record the calls.
abbrev client : Client (List Text) (List Text)
client = record {
  list_services = λ ns o. codes "list" ∷ codes "services" ∷ ns ∷ o;
  watch_services = λ ns o. codes "watch" ∷ codes "services" ∷ ns ∷ o;
  list_configurations = λ ns o. codes "list" ∷ codes "configurations" ∷ ns ∷ o;
  watch_configurations = λ ns o. codes "watch" ∷ codes "configurations" ∷ ns ∷ o;
}

abbrev mesh_factory : Factory (List Text) (List Text)
mesh_factory = (services_informer (new_shared_informer_factory client 30)).1

abbrev calls : List (Call (List Text) (List Text))
calls =
    asks service_type (default_service_informer mesh_factory)
    ∷ starts
    ∷ starts
    ∷ asks service_type (default_service_informer mesh_factory)
    ∷ starts
    ∷ []

run-Distinct_example : Distinct (run (new_shared_informer_factory client 30, []) calls).1
run-Distinct_example = run-Distinct client 30 calls

-- A factory that was asked for both informers.
abbrev both : Factory (List Text) (List Text)
both = (configurations_informer mesh_factory).1

abbrev swapped : List (Text × SharedIndexInformer (List Text) (List Text))
swapped =
    (configuration_type, (configurations_informer mesh_factory).0)
    ∷ (service_type, (services_informer (new_shared_informer_factory client 30)).0)
    ∷ []
