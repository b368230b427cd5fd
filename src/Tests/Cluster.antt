-- ===== src/Tests/Cluster.antt =====
-- A cluster whose caches follow its API server at once and that creates what it does not hold yet.
use lite_mesh.Base.{
  ap, sym, Text, codes, split, List, [], ◌∷◌, Option, none, some, ◌≡◌, ◌≢◌, refl, map, lookup,
  insert, lookup-insert, arith,
}
use lite_mesh.Kube.{Deployment, K8sService, not_found, failure, Result, ok, err, panic}
use lite_mesh.Apis.{Service}
use lite_mesh.Client.Listers.{Object, service, Indexer, index_key, service_get}
use lite_mesh.Controller.Reconcile.{Kube}
use lite_mesh.Controller.Reconcile.Convergence.{IsOk, IsSynced}
use lite_mesh.Controller.Reconcile.Success.{Answers, IsMissing, IsHealthy}
use lite_mesh.Controller.Reconcile.Keeping.{IsAdditive}
use lite_mesh.Controller.Reconcile.Phases.Apart.{IsSeparate}
use lite_mesh.Tests.Objects.{web, db, edge, controller_ref}

pub record Cluster : Type 0 where
  pub mesh : List (Text × Service)
  pub deployments : List (Text × Deployment)
  pub k8s_services : List (Text × K8sService)

abbrev pub found : {A : Type 0} → Text → Option A → Result A
found name none = err (not_found name)
found name (some a) = ok a

abbrev objects : Option Service → Option Object
objects none = none
objects (some s) = some (service s)

abbrev pub indexer : Cluster → Indexer
indexer w = record {
  get_by_key = λ k. ok (objects (lookup k w.mesh));
  list_all = λ sel. (map (λ e. service e.1) w.mesh, none);
  list_all_by_namespace = λ ns sel. (map (λ e. service e.1) w.mesh, none);
}

abbrev pub split_parts : List Text → Result (Text × Text)
split_parts [] = err (failure [])
split_parts (name ∷ []) = ok ([], name)
split_parts (ns ∷ name ∷ []) = ok (ns, name)
split_parts (a ∷ b ∷ c ∷ r) = err (failure [])

abbrev create_in : {A : Type 0} → Option A → Text → A → List (Text × A) → Result A × List (Text × A)
create_in none k a m = (ok a, insert k a m)
create_in (some b) k a m = (err (failure (codes "AlreadyExists")), m)

abbrev create : {A : Type 0} → Text → A → List (Text × A) → Result A × List (Text × A)
create k a m = create_in (lookup k m) k a m

abbrev pub kube : Kube Cluster
kube = record {
  new_controller_ref = controller_ref;
  split_meta_namespace_key = λ k. split_parts (split b'/' k);
  service_indexer = indexer;
  get_deployment = λ ns name w. found name (lookup (index_key ns name) w.deployments);
  get_k8s_service = λ ns name w. found name (lookup (index_key ns name) w.k8s_services);
  create_deployment = λ ns d w.
      let (r, m) = create (index_key ns d.meta.name) d w.deployments in
      (r, record w { deployments = m });
  create_k8s_service = λ ns s w.
      let (r, m) = create (index_key ns s.meta.name) s w.k8s_services in
      (r, record w { k8s_services = m });
}

found-IsOk : {A : Type 0} (name : Text) (o : Option A) (a : A) → o ≡ some a → IsOk (found name o)
found-IsOk name o a e = rw e tt

lookup-inserted :
    {A : Type 0} (k : Text) (a : A) (m : List (Text × A)) → lookup k (insert k a m) ≡ some a
lookup-inserted k a m = ground (arith, lookup-insert k k a m)

found-created :
    {A : Type 0} (name k : Text) (a : A) (m : List (Text × A)) (o : Option A)
    → IsOk (create_in o k a m).0
    → IsOk (found name (lookup k (create_in o k a m).1))
found-created name k a m none h = found-IsOk name _ a (lookup-inserted k a m)
found-created name k a m (some b) h = absurd h

pub kube-IsSynced : IsSynced kube
kube-IsSynced = record {
  deployment_shown = λ ns d w h.
      found-created d.meta.name (index_key ns d.meta.name) d w.deployments (lookup _ w.deployments)
        h;
  k8s_service_shown = λ ns s w h.
      found-created s.meta.name (index_key ns s.meta.name) s w.k8s_services
        (lookup _ w.k8s_services) h;
  deployments_kept = λ ns name ns' s w. refl;
  services_kept_by_deployment = λ ns d w. refl;
  services_kept_by_k8s_service = λ ns s w. refl;
}

found-inserted :
    {A : Type 0} (name j k : Text) (a : A) (m : List (Text × A))
    → IsOk (found name (lookup j m))
    → IsOk (found name (lookup j (insert k a m)))
found-inserted name j k a m h = ground (arith, lookup-insert k j a m)

found-kept :
    {A : Type 0} (name j k : Text) (a : A) (m : List (Text × A)) (o : Option A)
    → IsOk (found name (lookup j m))
    → IsOk (found name (lookup j (create_in o k a m).1))
found-kept name j k a m none h = found-inserted name j k a m h
found-kept name j k a m (some b) h = h

pub found-other :
    {A : Type 0} (j k : Text) (a : A) (m : List (Text × A)) (o : Option A)
    → j ≢ k
    → lookup j (create_in o k a m).1 ≡ lookup j m
found-other j k a m none n = ground (arith, lookup-insert k j a m, n)
found-other j k a m (some b) n = refl

pub kube-IsAdditive : IsAdditive kube
kube-IsAdditive = record {
  deployment_kept_by_deployment = λ ns name ns' d w h.
      found-kept name (index_key ns name) _ d w.deployments
        (lookup (index_key ns' d.meta.name) w.deployments) h;
  k8s_service_kept_by_deployment = λ ns name ns' d w h. h;
  k8s_service_kept_by_k8s_service = λ ns name ns' s w h.
      found-kept name (index_key ns name) _ s w.k8s_services
        (lookup (index_key ns' s.meta.name) w.k8s_services) h;
}

create-missing :
    {A : Type 0} (name k : Text) (a : A) (m : List (Text × A)) (o : Option A)
    → IsMissing (found name o)
    → IsOk (create_in o k a m).0
create-missing name k a m none h = tt
create-missing name k a m (some b) h = absurd h

found-Answers : {A : Type 0} (name : Text) (o : Option A) → Answers (found name o)
found-Answers name none = tt
found-Answers name (some a) = tt

split_parts-total : (ps : List Text) → split_parts ps ≢ panic
split_parts-total [] e = cc
split_parts-total (a ∷ []) e = cc
split_parts-total (a ∷ b ∷ []) e = cc
split_parts-total (a ∷ b ∷ c ∷ r) e = cc

service-Answers :
    (ix : Indexer) (ns name : Text) (o : Option Service)
    → ix.get_by_key (index_key ns name) ≡ ok (objects o)
    → Answers (service_get ix ns name)
unfolding service_get
service-Answers ix ns name none e = rw e tt
service-Answers ix ns name (some s) e = rw e tt

pub kube-IsHealthy : IsHealthy kube
kube-IsHealthy = record {
  key_read = λ k. split_parts-total (split b'/' k);
  service_read =
      λ ns name w. service-Answers (indexer w) ns name (lookup (index_key ns name) w.mesh) refl;
  deployment_read = λ ns name w. found-Answers name (lookup (index_key ns name) w.deployments);
  k8s_service_read = λ ns name w. found-Answers name (lookup (index_key ns name) w.k8s_services);
  deployment_accepted = λ ns d w.
      create-missing d.meta.name _ d w.deployments
        (lookup (index_key ns d.meta.name) w.deployments);
  k8s_service_accepted = λ ns s w.
      create-missing s.meta.name _ s w.k8s_services
        (lookup (index_key ns s.meta.name) w.k8s_services);
}

-- Three mesh services, and nothing created for them yet.
abbrev pub fresh : Cluster
fresh = record {
  mesh = (codes "default/web", web) ∷ (codes "default/db", db) ∷ (codes "default/edge", edge) ∷ [];
  deployments = [];
  k8s_services = [];
}

pub kube-IsSeparate : IsSeparate kube
kube-IsSeparate = record {
  deployments_left = λ ns name ns' d w n. ap (found name) (
      found-other (index_key ns name) (index_key ns' d.meta.name) d w.deployments
        (lookup (index_key ns' d.meta.name) w.deployments) (λ e. n (sym e)));
  k8s_services_left = λ ns name ns' x w n. ap (found name) (
      found-other (index_key ns name) (index_key ns' x.meta.name) x w.k8s_services
        (lookup (index_key ns' x.meta.name) w.k8s_services) (λ e. n (sym e)));
  k8s_services_kept = λ ns name ns' d w. refl;
}
