-- ===== src/Tests/Phases.antt =====
-- One reconciliation, call by call, while another worker creates a Deployment.
use lite_mesh.Base.{sym, ap, Text, codes, refl, split, lookup, text_dec, subst, ◌≡◌, arith}
use lite_mesh.Kube.{Deployment, ok}
use lite_mesh.Apis.{ports}
use lite_mesh.Client.Listers.{service_get}
use lite_mesh.Controller.Resource.{create_service_deployment}
use lite_mesh.Controller.Reconcile.{wants_k8s_service}
use lite_mesh.Controller.Reconcile.Convergence.{IsOk, IsSettled}
use lite_mesh.Controller.Reconcile.Phases.{
  Phase, getting_service, creating_deployment, ended, advance, alone,
}
use lite_mesh.Controller.Reconcile.Phases.Interleaving.{
  Interleaved, begun, works, others, IsBenign, Interleaved-IsSettled,
}
use lite_mesh.Controller.Reconcile.Success.{IsMissing}
use lite_mesh.Client.Listers.Reads.{IsKeyed}
use lite_mesh.Tests.Objects.{web, db, controller_ref}
use lite_mesh.Tests.Cluster.{
  Cluster, kube, kube-IsSynced, kube-IsHealthy, found, found-other, fresh,
}

abbrev pub web_key : Text
web_key = codes "default/web"

abbrev pub db_key : Text
db_key = codes "default/db"

abbrev pub db_deployment : Deployment
db_deployment = (create_service_deployment controller_ref db).0

abbrev pub with_db : Cluster → Cluster
with_db w = (kube.create_deployment (codes "default") db_deployment w).1

abbrev pub Others : Cluster → Cluster → Type 0
Others v w = with_db v ≡ w

with_db-web :
    (v : Cluster)
    → kube.get_deployment (codes "default") (codes "web") (with_db v)
      ≡ kube.get_deployment (codes "default") (codes "web") v
unfolding create_service_deployment
with_db-web v = ap (found (codes "web")) (
    found-other (codes "default/web") (codes "default/db") db_deployment v.deployments
      (lookup (codes "default/db") v.deployments) (λ e. ground arith))

pub Others-IsBenign : IsBenign kube Others (codes "default") (codes "web") web
Others-IsBenign = record {
  cached_kept = λ v w o e.
      subst (λ u. service_get (kube.service_indexer u) (codes "default") (codes "web") ≡ ok web) o
        e;
  deployment_kept = λ v w o h.
      subst (λ u. IsOk (kube.get_deployment (codes "default") (codes "web") u)) o
        (subst IsOk (sym (with_db-web v)) h);
  deployment_left = λ v w o h.
      subst (λ u. IsMissing (kube.get_deployment (codes "default") (codes "web") u)) o
        (subst IsMissing (sym (with_db-web v)) h);
  k8s_service_kept =
      λ v w o h. subst (λ u. IsOk (kube.get_k8s_service (codes "default") (codes "web") u)) o h;
  k8s_service_left = λ v w o h.
      subst (λ u. IsMissing (kube.get_k8s_service (codes "default") (codes "web") u)) o h;
}

web_settled : Phase × Cluster
web_settled = alone kube 3 (creating_deployment web, with_db fresh)

Interleaved-steps : Interleaved kube Others 5 (getting_service web_key, fresh) web_settled
unfolding web_settled advance alone split lookup text_dec service_get ports
    create_service_deployment wants_k8s_service
Interleaved-steps =
    works (works (works (others (works (works begun refl) refl) refl) refl) refl) refl

Interleaved-IsSettled_example : (web_settled.0 ≡ ended (ok tt)) × IsSettled kube web web_settled.1
unfolding split lookup text_dec service_get
Interleaved-IsSettled_example =
    Interleaved-IsSettled kube Others web_key (codes "default") (codes "web") web kube-IsSynced
      kube-IsHealthy refl Others-IsBenign 5 web_settled.0 fresh web_settled.1 Interleaved-steps
      (omega arith) refl

-- Every service of the cache stands under its own key.
pub fresh-IsKeyed : IsKeyed (kube.service_indexer fresh)
unfolding lookup text_dec
fresh-IsKeyed k o m e h = ground arith
