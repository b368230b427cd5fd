-- ===== src/Tests/Refining.antt =====
-- A run of two workers, item by item, that is one call by call, too.
use lite_mesh.Base.{[], ◌∷◌, false}
use lite_mesh.Controller.Reconcile.{reconcile}
use lite_mesh.Controller.Worker.{key, invalid}
use lite_mesh.Controller.Worker.Run.{Workers}
use lite_mesh.Tests.Pool.{Pool, pool, took_both}
use lite_mesh.Tests.Phases.{web_key}
use lite_mesh.Tests.Cluster.{Cluster, kube, fresh}

abbrev with_web : Cluster
with_web = (reconcile kube web_key fresh).1

abbrev settled_workers : Workers Pool Cluster
settled_workers = record {
  idle = 1;
  busy = invalid 7 ∷ [];
  ended = 0;
  stopped = false;
  queue_state = pool.done (key web_key) took_both;
  cluster = with_web;
}
