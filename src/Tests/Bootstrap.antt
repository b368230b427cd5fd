-- ===== src/Tests/Bootstrap.antt =====
-- The theorems on the sidecar's bootstrap, at a small operating system.
use lite_mesh.Base.{
  none, or_else, ite, text_dec, refl, Text, codes, List, [], ◌∷◌, some, ◌≡◌, arith,
}
use lite_mesh.Controller.Resource.{proxy_container}
use lite_mesh.Bootstrap.CommandLine.{Flags, default_flags, parse}
use lite_mesh.Bootstrap.{bootstrap_config, done, Os}
use lite_mesh.Bootstrap.Sidecar.{IsServed, sidecar-IsServed}
use lite_mesh.Xds.Server.Replay.{run, last_given}
use lite_mesh.Tests.Objects.{web}
use lite_mesh.Tests.Xds.{backend, backend-IsCache, history, empty}

-- A state that lists the written files and the started programs.
abbrev pub os : Os (List Text)
os = record {
  getenv = λ k w. k;
  parse_file = λ path w. some (λ cfg. cfg.service_cluster);
  create = λ path w. (done, w);
  write = λ path text w. text ∷ path ∷ w;
  start = λ binary args w. (done, binary ∷ w);
  wait = λ w. (done, w);
}

-- The environment of the sidecar in the pod `web-1`.
abbrev pub sidecar_env : Text → Text
unfolding text_dec
sidecar_env k = ite (text_dec k (codes "POD_NAME")) (codes "web-1") (codes "10.0.0.7")

sidecar-IsServed_example :
    (flags : Flags) × ((parse (proxy_container web).args default_flags ≡ some flags)
      × IsServed web
          (λ node. (run backend history empty).1 node)
          (or_else (last_given backend history (codes "web-1")) none)
          (bootstrap_config (record os { getenv = λ k w. sidecar_env k }) flags []))
unfolding text_dec
sidecar-IsServed_example =
    sidecar-IsServed (record os { getenv = λ k w. sidecar_env k }) backend
      (λ node cache. cache node) backend-IsCache web (codes "web-1") (codes "10.0.0.7") [] history
      empty (refl, (refl, tt)) (omega arith) (omega arith)
