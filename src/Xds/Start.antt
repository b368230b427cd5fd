-- ===== src/Xds/Start.antt =====
-- pkg/xds/server.go: `Start`. The network and gRPC are parameters, on a state `W`; `L` stands for a
-- `net.Listener` and `C` for the snapshot cache, from which the gRPC server is made.
use lite_mesh.Base.{Text, codes, Option, none, some}
use lite_mesh.Kube.{Result, ok, err, panic}

pub record Network (C L W : Type 0) : Type 0 where
  pub listen : (network address : Text) → W → Result L × W
  -- `Serve` blocks, and returns an error; without a listener it panics.
  pub serve : C → Option L → W → Result (Unit {0}) × W

-- The error of `net.Listen` is dropped, and then the listener is nil.
listener : {L W : Type 0} → Result L × W → Result (Option L) × W
listener (ok l, w) = (ok (some l), w)
listener (err e, w) = (ok none, w)
listener (panic, w) = (panic, w)

-- The error of `Serve` is dropped, too.
served : {W : Type 0} → Result (Unit {0}) × W → Result (Unit {0}) × W
served (ok u, w) = (ok tt, w)
served (err e, w) = (ok tt, w)
served (panic, w) = (panic, w)

module _ {C L W : Type 0} (network : Network C L W) where
  serving : C → Result (Option L) × W → Result (Unit {0}) × W
  unfolding served
  serving cache (ok lis, w) = served (network.serve cache lis w)
  serving cache (err e, w) = (err e, w)
  serving cache (panic, w) = (panic, w)

  unfoldable pub start : C → W → Result (Unit {0}) × W
  unfolding serving listener
  start cache w = serving cache (listener (network.listen (codes "tcp") (codes ":9000") w))
