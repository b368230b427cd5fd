-- ===== src/Controller/Worker/Calls/Refining.antt =====
-- `Run` call by call does all that `Run` item by item does.
use lite_mesh.Base.{Text, List, map}
use lite_mesh.Kube.{Result}
use lite_mesh.Client.Listers.{Object}
use lite_mesh.Controller.Reconcile.{Kube}
use lite_mesh.Controller.Worker.{Item, Workqueue}
use lite_mesh.Controller.Worker.Run.{Workers}
use lite_mesh.Controller.Worker.Calls
use lite_mesh.Controller.Worker.Calls.{Hand, begin, Crew, Moves}

-- A hand whose worker has made no call yet.
abbrev pub fresh_hands : List Item → List Hand
fresh_hands is = map (λ i. (i, begin i)) is

module _ {Q W : Type 0} where
  -- The workers, with no call made yet for the items in their hands.
  abbrev pub crew_of : Workers Q W → Crew Q W
  crew_of s = record {
    idle = s.idle;
    hands = fresh_hands s.busy;
    stopped = s.stopped;
    queue_state = s.queue_state;
    cluster = s.cluster;
  }

module _ {Q W : Type 0} (queue : Workqueue Q) (shut_down : Q → Q) (kube : Kube W)
    (meta_namespace_key : Object → Result Text) where
  -- Anything may happen in the rest of the cluster.
  abbrev pub Anything : W → W → Type 0
  Anything v w = Unit

  abbrev Goes : Crew Q W → Crew Q W → Type 0
  Goes = Moves queue shut_down kube meta_namespace_key Anything
