-- ===== src/Commands/Flags.antt =====
-- cmd/controller/controller.go and cmd/discovery/discovery.go: the flags that `init` declares, which are
-- the same in both, and the programs from their arguments on.
use lite_mesh.Base.{Text, text_dec, codes, List, [], Option, none, some, ite}
use lite_mesh.GoFlag.{FlagKind, text_flag, unknown, parse_flags}
use lite_mesh.Commands.{Libraries, Outcome, controller_main, discovery_main}

pub record Flags : Type 0 where
  pub master_url : Text
  pub kubeconfig : Text

unfoldable pub default_flags : Flags
default_flags = record { master_url = []; kubeconfig = [] }

unfoldable pub find_flag : Text → FlagKind Flags
unfolding text_dec
find_flag name =
    ite (text_dec name (codes "kubeconfig")) (text_flag (λ v f. record f { kubeconfig = v })) (
      ite (text_dec name (codes "master")) (text_flag (λ v f. record f { master_url = v })) unknown)

unfoldable pub parse : List Text → Option Flags
unfolding parse_flags find_flag default_flags
parse args = parse_flags find_flag args default_flags

module _ {O R G C K : Type 0} (lib : Libraries O R G C K) where
  -- A program whose flags the library refuses ends, with no outcome.
  unfoldable pub with_parsed : (Text → Text → Outcome O R K) → Option Flags → Option (Outcome O R K)
  with_parsed main none = none
  with_parsed main (some f) = some (main f.master_url f.kubeconfig)

  unfoldable pub controller : List Text → Option (Outcome O R K)
  unfolding with_parsed parse controller_main
  controller args = with_parsed (controller_main lib) (parse args)

  unfoldable pub discovery : List Text → Option (Outcome O R K)
  unfolding with_parsed parse discovery_main
  discovery args = with_parsed (discovery_main lib) (parse args)
