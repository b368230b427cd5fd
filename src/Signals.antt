-- ===== src/Signals.antt =====
-- pkg/signals/signal.go: `SetupSignalHandler` and the goroutine that it starts, with the
-- `shutdownSignals` of signal_posix.go and signal_windows.go in the same directory.
pub mod Shutdown
use lite_mesh.Base.{
  ℕ, zero, suc, List, [], ◌∷◌, Option, none, some, Bool, true, false, if◌then◌else◌, ltb, ◌||◌,
  ◌==◌,
}

-- Where the goroutine stands: before its first receive, before its second one, or past
-- `os.Exit(1)`.
pub data Stage : Type 0 where
  first_receive second_receive exited : Stage

-- The buffer of the channel `c`, and whether `stop` is closed.
pub record Handler : Type 0 where
  pub buffered : ℕ
  pub stopped : Bool
  pub stage : Stage

-- `signal.Notify` does not block: a signal that finds the channel full is dropped.
abbrev pub capacity : ℕ
capacity = 2

abbrev pub new_handler : Handler
new_handler = record { buffered = 0; stopped = false; stage = first_receive }

-- The argument says whether `onlyOneSignalHandler` is closed. To close it again panics.
unfoldable pub setup_signal_handler : Bool → Option (Bool × Handler)
setup_signal_handler true = none
setup_signal_handler false = some (true, new_handler)

-- `os.Interrupt`, `syscall.SIGTERM`, and the other signals by their number.
pub data Signal : Type 0 where
  interrupt terminate : Signal
  other : ℕ → Signal

pub data Platform : Type 0 where
  posix windows : Platform

unfoldable pub shutdown_signals : Platform → List Signal
shutdown_signals posix = interrupt ∷ terminate ∷ []
shutdown_signals windows = interrupt ∷ []

abbrev is_signal : Signal → Signal → Bool
is_signal interrupt interrupt = true
is_signal terminate terminate = true
is_signal (other m) (other n) = m == n
is_signal _ _ = false

-- The signals that `signal.Notify` relays to the channel.
unfoldable pub relayed : List Signal → Signal → Bool
relayed [] s = false
relayed (t ∷ ts) s = is_signal t s || relayed ts s

-- A signal arrives, or the goroutine is scheduled.
pub data Event : Type 0 where
  signal : Signal → Event
  scheduled : Event

unfoldable pub deliver : Handler → Handler
deliver h = record h { buffered = if ltb h.buffered capacity then suc h.buffered else h.buffered }

unfoldable pub notify : List Signal → Signal → Handler → Handler
unfolding deliver
notify signals s h = if relayed signals s then deliver h else h

-- `<-c; close(stop); <-c; os.Exit(1)`: a receive waits until the buffer holds a signal.
unfoldable pub receive : ℕ → Stage → Handler → Handler
receive zero stage h = h
receive (suc n) first_receive h = record h { buffered = n; stopped = true; stage = second_receive }
receive (suc n) second_receive h = record h { buffered = n; stage = exited }
receive (suc n) exited h = h

unfoldable pub on_event : Platform → Event → Handler → Handler
unfolding notify receive
on_event platform (signal s) h = notify (shutdown_signals platform) s h
on_event platform scheduled h = receive h.buffered h.stage h

unfoldable pub run : Platform → List Event → Handler → Handler
unfolding on_event
run platform [] h = h
run platform (e ∷ es) h = run platform es (on_event platform e h)
