-- ===== src/Tests/Signals.antt =====
-- The theorem on the signal handler, at three signals that find a slow goroutine.
use lite_mesh.Base.{◌≤◌, [], ◌∷◌, some, refl, true, false, ◌≡◌, List}
use lite_mesh.Signals.{
  exited, Event, interrupt, terminate, other, posix, windows, on_event, notify, relayed,
  shutdown_signals, receive, signal, scheduled, new_handler, setup_signal_handler, run,
}
use lite_mesh.Signals.Shutdown.{run-signals}

-- An interrupt, a signal that `shutdownSignals` does not have, and two terminations.
abbrev impatient : List Event
impatient =
    signal interrupt ∷ signal (other 1) ∷ signal terminate ∷ signal terminate ∷ scheduled ∷ []

run-signals_example :
    let h = run posix impatient new_handler in
    let h' = run posix (scheduled ∷ scheduled ∷ []) h in
    (setup_signal_handler false ≡ some (true, new_handler))
    × (h.stopped ≡ true → 1 ≤ 3)
    × (h.stage ≡ exited → 2 ≤ 3)
    × (1 ≤ 3 → h'.stopped ≡ true)
    × (2 ≤ 3 → h'.stage ≡ exited)
unfolding relayed shutdown_signals
run-signals_example = run-signals posix impatient

-- On Windows a termination is no shutdown signal.
windows_terminates : (run windows (signal terminate ∷ scheduled ∷ []) new_handler).stopped ≡ false
unfolding run on_event notify relayed shutdown_signals receive
windows_terminates = refl
