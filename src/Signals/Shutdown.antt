-- ===== src/Signals/Shutdown.antt =====
-- How many signals it takes to stop the program and to end it.
use lite_mesh.Base.{
  ℕ, zero, suc, ◌+◌, ◌≤◌, List, [], ◌∷◌, Bool, true, false, ◌≡◌, refl, if◌then◌else◌, ◌⊎◌, inl,
  subst, some, arith,
}
use lite_mesh.Signals.{
  Stage, first_receive, second_receive, exited, Handler, Event, signal, scheduled, Platform,
  shutdown_signals, relayed, deliver, notify, receive, on_event, run, setup_signal_handler,
  new_handler,
}

-- How many of the signals are shutdown signals of the platform.
abbrev pub signals : Platform → List Event → ℕ
signals platform [] = 0
signals platform (signal s ∷ es) =
    let n = signals platform es in if relayed (shutdown_signals platform) s then suc n else n
signals platform (scheduled ∷ es) = signals platform es

-- What `n` signals so far may have led to, by the stage, the buffer and the channel `stop`.
abbrev Reached : Stage → ℕ → ℕ → Bool → Type 0
Reached first_receive n b stopped = (stopped ≡ false) × (((b ≡ n) × (n ≤ 2)) ⊎ ((b ≡ 2) × (2 ≤ n)))
Reached second_receive n b stopped = (stopped ≡ true) × ((suc b ≡ n) ⊎ ((1 ≤ b) × (2 ≤ n)))
Reached exited n b stopped = (stopped ≡ true) × (2 ≤ n)

deliver-Reached :
    (n : ℕ) (stage : Stage) (b : ℕ) (stopped : Bool)
    → Reached stage n b stopped
    → let h = deliver (record { buffered = b; stopped = stopped; stage = stage }) in
      Reached h.stage (suc n) h.buffered h.stopped
unfolding deliver
deliver-Reached n first_receive b stopped (e, r) = ground arith
deliver-Reached n second_receive b stopped (e, r) = ground arith
deliver-Reached n exited b stopped (e, r) = ground arith

receive-Reached :
    (n : ℕ) (stage : Stage) (b : ℕ) (stopped : Bool)
    → Reached stage n b stopped
    → let h = receive b stage (record { buffered = b; stopped = stopped; stage = stage }) in
      Reached h.stage n h.buffered h.stopped
unfolding receive
receive-Reached n stage zero stopped r = r
receive-Reached n first_receive (suc b) stopped (e, r) = ground arith
receive-Reached n second_receive (suc b) stopped (e, r) = ground arith
receive-Reached n exited (suc b) stopped r = r

abbrev count : Bool → ℕ → ℕ
count b n = if b then suc n else n

count-add : (b : Bool) (m n : ℕ) → m + count b n ≡ count b m + n
count-add true m n = omega arith
count-add false m n = refl

notify-Reached :
    (b : Bool) (n : ℕ) (h : Handler)
    → Reached h.stage n h.buffered h.stopped
    → let h' = if b then deliver h else h in Reached h'.stage (count b n) h'.buffered h'.stopped
notify-Reached true n h r = deliver-Reached n h.stage h.buffered h.stopped r
notify-Reached false n h r = r

module _ (platform : Platform) where
  run-Reached :
      (es : List Event) (n : ℕ) (h : Handler)
      → Reached h.stage n h.buffered h.stopped
      → let h' = run platform es h in
        Reached h'.stage (signals platform es + n) h'.buffered h'.stopped
  unfolding run on_event notify
  run-Reached [] n h r = subst (λ m. Reached h.stage m h.buffered h.stopped) (omega arith) r
  run-Reached (signal s ∷ es) n h r =
      let b = relayed (shutdown_signals platform) s in
      let h' = if b then deliver h else h in
      subst
        (λ m.
          Reached (run platform es h').stage m (run platform es h').buffered
            (run platform es h').stopped)
        (count-add b (signals platform es) n)
        (run-Reached es (count b n) h' (notify-Reached b n h r))
  run-Reached (scheduled ∷ es) n h r =
      run-Reached es n (receive h.buffered h.stage h)
        (receive-Reached n h.stage h.buffered h.stopped r)

least-Reached :
    (stage : Stage) (n b : ℕ) (stopped : Bool)
    → Reached stage n b stopped
    → (stopped ≡ true → 1 ≤ n) × (stage ≡ exited → 2 ≤ n)
least-Reached first_receive n b stopped (e, r) = (λ s. ground arith, λ s. ground arith)
least-Reached second_receive n b stopped (e, r) = (λ s. ground arith, λ s. ground arith)
least-Reached exited n b stopped (e, r) = (λ s. omega arith, λ s. r)

module _ (platform : Platform) where
  settled-Reached :
      (stage : Stage) (n b : ℕ) (stopped : Bool)
      → Reached stage n b stopped
      → let h =
          run platform
            (scheduled ∷ scheduled ∷ [])
            (record { buffered = b; stopped = stopped; stage = stage }) in
        (1 ≤ n → h.stopped ≡ true) × (2 ≤ n → h.stage ≡ exited)
  unfolding run on_event receive
  settled-Reached first_receive n zero stopped (e, r) = (λ s. ground arith, λ s. ground arith)
  settled-Reached first_receive n (suc zero) stopped (e, r) = (λ s. refl, λ s. ground arith)
  settled-Reached first_receive n (suc (suc b)) stopped (e, r) = (λ s. refl, λ s. refl)
  settled-Reached second_receive n zero stopped (e, r) = (λ s. e, λ s. ground arith)
  settled-Reached second_receive n (suc zero) stopped (e, r) = (λ s. e, λ s. refl)
  settled-Reached second_receive n (suc (suc b)) stopped (e, r) = (λ s. e, λ s. refl)
  settled-Reached exited n zero stopped (e, r) = (λ s. e, λ s. refl)
  settled-Reached exited n (suc b) stopped (e, r) = (λ s. e, λ s. refl)

  -- `SetupSignalHandler` sets up a new handler. From then on, whatever signals arrive and whenever the
  -- goroutine runs: `stop` is closed only after a shutdown signal of the platform, and the program exits
  -- only after two. Once the goroutine has run twice more, `stop` is closed if there was such a signal,
  -- and the program has exited if there were two.
  pub run-signals :
      (es : List Event)
      → let h = run platform es new_handler in
        let h' = run platform (scheduled ∷ scheduled ∷ []) h in
        (setup_signal_handler false ≡ some (true, new_handler))
        × (h.stopped ≡ true → 1 ≤ signals platform es)
        × (h.stage ≡ exited → 2 ≤ signals platform es)
        × (1 ≤ signals platform es → h'.stopped ≡ true)
        × (2 ≤ signals platform es → h'.stage ≡ exited)
  unfolding setup_signal_handler
  run-signals es =
      let h = run platform es new_handler in
      let reached =
        subst (λ m. Reached h.stage m h.buffered h.stopped) (omega arith)
          (run-Reached platform es 0 new_handler (refl, inl (refl, omega arith))) in
      let (a, b) = least-Reached h.stage (signals platform es) h.buffered h.stopped reached in
      let (c, d) = settled-Reached h.stage (signals platform es) h.buffered h.stopped reached in
      (refl, a, b, c, d)
