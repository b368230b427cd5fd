-- ===== src/Client/Informers/Starting.antt =====
-- No informer is set running twice, and starting the factory starts all that were asked for.
use lite_mesh.Base.{
  ℕ, Text, List, [], ◌∷◌, ◌++◌, map, Option, none, some, Bool, true, false, ◌≡◌, ◌≢◌, refl, sym, ap,
  subst, Bool-cases, inl, inr, lookup, insert, lookup-insert, All, All-imp, All-append, Distinct,
  Distinct-append, arith,
}
use lite_mesh.Client.Informers.{
  SharedIndexInformer, Client, Factory, or_value, informer_for, informer_case,
  new_shared_informer_factory, start_loop, start, sync_loop, wait_for_cache_sync,
}

-- The factory has marked the type as started.
abbrev pub IsStarted : List (Text × Bool) → Text → Type 0
IsStarted started k = lookup k started ≡ some true

insert-IsStarted :
    (j k : Text) (started : List (Text × Bool))
    → IsStarted started k
    → IsStarted (insert j true started) k
insert-IsStarted j k started h = ground (arith, lookup-insert j k true started)

insert_self : (j : Text) (started : List (Text × Bool)) → IsStarted (insert j true started) j
insert_self j started = ground (arith, lookup-insert j j true started)

-- What is running is marked, and nothing runs twice.
abbrev pub RunsOnce : List (Text × Bool) × List Text → Type 0
RunsOnce (started, running) = All (IsStarted started) running × Distinct running

run_new :
    (j : Text) (started : List (Text × Bool)) (running : List Text)
    → or_value (lookup j started) false ≡ false
    → RunsOnce (started, running)
    → RunsOnce (insert j true started, running ++ j ∷ [])
run_new j started running n (marked, distinct) = (
  All-append (IsStarted (insert j true started)) running (j ∷ [])
      (All-imp (IsStarted started) (IsStarted (insert j true started)) running
        (λ k. insert-IsStarted j k started) marked)
      (insert_self j started, tt),
  Distinct-append running (j ∷ []) distinct (tt, tt)
      (All-imp (IsStarted started) (λ k. All (λ y. y ≢ k) (j ∷ [])) running
        (λ k h. (λ e. ground arith, tt)) marked),
)

-- The calls that its users make on a factory.
pub data Call (O R : Type 0) : Type 0 where
  asks : Text → (Client O R → ℕ → SharedIndexInformer O R) → Call O R
  starts : Call O R

module _ {O R : Type 0} where
  start_loop-RunsOnce :
      (infs : List (Text × SharedIndexInformer O R)) (started : List (Text × Bool))
      (running : List Text)
      → RunsOnce (started, running)
      → RunsOnce (start_loop infs started running)
  unfolding start_loop
  start_loop-RunsOnce [] started running h = h
  start_loop-RunsOnce ((j, i) ∷ infs) started running h =
      elim (Bool-cases (or_value (lookup j started) false)) [
        | inl e ↦ rw e (start_loop-RunsOnce infs started running h)
        | inr n ↦ rw n (
            start_loop-RunsOnce infs (insert j true started) (running ++ j ∷ [])
              (run_new j started running n h))
      ]

  start_loop-keeps :
      (infs : List (Text × SharedIndexInformer O R)) (started : List (Text × Bool))
      (running : List Text) (k : Text)
      → IsStarted started k
      → IsStarted (start_loop infs started running).0 k
  unfolding start_loop
  start_loop-keeps [] started running k h = h
  start_loop-keeps ((j, i) ∷ infs) started running k h = ground (
    arith,
    start_loop-keeps infs started running k h,
    start_loop-keeps infs (insert j true started) (running ++ j ∷ []) k
        (insert-IsStarted j k started h),
  )

  skipped :
      (j : Text) (i : SharedIndexInformer O R) (infs : List (Text × SharedIndexInformer O R))
      (started : List (Text × Bool)) (running : List Text)
      → or_value (lookup j started) false ≡ true
      → start_loop ((j, i) ∷ infs) started running ≡ start_loop infs started running
  unfolding start_loop
  skipped j i infs started running e = rw e

  run_anew :
      (j : Text) (i : SharedIndexInformer O R) (infs : List (Text × SharedIndexInformer O R))
      (started : List (Text × Bool)) (running : List Text)
      → or_value (lookup j started) false ≡ false
      → start_loop ((j, i) ∷ infs) started running
        ≡ start_loop infs (insert j true started) (running ++ j ∷ [])
  unfolding start_loop
  run_anew j i infs started running e = rw e

  start_loop-IsStarted :
      (infs : List (Text × SharedIndexInformer O R)) (started : List (Text × Bool))
      (running : List Text)
      → All (λ e. IsStarted (start_loop infs started running).0 e.0) infs
  unfolding start_loop
  start_loop-IsStarted [] started running = tt
  start_loop-IsStarted ((j, i) ∷ infs) started running =
      elim (Bool-cases (or_value (lookup j started) false)) [
        | inl e ↦
            subst (λ p. IsStarted p.0 j × All (λ x. IsStarted p.0 x.0) infs)
              (sym (skipped j i infs started running e))
              (
                start_loop-keeps infs started running j (ground arith),
                start_loop-IsStarted infs started running,
              )
        | inr n ↦
            subst (λ p. IsStarted p.0 j × All (λ x. IsStarted p.0 x.0) infs)
              (sym (run_anew j i infs started running n))
              (
                start_loop-keeps infs (insert j true started) (running ++ j ∷ []) j
                    (insert_self j started),
                start_loop-IsStarted infs (insert j true started) (running ++ j ∷ []),
              )
      ]

  start_loop-idle :
      (infs : List (Text × SharedIndexInformer O R)) (started : List (Text × Bool))
      (running : List Text)
      → All (λ e. IsStarted started e.0) infs
      → start_loop infs started running ≡ (started, running)
  unfolding start_loop
  start_loop-idle [] started running h = refl
  start_loop-idle ((j, i) ∷ infs) started running (h, hs) =
      ground (arith, start_loop-idle infs started running hs)

  unfoldable pub step : Factory O R × List Text → Call O R → Factory O R × List Text
  step (f, running) (asks informer_type new_func) =
      ((informer_for f informer_type new_func).1, running)
  step s starts = start s

  unfoldable pub run : Factory O R × List Text → List (Call O R) → Factory O R × List Text
  run s [] = s
  run s (c ∷ cs) = run (step s c) cs

  RunsOnceState : Factory O R × List Text → Type 0
  RunsOnceState (f, running) = RunsOnce (f.started_informers, running)

  asked-started :
      (o : Option (SharedIndexInformer O R)) (f : Factory O R) (k : Text)
      (new_func : Client O R → ℕ → SharedIndexInformer O R)
      → (informer_case o f k new_func).1.started_informers ≡ f.started_informers
  unfolding informer_case
  asked-started (some i) f k new_func = refl
  asked-started none f k new_func = refl

  step-RunsOnce :
      (s : Factory O R × List Text) (c : Call O R) → RunsOnceState s → RunsOnceState (step s c)
  unfolding step RunsOnceState informer_for start
  step-RunsOnce (f, running) (asks k new_func) h =
      rw (asked-started (lookup k f.informers) f k new_func) h
  step-RunsOnce (f, running) starts h =
      start_loop-RunsOnce f.informers f.started_informers running h

  run-RunsOnce :
      (s : Factory O R × List Text) (cs : List (Call O R))
      → RunsOnceState s
      → RunsOnceState (run s cs)
  unfolding run
  run-RunsOnce s [] h = h
  run-RunsOnce s (c ∷ cs) h = run-RunsOnce (step s c) cs (step-RunsOnce s c h)

  -- However often a new factory is asked for informers and started, no informer is set running
  -- twice.
  pub run-Distinct :
      (client : Client O R) (default_resync : ℕ) (cs : List (Call O R))
      → Distinct (run (new_shared_informer_factory client default_resync, []) cs).1
  unfolding new_shared_informer_factory RunsOnceState
  run-Distinct client default_resync cs = (run-RunsOnce _ cs (tt, tt)).1

  -- Starting a factory marks each informer that it was asked for as started, and starting it again
  -- sets nothing more running.
  pub start-IsStarted :
      (f : Factory O R) (running : List Text)
      → let s = start (f, running) in
        All (λ e. IsStarted s.0.started_informers e.0) f.informers × (start s ≡ s)
  unfolding start
  start-IsStarted f running =
      let marked = start_loop-IsStarted f.informers f.started_informers running in
      (
        marked,
        ap (λ p. (record f { started_informers = p.0 }, p.1))
            (start_loop-idle f.informers (start_loop f.informers f.started_informers running).0
              (start_loop f.informers f.started_informers running).1 marked),
      )

  sync_loop-map :
      (wait : SharedIndexInformer O R → Bool) (infs : List (Text × SharedIndexInformer O R))
      (started : List (Text × Bool))
      → All (λ e. IsStarted started e.0) infs
      → sync_loop wait infs started ≡ map (λ e. (e.0, wait e.1)) infs
  unfolding sync_loop
  sync_loop-map wait [] started h = refl
  sync_loop-map wait ((j, i) ∷ infs) started (h, hs) =
      ground (arith, sync_loop-map wait infs started hs)

  -- After a start, waiting for the caches waits for each informer that the factory was asked for, and
  -- reports the outcome of each.
  pub wait_for_cache_sync-start :
      (wait : SharedIndexInformer O R → Bool) (f : Factory O R) (running : List Text)
      → wait_for_cache_sync wait (start (f, running)).0 ≡ map (λ e. (e.0, wait e.1)) f.informers
  unfolding wait_for_cache_sync start
  wait_for_cache_sync-start wait f running =
      sync_loop-map wait f.informers _
        (start_loop-IsStarted f.informers f.started_informers running)
