-- ===== src/Queue/Lifecycle.antt =====
-- Stopping: what is discarded, and that nothing is started or scheduled afterwards.
use outbound_freeswitch_dial.Prelude.{
  ℕ, ◌+◌, ◌≡◌, refl, ap, ◌∙◌, Bool, true, false, List, [], ◌∷◌, ◌++◌, map, length, arith, ◌==◌,
  if◌then◌else◌, any, append-nil,
}
use outbound_freeswitch_dial.Queue.{
  Queue, Effect, started, timer_set, retried, failed, resolved, depth_changed, timer_cleared,
  Options, Event, enqueued, waited, stopping, processed, fired, success, failure, step, run,
  wait_for_idle, stop,
}
use outbound_freeswitch_dial.Queue.Invariant.{Inv, step-Inv}

abbrev pub waits : ℕ → List ℕ → Bool
waits w = any (λ v. v == w)

waits-concat : (w v : ℕ) (ws : List ℕ) → waits w ws ≡ true → waits w (ws ++ v ∷ []) ≡ true
waits-concat w v [] h = cc
waits-concat w v (u ∷ ws) h = ground (arith, waits-concat w v ws)

waits_last : (w : ℕ) (ws : List ℕ) → waits w (ws ++ w ∷ []) ≡ true
waits_last w [] = ground arith
waits_last w (u ∷ ws) = ground (arith, waits_last w ws)

module _ {A E : Type 0} where
  -- A call of `process`, of the retry and failure callbacks, or of `setTimeout`.
  abbrev is_work : Effect A E → Bool
  is_work (started a) = true
  is_work (retried x a n d) = true
  is_work (failed x a) = true
  is_work (timer_set d) = true
  is_work _ = false

  abbrev pub work_count : List (Effect A E) → ℕ
  work_count [] = 0
  work_count (e ∷ es) = (if is_work e then 1 else 0) + work_count es

  pub work_count-append :
      (es fs : List (Effect A E)) → work_count (es ++ fs) ≡ work_count es + work_count fs
  work_count-append [] fs = omega arith
  work_count-append (e ∷ es) fs = omega (arith, work_count-append es fs)

  work_count-resolved :
      (es : List (Effect A E)) (ws : List ℕ) → work_count (es ++ map resolved ws) ≡ work_count es
  work_count-resolved es [] = rw append-nil
  work_count-resolved [] (w ∷ ws) = omega (arith, work_count-resolved [] ws)
  work_count-resolved (e ∷ es) (w ∷ ws) = omega (arith, work_count-resolved es (w ∷ ws))

  work_count-quiet :
      (es : List (Effect A E)) (e : Effect A E)
      → is_work e ≡ false
      → work_count (es ++ e ∷ []) ≡ work_count es
  work_count-quiet es e h = ground (arith, work_count-append es (e ∷ []))

  -- The promises that effects resolve, in order.
  abbrev pub resolutions : List (Effect A E) → List ℕ
  resolutions [] = []
  resolutions (resolved w ∷ es) = w ∷ resolutions es
  resolutions (depth_changed n ∷ es) = resolutions es
  resolutions (started a ∷ es) = resolutions es
  resolutions (retried x a n d ∷ es) = resolutions es
  resolutions (failed x a ∷ es) = resolutions es
  resolutions (timer_set d ∷ es) = resolutions es
  resolutions (timer_cleared ∷ es) = resolutions es

  pub resolutions-append :
      (es fs : List (Effect A E)) → resolutions (es ++ fs) ≡ resolutions es ++ resolutions fs
  resolutions-append [] fs = refl
  resolutions-append (resolved w ∷ es) fs = ap (λ r. w ∷ r) (resolutions-append es fs)
  resolutions-append (depth_changed n ∷ es) fs = resolutions-append es fs
  resolutions-append (started a ∷ es) fs = resolutions-append es fs
  resolutions-append (retried x a n d ∷ es) fs = resolutions-append es fs
  resolutions-append (failed x a ∷ es) fs = resolutions-append es fs
  resolutions-append (timer_set d ∷ es) fs = resolutions-append es fs
  resolutions-append (timer_cleared ∷ es) fs = resolutions-append es fs

  pub resolutions-resolved :
      (es : List (Effect A E)) (ws : List ℕ)
      → resolutions (es ++ map resolved ws) ≡ resolutions es ++ ws
  resolutions-resolved [] [] = refl
  resolutions-resolved [] (w ∷ ws) = ap (λ r. w ∷ r) (resolutions-resolved [] ws)
  resolutions-resolved (resolved w ∷ es) ws = ap (λ r. w ∷ r) (resolutions-resolved es ws)
  resolutions-resolved (depth_changed n ∷ es) ws = resolutions-resolved es ws
  resolutions-resolved (started a ∷ es) ws = resolutions-resolved es ws
  resolutions-resolved (retried x a n d ∷ es) ws = resolutions-resolved es ws
  resolutions-resolved (failed x a ∷ es) ws = resolutions-resolved es ws
  resolutions-resolved (timer_set d ∷ es) ws = resolutions-resolved es ws
  resolutions-resolved (timer_cleared ∷ es) ws = resolutions-resolved es ws

  pub resolutions-quiet :
      (es : List (Effect A E)) (e : Effect A E)
      → resolutions (e ∷ []) ≡ []
      → resolutions (es ++ e ∷ []) ≡ resolutions es
  resolutions-quiet es e h =
      resolutions-append es (e ∷ []) ∙ ap (λ r. resolutions es ++ r) h ∙ append-nil (resolutions es)

  stop-resolutions :
      (q : Queue A E) → resolutions (stop q).0.effects ≡ resolutions q.effects ++ q.waiters
  unfolding stop
  stop-resolutions q = ground (
    arith,
    resolutions-quiet q.effects (depth_changed 0) refl,
    resolutions-quiet q.effects timer_cleared refl,
    resolutions-quiet (q.effects ++ timer_cleared ∷ []) (depth_changed 0) refl,
    resolutions-resolved (q.effects ++ depth_changed 0 ∷ []) q.waiters,
    resolutions-resolved ((q.effects ++ timer_cleared ∷ []) ++ depth_changed 0 ∷ []) q.waiters,
  )

  stop_quiet :
      (q : Queue A E)
      → ((stop q).0.stopped ≡ true) × (work_count (stop q).0.effects ≡ work_count q.effects)
  unfolding stop
  stop_quiet q = ground (
    arith,
    work_count-quiet q.effects (depth_changed 0) refl,
    work_count-quiet q.effects timer_cleared refl,
    work_count-quiet (q.effects ++ timer_cleared ∷ []) (depth_changed 0) refl,
    work_count-resolved (q.effects ++ depth_changed 0 ∷ []) q.waiters,
    work_count-resolved ((q.effects ++ timer_cleared ∷ []) ++ depth_changed 0 ∷ []) q.waiters,
  )

  stopped_step_quiet :
      (o : Options E) (q : Queue A E) (e : Event A E)
      → Inv o q
      → q.stopped ≡ true
      → ((step o q e).stopped ≡ true) × (work_count (step o q e).effects ≡ work_count q.effects)
  unfolding step
  stopped_step_quiet o q (enqueued a) i s = ground arith
  stopped_step_quiet o q (waited w) i s =
      ground (arith, work_count-quiet q.effects (resolved w) refl)
  stopped_step_quiet o q stopping i s = stop_quiet q
  stopped_step_quiet o q (processed success) i s = ground arith
  stopped_step_quiet o q (processed (failure x)) i s = ground arith
  stopped_step_quiet o q fired i s = ground arith

  run_stopped :
      (o : Options E) (q : Queue A E) (es : List (Event A E))
      → Inv o q
      → q.stopped ≡ true
      → ((run o q es).stopped ≡ true)
        × (work_count (run o q es).effects ≡ work_count q.effects)
        × ((run o q es).entries ≡ [])
  unfolding run
  run_stopped o q [] i s = (s, refl, (i.stopped_empty s).0)
  run_stopped o q (e ∷ es) i s =
      let (t, k) = stopped_step_quiet o q e i s in
      let (a, b, c) = run_stopped o (step o q e) es (step-Inv o q e i) t in (a, b ∙ k, c)

  -- `stop` returns the number of entries that it discards and resolves every waiter, each once and
  -- in order, and keeps none. Whatever happens later, also a `process` that was in flight and still settles, the queue stays stopped
  -- and empty, and no `process`, retry, failure callback or timer is started any more.
  pub stop_is_final :
      (o : Options E) (q : Queue A E) (es : List (Event A E))
      → Inv o q
      → let s = (stop q).0 in
        ((stop q).1 ≡ length q.entries)
        × (resolutions s.effects ≡ resolutions q.effects ++ q.waiters)
        × (s.waiters ≡ [])
        × ((run o s es).stopped ≡ true)
        × ((run o s es).entries ≡ [])
        × (work_count (run o s es).effects ≡ work_count q.effects)
  unfolding step
  stop_is_final o q es i =
      let (halted, same) = stop_quiet q in
      let (t, w, e) = run_stopped o (stop q).0 es (step-Inv o q stopping i) halted in
      (unfold stop in refl, stop-resolutions q, unfold stop in refl, t, e, w ∙ same)

  abbrev pub is_stop : Event A E → Bool
  is_stop stopping = true
  is_stop _ = false

  stopped_keeps_waiter :
      (o : Options E) (q : Queue A E) (e : Event A E) (w : ℕ)
      → Inv o q
      → q.stopped ≡ true
      → is_stop e ≡ false
      → waits w q.waiters ≡ true
      → waits w (step o q e).waiters ≡ true
  unfolding step
  stopped_keeps_waiter o q (enqueued a) w i s n h = ground arith
  stopped_keeps_waiter o q (waited v) w i s n h = ground (arith, waits-concat w v q.waiters)
  stopped_keeps_waiter o q stopping w i s n h = cc
  stopped_keeps_waiter o q (processed success) w i s n h = ground arith
  stopped_keeps_waiter o q (processed (failure x)) w i s n h = ground arith
  stopped_keeps_waiter o q fired w i s n h = ground arith

  run_keeps_waiter :
      (o : Options E) (q : Queue A E) (es : List (Event A E)) (w : ℕ)
      → Inv o q
      → q.stopped ≡ true
      → any is_stop es ≡ false
      → waits w q.waiters ≡ true
      → waits w (run o q es).waiters ≡ true
  unfolding run
  run_keeps_waiter o q [] w i s n h = h
  run_keeps_waiter o q (e ∷ es) w i s n h =
      run_keeps_waiter o (step o q e) es w (step-Inv o q e i) (stopped_step_quiet o q e i s).0
        (ground arith) (stopped_keeps_waiter o q e w i s (ground arith) h)

  -- A promise of `waitForIdle` that is asked for after `stop`, while a `process` is still in
  -- flight, is never resolved: it still waits after every further sequence of events, the settling
  -- of that `process` among them, unless `stop` is called once more.
  pub late_waiter_is_never_resolved :
      (o : Options E) (q : Queue A E) (w : ℕ) (es : List (Event A E))
      → Inv o q
      → q.processing ≡ true
      → any is_stop es ≡ false
      → waits w (run o (wait_for_idle w (stop q).0) es).waiters ≡ true
  unfolding step
  late_waiter_is_never_resolved o q w es i p n =
      let q' = (stop q).0 in
      let i' = step-Inv o q stopping i in
      run_keeps_waiter o (wait_for_idle w q') es w (step-Inv o q' (waited w) i')
        (unfold wait_for_idle stop in ground arith) n
        (unfold wait_for_idle stop in ground (arith, waits_last w q'.waiters))
