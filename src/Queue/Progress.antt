-- ===== src/Queue/Progress.antt =====
-- The queue empties once `process` succeeds, from every state that it can reach.
use outbound_freeswitch_dial.Prelude.{
  ℕ, zero, suc, ◌≡◌, refl, Bool, true, false, List, [], ◌∷◌, ◌++◌, ◌||◌, none, map, append-nil, sym,
  ap, ◌∙◌, if-cases, length, arith,
}
use outbound_freeswitch_dial.Queue.{
  Queue, Entry, Options, Event, processed, fired, success, step, run, Effect, emit, started,
  depth_changed, resolved, take_head, drain, on_success, resume, returns_early, timer_fires,
  resolve_idle_waiters,
}
use outbound_freeswitch_dial.Queue.Lifecycle.{resolutions, resolutions-quiet, resolutions-resolved}
use outbound_freeswitch_dial.Queue.Invariant.{Inv, step-Inv}

module _ {A E : Type 0} where
  abbrev pub successes : ℕ → List (Event A E)
  successes zero = []
  successes (suc n) = processed success ∷ successes n

  -- The timer fires if it is set, and then `process` succeeds once for each entry.
  abbrev pub recovery_of : Bool → ℕ → List (Event A E)
  recovery_of true n = fired ∷ successes n
  recovery_of false n = successes n

  abbrev pub recovery : Queue A E → List (Event A E)
  recovery q = recovery_of q.timer (length q.entries)

  abbrev pub IsIdle : Queue A E → Type 0
  IsIdle q = (q.entries ≡ []) × (q.processing ≡ false) × (q.timer ≡ false) × (q.waiters ≡ [])

  step_success :
      (o : Options E) (q : Queue A E) (n : ℕ)
      → Inv o q
      → q.stopped ≡ false
      → q.timer ≡ false
      → length q.entries ≡ suc n
      → let s = step o q (processed success) in
        (length s.entries ≡ n) × (s.stopped ≡ false) × (s.timer ≡ false)
  unfolding step
  step_success o q n i s t l = ground arith

  step_fired :
      (o : Options E) (q : Queue A E)
      → Inv o q
      → q.stopped ≡ false
      → q.timer ≡ true
      → let s = step o q fired in
        (length s.entries ≡ length q.entries) × (s.stopped ≡ false) × (s.timer ≡ false)
  unfolding step
  step_fired o q i s t = ground arith

  run-successes :
      (o : Options E) (n : ℕ) (q : Queue A E)
      → Inv o q
      → q.stopped ≡ false
      → q.timer ≡ false
      → length q.entries ≡ n
      → IsIdle (run o q (successes n))
  unfolding run
  run-successes o zero q i s t l = ground (arith, i.no_waiters_idle s)
  run-successes o (suc n) q i s t l =
      let (l', s', t') = step_success o q n i s t l in
      run-successes o n (step o q (processed success)) (step-Inv o q (processed success) i) s' t' l'

  -- The promises that are resolved so far, and then those that wait.
  owes : Queue A E → List ℕ
  owes q = resolutions q.effects ++ q.waiters

  emit-owes :
      (e : Effect A E) (q : Queue A E)
      → resolutions (e ∷ []) ≡ []
      → resolutions (emit e q).effects ++ q.waiters ≡ resolutions q.effects ++ q.waiters
  emit-owes e q h = ap (λ r. r ++ q.waiters) (resolutions-quiet q.effects e h)

  released :
      (q : Queue A E)
      → resolutions (q.effects ++ map resolved q.waiters) ++ [] ≡ resolutions q.effects ++ q.waiters
  released q =
      append-nil (resolutions (q.effects ++ map resolved q.waiters))
      ∙ resolutions-resolved q.effects q.waiters

  take_head-owes : (es : List (Entry A)) (q : Queue A E) → owes (take_head es q) ≡ owes q
  unfolding owes take_head resolve_idle_waiters
  take_head-owes [] q = ground (arith, released q)
  take_head-owes (e ∷ es) q = emit-owes (started e.item) q refl

  drain-owes : (q : Queue A E) → owes (drain q) ≡ owes q
  unfolding drain
  drain-owes q =
      if-cases (λ r. owes r ≡ owes q) (q.stopped || q.processing || q.timer) q
        (take_head q.entries q) (λ h. refl) (λ h. take_head-owes q.entries q)

  on_success-owes : (es : List (Entry A)) (q : Queue A E) → owes (on_success es q) ≡ owes q
  unfolding owes on_success
  on_success-owes [] q = refl
  on_success-owes (e ∷ es) q = ground (arith, emit-owes (depth_changed (length es)) q refl)

  resume-owes : (o : Options E) (q : Queue A E) → owes (resume o success q) ≡ owes q
  unfolding resume returns_early owes
  resume-owes o q =
      let q' = on_success q.entries q in
      let done = record q' { processing = false; in_flight = none } in
      if-cases (λ r. owes r ≡ owes q) (false || done.timer) done (drain done)
        (λ h. on_success-owes q.entries q) (λ h. drain-owes done ∙ on_success-owes q.entries q)

  step_success-owes : (o : Options E) (q : Queue A E) → owes (step o q (processed success)) ≡ owes q
  unfolding step
  step_success-owes o q =
      if-cases (λ r. owes r ≡ owes q) q.processing (resume o success q) q (λ h. resume-owes o q)
        (λ h. refl)

  step_fired-owes : (o : Options E) (q : Queue A E) → owes (step o q fired) ≡ owes q
  unfolding step timer_fires owes
  step_fired-owes o q =
      if-cases (λ r. owes r ≡ owes q) q.timer (drain (record q { timer = false })) q
        (λ h. drain-owes (record q { timer = false })) (λ h. refl)

  successes-owes : (o : Options E) (n : ℕ) (q : Queue A E) → owes (run o q (successes n)) ≡ owes q
  unfolding run
  successes-owes o zero q = refl
  successes-owes o (suc n) q =
      successes-owes o n (step o q (processed success)) ∙ step_success-owes o q

  recovery-owes :
      (o : Options E) (q : Queue A E) (timer : Bool) (n : ℕ)
      → owes (run o q (recovery_of timer n)) ≡ owes q
  unfolding run
  recovery-owes o q false n = successes-owes o n q
  recovery-owes o q true n = successes-owes o n (step o q fired) ∙ step_fired-owes o q

  recovery_of_empties :
      (o : Options E) (q : Queue A E) (timer : Bool)
      → Inv o q
      → q.stopped ≡ false
      → q.timer ≡ timer
      → IsIdle (run o q (recovery_of timer (length q.entries)))
  unfolding run
  recovery_of_empties o q false i s t = run-successes o (length q.entries) q i s t refl
  recovery_of_empties o q true i s t =
      let (l', s', t') = step_fired o q i s t in
      run-successes o (length q.entries) (step o q fired) (step-Inv o q fired i) s' t' l'

  -- From every reachable queue that is not stopped: once the retry timer has fired, if it is set,
  -- and `process` has succeeded once for each queued entry, the queue is empty, nothing is in
  -- flight or scheduled, and every promise that waited has been resolved, once and in order.
  pub recovery_empties :
      (o : Options E) (q : Queue A E)
      → Inv o q
      → q.stopped ≡ false
      → let s = run o q (recovery q) in
        IsIdle s × (resolutions s.effects ≡ resolutions q.effects ++ q.waiters)
  unfolding owes
  recovery_empties o q i s =
      let idle = recovery_of_empties o q q.timer i s refl in
      let last = run o q (recovery q) in
      (
        idle,
        sym (append-nil (resolutions last.effects))
            ∙ ap (λ ws. resolutions last.effects ++ ws) (sym idle.3)
            ∙ recovery-owes o q q.timer (length q.entries),
      )
