-- ===== src/Coalesced/Laws.antt =====
-- One run at a time, no request lost, none multiplied, and no waiter forgotten.
use outbound_freeswitch_dial.Prelude.{
  ℕ, zero, suc, ◌+◌, ◌≤◌, ◌≡◌, ap, ◌∙◌, Bool, true, false, List, [], ◌∷◌, ◌++◌, map, arith,
  if◌then◌else◌, append-nil, if-cases, subst, sym,
}
use outbound_freeswitch_dial.Coalesced.{
  Task, Effect, task_started, error_reported, resolved, Outcome, success, failure, idle_task, Event,
  requesting, waited, stopping, settled, step, run,
}

abbrev pub bit : Bool → ℕ
bit b = if b then 1 else 0

module _ {E : Type 0} where
  abbrev pub starts : List (Effect E) → ℕ
  starts [] = 0
  starts (task_started ∷ es) = suc (starts es)
  starts (error_reported x ∷ es) = starts es
  starts (resolved w ∷ es) = starts es

  starts-append : (es fs : List (Effect E)) → starts (es ++ fs) ≡ starts es + starts fs
  starts-append [] fs = omega arith
  starts-append (task_started ∷ es) fs = omega (arith, starts-append es fs)
  starts-append (error_reported x ∷ es) fs = starts-append es fs
  starts-append (resolved w ∷ es) fs = starts-append es fs

  starts-resolved :
      (es : List (Effect E)) (ws : List ℕ) → starts (es ++ map resolved ws) ≡ starts es
  starts-resolved es [] = rw append-nil
  starts-resolved [] (w ∷ ws) = starts-resolved [] ws
  starts-resolved (task_started ∷ es) ws = omega (arith, starts-resolved es ws)
  starts-resolved (error_reported x ∷ es) ws = starts-resolved es ws
  starts-resolved (resolved v ∷ es) ws = starts-resolved es ws

  abbrev pub count_requests : List (Event E) → ℕ
  count_requests [] = 0
  count_requests (requesting ∷ es) = suc (count_requests es)
  count_requests (waited w ∷ es) = count_requests es
  count_requests (stopping ∷ es) = count_requests es
  count_requests (settled r ∷ es) = count_requests es

  abbrev pub requests : ℕ → List (Event E)
  requests zero = []
  requests (suc n) = requesting ∷ requests n

  -- How often the task has settled.
  pub settles : Task E → List (Event E) → ℕ
  settles t [] = 0
  settles t (settled r ∷ es) =
      let rest = settles (step t (settled r)) es in if t.running then suc rest else rest
  settles t (requesting ∷ es) = settles (step t requesting) es
  settles t (waited w ∷ es) = settles (step t (waited w)) es
  settles t (stopping ∷ es) = settles (step t stopping) es

  pub record Inv (t : Task E) : Type 0 where
    pub pending_runs : t.requested ≡ true → t.running ≡ true
    pub no_waiters_idle : t.running ≡ false → t.waiters ≡ []
    pub stopped_unrequested : t.stopped ≡ true → t.requested ≡ false

  pub step-Inv : (t : Task E) (e : Event E) → Inv t → Inv (step t e)
  unfolding step
  step-Inv t requesting i = ground arith
  step-Inv t (waited w) i = ground arith
  step-Inv t stopping i = ground arith
  step-Inv t (settled success) i = ground arith
  step-Inv t (settled (failure x)) i = ground arith

  pub idle-Inv : Inv idle_task
  idle-Inv = ground arith

  pub run-Inv : (t : Task E) (es : List (Event E)) → Inv t → Inv (run t es)
  unfolding run
  run-Inv t [] i = i
  run-Inv t (e ∷ es) i = run-Inv (step t e) es (step-Inv t e i)

  -- A run that was started is in flight or has settled.
  step-starts :
      (t : Task E) (e : Event E)
      → Inv t
      → let s = step t e in
        (starts s.effects + bit t.running ≡ starts t.effects + bit s.running + settles t (e ∷ []))
        × (starts s.effects + bit s.requested
            ≤ starts t.effects + bit t.requested + count_requests (e ∷ []))
  unfolding step settles
  step-starts t requesting i = ground (arith, starts-append t.effects (task_started ∷ []))
  step-starts t (waited w) i = ground (arith, starts-append t.effects (resolved w ∷ []))
  step-starts t stopping i = ground (arith, starts-resolved t.effects t.waiters)
  step-starts t (settled success) i =
      ground
        (arith, starts-append t.effects (task_started ∷ []), starts-resolved t.effects t.waiters)
  step-starts t (settled (failure x)) i = ground (
    arith,
    starts-append t.effects (error_reported x ∷ []),
    starts-append (t.effects ++ error_reported x ∷ []) (task_started ∷ []),
    starts-resolved (t.effects ++ error_reported x ∷ []) t.waiters,
  )

  settles-cons :
      (t : Task E) (e : Event E) (es : List (Event E))
      → settles t (e ∷ es) ≡ settles t (e ∷ []) + settles (step t e) es
  unfolding settles
  settles-cons t requesting es = omega arith
  settles-cons t (waited w) es = omega arith
  settles-cons t stopping es = omega arith
  settles-cons t (settled r) es = ground arith

  count_requests-cons :
      (e : Event E) (es : List (Event E))
      → count_requests (e ∷ es) ≡ count_requests (e ∷ []) + count_requests es
  count_requests-cons requesting es = omega arith
  count_requests-cons (waited w) es = omega arith
  count_requests-cons stopping es = omega arith
  count_requests-cons (settled r) es = omega arith

  run-starts :
      (t : Task E) (es : List (Event E))
      → Inv t
      → let s = run t es in
        (starts s.effects + bit t.running ≡ starts t.effects + bit s.running + settles t es)
        × (starts s.effects + bit s.requested
            ≤ starts t.effects + bit t.requested + count_requests es)
  unfolding run settles
  run-starts t [] i = (omega arith, omega arith)
  run-starts t (e ∷ es) i =
      let (one, few) = step-starts t e i in
      let (one', few') = run-starts (step t e) es (step-Inv t e i) in
      (omega (arith, settles-cons t e es), omega (arith, count_requests-cons e es))

  -- Whatever happens to a new task: the runs that have been started are those that have settled
  -- and one more while a run is in flight, so no two runs overlap; and no more runs are started
  -- than were requested, an open request not counted.
  pub runs_one_at_a_time :
      (es : List (Event E))
      → let t = run idle_task es in
        (starts t.effects ≡ settles idle_task es + bit t.running)
        × (starts t.effects + bit t.requested ≤ count_requests es)
  runs_one_at_a_time es =
      let (one, few) = run-starts idle_task es idle-Inv in (omega arith, omega arith)

  request_running :
      (t : Task E)
      → t.running ≡ true
      → t.stopped ≡ false
      → step t requesting ≡ record t { requested = true }
  unfolding step
  request_running t h s = ground arith

  run-requests :
      (t : Task E) (n : ℕ)
      → t.running ≡ true
      → t.stopped ≡ false
      → run t (requests (suc n)) ≡ record t { requested = true }
  unfolding run
  run-requests t zero h s = request_running t h s
  run-requests t (suc n) h s =
      ap (λ u. run u (requests (suc n))) (request_running t h s)
      ∙ run-requests (record t { requested = true }) n h s

  settle_requested :
      (t : Task E) (r : Outcome E)
      → t.running ≡ true
      → t.stopped ≡ false
      → let s = step (record t { requested = true }) (settled r) in
        (starts s.effects ≡ starts t.effects + 1) × (s.running ≡ true) × (s.requested ≡ false)
  unfolding step
  settle_requested t success h s = ground (arith, starts-append t.effects (task_started ∷ []))
  settle_requested t (failure x) h s = ground (
    arith,
    starts-append t.effects (error_reported x ∷ []),
    starts-append (t.effects ++ error_reported x ∷ []) (task_started ∷ []),
  )

  -- A request that comes while a run is in flight is followed by a run that starts after it: that
  -- run starts when the present one settles, whether it failed or not, and once for all the
  -- requests that came meanwhile.
  pub late_request_gets_another_run :
      (t : Task E) (n : ℕ) (r : Outcome E)
      → t.running ≡ true
      → t.stopped ≡ false
      → let s = step (run t (requests (suc n))) (settled r) in
        (starts s.effects ≡ starts t.effects + 1) × (s.running ≡ true) × (s.requested ≡ false)
  late_request_gets_another_run t n r h s = rw (run-requests t n h s) (settle_requested t r h s)

  start_requested :
      (t : Task E)
      → Inv t
      → t.running ≡ false
      → t.stopped ≡ false
      → let s = step t requesting in
        (starts s.effects ≡ starts t.effects + 1) × (s.running ≡ true) × (s.requested ≡ false)
  unfolding step
  start_requested t i h s = ground (arith, starts-append t.effects (task_started ∷ []))

  -- Where the task is after a request, and the settling of the run that was in flight, if any.
  abbrev pub after_request : Task E → Outcome E → Task E
  after_request t r = if t.running then step (step t requesting) (settled r) else step t requesting

  -- Whatever has happened to a new task that is not stopped: a request is served by one run that
  -- starts after it, at once if no run is in flight and otherwise when that run settles, whether it
  -- failed or not, and is open no longer; no one waits on an idle task.
  pub run_serves_requests :
      (es : List (Event E)) (r : Outcome E)
      → (run idle_task es).stopped ≡ false
      → let t = run idle_task es in
        let s = after_request t r in
        (starts s.effects ≡ starts t.effects + 1)
        × (s.running ≡ true)
        × (s.requested ≡ false)
        × (t.running ≡ false → (t.waiters ≡ []) × (t.requested ≡ false))
  run_serves_requests es r o = by_state (run idle_task es) r (run-Inv idle_task es idle-Inv) o
    where
      by_state :
          (t : Task E) (r : Outcome E)
          → Inv t
          → t.stopped ≡ false
          → let s = after_request t r in
            (starts s.effects ≡ starts t.effects + 1)
            × (s.running ≡ true)
            × (s.requested ≡ false)
            × (t.running ≡ false → (t.waiters ≡ []) × (t.requested ≡ false))
      by_state t r i o =
          let (a, b, c) =
            if-cases
              (λ s.
                (starts s.effects ≡ starts t.effects + 1)
                × (s.running ≡ true)
                × (s.requested ≡ false))
              t.running (step (step t requesting) (settled r)) (step t requesting)
              (λ busy.
                subst
                  (λ u.
                    let s = step u (settled r) in
                    (starts s.effects ≡ starts t.effects + 1)
                    × (s.running ≡ true)
                    × (s.requested ≡ false))
                  (sym (request_running t busy o)) (settle_requested t r busy o))
              (λ idle. start_requested t i idle o) in
          (a, b, c, λ h. (i.no_waiters_idle h, ground (arith, i.pending_runs)))
