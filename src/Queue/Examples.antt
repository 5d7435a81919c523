-- ===== src/Queue/Examples.antt =====
-- Runs of the queue at concrete inputs.
use outbound_freeswitch_dial.Prelude.{
  ℕ, ◌≡◌, refl, true, false, none, some, List, [], ◌∷◌, ◌==◌, ◌++◌, min, ◌+◌, ◌*◌, arith, ◌≤◌, ◌⊎◌,
  length,
}
use outbound_freeswitch_dial.Queue.{
  Queue, Options, Event, enqueued, waited, processed, fired, success, failure, construct, step, run,
  retry_delay, stop, wait_for_idle, is_empty, depth_changed,
}
use outbound_freeswitch_dial.Queue.Invariant.{Inv, run-Inv, construct-Inv, run_never_stalls}
use outbound_freeswitch_dial.Queue.Order.{
  items, ledger, run_first_in_first_out, retry_delay_backoff,
}
use outbound_freeswitch_dial.Queue.Lifecycle.{
  work_count, resolutions, stop_is_final, late_waiter_is_never_resolved, waits,
}
use outbound_freeswitch_dial.Queue.Progress.{IsIdle, recovery, recovery_empties}

-- Errors are numbers here, and 1 is the transient one.
abbrev options : Options ℕ
options = record {
  initial_retry_ms = 250;
  max_retry_ms = 1000;
  max_size = 2;
  is_transient = λ x. x == 1;
}

abbrev fresh : Queue ℕ ℕ
fresh = record {
  entries = [];
  waiters = [];
  processing = false;
  in_flight = none;
  timer = false;
  stopped = false;
  next_key = 0;
  effects = depth_changed 0 ∷ [];
}

constructs : construct options ≡ some fresh
unfolding construct
constructs = refl

-- Three enqueues into a queue of two, a transient failure, its retry and a success.
abbrev busy_day : List (Event ℕ ℕ)
busy_day =
    enqueued 7
    ∷ enqueued 8
    ∷ enqueued 9
    ∷ waited 4
    ∷ processed (failure 1)
    ∷ fired
    ∷ processed success
    ∷ []

busy_day-items : items (run options fresh busy_day).entries ≡ 8 ∷ []
unfolding run step
busy_day-items = refl

run_never_stalls_example :
    let r = run options fresh busy_day in
    (length r.entries ≤ 2)
    × (is_empty r.entries ≡ false → (r.processing ≡ true) ⊎ (r.timer ≡ true))
    × ¬ ((r.processing ≡ true) × (r.timer ≡ true))
    × (r.stopped ≡ false
        → r.processing ≡ false
        → r.timer ≡ false
        → (r.entries ≡ []) × (r.waiters ≡ []))
run_never_stalls_example = run_never_stalls options busy_day constructs

busy_day_runs : (run options fresh busy_day).stopped ≡ false
unfolding run step
busy_day_runs = refl

run_first_in_first_out_example :
    let l = ledger options fresh (record { accepted = []; finished = [] }) busy_day in
    l.accepted ≡ l.finished ++ items (run options fresh busy_day).entries
run_first_in_first_out_example = run_first_in_first_out options busy_day constructs busy_day_runs

retry_delay_backoff_example :
    (retry_delay options 1 ≡ min 1000 250)
    × (retry_delay options (1 + 2) ≡ min 1000 (2 * retry_delay options (1 + 1)))
    × (retry_delay options (5 + 31) ≡ retry_delay options 31)
    × (retry_delay options 5 ≤ retry_delay options (5 + 1))
    × (retry_delay options 5 ≤ 1000)
retry_delay_backoff_example = retry_delay_backoff options 5 1 (omega arith)

abbrev after_day : Queue ℕ ℕ
after_day = run options fresh busy_day

after_day-Inv : Inv options after_day
after_day-Inv = run-Inv options fresh busy_day (construct-Inv options constructs)

stop_is_final_example :
    let s = (stop after_day).0 in
    ((stop after_day).1 ≡ length after_day.entries)
    × (resolutions s.effects ≡ resolutions after_day.effects ++ after_day.waiters)
    × (s.waiters ≡ [])
    × ((run options s (processed success ∷ [])).stopped ≡ true)
    × ((run options s (processed success ∷ [])).entries ≡ [])
    × (work_count (run options s (processed success ∷ [])).effects ≡ work_count after_day.effects)
stop_is_final_example = stop_is_final options after_day (processed success ∷ []) after_day-Inv

after_day_processing : after_day.processing ≡ true
unfolding run step
after_day_processing = refl

late_waiter_is_never_resolved_example :
    waits 5 (run options (wait_for_idle 5 (stop after_day).0) (processed success ∷ [])).waiters
    ≡ true
late_waiter_is_never_resolved_example =
    late_waiter_is_never_resolved options after_day 5 (processed success ∷ []) after_day-Inv
      after_day_processing refl

recovery_empties_example :
    let s = run options after_day (recovery after_day) in
    IsIdle s × (resolutions s.effects ≡ resolutions after_day.effects ++ after_day.waiters)
recovery_empties_example = recovery_empties options after_day after_day-Inv busy_day_runs
