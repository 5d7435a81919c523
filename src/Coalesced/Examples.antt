-- ===== src/Coalesced/Examples.antt =====
-- Runs of the coalesced task at concrete inputs.
use outbound_freeswitch_dial.Prelude.{ℕ, ◌≡◌, ◌≤◌, ◌+◌, refl, true, false, [], ◌∷◌, List}
use outbound_freeswitch_dial.Coalesced.{
  Event, requesting, waited, settled, failure, success, idle_task, run, step,
}
use outbound_freeswitch_dial.Coalesced.Laws.{
  run_serves_requests, after_request, runs_one_at_a_time, late_request_gets_another_run, starts,
  settles, bit, count_requests, requests,
}

abbrev morning : List (Event ℕ)
morning = requesting ∷ requesting ∷ waited 3 ∷ settled (failure 9) ∷ requesting ∷ []

morning_runs : (run idle_task morning).running ≡ true
unfolding run step
morning_runs = refl

morning_open : (run idle_task morning).stopped ≡ false
unfolding run step
morning_open = refl

run_serves_requests_example :
    let t = run idle_task morning in
    let s = after_request t (failure 2) in
    (starts s.effects ≡ starts t.effects + 1)
    × (s.running ≡ true)
    × (s.requested ≡ false)
    × (t.running ≡ false → (t.waiters ≡ []) × (t.requested ≡ false))
run_serves_requests_example = run_serves_requests morning (failure 2) morning_open

runs_one_at_a_time_example :
    let t = run idle_task morning in
    (starts t.effects ≡ settles idle_task morning + bit t.running)
    × (starts t.effects + bit t.requested ≤ count_requests morning)
runs_one_at_a_time_example = runs_one_at_a_time morning

late_request_gets_another_run_example :
    let t = run idle_task morning in
    let s = step (run t (requests 2)) (settled success) in
    (starts s.effects ≡ starts t.effects + 1) × (s.running ≡ true) × (s.requested ≡ false)
late_request_gets_another_run_example =
    late_request_gets_another_run (run idle_task morning) 1 success morning_runs morning_open
