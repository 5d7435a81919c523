-- ===== src/Calls/Examples/Finalizes.antt =====
-- The finalization and the histories at concrete tables.
use outbound_freeswitch_dial.Prelude.{
  ℕ, ◌≡◌, ◌⊎◌, inl, refl, true, false, none, some, codes, is_some, All, find, arith,
}
use outbound_freeswitch_dial.Calls.Schema.{
  Call, completed, customer_hung_up, answered, Db, find_call, has_id,
}
use outbound_freeswitch_dial.Calls.Events.{normal_clearing, resolve_terminal_event}
use outbound_freeswitch_dial.Calls.Finalization.{
  FinalizeInput, FinalizeResult, missing, already_finalized, finalize_call_transaction,
  lock_call_owner_agent, finalize_row, persist_finalization, apply_decision,
  insert_call_finalization_event, record_event, clean_up, end_legs, release_contact, release_agent,
  decide,
}
use outbound_freeswitch_dial.Calls.Availability.{finish_agent_call}
use outbound_freeswitch_dial.Calls.Progression.{update_calls, same_state, may_follow}
use outbound_freeswitch_dial.Calls.Finalization.Decisions.{Resolves, IsLockValid}
use outbound_freeswitch_dial.Calls.Finalization.Laws.{
  Finalized, finalize_settles_everything, first_outcome_wins, IsThrough,
}
use outbound_freeswitch_dial.Calls.History.{IsValid}
use outbound_freeswitch_dial.Calls.Retention.{delete_expired_calls}
use outbound_freeswitch_dial.Calls.History.Reach.{
  finalizes, Reach, here, after, expires, every_history_keeps_the_invariants,
  ended_call_keeps_its_end, locked_result_is_permanent,
}
use outbound_freeswitch_dial.Calls.History.Totality.{finalization_always_commits}
use outbound_freeswitch_dial.Calls.Examples.Tables.{over, corrected, tables, tables-IsValid, value}

-- A hangup of the customer's leg, for a call.
abbrev hangup : ℕ → FinalizeInput
hangup n = record {
  call_id = n;
  event = none;
  persist_event_when_already_finalized = true;
  resolve = resolve_terminal_event normal_clearing;
  terminal = some (record { event_at = some 30; event_name = none; source = codes "esl" });
}

hangup-Resolves : (n : ℕ) → Resolves (hangup n)
unfolding resolve_terminal_event
hangup-Resolves n c d e = ground arith

tables-IsLockValid : All IsLockValid tables.calls
tables-IsLockValid = ((λ h. cc), ((λ h. refl), ((λ h. refl), tt)))

abbrev nothing : Db × FinalizeResult
nothing = (tables, record { agent_id = none; contact_id = none; outcome = none; status = missing })

abbrev finalized_tables : Db × FinalizeResult
finalized_tables = value nothing (finalize_call_transaction 40 41 (hangup 1) tables)

hangs_up :
    finalize_call_transaction 40 41 (hangup 1) tables
    ≡ some (finalized_tables.0, finalized_tables.1)
unfolding finalize_call_transaction lock_call_owner_agent finalize_row persist_finalization
    apply_decision record_event insert_call_finalization_event clean_up end_legs release_contact
    release_agent finish_agent_call decide update_calls find_call resolve_terminal_event same_state
    may_follow
hangs_up = refl

is_through : IsThrough finalized_tables.1
unfolding finalize_call_transaction lock_call_owner_agent finalize_row persist_finalization
    apply_decision record_event insert_call_finalization_event clean_up end_legs release_contact
    release_agent finish_agent_call decide update_calls find_call resolve_terminal_event same_state
    may_follow
is_through = inl refl

finalize_settles_everything_example : Finalized 1 finalized_tables.0 finalized_tables.1
finalize_settles_everything_example =
    finalize_settles_everything 40 41 (hangup 1) tables (hangup-Resolves 1) tables-IsLockValid
      hangs_up is_through

abbrev again_tables : Db × FinalizeResult
again_tables = value nothing (finalize_call_transaction 40 41 (hangup 2) tables)

hangs_up_again :
    finalize_call_transaction 40 41 (hangup 2) tables ≡ some (again_tables.0, again_tables.1)
unfolding finalize_call_transaction lock_call_owner_agent finalize_row persist_finalization
    apply_decision record_event insert_call_finalization_event clean_up end_legs release_contact
    release_agent finish_agent_call decide find_call
hangs_up_again = refl

over-found : find_call 2 tables ≡ some over
unfolding find_call
over-found = refl

first_outcome_wins_example :
    (again_tables.1.status ≡ already_finalized)
    × (again_tables.1.outcome ≡ some customer_hung_up)
    × (again_tables.0.calls ≡ tables.calls)
first_outcome_wins_example =
    first_outcome_wins 40 41 (hangup 2) tables over over-found refl hangs_up_again

hangs_up_nothing : finalize_call_transaction 40 41 (hangup 77) tables ≡ some nothing
unfolding finalize_call_transaction lock_call_owner_agent
hangs_up_nothing = refl

finalization_always_commits_example :
    is_some (finalize_call_transaction 40 41 (hangup 1) tables) ≡ true
finalization_always_commits_example =
    finalization_always_commits 40 41 (hangup 1) tables tables-IsValid (hangup-Resolves 1)

-- The call 1 ends, and then retention deletes what is older than the time 12, which is no call.
history : (n : ℕ) → Reach (some n) tables finalized_tables.0
unfolding delete_expired_calls finalize_call_transaction lock_call_owner_agent finalize_row
    find_call decide resolve_terminal_event persist_finalization apply_decision update_calls
    record_event insert_call_finalization_event same_state may_follow clean_up release_agent
    finish_agent_call release_contact end_legs
history n =
    expires
      (after here (finalizes 40 41 (hangup 1) finalized_tables.1 (hangup-Resolves 1) hangs_up)) 12
      (λ k. 10) (λ k. false) refl refl

every_history_keeps_the_invariants_example : IsValid finalized_tables.0
every_history_keeps_the_invariants_example =
    every_history_keeps_the_invariants tables-IsValid (history 1)

ended_call_keeps_its_end_example :
    (c : Call) × (find (has_id 2) finalized_tables.0.calls ≡ some c)
    × (c.agent_id ≡ some 5)
    × (c.contact_id ≡ some 8)
    × (c.ended_at ≡ some 15)
    × (((c.state ≡ completed) × (c.outcome ≡ some customer_hung_up))
        ⊎ ((false ≡ false) × (is_some c.manual_status_locked_at ≡ true)))
ended_call_keeps_its_end_example =
    ended_call_keeps_its_end 2 over tables-IsValid (history 2) refl refl

locked_result_is_permanent_example :
    (c : Call) × (find (has_id 3) finalized_tables.0.calls ≡ some c)
    × (c.state ≡ completed)
    × (c.outcome ≡ some answered)
    × (c.manual_status_locked_at ≡ some 18)
locked_result_is_permanent_example =
    locked_result_is_permanent 3 corrected tables-IsValid (history 3) refl refl
