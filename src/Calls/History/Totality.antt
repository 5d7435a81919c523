-- ===== src/Calls/History/Totality.antt =====
-- The finalization transaction over a valid table: the trigger never raises.
use outbound_freeswitch_dial.Prelude.{
  ℕ, ◌≡◌, refl, sym, subst, true, false, Option, none, some, List, [], ◌∷◌, All, find, arith,
  is_some,
}
use outbound_freeswitch_dial.Calls.Schema.{Call, CallState, Db, is_terminal, has_id, find_call}
use outbound_freeswitch_dial.Calls.Progression.{
  enforce_call_state_progression, guard_rows, update_calls, may_follow,
}
use outbound_freeswitch_dial.Calls.Rows.{guard_rows-allowed}
use outbound_freeswitch_dial.Calls.Finalization.{
  FinalizeInput, Decision, Terminal, decide, is_finalized, close_call, apply_decision,
  persist_finalization, finalize_row, finalize_call_transaction, record_event,
}
use outbound_freeswitch_dial.Calls.Finalization.Decisions.{Resolves, decide-terminal}
use outbound_freeswitch_dial.Calls.Finalization.Laws.{record_event-keeps}
use outbound_freeswitch_dial.Calls.History.{IsConsistent, IsValid, is_playback_completed}
use outbound_freeswitch_dial.Calls.History.Table.{IsOnly, found-IsOnly}

-- An open call may go on to each terminal state, but from the state that is never stored.
may_end_in :
    (s t : CallState)
    → is_terminal t ≡ true
    → is_terminal s ≡ false
    → is_playback_completed s ≡ false
    → may_follow s t ≡ true
unfolding may_follow
may_end_in s t h o p = ground arith

-- The trigger lets a row that is not final be closed.
close-allowed :
    (clock : ℕ) (t : Option Terminal) (d : Decision) (c : Call)
    → IsConsistent c
    → is_finalized c ≡ false
    → is_terminal d.state ≡ true
    → is_some (enforce_call_state_progression c (close_call clock t d c)) ≡ true
unfolding enforce_call_state_progression
close-allowed clock t d c k f h = ground (arith, may_end_in c.state d.state)

closes_all :
    (clock : ℕ) (input : FinalizeInput) (c : Call) (d : Decision) (cs : List Call)
    → is_finalized c ≡ false
    → is_terminal d.state ≡ true
    → All IsConsistent cs
    → All (IsOnly input.call_id c) cs
    → is_some (guard_rows (has_id input.call_id) (close_call clock input.terminal d) cs) ≡ true
closes_all clock input c d cs f h v only =
    guard_rows-allowed (has_id input.call_id) (close_call clock input.terminal d) cs
      (row_by_row cs v only)
  where
    row_by_row :
        (ds : List Call)
        → All IsConsistent ds
        → All (IsOnly input.call_id c) ds
        → All
            (λ x.
              has_id input.call_id x ≡ true
              → is_some (enforce_call_state_progression x (close_call clock input.terminal d x))
                ≡ true)
            ds
    row_by_row [] v o = tt
    row_by_row (x ∷ xs) v o = (
      (λ e.
          close-allowed clock input.terminal d x v.0
            (subst (λ (z : Call). is_finalized z ≡ false) (sym (o.0 e)) f) h),
      row_by_row xs v.1 o.1,
    )

apply-returns :
    (clock : ℕ) (input : FinalizeInput) (c : Call) (decision : Option Decision) (db : Db)
    → All IsConsistent db.calls
    → All (IsOnly input.call_id c) db.calls
    → ((d : Decision) → decision ≡ some d → (is_finalized c ≡ false) × (is_terminal d.state ≡ true))
    → is_some (apply_decision clock input c decision db) ≡ true
unfolding apply_decision update_calls
apply-returns clock input c none db v o h = refl
apply-returns clock input c (some d) db v o h =
    ground (arith, closes_all clock input c d db.calls (h d refl).0 (h d refl).1 v o)

-- A final call has no decision.
decide-open :
    (input : FinalizeInput) (c : Call) (d : Decision)
    → decide input c ≡ some d
    → is_finalized c ≡ false
unfolding decide
decide-open input c d e = ground arith

pub persist-returns :
    (now clock : ℕ) (input : FinalizeInput) (c : Call) (db : Db)
    → IsValid db
    → Resolves input
    → find (has_id input.call_id) db.calls ≡ some c
    → is_some (persist_finalization now clock input c db) ≡ true
unfolding persist_finalization
persist-returns now clock input c db v res f =
    let told = record_event input c db in
    let same = (record_event-keeps input c db).0 in
    ground (
      arith,
      apply-returns clock input c (decide input c) told
          (subst (All IsConsistent) (sym same) v.consistent)
          (subst (All (IsOnly input.call_id c)) (sym same)
            (found-IsOnly input.call_id (has_id input.call_id) db.calls (λ d h. h) v.distinct f))
          (λ d e. (decide-open input c d e, decide-terminal input c res e)),
    )

row-returns :
    (now clock : ℕ) (input : FinalizeInput) (o : Option Call) (db : Db)
    → IsValid db
    → Resolves input
    → find (has_id input.call_id) db.calls ≡ o
    → is_some (finalize_row now clock input o db) ≡ true
unfolding finalize_row
row-returns now clock input none db v res f = refl
row-returns now clock input (some c) db v res f =
    ground (arith, persist-returns now clock input c db v res f)

-- Over valid tables, the finalization transaction commits: whatever state the call is in, locked
-- by hand or not, and whatever terminal state the resolver gives, the trigger raises no exception.
pub finalization_always_commits :
    (now clock : ℕ) (input : FinalizeInput) (db : Db)
    → IsValid db
    → Resolves input
    → is_some (finalize_call_transaction now clock input db) ≡ true
unfolding finalize_call_transaction find_call
finalization_always_commits now clock input db v res =
    ground (arith, row-returns now clock input (find (has_id input.call_id) db.calls) db v res refl)
