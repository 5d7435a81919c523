-- ===== src/Calls/History/Handlers.antt =====
-- Each handler, as a step of the table of calls.
use outbound_freeswitch_dial.Prelude.{
  ℕ, ◌≡◌, refl, sym, subst, ap, ◌∙◌, Bool, true, false, Option, none, some, List, [], ◌∷◌, All,
  arith, coalesce,
}
use mathlib.Core.Option.{some-injective}
use outbound_freeswitch_dial.Calls.Schema.{
  CallState, customer_dialing, customer_ringing, agent_answered, CallOutcome, Call, Db, is_terminal,
  has_id, find_call, bind-eq-some, ◌>>=◌,
}
use outbound_freeswitch_dial.Calls.Progression.{update_calls}
use outbound_freeswitch_dial.Calls.Rows.{Rows, All_any}
use outbound_freeswitch_dial.Calls.Events.{
  TaggedEvent, persist_generic_event, generic_event-move, move_call, move_to, bridge, open_in,
  not_terminal, before_dialing, before_ringing, before_agent_answers,
}
use outbound_freeswitch_dial.Calls.Finalization.{
  FinalizeInput, FinalizeResult, Decision, finalize_call_transaction, finalize_row,
  persist_finalization, apply_decision, decide, record_event, close_call, clean_up, result_of,
}
use outbound_freeswitch_dial.Calls.Finalization.Decisions.{Resolves, decide-terminal}
use outbound_freeswitch_dial.Calls.Finalization.Laws.{record_event-keeps}
use outbound_freeswitch_dial.Calls.Finalization.Cleanup.{clean_up-calls}
use outbound_freeswitch_dial.Calls.History.{
  IsConsistent, Later-refl, Evolves, is_playback_completed,
}
use outbound_freeswitch_dial.Calls.History.Updates.{
  update-Evolves, move_to-Evolves, bridge-Evolves, close-Evolves,
}

pub unchanged : (cs : List Call) → All IsConsistent cs → Rows Evolves cs cs
unchanged [] v = tt
unchanged (c ∷ cs) v = ((v.0, Later-refl c), unchanged cs v.1)

pub All_top : (cs : List Call) → All (λ c. Unit {0}) cs
All_top cs = All_any cs

move_to-step :
    (now n : ℕ) (p : CallState → Bool) (s : CallState) (db db' : Db)
    → is_terminal s ≡ false
    → is_playback_completed s ≡ false
    → All IsConsistent db.calls
    → update_calls (open_in p n) (move_to now s) db ≡ some db'
    → Rows Evolves db.calls db'.calls
move_to-step now n p s db db' h w v e =
    update-Evolves (open_in p n) (move_to now s) (λ c. Unit {0}) db db'
      (λ c c' k q hit g. move_to-Evolves c c' k now s h w (ground arith) g) v (All_top db.calls) e

bridge-step :
    (now n : ℕ) (db db' : Db)
    → All IsConsistent db.calls
    → update_calls (open_in not_terminal n) (bridge now) db ≡ some db'
    → Rows Evolves db.calls db'.calls
bridge-step now n db db' v e =
    update-Evolves (open_in not_terminal n) (bridge now) (λ c. Unit {0}) db db'
      (λ c c' k q hit g. bridge-Evolves c c' k now (ground arith) g) v (All_top db.calls) e

move_call-step :
    (now : ℕ) (e : TaggedEvent) (db db' : Db)
    → All IsConsistent db.calls
    → move_call now e db ≡ some db'
    → Rows Evolves db.calls db'.calls
unfolding move_call
move_call-step now e db db' v h = ground (
  arith,
  move_to-step now e.call_id before_dialing customer_dialing db db' refl refl v,
  move_to-step now e.call_id before_ringing customer_ringing db db' refl refl v,
  move_to-step now e.call_id before_agent_answers agent_answered db db' refl refl v,
  bridge-step now e.call_id db db' v,
  unchanged db.calls v,
)

-- A generic event.
pub generic_event-step :
    (now : ℕ) (e : TaggedEvent) (db db' : Db)
    → All IsConsistent db.calls
    → persist_generic_event now e db ≡ some db'
    → Rows Evolves db.calls db'.calls
unfolding persist_generic_event
generic_event-step now e db db' v h =
    let (d, same, moved) = generic_event-move now e db db' h in
    subst (λ cs. Rows Evolves cs db'.calls) same (move_call-step now e d db' (rw same v) moved)

apply-step :
    (clock : ℕ) (input : FinalizeInput) (c : Call) (decision : Option Decision) (db db' : Db)
    {o : Option CallOutcome}
    → ((d : Decision) → decision ≡ some d → is_terminal d.state ≡ true)
    → All IsConsistent db.calls
    → apply_decision clock input c decision db ≡ some (db', o)
    → Rows Evolves db.calls db'.calls
unfolding apply_decision
apply-step clock input c none db db' {o} t v e =
    subst (λ (x : Db × Option CallOutcome). Rows Evolves db.calls x.0.calls)
      (some-injective (db, c.outcome) (db', o) e) (unchanged db.calls v)
apply-step clock input c (some d) db db' {o} t v e =
    let (db1, done, last) =
      bind-eq-some (update_calls (has_id input.call_id) (close_call clock input.terminal d) db) _
        e in
    let o1 : Option CallOutcome =
      coalesce (find_call input.call_id db1 >>= λ r. r.outcome) (some d.outcome) in
    subst (λ (x : Db × Option CallOutcome). Rows Evolves db.calls x.0.calls)
      (some-injective (db1, o1) (db', o) last)
      (update-Evolves (has_id input.call_id) (close_call clock input.terminal d) (λ x. Unit {0}) db
        db1 (λ x x' k q hit g. close-Evolves x x' k clock input.terminal d (t d refl) g) v
        (All_top db.calls) done)

-- The decision, the clean-up and the commit.
persist-step :
    (now clock : ℕ) (input : FinalizeInput) (c : Call) (db db' : Db) {r : FinalizeResult}
    → Resolves input
    → All IsConsistent db.calls
    → persist_finalization now clock input c db ≡ some (db', r)
    → Rows Evolves db.calls db'.calls
unfolding persist_finalization
persist-step now clock input c db db' {r} res v e =
    let told = record_event input c db in
    let same = (record_event-keeps input c db).0 in
    let ((db1, o), applied, last) =
      bind-eq-some (apply_decision clock input c (decide input c) told) _ e in
    let cleaned = clean_up now input.call_id o c.contact_id c.agent_id db1 in
    let end : cleaned ≡ db' =
      ap (λ (x : Db × FinalizeResult). x.0)
        (some-injective (cleaned, result_of c (decide input c) o) (db', r) last) in
    subst (λ cs. Rows Evolves cs db'.calls) same
      (subst (λ cs. Rows Evolves told.calls cs)
        (sym (clean_up-calls now input.call_id o c.contact_id c.agent_id db1)
          ∙ ap (λ (x : Db). x.calls) end)
        (apply-step clock input c (decide input c) told db1 (λ d h. decide-terminal input c res h)
          (subst (All IsConsistent) (sym same) v) applied))

row-step :
    (now clock : ℕ) (input : FinalizeInput) (o : Option Call) (db db' : Db) {r : FinalizeResult}
    → Resolves input
    → All IsConsistent db.calls
    → finalize_row now clock input o db ≡ some (db', r)
    → Rows Evolves db.calls db'.calls
unfolding finalize_row
row-step now clock input none db db' {r} res v e = ground (arith, unchanged db.calls v)
row-step now clock input (some c) db db' {r} res v e =
    ground (arith, unchanged db.calls v, persist-step now clock input c db db' {r = r} res v)

-- A finalization.
pub finalization-step :
    (now clock : ℕ) (input : FinalizeInput) (db db' : Db) {r : FinalizeResult}
    → Resolves input
    → All IsConsistent db.calls
    → finalize_call_transaction now clock input db ≡ some (db', r)
    → Rows Evolves db.calls db'.calls
unfolding finalize_call_transaction
finalization-step now clock input db db' {r} res v e = ground (
  arith,
  unchanged db.calls v,
  row-step now clock input (find_call input.call_id db) db db' {r = r} res v,
)
