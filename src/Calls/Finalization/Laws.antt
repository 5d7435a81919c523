-- ===== src/Calls/Finalization/Laws.antt =====
-- What the finalization transaction guarantees on each of its results.
use outbound_freeswitch_dial.Prelude.{
  ℕ, ◌≡◌, refl, sym, ap, subst, ◌∙◌, ◌⊎◌, inl, inr, true, not, ◌&&◌, Option, none, some, List, All,
  [], ◌∷◌, arith, is_none, coalesce, Bool-cases, Option-cases, find,
}
use mathlib.Core.Option.{some-injective}
use outbound_freeswitch_dial.Calls.Schema.{
  CallOutcome, Call, Db, Agent, is_terminal, find_call, has_id, bind-eq-some, ◌>>=◌, insert_event,
}
use outbound_freeswitch_dial.Calls.Progression.{update_calls, enforce-cases}
use outbound_freeswitch_dial.Calls.Rows.{Guarded, Rows-find, KeepsId, update_calls-Rows, All-find}
use outbound_freeswitch_dial.Calls.Finalization.Decisions.{
  Resolves, IsLockValid, decide-terminal, guarded-close,
}
use outbound_freeswitch_dial.Calls.Finalization.Cleanup.{
  LegsEnded, ContactReleased, AgentReleased, clean_up-calls, clean_up-LegsEnded,
  clean_up-ContactReleased, clean_up-AgentReleased,
}
use outbound_freeswitch_dial.Calls.Finalization.{
  Decision, FinalizeInput, FinalizeResult, Terminal, already_finalized, finalized, missing,
  not_applicable, decide, is_finalized, close_call, apply_decision, persist_finalization,
  finalize_row, finalize_call_transaction, insert_call_finalization_event, record_event, clean_up,
  result_of, lock_call_owner_agent, owned_by, owner_of,
}

-- What the update of the decision does to a row.
abbrev pub Closed : ℕ → Option Terminal → Decision → ℕ → Call → Call → Type 0
Closed clock t d n c c' = Guarded (has_id n) (close_call clock t d) c c'

pub record_event-keeps :
    (input : FinalizeInput) (c : Call) (db : Db)
    → ((record_event input c db).calls ≡ db.calls) × ((record_event input c db).legs ≡ db.legs)
unfolding record_event insert_call_finalization_event insert_event
record_event-keeps input c db = elim (Option-cases input.event) [
  | inl e ↦ (ground arith, ground arith)
  | inr (v, e) ↦ (ground arith, ground arith)
]

Closed-KeepsId :
    (clock : ℕ) (t : Option Terminal) (d : Decision) (n : ℕ) (c c' : Call)
    → Closed clock t d n c c'
    → KeepsId c c'
Closed-KeepsId clock t d n c c' e = ground (arith, enforce-cases c (close_call clock t d c) c')

-- The row with the id is final, of the same agent and contact, with the given outcome.
abbrev FinalAt : ℕ → Call → Db → Db × Option CallOutcome → Type 0
FinalAt n c db r =
    (c' : Call) × (find (has_id n) r.0.calls ≡ some c')
    × (is_finalized c' ≡ true)
    × (r.1 ≡ c'.outcome)
    × (c'.agent_id ≡ c.agent_id)
    × (c'.contact_id ≡ c.contact_id)
    × (r.0.legs ≡ db.legs)

-- After the update, the row with the id is final, and its outcome is the one that is returned.
apply_decision-final :
    (clock : ℕ) (input : FinalizeInput) (c : Call) (decision : Option Decision) (db : Db) {db' : Db}
    {o : Option CallOutcome}
    → All IsLockValid db.calls
    → find (has_id input.call_id) db.calls ≡ some c
    → ((d : Decision) → decision ≡ some d → is_terminal d.state ≡ true)
    → (decision ≡ none → is_finalized c ≡ true)
    → apply_decision clock input c decision db ≡ some (db', o)
    → FinalAt input.call_id c db (db', o)
unfolding apply_decision
apply_decision-final clock input c none db {db'} {o} v f t n e =
    (c, ground arith, n refl, ground arith, refl, refl, ground arith)
apply_decision-final clock input c (some d) db {db'} {o} v f t n e =
    let (db1, done, last) =
      bind-eq-some (update_calls (has_id input.call_id) (close_call clock input.terminal d) db) _
        e in
    let (rows, kept) =
      update_calls-Rows (has_id input.call_id) (close_call clock input.terminal d) db db1 done in
    let (c', found, hit) =
      Rows-find (Guarded (has_id input.call_id) (close_call clock input.terminal d))
        (Closed-KeepsId clock input.terminal d input.call_id) input.call_id db.calls db1.calls rows
        f in
    let (lock, at_id) = All-find IsLockValid (has_id input.call_id) db.calls v f in
    let (final, a, b, k, x) =
      guarded-close clock input.terminal d c c' (t d refl) lock (rw at_id at hit) in
    let o1 : Option CallOutcome =
      coalesce (find_call input.call_id db1 >>= λ r. r.outcome) (some d.outcome) in
    subst (FinalAt input.call_id c db) (some-injective (db1, o1) (db', o) last)
      (c', found, final, unfold find_call in ground arith, b, k, ap (λ (x : Db). x.legs) kept)

-- The tables after a finalization that went through, for the row that it was made for.
pub record Finalized (n : ℕ) (db : Db) (r : FinalizeResult) : Type 0 where
  pub call : Call
  pub found : find (has_id n) db.calls ≡ some call
  pub final : is_finalized call ≡ true
  pub outcome : r.outcome ≡ call.outcome
  pub legs_ended : LegsEnded n db
  pub contact_released : ContactReleased n call.contact_id db
  pub agent_released : AgentReleased call.agent_id db

clean_up-Finalized :
    (now n : ℕ) (c : Call) (decision : Option Decision) (db db1 : Db) (o : Option CallOutcome)
    → FinalAt n c db (db1, o)
    → Finalized n (clean_up now n o c.contact_id c.agent_id db1) (result_of c decision o)
clean_up-Finalized now n c decision db db1 o (c', found, final, out, a, k, l) = record {
  call = c';
  found = rw (clean_up-calls now n o c.contact_id c.agent_id db1) found;
  final = final;
  outcome = out;
  legs_ended = clean_up-LegsEnded now n o c.contact_id c.agent_id db1;
  contact_released = rw k (clean_up-ContactReleased now n o c.contact_id c.agent_id db1);
  agent_released = rw a (clean_up-AgentReleased now n o c.contact_id c.agent_id db1);
}

pub persist-Finalized :
    (now clock : ℕ) (input : FinalizeInput) (c : Call) (db db' : Db) (r : FinalizeResult)
    → Resolves input
    → All IsLockValid db.calls
    → find (has_id input.call_id) db.calls ≡ some c
    → (decide input c ≡ none → is_finalized c ≡ true)
    → persist_finalization now clock input c db ≡ some (db', r)
    → Finalized input.call_id db' r
unfolding persist_finalization
persist-Finalized now clock input c db db' r res v f n e =
    let told = record_event input c db in
    let same = (record_event-keeps input c db).0 in
    let ((db1, o), applied, last) =
      bind-eq-some (apply_decision clock input c (decide input c) told) _ e in
    let at_row =
      apply_decision-final clock input c (decide input c) told {db' = db1} {o = o}
        (subst (All IsLockValid) (sym same) v) (rw same f) (λ d h. decide-terminal input c res h) n
        applied in
    subst (λ (x : Db × FinalizeResult). Finalized input.call_id x.0 x.1)
      (some-injective
        (clean_up now input.call_id o c.contact_id c.agent_id db1, result_of c (decide input c) o)
        (db', r) last)
      (clean_up-Finalized now input.call_id c (decide input c) told db1 o at_row)

-- The result is that of a finalization that went through.
abbrev pub IsThrough : FinalizeResult → Type 0
IsThrough r = (r.status ≡ finalized) ⊎ (r.status ≡ already_finalized)

finalize_row-Finalized :
    (now clock : ℕ) (input : FinalizeInput) (o : Option Call) (db db' : Db) (r : FinalizeResult)
    → Resolves input
    → All IsLockValid db.calls
    → find_call input.call_id db ≡ o
    → finalize_row now clock input o db ≡ some (db', r)
    → IsThrough r
    → Finalized input.call_id db' r
unfolding finalize_row find_call
finalize_row-Finalized now clock input none db db' r res v f e t = ground arith
finalize_row-Finalized now clock input (some c) db db' r res v f e t =
    elim (Bool-cases (not (is_finalized c) && is_none (decide input c))) [
      | inl idle ↦ absurd (ground arith)
      | inr busy ↦
          persist-Finalized now clock input c db db' r res v f (λ d. ground arith) (rw busy at e)
    ]

-- When a finalization reports `finalized` or `already_finalized`, whoever asked for it and with
-- whatever resolver of terminal states, then afterwards: the call has ended, in a terminal state,
-- with the outcome that is returned; every leg of it has ended; its contact is in `calling` only
-- if another call of that contact has not ended; and its agent is in `in_call` only if another
-- call still occupies that agent. Calls whose result was locked by hand are included.
pub finalize_settles_everything :
    (now clock : ℕ) (input : FinalizeInput) (db : Db) {db' : Db} {r : FinalizeResult}
    → Resolves input
    → All IsLockValid db.calls
    → finalize_call_transaction now clock input db ≡ some (db', r)
    → IsThrough r
    → Finalized input.call_id db' r
unfolding finalize_call_transaction
finalize_settles_everything now clock input db {db'} {r} res v e t =
    elim (Bool-cases (lock_call_owner_agent input.call_id none db).found) [
      | inl y ↦
          finalize_row-Finalized now clock input (find_call input.call_id db) db db' r res v refl
            (rw y at e) t
      | inr n ↦ absurd (ground arith)
    ]

find_and_owned :
    (n : ℕ) (agents : List Agent) (cs : List Call)
    → find (λ c. has_id n c && owned_by none agents c) cs ≡ find (has_id n) cs
find_and_owned n agents [] = refl
find_and_owned n agents (c ∷ cs) = ground (arith, find_and_owned n agents cs)

-- Without a user, the owner is that of the row with the id.
pub lock-found :
    (n : ℕ) (db : Db) {c : Call}
    → find_call n db ≡ some c
    → lock_call_owner_agent n none db ≡ record { agent_id = c.agent_id; found = true }
unfolding lock_call_owner_agent find_call
lock-found n db f = ap owner_of (find_and_owned n db.agents db.calls ∙ f)

-- A final call: only its event and the clean-up are written.
finalize_again :
    (now clock : ℕ) (input : FinalizeInput) (db : Db) (c : Call)
    → find_call input.call_id db ≡ some c
    → is_finalized c ≡ true
    → finalize_call_transaction now clock input db
      ≡ some (
        clean_up now input.call_id c.outcome c.contact_id c.agent_id (record_event input c db),
        result_of c none c.outcome,
      )
unfolding finalize_call_transaction finalize_row persist_finalization apply_decision decide
finalize_again now clock input db c f final = ground (arith, lock-found input.call_id db f)

-- A call that is final already: the transaction writes no call, and returns the outcome that
-- stands. So the first outcome wins, whatever a later or replayed event resolves to.
pub first_outcome_wins :
    (now clock : ℕ) (input : FinalizeInput) (db : Db) (c : Call) {db' : Db} {r : FinalizeResult}
    → find_call input.call_id db ≡ some c
    → is_finalized c ≡ true
    → finalize_call_transaction now clock input db ≡ some (db', r)
    → (r.status ≡ already_finalized) × (r.outcome ≡ c.outcome) × (db'.calls ≡ db.calls)
first_outcome_wins now clock input db c {db'} {r} f final e =
    let told = record_event input c db in
    let cleaned = clean_up now input.call_id c.outcome c.contact_id c.agent_id told in
    let same =
      some-injective (cleaned, result_of c none c.outcome) (db', r)
        (sym (finalize_again now clock input db c f final) ∙ e) in
    subst
      (λ (x : Db × FinalizeResult).
        (x.1.status ≡ already_finalized) × (x.1.outcome ≡ c.outcome) × (x.0.calls ≡ db.calls))
      same
      (
        refl,
        refl,
        clean_up-calls now input.call_id c.outcome c.contact_id c.agent_id told
            ∙ (record_event-keeps input c db).0,
      )

-- A call that is missing, or that no decision is made for, changes no table.
finalize_unchanged :
    (now clock : ℕ) (input : FinalizeInput) (db : Db) {db' : Db} {r : FinalizeResult}
    → finalize_call_transaction now clock input db ≡ some (db', r)
    → (r.status ≡ missing) ⊎ (r.status ≡ not_applicable)
    → db' ≡ db
unfolding finalize_call_transaction finalize_row persist_finalization
finalize_unchanged now clock input db {db'} {r} e s = ground arith
