-- ===== src/Calls/Repair.antt =====
-- The repair of ended calls that were left half cleaned up: `repairFinalizedCallTransaction` of
-- apps/api/src/call-finalization.ts, and `repairFinalizedCallConsistency` of
-- apps/api/src/esl-events.ts, which looks for the calls.
pub mod Settled
pub mod Loop
use outbound_freeswitch_dial.Prelude.{
  ℕ, ◌+◌, Bool, true, false, not, ◌&&◌, ◌||◌, Option, none, some, List, [], ◌∷◌, any, filter, map,
  take, codes, leb, ◌==◌, if◌then◌else◌, is_none, is_some,
}
use outbound_freeswitch_dial.Calls.Schema.{
  Call, Leg, LegState, ended, Contact, Agent, Db, is_terminal, is_calling, is_in_call, is_id, ◌>>=◌,
}
use outbound_freeswitch_dial.Calls.Availability.{occupies}
use outbound_freeswitch_dial.Calls.Finalization.{
  FinalizeInput, FinalizeResult, Status, finalized, already_finalized, finalize_call_transaction,
  is_open_leg, open_leg_of, still_calls,
}

abbrev pub repair_input : ℕ → FinalizeInput
repair_input call_id = record {
  call_id = call_id;
  event = none;
  persist_event_when_already_finalized = false;
  resolve = λ c. none;
  terminal =
      some (record { event_at = none; event_name = none; source = codes "consistency_repair" });
}

abbrev pub is_through : Status → Bool
is_through already_finalized = true
is_through finalized = true
is_through _ = false

unfoldable pub repair_finalized_call_transaction : ℕ → ℕ → ℕ → Db → Option (Db × Bool)
repair_finalized_call_transaction now clock call_id db =
    finalize_call_transaction now clock (repair_input call_id) db >>= λ r.
    some (r.0, is_through r.1.status)

-- The call has ended by its time or by its state, but not by both and with an outcome.
abbrev pub is_half_ended : Call → Bool
is_half_ended c =
    (is_none c.ended_at && is_terminal c.state)
    || (is_some c.ended_at && (not (is_terminal c.state) || is_none c.outcome))

-- Its contact is in `calling` for no other call.
abbrev pub holds_stale_contact : Db → Call → Bool
holds_stale_contact db c =
    any
      (λ (k : Contact).
        is_id c.contact_id k.id
        && is_calling k.status
        && not (any (still_calls k.id c.id) db.calls))
      db.contacts

abbrev pub has_open_leg : Db → Call → Bool
has_open_leg db c = any (open_leg_of c.id) db.legs

-- Its agent is in `in_call` for no call.
abbrev pub holds_stale_agent : Db → Call → Bool
holds_stale_agent db c =
    any
      (λ (a : Agent).
        is_id c.agent_id a.id && is_in_call a.status && not (any (occupies a.id) db.calls))
      db.agents

-- The `where` of the query for candidates.
unfoldable pub needs_repair : Db → Call → Bool
needs_repair db c =
    (is_some c.ended_at || is_terminal c.state)
    && (is_half_ended c || holds_stale_contact db c || has_open_leg db c || holds_stale_agent db c)

-- `coalesce(calls.ended_at, calls.updated_at)`.
abbrev pub repair_order : Call → ℕ
repair_order c = elim c.ended_at [ none ↦ c.updated_at | some t ↦ t ]

unfoldable pub insert_in_order : Call → List Call → List Call
insert_in_order c [] = c ∷ []
insert_in_order c (d ∷ ds) =
    let rest = insert_in_order c ds in
    if leb (repair_order c) (repair_order d) then c ∷ d ∷ ds else d ∷ rest

unfoldable pub in_repair_order : List Call → List Call
unfolding insert_in_order
in_repair_order [] = []
in_repair_order (c ∷ cs) = insert_in_order c (in_repair_order cs)

-- The loop over the candidates: each is a transaction of its own, and an error is thrown on.
unfoldable pub repair_each : ℕ → ℕ → List ℕ → ℕ → Db → Option (Db × ℕ)
repair_each now clock [] repaired db = some (db, repaired)
repair_each now clock (n ∷ ns) repaired db =
    repair_finalized_call_transaction now clock n db >>= λ r.
    repair_each now clock ns (if r.1 then repaired + 1 else repaired) r.0

-- The rows of the query for candidates.
abbrev pub candidates : ℕ → Db → List ℕ
candidates limit db =
    map (λ (c : Call). c.id) (take limit (in_repair_order (filter (needs_repair db) db.calls)))

unfoldable pub repair_finalized_call_consistency : ℕ → ℕ → ℕ → Db → Option (Db × ℕ)
unfolding in_repair_order needs_repair repair_each
repair_finalized_call_consistency now clock limit db =
    repair_each now clock (candidates limit db) 0 db
