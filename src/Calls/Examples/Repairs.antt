-- ===== src/Calls/Examples/Repairs.antt =====
-- A hangup and a repair at concrete tables.
use outbound_freeswitch_dial.Prelude.{◌≡◌, refl, true, none, some, [], ◌∷◌, codes, length}
use outbound_freeswitch_dial.Calls.Schema.{Call, Db, customer}
use outbound_freeswitch_dial.Calls.Events.{channel_hangup}
use outbound_freeswitch_dial.Calls.Hangup.{HangupEvent, persist_customer_hangup}
use outbound_freeswitch_dial.Calls.Hangup.Ending.{EndsCall, customer_hangup_ends_the_call}
use outbound_freeswitch_dial.Calls.History.{IsValid}
use outbound_freeswitch_dial.Calls.Repair.{
  needs_repair, in_repair_order, repair_finalized_call_transaction,
  repair_finalized_call_consistency, candidates,
}
use outbound_freeswitch_dial.Calls.Repair.Loop.{RepairsEach, repair_round_settles_every_call}
use outbound_freeswitch_dial.Calls.Repair.Settled.{IsSettled, repair_settles_the_call}
use outbound_freeswitch_dial.Calls.Examples.Tables.{over, tables, tables-IsValid}

abbrev hangup : HangupEvent
hangup = record {
  tagged = record {
    call_id = 1;
    name = channel_hangup;
    leg_type = customer;
    leg_uuid = some (codes "leg");
    event_name = codes "CHANNEL_HANGUP";
    event_type = codes "freeswitch_channel_hangup";
    event_uuid = some (codes "e2");
    state = codes "completed";
    raw = [];
  };
  event = record {
    event_type = codes "freeswitch_channel_hangup";
    state = codes "completed";
    reason_code = none;
    freeswitch_event_name = some (codes "CHANNEL_HANGUP");
    freeswitch_event_uuid = some (codes "e2");
    api_command_name = none;
    agent_leg_uuid = none;
    customer_leg_uuid = some (codes "leg");
    raw = [];
  };
  hangup_cause_header = some (codes "NORMAL_CLEARING");
  event_at = some 35;
  raw = [];
}

customer_hangup_ends_the_call_example : EndsCall 1 (persist_customer_hangup 40 41 hangup tables)
customer_hangup_ends_the_call_example =
    customer_hangup_ends_the_call 40 41 hangup tables tables-IsValid refl

-- An ended call whose contact was left in `calling`.
abbrev stale : Call
stale = record over { contact_id = some 9 }

abbrev stale_tables : Db
stale_tables = record tables { calls = stale ∷ [] }

stale_tables-IsValid : IsValid stale_tables
stale_tables-IsValid = record {
  consistent = (
    record {
      terminal_ended = refl;
      outcome_ended = refl;
      locked_ended = λ h. refl;
      never_stored = refl;
    },
    tt,
  );
  distinct = (refl, tt);
  one_per_agent = λ a. ((λ h. refl), tt);
  one_per_contact = λ k. ((λ h. refl), tt);
}

stale-needs_repair : needs_repair stale_tables stale ≡ true
unfolding needs_repair
stale-needs_repair = refl

-- A call that ended by its state only.
abbrev half_ended : Call
half_ended = record over { contact_id = some 9; ended_at = none }

abbrev half_ended_tables : Db
half_ended_tables = record tables { calls = half_ended ∷ [] }

half_ended-needs_repair : needs_repair half_ended_tables half_ended ≡ true
unfolding needs_repair
half_ended-needs_repair = refl

repair_settles_the_call_example :
    (db : Db) × (repair_finalized_call_transaction 40 41 2 half_ended_tables ≡ some (db, true))
    × IsSettled 2 db
repair_settles_the_call_example =
    repair_settles_the_call 40 41 2 half_ended_tables (refl, tt) ((λ h. refl), tt) refl
      half_ended-needs_repair

repair_round_settles_every_call_example :
    (db : Db) × (repair_finalized_call_consistency 40 41 100 stale_tables
      ≡ some (db, length (candidates 100 stale_tables)))
    × RepairsEach 40 41 (candidates 100 stale_tables) stale_tables db
    × IsValid db
repair_round_settles_every_call_example =
    repair_round_settles_every_call 40 41 100 stale_tables stale_tables-IsValid

-- The stale call is the one candidate.
one_candidate : length (candidates 100 stale_tables) ≡ 1
unfolding needs_repair in_repair_order
one_candidate = refl
