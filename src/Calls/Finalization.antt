-- ===== src/Calls/Finalization.antt =====
-- apps/api/src/call-finalization.ts. A transaction is a function of the tables: a rollback gives
-- them back as they were, and `none` is an error that the database raised, which is thrown on
-- after the rollback. Row locks change nothing here, where transactions run one after another.
pub mod Decisions
pub mod Cleanup
pub mod Laws
use outbound_freeswitch_dial.Prelude.{
  ℕ, ◌-◌, ◌/◌, Bool, true, false, not, ◌&&◌, ◌||◌, Option, none, some, List, [], ◌∷◌, any, find,
  update_where, Text, leb, ◌==◌, if◌then◌else◌, is_none, is_some, coalesce,
}
use outbound_freeswitch_dial.Calls.Schema.{
  CallState, completed, failed, canceled, CallOutcome, CallOutcome.answered, customer_hung_up,
  voicemail_detected, voicemail_dropped, agent_canceled, not_answered, SignalStatus, Call, Leg,
  LegState, ended, Contact, ContactStatus, ContactStatus.new, calling, Agent, CallEvent, Db,
  is_terminal, is_id, is_calling, is_detected, has_id, find_call, insert_event, ◌>>=◌,
}
use outbound_freeswitch_dial.Calls.Progression.{update_calls}
use outbound_freeswitch_dial.Calls.Availability.{finish_agent_call}

pub record Decision : Type 0 where
  pub outcome : CallOutcome
  pub state : CallState

-- `CallFinalizationEvent`, without the call and the agent.
pub record EventInput : Type 0 where
  pub event_type : Text
  pub state : Text
  pub reason_code : Option Text
  pub freeswitch_event_name : Option Text
  pub freeswitch_event_uuid : Option Text
  pub api_command_name : Option Text
  pub agent_leg_uuid : Option Text
  pub customer_leg_uuid : Option Text
  pub raw : Text

pub record Terminal : Type 0 where
  pub event_at : Option ℕ
  pub event_name : Option Text
  pub source : Text

pub record FinalizeInput : Type 0 where
  pub call_id : ℕ
  pub event : Option EventInput
  pub persist_event_when_already_finalized : Bool
  pub resolve : Call → Option Decision
  pub terminal : Option Terminal

pub data Status : Type 0 where
  already_finalized finalized missing not_applicable : Status

pub record FinalizeResult : Type 0 where
  pub agent_id : Option ℕ
  pub contact_id : Option ℕ
  pub outcome : Option CallOutcome
  pub status : Status

pub record Owner : Type 0 where
  pub agent_id : Option ℕ
  pub found : Bool

-- With a user, the call must belong to an agent of that user.
abbrev pub owned_by : Option ℕ → List Agent → Call → Bool
owned_by none agents c = true
owned_by (some user) agents c =
    any (λ (a : Agent). is_id c.agent_id a.id && a.user_id == user) agents

abbrev pub owner_of : Option Call → Owner
owner_of none = record { agent_id = none; found = false }
owner_of (some c) = record { agent_id = c.agent_id; found = true }

unfoldable pub lock_call_owner_agent : ℕ → Option ℕ → Db → Owner
lock_call_owner_agent call_id user db =
    owner_of (find (λ (c : Call). has_id call_id c && owned_by user db.agents c) db.calls)

abbrev or_else {ℓ} : {A : Type ℓ} → Option A → A → A
or_else none d = d
or_else (some a) d = a

abbrev default_outcome : Call → CallState → CallOutcome
default_outcome c failed = CallOutcome.failed
default_outcome c canceled = agent_canceled
default_outcome c _ =
    if is_some c.answered_at
    then (if is_detected c.voicemail_signal_status then voicemail_detected else customer_hung_up)
    else not_answered

unfoldable pub decision_for_terminal_state_without_timestamp :
    Call → CallState → Option CallOutcome → Decision
decision_for_terminal_state_without_timestamp c state resolved = record {
  outcome = or_else c.outcome (or_else resolved (default_outcome c state));
  state = state;
}

abbrev pub is_failed : CallOutcome → Bool
is_failed CallOutcome.failed = true
is_failed _ = false

unfoldable pub decision_for_ended_non_terminal_call : Call → Decision
decision_for_ended_non_terminal_call c =
    let outcome = or_else c.outcome (
      if is_some c.answered_at
      then (if is_detected c.voicemail_signal_status then voicemail_detected else customer_hung_up)
      else CallOutcome.failed) in
    record { outcome = outcome; state = if is_failed outcome then failed else completed }

abbrev pub is_finalized : Call → Bool
is_finalized c = is_some c.ended_at && is_terminal c.state && is_some c.outcome

abbrev outcome_of : Option Decision → Option CallOutcome
outcome_of none = none
outcome_of (some d) = some d.outcome

-- The constant `decision`.
unfoldable pub decide : FinalizeInput → Call → Option Decision
unfolding decision_for_terminal_state_without_timestamp decision_for_ended_non_terminal_call
decide input c =
    if is_finalized c
    then none
    else if is_terminal c.state
    then some
        (decision_for_terminal_state_without_timestamp c c.state (outcome_of (input.resolve c)))
    else coalesce (input.resolve c)
        (if is_some c.ended_at then some (decision_for_ended_non_terminal_call c) else none)

unfoldable pub contact_status_for_call_outcome : Option CallOutcome → ContactStatus
contact_status_for_call_outcome (some CallOutcome.answered) = ContactStatus.completed
contact_status_for_call_outcome (some customer_hung_up) = ContactStatus.completed
contact_status_for_call_outcome (some voicemail_detected) = ContactStatus.completed
contact_status_for_call_outcome (some voicemail_dropped) = ContactStatus.completed
contact_status_for_call_outcome _ = ContactStatus.new

abbrev event_row : ℕ → Option ℕ → EventInput → CallEvent
event_row call_id agent_id e = record {
  call_id = call_id;
  agent_id = agent_id;
  event_type = e.event_type;
  state = e.state;
  reason_code = e.reason_code;
  freeswitch_event_name = e.freeswitch_event_name;
  freeswitch_event_uuid = e.freeswitch_event_uuid;
  api_command_name = e.api_command_name;
  agent_leg_uuid = e.agent_leg_uuid;
  customer_leg_uuid = e.customer_leg_uuid;
  raw_json = e.raw;
}

unfoldable pub insert_call_finalization_event : ℕ → Option ℕ → Option EventInput → Db → Db
insert_call_finalization_event call_id agent_id none db = db
insert_call_finalization_event call_id agent_id (some e) db =
    insert_event (event_row call_id agent_id e) db

-- The latency in milliseconds, where the event is not in the future and the value fits an integer.
abbrev pub latency : ℕ → Option ℕ → Option ℕ
latency clock none = none
latency clock (some at) =
    if leb at clock && leb ((clock - at) / 1000) 2147483647
    then some ((clock - at) / 1000)
    else none

-- The columns of the terminal evidence, which the first writer fills; `clock` is the stamp.
abbrev pub stamp_terminal : ℕ → Option ℕ → Option Text → Option Text → Call → Call
stamp_terminal clock event_at source event_name c = record c {
  freeswitch_terminal_at = coalesce c.freeswitch_terminal_at event_at;
  terminal_persisted_at = coalesce c.terminal_persisted_at (some clock);
  terminal_source = coalesce c.terminal_source source;
  terminal_event_name = coalesce c.terminal_event_name event_name;
  finalization_latency_ms = coalesce c.finalization_latency_ms (latency clock event_at);
  updated_at = clock;
}

abbrev terminal_at : Option Terminal → Option ℕ
terminal_at none = none
terminal_at (some t) = t.event_at

abbrev terminal_source : Option Terminal → Option Text
terminal_source none = none
terminal_source (some t) = some t.source

abbrev terminal_name : Option Terminal → Option Text
terminal_name none = none
terminal_name (some t) = t.event_name

abbrev pub close_call : ℕ → Option Terminal → Decision → Call → Call
close_call clock t d c =
    let stamped = stamp_terminal clock (terminal_at t) (terminal_source t) (terminal_name t) c in
    record stamped {
      state = d.state;
      outcome = coalesce c.outcome (some d.outcome);
      ended_at = coalesce c.ended_at (some clock);
    }

-- The update of the call, and the outcome that it returns.
unfoldable pub apply_decision :
    ℕ → FinalizeInput → Call → Option Decision → Db → Option (Db × Option CallOutcome)
apply_decision clock input c none db = some (db, c.outcome)
apply_decision clock input c (some d) db =
    update_calls (has_id input.call_id) (close_call clock input.terminal d) db >>= λ db'.
    some (db', coalesce (find_call input.call_id db' >>= λ r. r.outcome) (some d.outcome))

abbrev pub is_open_leg : Leg → Bool
is_open_leg l = (elim l.state [ ended ↦ false | _ ↦ true ]) || is_none l.ended_at

abbrev pub open_leg_of : ℕ → Leg → Bool
open_leg_of call_id l = l.call_id == call_id && is_open_leg l

abbrev pub end_leg : ℕ → Leg → Leg
end_leg now l = record l { state = ended; ended_at = coalesce l.ended_at (some now) }

unfoldable pub end_legs : ℕ → ℕ → Db → Db
end_legs now call_id db = record db {
  legs = update_where (open_leg_of call_id) (end_leg now) db.legs;
}

-- Another call of this contact that has not ended.
abbrev pub still_calls : ℕ → ℕ → Call → Bool
still_calls contact_id call_id c =
    is_id c.contact_id contact_id
    && not (c.id == call_id)
    && is_none c.ended_at
    && not (is_terminal c.state)

abbrev pub to_release : ℕ → ℕ → List Call → Contact → Bool
to_release contact_id call_id calls k =
    k.id == contact_id && is_calling k.status && not (any (still_calls contact_id call_id) calls)

abbrev pub set_status : ℕ → ContactStatus → Contact → Contact
set_status now status k = record k { status = status; updated_at = now }

unfoldable pub release_contact : ℕ → ℕ → Option CallOutcome → Option ℕ → Db → Db
release_contact now call_id outcome none db = db
release_contact now call_id outcome (some contact_id) db = record db {
  contacts =
      update_where (to_release contact_id call_id db.calls)
        (set_status now (contact_status_for_call_outcome outcome)) db.contacts;
}

unfoldable pub release_agent : ℕ → Option ℕ → Db → Db
release_agent now none db = db
release_agent now (some agent_id) db = finish_agent_call now agent_id db

-- `if (input.event && (!alreadyFinalized || input.persistEventWhenAlreadyFinalized))`.
unfoldable pub record_event : FinalizeInput → Call → Db → Db
record_event input c db =
    if not (is_finalized c) || input.persist_event_when_already_finalized
    then insert_call_finalization_event input.call_id c.agent_id input.event db
    else db

-- The legs, the contact and the agent, after the outcome is known.
unfoldable pub clean_up : ℕ → ℕ → Option CallOutcome → Option ℕ → Option ℕ → Db → Db
clean_up now call_id outcome contact_id agent_id db =
    release_agent now agent_id
      (release_contact now call_id outcome contact_id (end_legs now call_id db))

abbrev pub result_of : Call → Option Decision → Option CallOutcome → FinalizeResult
result_of c decision outcome = record {
  agent_id = c.agent_id;
  contact_id = c.contact_id;
  outcome = outcome;
  status = if is_some decision then finalized else already_finalized;
}

-- From the event insert to the commit.
unfoldable pub persist_finalization :
    ℕ → ℕ → FinalizeInput → Call → Db → Option (Db × FinalizeResult)
persist_finalization now clock input c db =
    apply_decision clock input c (decide input c) (record_event input c db) >>= λ done. some (
      clean_up now input.call_id done.1 c.contact_id c.agent_id done.0,
      result_of c (decide input c) done.1,
    )

abbrev result_missing : FinalizeResult
result_missing = record { agent_id = none; contact_id = none; outcome = none; status = missing }

-- From the selected row on.
unfoldable pub finalize_row :
    ℕ → ℕ → FinalizeInput → Option Call → Db → Option (Db × FinalizeResult)
finalize_row now clock input none db = some (db, result_missing)
finalize_row now clock input (some c) db =
    if not (is_finalized c) && is_none (decide input c)
    then some (
      db,
      record {
        agent_id = c.agent_id;
        contact_id = c.contact_id;
        outcome = c.outcome;
        status = not_applicable;
      },
    )
    else persist_finalization now clock input c db

unfoldable pub finalize_call_transaction : ℕ → ℕ → FinalizeInput → Db → Option (Db × FinalizeResult)
finalize_call_transaction now clock input db =
    if not (lock_call_owner_agent input.call_id none db).found
    then some (db, result_missing)
    else finalize_row now clock input (find_call input.call_id db) db
