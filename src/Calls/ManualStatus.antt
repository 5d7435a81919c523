-- ===== src/Calls/ManualStatus.antt =====
-- apps/api/src/dashboard/manual-call-status.ts: the one correction that an agent may make to the
-- result of an ended call, and apps/api/src/dashboard/calls.ts: the end of a call by its agent.
pub mod Repeat
use outbound_freeswitch_dial.Prelude.{
  ℕ, Bool, true, false, not, ◌&&◌, ◌||◌, Option, none, some, List, [], ◌∷◌, find, any, update_where,
  Text, codes, ◌==◌, if◌then◌else◌, is_none, is_some, coalesce,
}
use outbound_freeswitch_dial.Calls.Schema.{
  CallState, bridged, voicemail_signal_detected, agent_released, completed, failed, canceled,
  CallOutcome, answered, not_answered, busy, voicemail_detected, voicemail_dropped, agent_canceled,
  customer_hung_up, suppressed, Call, Leg, Contact, ContactStatus, Agent, CallEvent, Db,
  is_terminal, is_agent_released, has_id, find_call, insert_event, ◌>>=◌,
}
use outbound_freeswitch_dial.Calls.Progression.{update_calls, same_state}
use outbound_freeswitch_dial.Calls.Availability.{finish_agent_call}
use outbound_freeswitch_dial.Calls.Finalization.{
  lock_call_owner_agent, owned_by, end_legs, set_status, release_agent,
}
use outbound_freeswitch_dial.Calls.Events.{open_in}
use outbound_freeswitch_dial.Calls.Voicemail.{settle_contact}

unfoldable pub terminal_state_for_outcome : CallOutcome → CallState
terminal_state_for_outcome CallOutcome.failed = failed
terminal_state_for_outcome agent_canceled = canceled
terminal_state_for_outcome suppressed = canceled
terminal_state_for_outcome _ = completed

abbrev same_outcome : CallOutcome → CallOutcome → Bool
same_outcome answered answered = true
same_outcome not_answered not_answered = true
same_outcome busy busy = true
same_outcome CallOutcome.failed CallOutcome.failed = true
same_outcome voicemail_detected voicemail_detected = true
same_outcome voicemail_dropped voicemail_dropped = true
same_outcome agent_canceled agent_canceled = true
same_outcome customer_hung_up customer_hung_up = true
same_outcome suppressed suppressed = true
same_outcome _ _ = false

abbrev has_outcome : CallOutcome → Option CallOutcome → Bool
has_outcome o none = false
has_outcome o (some p) = same_outcome p o

pub record ManualResponse : Type 0 where
  pub call_id : ℕ
  pub state : CallState
  pub outcome : Option CallOutcome
  pub manual_status_locked_at : Option ℕ

pub data ManualResult : Type 0 where
  updated : ManualResponse → ManualResult
  already_set : ManualResponse → ManualResult
  active locked missing : ManualResult

abbrev response_of : ℕ → Call → ManualResponse
response_of call_id c = record {
  call_id = call_id;
  state = c.state;
  outcome = c.outcome;
  manual_status_locked_at = c.manual_status_locked_at;
}

abbrev pub lock_status : ℕ → ℕ → CallOutcome → Call → Call
lock_status clock user outcome c = record c {
  state = terminal_state_for_outcome outcome;
  outcome = some outcome;
  manual_status_locked_at = some clock;
  manual_status_locked_by_user_id = some user;
  updated_at = clock;
}

abbrev manual_event : ℕ → Option ℕ → CallState → Text → Text → CallEvent
manual_event call_id agent_id state state_text raw = record {
  call_id = call_id;
  agent_id = agent_id;
  event_type = codes "manual_status_set";
  state = state_text;
  reason_code = none;
  freeswitch_event_name = none;
  freeswitch_event_uuid = none;
  api_command_name = none;
  agent_leg_uuid = none;
  customer_leg_uuid = none;
  raw_json = raw;
}

-- The name of a terminal state, as the event row holds it.
abbrev terminal_name : CallState → Text
terminal_name failed = codes "failed"
terminal_name canceled = codes "canceled"
terminal_name _ = codes "completed"

-- The locked result agrees with the one that is asked for.
abbrev pub agrees : CallOutcome → Call → Bool
agrees outcome c =
    has_outcome outcome c.outcome
    && is_terminal c.state
    && same_state c.state (terminal_state_for_outcome outcome)

-- The update, the event and the commit; a missing row after the update is an error that is thrown.
unfoldable pub write_status :
    ℕ → ℕ → Option ℕ → ℕ → CallOutcome → Text → Db → Option (Db × ManualResult)
write_status clock call_id agent_id user outcome raw db =
    let state = terminal_state_for_outcome outcome in
    update_calls (has_id call_id) (lock_status clock user outcome) db >>= λ db'.
    (find_call call_id db' >>= λ c. some (
      insert_event (manual_event call_id agent_id state (terminal_name state) raw) db',
      updated (response_of call_id c),
    ))

-- From the locked row on.
unfoldable pub set_status_of_row :
    ℕ → ℕ → Option ℕ → ℕ → CallOutcome → Text → Option Call → Db → Option (Db × ManualResult)
set_status_of_row clock call_id agent_id user outcome raw none db = some (db, missing)
set_status_of_row clock call_id agent_id user outcome raw (some c) db =
    if is_some c.manual_status_locked_at
    then some (db, if agrees outcome c then already_set (response_of call_id c) else locked)
    else if is_none c.ended_at || not (is_terminal c.state)
    then some (db, active)
    else write_status clock call_id agent_id user outcome raw db

unfoldable pub set_manual_call_status :
    ℕ → ℕ → ℕ → CallOutcome → Text → Db → Option (Db × ManualResult)
set_manual_call_status clock call_id user outcome raw db =
    let owner = lock_call_owner_agent call_id (some user) db in
    if not owner.found
    then some (db, missing)
    else set_status_of_row clock call_id owner.agent_id user outcome raw (find_call call_id db) db

unfoldable pub infer_agent_end_outcome : CallState → CallOutcome
infer_agent_end_outcome bridged = answered
infer_agent_end_outcome voicemail_signal_detected = answered
infer_agent_end_outcome _ = agent_canceled

abbrev is_canceled : CallOutcome → Bool
is_canceled agent_canceled = true
is_canceled _ = false

abbrev pub ended_by_agent : ℕ → CallOutcome → Call → Call
ended_by_agent clock outcome c = record c {
  state = completed;
  outcome = some outcome;
  ended_at = some clock;
  terminal_persisted_at = some clock;
  terminal_source = some (codes "agent_api");
  updated_at = clock;
}

abbrev pub may_end : CallState → Bool
may_end s = not (is_terminal s || is_agent_released s)

abbrev ended_event : Call → Text → CallEvent
ended_event c raw = record {
  call_id = c.id;
  agent_id = c.agent_id;
  event_type = codes "call_ended";
  state = codes "completed";
  reason_code = none;
  freeswitch_event_name = none;
  freeswitch_event_uuid = none;
  api_command_name = none;
  agent_leg_uuid = none;
  customer_leg_uuid = none;
  raw_json = raw;
}

-- The writes of `endDialerCall` up to its commit, for the row that was selected. The commands that
-- kill the two legs follow the commit and write events only.
unfoldable pub end_row : ℕ → ℕ → ℕ → Text → Call → Db → Option Db
end_row now clock call_id raw c db =
    let outcome = infer_agent_end_outcome c.state in
    update_calls (has_id call_id) (ended_by_agent clock outcome) db >>= λ db'.
    let told = insert_event (ended_event c raw) db' in
    let status = if is_canceled outcome then ContactStatus.new else ContactStatus.completed in
    some (
      release_agent now c.agent_id
        (settle_contact now status c.contact_id (end_legs now call_id told)))

unfoldable pub end_dialer_call : ℕ → ℕ → ℕ → ℕ → Text → Db → Option (Db × Bool)
end_dialer_call now clock user call_id raw db =
    if not (lock_call_owner_agent call_id (some user) db).found
    then some (db, false)
    else elim (find (λ (c : Call). open_in may_end call_id c && owned_by (some user) db.agents c)
        db.calls) [
          | none ↦ some (db, false)
          | some c ↦ end_row now clock call_id raw c db >>= λ db'. some (db', true)
        ]
