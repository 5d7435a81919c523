-- ===== src/Calls/Drop.antt =====
-- apps/api/src/dashboard/calls.ts: `dropVoicemailForCall`, which an agent starts, and
-- `releaseAgentAfterVoicemailDropTransfer`. FreeSWITCH's answers come between the transactions, so
-- each transaction is an operation, and so is each way in which the commands end.
pub mod Claims
pub mod Rejected
use outbound_freeswitch_dial.Prelude.{
  ℕ, Bool, true, false, not, ◌&&◌, ◌||◌, Option, none, some, [], ◌∷◌, find, update_where, Text,
  codes, ◌==◌, if◌then◌else◌, is_none, is_some, coalesce,
}
use outbound_freeswitch_dial.Calls.Schema.{
  CallState, bridged, voicemail_signal_detected, voicemail_drop_requested,
  voicemail_playback_started, agent_released, voicemail_playback_completed, CallOutcome,
  voicemail_dropped, Call, Leg, agent, customer, Agent, Recording, CallEvent, Db, is_terminal,
  is_voicemail_drop_active, has_id, insert_lifecycle_event, ◌>>=◌,
}
use outbound_freeswitch_dial.Calls.Progression.{update_calls}
use outbound_freeswitch_dial.Calls.Finalization.{release_agent, end_leg}
use outbound_freeswitch_dial.Calls.Events.{open_in, leg_of}
use outbound_freeswitch_dial.Calls.Voicemail.{release_call}

-- `{ ok: true }`, or `{ ok: false, statusCode }`.
pub data DropReply : Type 0 where
  accepted : DropReply
  refused : ℕ → DropReply

pub record VoicemailDropCallRow : Type 0 where
  pub call : Call
  pub agent_leg_uuid : Option Text
  pub customer_leg_uuid : Option Text
  pub assigned : Option Recording
  pub selected : Option Recording

abbrev pub effective : VoicemailDropCallRow → Option Recording
effective r = coalesce r.selected r.assigned

abbrev active_recording : ℕ → Recording → Bool
active_recording n r = r.id == n && r.is_active

abbrev pub find_recording : Option ℕ → Db → Option Recording
find_recording none db = none
find_recording (some n) db = find (active_recording n) db.directory.recordings

abbrev pub leg_uuid : Option Leg → Option Text
leg_uuid none = none
leg_uuid (some l) = l.freeswitch_uuid

abbrev pub owned_by_user : ℕ → Option ℕ → Db → Bool
owned_by_user user none db = false
owned_by_user user (some a) db =
    is_some (find (λ (x : Agent). x.id == a && x.user_id == user) db.agents)

abbrev pub drop_row : ℕ → Option ℕ → Db → Call → VoicemailDropCallRow
drop_row call_id recording_id db c = record {
  call = c;
  agent_leg_uuid = leg_uuid (find (leg_of call_id agent) db.legs);
  customer_leg_uuid = leg_uuid (find (leg_of call_id customer) db.legs);
  assigned = find_recording c.dial.recording_id db;
  selected = find_recording recording_id db;
}

abbrev pub row_of : ℕ → ℕ → Option ℕ → Db → Option Call → Option VoicemailDropCallRow
row_of user call_id recording_id db none = none
row_of user call_id recording_id db (some c) =
    if owned_by_user user c.agent_id db then some (drop_row call_id recording_id db c) else none

unfoldable pub get_voicemail_drop_call : ℕ → ℕ → Option ℕ → Db → Option VoicemailDropCallRow
get_voicemail_drop_call user call_id recording_id db =
    row_of user call_id recording_id db (find (has_id call_id) db.calls)

abbrev pub is_dropped : Option CallOutcome → Bool
is_dropped (some voicemail_dropped) = true
is_dropped _ = false

abbrev pub is_drop_state : CallState → Bool
is_drop_state voicemail_drop_requested = true
is_drop_state voicemail_playback_started = true
is_drop_state agent_released = true
is_drop_state voicemail_playback_completed = true
is_drop_state _ = false

unfoldable pub is_voicemail_drop_in_progress_or_completed : Call → Bool
is_voicemail_drop_in_progress_or_completed c = is_dropped c.outcome || is_drop_state c.state

-- `state in ('bridged', 'voicemail_signal_detected')`.
abbrev pub may_drop : CallState → Bool
may_drop bridged = true
may_drop voicemail_signal_detected = true
may_drop _ = false

-- `!value`, of an optional text.
abbrev pub is_absent : Option Text → Bool
is_absent none = true
is_absent (some []) = true
is_absent (some (c ∷ t)) = false

abbrev has_path : Option Recording → Bool
has_path none = false
has_path (some r) = not (is_absent (some r.runtime_file_path))

-- The answers before the transaction; `none` goes on to it.
abbrev initial_answer_for : Option ℕ → VoicemailDropCallRow → Option DropReply
initial_answer_for recording_id r =
    if is_voicemail_drop_in_progress_or_completed r.call
    then some accepted
    else if is_some r.call.ended_at || is_terminal r.call.state
    then some (refused 404)
    else if is_some recording_id && is_none r.selected
    then some (refused 409)
    else if is_absent r.customer_leg_uuid
    then some (refused 409)
    else if not (may_drop r.call.state)
    then some (refused 409)
    else if not (has_path (effective r))
    then some (refused 409)
    else none

abbrev pub answer_for : Option ℕ → Option VoicemailDropCallRow → Option DropReply
answer_for recording_id none = some (refused 404)
answer_for recording_id (some r) = initial_answer_for recording_id r

unfoldable pub initial_answer : ℕ → ℕ → Option ℕ → Db → Option DropReply
unfolding get_voicemail_drop_call is_voicemail_drop_in_progress_or_completed
initial_answer user call_id recording_id db =
    answer_for recording_id (get_voicemail_drop_call user call_id recording_id db)

-- How the transaction ends: rolled back with an answer, or committed for the commands.
pub data Claim : Type 0 where
  answered_with : DropReply → Claim
  claimed : VoicemailDropCallRow → Recording → Db → Claim

abbrev pub request_drop : ℕ → ℕ → Call → Call
request_drop now recording_id c = record c {
  state = voicemail_drop_requested;
  dial = record c.dial { recording_id = some recording_id };
  voicemail_drop_requested_at = coalesce c.voicemail_drop_requested_at (some now);
  updated_at = now;
}

abbrev pub drop_event : ℕ → VoicemailDropCallRow → Text → Text → Text → Text → CallEvent
drop_event call_id r event_type state command raw = record {
  call_id = call_id;
  agent_id = r.call.agent_id;
  event_type = event_type;
  state = state;
  reason_code = none;
  freeswitch_event_name = none;
  freeswitch_event_uuid = none;
  api_command_name = some command;
  agent_leg_uuid = r.agent_leg_uuid;
  customer_leg_uuid = r.customer_leg_uuid;
  raw_json = raw;
}

abbrev pub requested_event : ℕ → Text → VoicemailDropCallRow → CallEvent
requested_event call_id raw r =
    let t = codes "voicemail_drop_requested" in drop_event call_id r t t (codes "uuid_transfer") raw

abbrev pub request_on : ℕ → ℕ → Text → VoicemailDropCallRow → Recording → Db → Option Claim
request_on now call_id raw r rec db =
    if is_none (find (open_in may_drop call_id) db.calls)
    then some (answered_with accepted)
    else update_calls (open_in may_drop call_id) (request_drop now rec.id) db >>= λ db'.
        some (claimed r rec (insert_lifecycle_event (requested_event call_id raw r) db'))

-- `select ... from recordings where id = $1 and is_active = true for key share`.
abbrev pub with_recording :
    ℕ → ℕ → Text → VoicemailDropCallRow → Db → Option Recording → Option Claim
with_recording now call_id raw r db none = some (answered_with (refused 409))
with_recording now call_id raw r db (some rec) = request_on now call_id raw r rec db

abbrev pub with_effective :
    ℕ → ℕ → Text → VoicemailDropCallRow → Db → Option Recording → Option Claim
with_effective now call_id raw r db none = some (answered_with (refused 409))
with_effective now call_id raw r db (some rec) =
    with_recording now call_id raw r db (find_recording (some rec.id) db)

abbrev pub is_unavailable : Option ℕ → VoicemailDropCallRow → Bool
is_unavailable recording_id r =
    is_some r.call.ended_at
    || not (may_drop r.call.state)
    || is_absent r.customer_leg_uuid
    || not (has_path (effective r))
    || (is_some recording_id && is_none r.selected)

abbrev pub claim_row : ℕ → ℕ → Option ℕ → Text → Db → Option VoicemailDropCallRow → Option Claim
claim_row now call_id recording_id raw db none = some (answered_with (refused 404))
claim_row now call_id recording_id raw db (some r) =
    if is_voicemail_drop_in_progress_or_completed r.call
    then some (answered_with accepted)
    else if is_unavailable recording_id r
    then some (answered_with (refused 409))
    else with_effective now call_id raw r db (effective r)

-- The transaction of `dropVoicemailForCall`.
unfoldable pub claim_drop : ℕ → ℕ → ℕ → Option ℕ → Text → Db → Option Claim
unfolding get_voicemail_drop_call is_voicemail_drop_in_progress_or_completed update_calls
    insert_lifecycle_event
claim_drop now user call_id recording_id raw db =
    claim_row now call_id recording_id raw db (get_voicemail_drop_call user call_id recording_id db)

abbrev pub is_drop_requested : CallState → Bool
is_drop_requested voicemail_drop_requested = true
is_drop_requested _ = false

abbrev pub give_back : ℕ → CallState → Call → Call
give_back now s c = record c { state = s; voicemail_drop_requested_at = none; updated_at = now }

-- A command that FreeSWITCH answers with `-ERR` gives the state back; an error that leaves open
-- whether it was done only adds the event, whose type is under no unique index.
unfoldable pub drop_commands_fail :
    ℕ → ℕ → Bool → Text → Text → VoicemailDropCallRow → Db → Option Db
unfolding update_calls insert_lifecycle_event
drop_commands_fail now call_id rejected state_name raw r db =
    let failed =
      drop_event call_id r (codes "voicemail_drop_failed") state_name (codes "uuid_transfer") raw in
    (if rejected
      then update_calls (open_in is_drop_requested call_id) (give_back now r.call.state) db
      else some db)
    >>= λ db'. some (insert_lifecycle_event failed db')

abbrev pub release_event : ℕ → Text → VoicemailDropCallRow → CallEvent
release_event call_id raw r =
    let t = codes "agent_released" in drop_event call_id r t t (codes "uuid_kill") raw

-- `releaseAgentAfterVoicemailDropTransfer`, once `uuid_kill` of the agent's leg was answered.
-- Without a confirmation it only adds an event. The statements commit one by one; here nothing
-- comes between them.
unfoldable pub release_agent_after_transfer :
    ℕ → ℕ → Bool → Text → VoicemailDropCallRow → Db → Option Db
unfolding update_calls insert_lifecycle_event release_agent
release_agent_after_transfer now call_id confirmed raw r db =
    let unconfirmed =
      drop_event call_id r (codes "agent_release_failed") (codes "voicemail_drop_requested")
        (codes "uuid_kill") raw in
    if not confirmed
    then some (insert_lifecycle_event unconfirmed db)
    else let told = insert_lifecycle_event (release_event call_id raw r) db in
      update_calls (open_in is_voicemail_drop_active call_id) (release_call now) told >>= λ db'.
      some (
        release_agent now r.call.agent_id
          (record db' { legs = update_where (leg_of call_id agent) (end_leg now) db'.legs }))
