-- ===== src/Calls/Voicemail.antt =====
-- apps/api/src/esl-events.ts: the start and the end of the playback of a voicemail, to its end or
-- not, and the release of the agent while the message plays. Each is one step over the tables.
use outbound_freeswitch_dial.Prelude.{
  ℕ, Bool, true, false, not, ◌&&◌, ◌||◌, Option, none, some, find, update_where, Text, codes, ◌==◌,
  if◌then◌else◌, is_none, coalesce,
}
use outbound_freeswitch_dial.Calls.Schema.{
  CallState, agent_released, voicemail_drop_requested, voicemail_playback_started, completed,
  failed, CallOutcome, voicemail_dropped, customer_hung_up, Call, Leg, agent, Contact,
  ContactStatus, CallEvent, Db, is_calling, is_voicemail_drop_active, has_id, find_call,
  insert_lifecycle_event, ◌>>=◌,
}
use outbound_freeswitch_dial.Calls.Progression.{update_calls}
use outbound_freeswitch_dial.Calls.Finalization.{
  Terminal, lock_call_owner_agent, stamp_terminal, release_agent, end_leg, set_status,
}
use outbound_freeswitch_dial.Calls.Events.{
  HangupCause, normal_clearing, originator_cancel, open_in, leg_of,
}

abbrev pub custom_event : ℕ → Option ℕ → Text → Text → Option Text → Option Text → Text → CallEvent
custom_event call_id agent_id event_type state agent_leg customer_leg raw = record {
  call_id = call_id;
  agent_id = agent_id;
  event_type = event_type;
  state = state;
  reason_code = none;
  freeswitch_event_name = some (codes "CUSTOM");
  freeswitch_event_uuid = none;
  api_command_name = none;
  agent_leg_uuid = agent_leg;
  customer_leg_uuid = customer_leg;
  raw_json = raw;
}

-- `update call_legs set state = 'ended' ... where call_id = $1`.
abbrev pub end_all_legs : ℕ → ℕ → Db → Db
end_all_legs now n db = record db {
  legs = update_where (λ (l : Leg). l.call_id == n) (end_leg now) db.legs;
}

abbrev calling_contact : ℕ → Contact → Bool
calling_contact k c = c.id == k && is_calling c.status

abbrev pub settle_contact : ℕ → ContactStatus → Option ℕ → Db → Db
settle_contact now s none db = db
settle_contact now s (some k) db = record db {
  contacts = update_where (calling_contact k) (set_status now s) db.contacts;
}

abbrev pub complete_call : ℕ → Option ℕ → Option Text → Text → Call → Call
complete_call clock event_at event_name source c =
    let stamped = stamp_terminal clock event_at (some source) event_name c in
    record stamped {
      state = completed;
      outcome = some voicemail_dropped;
      voicemail_playback_completed_at = coalesce c.voicemail_playback_completed_at (some clock);
      ended_at = some clock;
    }

-- `voicemail_playback_completed`, for the row that the update returned.
unfoldable pub after_completed : ℕ → Text → Option Text → Call → Db → Db
after_completed now raw leg c db =
    let e = codes "voicemail_playback_completed" in
    let told = insert_lifecycle_event (custom_event c.id c.agent_id e e none leg raw) db in
    let freed =
      settle_contact now ContactStatus.completed c.contact_id (end_all_legs now c.id told) in
    if is_none c.agent_released_at then release_agent now c.agent_id freed else freed

unfoldable pub finalize_completed_voicemail_playback :
    ℕ → ℕ → ℕ → Option Text → Text → Option ℕ → Option Text → Text → Db → Option Db
finalize_completed_voicemail_playback now clock call_id leg raw event_at event_name source db =
    if not (lock_call_owner_agent call_id none db).found
    then some db
    else elim (find (open_in is_voicemail_drop_active call_id) db.calls) [
      | none ↦ some db
      | some old ↦
          update_calls (open_in is_voicemail_drop_active call_id)
            (complete_call clock event_at event_name source) db
          >>= λ db'. (find_call call_id db' >>= λ c. some (after_completed now raw leg c db'))
    ]

abbrev pub is_normal_hangup : HangupCause → Bool
is_normal_hangup normal_clearing = true
is_normal_hangup originator_cancel = true
is_normal_hangup _ = false

pub record IncompleteInput : Type 0 where
  pub agent_released : Bool
  pub call_id : ℕ
  pub contact_id : Option ℕ
  pub customer_leg_uuid : Option Text
  pub force_failed : Bool
  pub hangup_cause : HangupCause
  pub raw : Text
  pub terminal : Terminal

abbrev pub playback_failed : IncompleteInput → Bool
playback_failed i = i.force_failed || not (is_normal_hangup i.hangup_cause)

abbrev pub abort_call : ℕ → IncompleteInput → Call → Call
abort_call clock i c =
    let stamped =
      stamp_terminal clock i.terminal.event_at (some i.terminal.source) i.terminal.event_name c in
    record stamped {
      state = if playback_failed i then failed else completed;
      outcome = some (if playback_failed i then CallOutcome.failed else customer_hung_up);
      ended_at = some clock;
    }

unfoldable pub after_incomplete : ℕ → IncompleteInput → Option ℕ → Db → Db
after_incomplete now i owner db =
    let e =
      if playback_failed i
      then codes "voicemail_playback_failed"
      else codes "voicemail_playback_interrupted" in
    let told =
      insert_lifecycle_event (custom_event i.call_id owner e e none i.customer_leg_uuid i.raw) db in
    let freed =
      settle_contact now ContactStatus.new i.contact_id (end_all_legs now i.call_id told) in
    if not i.agent_released then release_agent now owner freed else freed

unfoldable pub finalize_incomplete_voicemail_playback : ℕ → ℕ → IncompleteInput → Db → Option Db
finalize_incomplete_voicemail_playback now clock i db =
    let owner = lock_call_owner_agent i.call_id none db in
    if not owner.found
    then some db
    else if is_none (find (open_in is_voicemail_drop_active i.call_id) db.calls)
    then some db
    else update_calls (open_in is_voicemail_drop_active i.call_id) (abort_call clock i) db
      >>= λ db'. some (after_incomplete now i owner.agent_id db')

abbrev pub release_call : ℕ → Call → Call
release_call now c = record c {
  state = agent_released;
  agent_released_at = coalesce c.agent_released_at (some now);
  updated_at = now;
}

-- The transaction of `releaseAgentAfterVoicemailPlaybackStarts`, once the release is confirmed.
unfoldable pub release_agent_after_playback_starts :
    ℕ → ℕ → Option Text → Option Text → Text → Db → Option Db
release_agent_after_playback_starts now call_id agent_leg customer_leg raw db =
    let owner = lock_call_owner_agent call_id none db in
    if not owner.found
    then some db
    else if is_none (find (open_in is_voicemail_drop_active call_id) db.calls)
    then some db
    else let e = codes "agent_released" in
      let row = custom_event call_id owner.agent_id e e agent_leg customer_leg raw in
      let told =
        insert_lifecycle_event
          (record row { freeswitch_event_name = none; api_command_name = some (codes "uuid_kill") })
          db in
      update_calls (has_id call_id) (release_call now) told >>= λ db'. some (
        release_agent now owner.agent_id
          (record db' { legs = update_where (leg_of call_id agent) (end_leg now) db'.legs }))

-- `state in ('voicemail_drop_requested', 'voicemail_playback_started')`.
abbrev pub may_start_playback : CallState → Bool
may_start_playback voicemail_drop_requested = true
may_start_playback voicemail_playback_started = true
may_start_playback _ = false

abbrev pub start_playback : ℕ → Call → Call
start_playback now c = record c {
  state = voicemail_playback_started;
  voicemail_playback_started_at = coalesce c.voicemail_playback_started_at (some now);
  updated_at = now;
}

unfoldable pub start_playback_of :
    ℕ → ℕ → Option Text → Option Text → Text → Option Call → Db → Option Db
start_playback_of now call_id agent_leg customer_leg raw none db = some db
start_playback_of now call_id agent_leg customer_leg raw (some c) db =
    let e = codes "voicemail_playback_started" in
    update_calls (open_in may_start_playback call_id) (start_playback now)
      (insert_lifecycle_event (custom_event call_id c.agent_id e e agent_leg customer_leg raw) db)

-- What a playback that starts writes before the agent is released. The two statements commit one by
-- one; here nothing comes between them.
unfoldable pub record_playback_started : ℕ → ℕ → Option Text → Option Text → Text → Db → Option Db
record_playback_started now call_id agent_leg customer_leg raw db =
    start_playback_of now call_id agent_leg customer_leg raw
      (find (open_in is_voicemail_drop_active call_id) db.calls) db
