-- ===== src/Calls/Events.antt =====
-- apps/api/src/esl-events.ts: how a FreeSWITCH event that is tagged with a call moves the call and
-- its legs (`persistGenericFreeSwitchEventState`, `persistTaggedFreeSwitchCallEvent`), and the
-- classification of events and hangup causes that it rests on.
pub mod Order
pub mod Replay
use outbound_freeswitch_dial.Prelude.{
  ℕ, ◌≡◌, ◌∙◌, arith, filter, Bool, true, false, not, ◌&&◌, ◌||◌, Option, none, some, List, [], ◌∷◌,
  any, find, update_where, Text, text_eq, codes, to_upper_case, ◌==◌, if◌then◌else◌, is_none,
  is_some, coalesce,
}
use outbound_freeswitch_dial.Calls.Schema.{
  CallState, created, agent_ringing, agent_answered, customer_dialing, customer_ringing, bridged,
  voicemail_signal_detected, agent_released, completed, failed, canceled, CallOutcome, busy,
  customer_hung_up, not_answered, voicemail_detected, Call, Leg, LegType, agent, customer, LegState,
  started, ended, CallEvent, Db, is_terminal, is_detected, is_id, has_id, find_call, insert_event,
  same_uuid, ◌>>=◌, bind-eq-some,
}
use outbound_freeswitch_dial.Calls.Progression.{update_calls}
use outbound_freeswitch_dial.Calls.Finalization.{FinalizeInput, Decision, EventInput, is_failed}

-- The event names that the handlers test for; `event_name` reads one off a header.
pub data EventName : Type 0 where
  channel_create channel_progress channel_progress_media channel_answer channel_bridge : EventName
  channel_hangup channel_hangup_complete channel_destroy other_event : EventName

unfoldable pub event_name : Text → EventName
unfolding text_eq
event_name t =
    if text_eq t (codes "CHANNEL_CREATE")
    then channel_create
    else if text_eq t (codes "CHANNEL_PROGRESS")
    then channel_progress
    else if text_eq t (codes "CHANNEL_PROGRESS_MEDIA")
    then channel_progress_media
    else if text_eq t (codes "CHANNEL_ANSWER")
    then channel_answer
    else if text_eq t (codes "CHANNEL_BRIDGE")
    then channel_bridge
    else if text_eq t (codes "CHANNEL_HANGUP")
    then channel_hangup
    else if text_eq t (codes "CHANNEL_HANGUP_COMPLETE")
    then channel_hangup_complete
    else if text_eq t (codes "CHANNEL_DESTROY")
    then channel_destroy
    else other_event

abbrev pub is_terminal_event : EventName → Bool
is_terminal_event channel_hangup = true
is_terminal_event channel_hangup_complete = true
is_terminal_event channel_destroy = true
is_terminal_event _ = false

abbrev pub is_create : EventName → Bool
is_create channel_create = true
is_create _ = false

abbrev pub is_progress : EventName → Bool
is_progress channel_progress = true
is_progress _ = false

abbrev pub is_answer : EventName → Bool
is_answer channel_answer = true
is_answer _ = false

abbrev pub is_bridge : EventName → Bool
is_bridge channel_bridge = true
is_bridge _ = false

abbrev pub is_agent : LegType → Bool
is_agent agent = true
is_agent customer = false

-- The hangup causes that the handlers test for, after `toUpperCase`; an absent header is `""`.
pub data HangupCause : Type 0 where
  normal_clearing originator_cancel user_busy no_answer no_user_response call_rejected : HangupCause
  other_cause : HangupCause

unfoldable pub hangup_cause : Option Text → HangupCause
unfolding text_eq to_upper_case
hangup_cause none = other_cause
hangup_cause (some header) =
    let t = to_upper_case header in
    if text_eq t (codes "NORMAL_CLEARING")
    then normal_clearing
    else if text_eq t (codes "ORIGINATOR_CANCEL")
    then originator_cancel
    else if text_eq t (codes "USER_BUSY")
    then user_busy
    else if text_eq t (codes "NO_ANSWER")
    then no_answer
    else if text_eq t (codes "NO_USER_RESPONSE")
    then no_user_response
    else if text_eq t (codes "CALL_REJECTED")
    then call_rejected
    else other_cause

unfoldable pub map_hangup_cause_to_outcome : HangupCause → CallOutcome
map_hangup_cause_to_outcome normal_clearing = customer_hung_up
map_hangup_cause_to_outcome originator_cancel = customer_hung_up
map_hangup_cause_to_outcome user_busy = busy
map_hangup_cause_to_outcome no_answer = not_answered
map_hangup_cause_to_outcome no_user_response = not_answered
map_hangup_cause_to_outcome call_rejected = not_answered
map_hangup_cause_to_outcome other_cause = CallOutcome.failed

abbrev unanswered_outcome : HangupCause → CallOutcome
unanswered_outcome user_busy = busy
unanswered_outcome no_answer = not_answered
unanswered_outcome no_user_response = not_answered
unanswered_outcome call_rejected = not_answered
unanswered_outcome originator_cancel = not_answered
unanswered_outcome _ = CallOutcome.failed

unfoldable pub resolve_customer_hangup_outcome : Bool → HangupCause → Bool → CallOutcome
resolve_customer_hangup_outcome answered cause voicemail =
    if answered
    then (if voicemail then voicemail_detected else customer_hung_up)
    else unanswered_outcome cause

unfoldable pub map_event_to_call_state : EventName → HangupCause → LegType → CallState
unfolding map_hangup_cause_to_outcome
map_event_to_call_state e cause leg =
    if is_answer e && is_agent leg
    then agent_answered
    else if (is_answer e && not (is_agent leg)) || is_bridge e
    then bridged
    else if is_progress e && not (is_agent leg)
    then customer_ringing
    else if is_terminal_event e
    then (if is_agent leg
        then agent_released
        else if is_failed (map_hangup_cause_to_outcome cause)
        then failed
        else completed)
    else customer_dialing

unfoldable pub map_event_to_leg_state : EventName → LegState
map_event_to_leg_state e =
    if is_answer e || is_bridge e
    then LegState.answered
    else if is_terminal_event e
    then ended
    else started

-- `TaggedFreeSwitchCallEventInput`; `row` holds the columns of the event that is inserted.
pub record TaggedEvent : Type 0 where
  pub call_id : ℕ
  pub name : EventName
  pub leg_type : LegType
  pub leg_uuid : Option Text
  pub event_name : Text
  pub event_type : Text
  pub event_uuid : Option Text
  pub state : Text
  pub raw : Text

-- The row that the event is stored as; the agent is that of the call.
abbrev pub tagged_row : TaggedEvent → Option Call → CallEvent
tagged_row e call = record {
  call_id = e.call_id;
  agent_id = call >>= λ (c : Call). c.agent_id;
  event_type = e.event_type;
  state = e.state;
  reason_code = none;
  freeswitch_event_name = some e.event_name;
  freeswitch_event_uuid = e.event_uuid;
  api_command_name = none;
  agent_leg_uuid = if is_agent e.leg_type then e.leg_uuid else none;
  customer_leg_uuid = if is_agent e.leg_type then none else e.leg_uuid;
  raw_json = e.raw;
}

-- The foreign key from an event to its call; a row that `on conflict` skips is not tested.
abbrev pub misses_call : TaggedEvent → Db → Bool
misses_call e db = is_none (find_call e.call_id db) && not (any (same_uuid e.event_uuid) db.events)

unfoldable pub persist_tagged_event : TaggedEvent → Db → Option Db
persist_tagged_event e db =
    if misses_call e db
    then none
    else some (insert_event (tagged_row e (find_call e.call_id db)) db)

abbrev same_leg : LegType → LegType → Bool
same_leg agent agent = true
same_leg customer customer = true
same_leg _ _ = false

-- The `case` on the leg's state and the event's: the later of the two.
abbrev pub merge_leg_state : LegState → LegState → LegState
merge_leg_state ended s = ended
merge_leg_state s ended = ended
merge_leg_state LegState.answered s = LegState.answered
merge_leg_state s LegState.answered = LegState.answered
merge_leg_state started s = started
merge_leg_state s started = started
merge_leg_state LegState.created LegState.created = LegState.created

abbrev pub move_leg : ℕ → TaggedEvent → Text → Leg → Leg
move_leg now e uuid l = record l {
  freeswitch_uuid = coalesce l.freeswitch_uuid (some uuid);
  state = merge_leg_state l.state (map_event_to_leg_state e.name);
  answered_at = if is_answer e.name then coalesce l.answered_at (some now) else l.answered_at;
  ended_at = if is_terminal_event e.name then coalesce l.ended_at (some now) else l.ended_at;
}

abbrev pub leg_of : ℕ → LegType → Leg → Bool
leg_of call_id t l = l.call_id == call_id && same_leg l.type t

abbrev has_uuid : Text → Leg → Bool
has_uuid uuid l = elim l.freeswitch_uuid [ none ↦ false | some v ↦ text_eq uuid v ]

-- `call_legs_freeswitch_uuid_unique_idx`: a leg would get a uuid that another has already, or two
-- would get it.
abbrev clashes : Text → List Leg → List Leg → Bool
clashes uuid [] ls = false
clashes uuid (l ∷ []) ls = any (has_uuid uuid) ls
clashes uuid (l ∷ m ∷ ms) ls = true

abbrev pub repeats_uuid : TaggedEvent → Option Text → List Leg → Bool
repeats_uuid e none ls = false
repeats_uuid e (some uuid) ls =
    clashes uuid (filter (λ l. leg_of e.call_id e.leg_type l && is_none l.freeswitch_uuid) ls) ls

unfoldable pub update_leg : ℕ → TaggedEvent → Option Text → Db → Option Db
unfolding map_event_to_leg_state text_eq
update_leg now e none db = some db
update_leg now e (some uuid) db =
    if repeats_uuid e (some uuid) db.legs
    then none
    else some (record db {
      legs = update_where (leg_of e.call_id e.leg_type) (move_leg now e uuid) db.legs;
    })

abbrev pub before_dialing : CallState → Bool
before_dialing created = true
before_dialing agent_ringing = true
before_dialing agent_answered = true
before_dialing customer_dialing = true
before_dialing _ = false

abbrev pub before_ringing : CallState → Bool
before_ringing customer_ringing = true
before_ringing s = before_dialing s

abbrev pub before_agent_answers : CallState → Bool
before_agent_answers created = true
before_agent_answers agent_ringing = true
before_agent_answers agent_answered = true
before_agent_answers _ = false

abbrev before_bridge : CallState → Bool
before_bridge bridged = true
before_bridge s = before_ringing s

-- `where id = $1 and ended_at is null and state in (...)`.
abbrev pub open_in : (CallState → Bool) → ℕ → Call → Bool
open_in p n c = has_id n c && is_none c.ended_at && p c.state

abbrev pub not_terminal : CallState → Bool
not_terminal s = not (is_terminal s)

abbrev pub move_to : ℕ → CallState → Call → Call
move_to now s c = record c { state = s; updated_at = now }

abbrev pub bridge : ℕ → Call → Call
bridge now c = record c {
  state = if before_bridge c.state then bridged else c.state;
  answered_at = coalesce c.answered_at (some now);
  updated_at = now;
}

-- The `update calls` that the event asks for, if any; the conditions exclude one another.
unfoldable pub move_call : ℕ → TaggedEvent → Db → Option Db
move_call now e db =
    if is_create e.name && not (is_agent e.leg_type)
    then update_calls (open_in before_dialing e.call_id) (move_to now customer_dialing) db
    else if is_progress e.name && not (is_agent e.leg_type)
    then update_calls (open_in before_ringing e.call_id) (move_to now customer_ringing) db
    else if is_answer e.name && is_agent e.leg_type
    then update_calls (open_in before_agent_answers e.call_id) (move_to now agent_answered) db
    else if (is_answer e.name && not (is_agent e.leg_type)) || is_bridge e.name
    then update_calls (open_in not_terminal e.call_id) (bridge now) db
    else some db

-- One transaction.
unfoldable pub persist_generic_event : ℕ → TaggedEvent → Db → Option Db
persist_generic_event now e db =
    persist_tagged_event e db >>= λ told. update_leg now e e.leg_uuid told >>= move_call now e

-- The event and the leg are written without touching a call.
pub tagged-calls :
    (e : TaggedEvent) (db db' : Db) → persist_tagged_event e db ≡ some db' → db'.calls ≡ db.calls
unfolding persist_tagged_event insert_event
tagged-calls e db db' h = ground arith

leg-calls :
    (now : ℕ) (e : TaggedEvent) (u : Option Text) (db db' : Db)
    → update_leg now e u db ≡ some db'
    → db'.calls ≡ db.calls
unfolding update_leg
leg-calls now e none db db' h = ground arith
leg-calls now e (some u) db db' h = ground arith

pub generic_event-move :
    (now : ℕ) (e : TaggedEvent) (db db' : Db)
    → persist_generic_event now e db ≡ some db'
    → (d : Db) × (d.calls ≡ db.calls) × (move_call now e d ≡ some db')
unfolding persist_generic_event
generic_event-move now e db db' h =
    let (a, told, more) = bind-eq-some (persist_tagged_event e db) _ h in
    let (b, moved, last) = bind-eq-some (update_leg now e e.leg_uuid a) (move_call now e) more in
    (b, leg-calls now e e.leg_uuid a b moved ∙ tagged-calls e db a told, last)

-- The resolver of a hangup of the customer leg.
unfoldable pub resolve_terminal_event : HangupCause → Call → Option Decision
unfolding resolve_customer_hangup_outcome
resolve_terminal_event cause c =
    let outcome =
      resolve_customer_hangup_outcome (is_some c.answered_at) cause
        (is_detected c.voicemail_signal_status) in
    some (record { outcome = outcome; state = if is_failed outcome then failed else completed })
