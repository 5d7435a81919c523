-- ===== src/Calls/Examples/Handlers.antt =====
-- The other handlers at concrete tables.
use outbound_freeswitch_dial.Prelude.{
  ℕ, ◌≡◌, refl, subst, Bool, not, ◌&&◌, ◌∷◌, true, false, none, some, [], codes, is_some, text_eq,
}
use outbound_freeswitch_dial.Calls.Schema.{
  completed, answered, new, Db, find_call, insert_event, customer, agent,
}
use outbound_freeswitch_dial.Calls.Rows.{Rows}
use outbound_freeswitch_dial.Calls.Progression.{update_calls, same_state, may_follow}
use outbound_freeswitch_dial.Calls.Finalization.{lock_call_owner_agent}
use outbound_freeswitch_dial.Calls.Events.{
  TaggedEvent, channel_bridge, persist_tagged_event, persist_generic_event, update_leg, move_call,
  map_event_to_leg_state, misses_call, repeats_uuid,
}
use outbound_freeswitch_dial.Calls.Events.Order.{
  Forward, events_never_move_back, events_commit_unless_a_key_fails,
}
use outbound_freeswitch_dial.Calls.Events.Replay.{hear_all, replayed_event_is_stored_once}
use outbound_freeswitch_dial.Calls.Contacts.{RetryPolicy, get_next_callable_contact}
use outbound_freeswitch_dial.Calls.Contacts.Choice.{next_contact_is_eligible_and_first, Promises}
use outbound_freeswitch_dial.Calls.Creation.{
  Attempt, done, CreateConfig, CreateInput, next, Context, check_actor, end_wrap_up, check_agent,
  choose_contact, insert_call, create_dialer_call,
}
use outbound_freeswitch_dial.Calls.Creation.Admission.{Admitted, created_call_passed_every_check}
use outbound_freeswitch_dial.Calls.ManualStatus.{
  ManualResponse, updated, already_set, active, missing, set_manual_call_status, set_status_of_row,
  write_status, terminal_state_for_outcome,
}
use outbound_freeswitch_dial.Calls.ManualStatus.Repeat.{
  repeated_correction_changes_nothing, answer_tells_the_call, Corresponds,
}
use outbound_freeswitch_dial.Calls.Examples.Tables.{tables, contact, value}

abbrev bridges : TaggedEvent
bridges = record {
  call_id = 1;
  name = channel_bridge;
  leg_type = customer;
  leg_uuid = some (codes "leg");
  event_name = codes "CHANNEL_BRIDGE";
  event_type = codes "channel_bridge";
  event_uuid = some (codes "e1");
  state = codes "bridged";
  raw = [];
}

abbrev bridged_tables : Db
bridged_tables = value tables (persist_generic_event 30 bridges tables)

bridges-tables : persist_generic_event 30 bridges tables ≡ some bridged_tables
unfolding persist_generic_event update_leg persist_tagged_event move_call insert_event find_call
    map_event_to_leg_state update_calls same_state may_follow
bridges-tables = refl

events_never_move_back_example : Rows Forward tables.calls bridged_tables.calls
events_never_move_back_example = events_never_move_back 30 bridges tables bridges-tables

events_commit_unless_a_key_fails_example :
    is_some (persist_generic_event 30 bridges tables)
    ≡ (not (misses_call bridges tables) && not (repeats_uuid bridges bridges.leg_uuid tables.legs))
events_commit_unless_a_key_fails_example = events_commit_unless_a_key_fails 30 bridges tables

-- The same event from the agent's leg, with a uuid of its own.
abbrev agent_bridges : TaggedEvent
agent_bridges = record bridges { leg_type = agent; leg_uuid = none; event_uuid = some (codes "e2") }

abbrev agent_bridged : Db
agent_bridged = value tables (persist_generic_event 31 agent_bridges bridged_tables)

abbrev replayed_tables : Db
replayed_tables = value tables (persist_generic_event 32 bridges agent_bridged)

agent_bridges-tables : hear_all ((31, agent_bridges) ∷ []) bridged_tables ≡ some agent_bridged
unfolding persist_generic_event update_leg persist_tagged_event move_call insert_event find_call
    hear_all update_calls same_state
agent_bridges-tables = refl

replays : persist_generic_event 32 bridges agent_bridged ≡ some replayed_tables
unfolding persist_generic_event update_leg persist_tagged_event move_call insert_event find_call
    update_calls same_state
replays = refl

replayed_event_is_stored_once_example : replayed_tables.events ≡ agent_bridged.events
replayed_event_is_stored_once_example =
    replayed_event_is_stored_once 30 32 bridges (codes "e1") ((31, agent_bridges) ∷ []) tables
      bridged_tables agent_bridged replayed_tables refl bridges-tables agent_bridges-tables replays

abbrev policy : RetryPolicy
policy = record { max_attempts = 3; retry_delay_seconds = 60 }

-- No other transaction holds a contact.
abbrev unlocked : ℕ → Bool
unlocked k = false

-- The one that was created first.
finds : get_next_callable_contact unlocked 50 policy 1 tables ≡ some (contact 7 new 0)
unfolding get_next_callable_contact text_eq
finds = refl

next_contact_is_eligible_and_first_example :
    Promises unlocked 50 policy tables.directory 1 tables.contacts (some (contact 7 new 0))
next_contact_is_eligible_and_first_example =
    subst (Promises unlocked 50 policy tables.directory 1 tables.contacts) finds
      (next_contact_is_eligible_and_first unlocked 50 policy 1 tables)

finds_none : get_next_callable_contact unlocked 50 policy 2 tables ≡ none
unfolding get_next_callable_contact
finds_none = refl

abbrev config : CreateConfig
config = record { retry = policy; trunk_caller_id = none; pcap_capture_enabled = false }

abbrev request : CreateInput
request = record {
  actor_user_id = some 50;
  agent_id = 6;
  campaign_id = some 1;
  contact = next;
  destination_number = [];
  normalized_destination_number = [];
  manual_dial = false;
  call_recording_enabled = true;
  early_media_avmd_enabled = false;
  confirm_completed_lead = false;
  confirm_retry_wait = false;
  event_type = codes "call_created";
  raw = [];
}

abbrev attempt_value {ℓ} : {A : Type ℓ} → A → Attempt A → A
attempt_value d (done a) = a
attempt_value d _ = d

abbrev created_tables : Db × ℕ
created_tables = attempt_value (tables, 0) (create_dialer_call unlocked 50 4 config request tables)

creates :
    create_dialer_call unlocked 50 4 config request tables
    ≡ done (created_tables.0, created_tables.1)
unfolding create_dialer_call check_actor end_wrap_up check_agent choose_contact insert_call text_eq
creates = refl

created_call_passed_every_check_example : Admitted 50 4 request tables created_tables.0
created_call_passed_every_check_example =
    created_call_passed_every_check unlocked 50 4 config request tables creates

abbrev context : Context
context =
    attempt_value
      (record {
        call_recording_enabled = false;
        early_media_avmd_enabled = false;
        campaign_id = 0;
        contact_id = none;
        destination_number = [];
        normalized_destination_number = [];
      })
      (choose_contact unlocked 50 config request next (some 1) tables)

abbrev response : ManualResponse
response = record {
  call_id = 2;
  state = completed;
  outcome = some answered;
  manual_status_locked_at = some 60;
}

abbrev corrected_tables : Db
corrected_tables = (value (tables, missing) (set_manual_call_status 60 2 50 answered [] tables)).0

corrects :
    set_manual_call_status 60 2 50 answered [] tables ≡ some (corrected_tables, updated response)
unfolding set_manual_call_status lock_call_owner_agent set_status_of_row write_status update_calls
    find_call insert_event terminal_state_for_outcome
corrects = refl

repeated_correction_changes_nothing_example :
    set_manual_call_status 70 2 50 answered [] corrected_tables
    ≡ some (corrected_tables, already_set response)
repeated_correction_changes_nothing_example =
    repeated_correction_changes_nothing 60 70 2 50 answered [] [] tables corrects

refuses : set_manual_call_status 60 1 50 answered [] tables ≡ some (tables, active)
unfolding set_manual_call_status lock_call_owner_agent set_status_of_row find_call
refuses = refl

answer_tells_the_call_example : Corresponds 1 50 answered tables tables active
answer_tells_the_call_example = answer_tells_the_call 60 1 50 answered [] tables refuses
