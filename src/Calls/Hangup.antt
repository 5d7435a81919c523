-- ===== src/Calls/Hangup.antt =====
-- apps/api/src/esl-events.ts: the end of the customer's leg, as `persistFreeSwitchEvent` handles
-- it. The call is read first, outside any transaction; here nothing happens between that and the
-- transactions that follow.
pub mod Ending
use outbound_freeswitch_dial.Prelude.{
  ℕ, Bool, true, false, ◌&&◌, Option, none, some, Text, codes, if◌then◌else◌, is_none,
}
use outbound_freeswitch_dial.Calls.Schema.{
  Call, Db, is_voicemail_drop_active, is_agent_released, find_call, ◌>>=◌,
}
use outbound_freeswitch_dial.Calls.Finalization.{
  FinalizeInput, EventInput, Terminal, finalize_call_transaction,
}
use outbound_freeswitch_dial.Calls.Events.{
  TaggedEvent, HangupCause, hangup_cause, persist_tagged_event, resolve_terminal_event,
}
use outbound_freeswitch_dial.Calls.Voicemail.{
  is_normal_hangup, finalize_completed_voicemail_playback, IncompleteInput,
  finalize_incomplete_voicemail_playback,
}

-- What the handler has read from the frame.
pub record HangupEvent : Type 0 where
  pub tagged : TaggedEvent
  pub event : EventInput
  pub hangup_cause_header : Option Text
  pub event_at : Option ℕ
  pub raw : Text

abbrev terminal_of : HangupEvent → Terminal
terminal_of h = record {
  event_at = h.event_at;
  event_name = some h.tagged.event_name;
  source = codes "freeswitch_customer_terminal";
}

-- The argument of `finalizeCallTransaction`.
abbrev pub finalize_input_of : HangupEvent → FinalizeInput
finalize_input_of h = record {
  call_id = h.tagged.call_id;
  event = some h.event;
  persist_event_when_already_finalized = true;
  resolve = resolve_terminal_event (hangup_cause h.hangup_cause_header);
  terminal = some (terminal_of h);
}

abbrev pub incomplete_input_of : HangupEvent → Call → IncompleteInput
incomplete_input_of h c = record {
  agent_released = is_agent_released c.state;
  call_id = h.tagged.call_id;
  contact_id = c.contact_id;
  customer_leg_uuid = h.tagged.leg_uuid;
  force_failed = false;
  hangup_cause = hangup_cause h.hangup_cause_header;
  raw = h.raw;
  terminal = terminal_of h;
}

-- A hangup during a voicemail drop, after the event was stored.
unfoldable pub persist_hangup_of_drop : ℕ → ℕ → HangupEvent → Call → Db → Option Db
persist_hangup_of_drop now clock h c db =
    if is_normal_hangup (hangup_cause h.hangup_cause_header)
    then finalize_completed_voicemail_playback now clock h.tagged.call_id h.tagged.leg_uuid h.raw
        h.event_at (some h.tagged.event_name) (codes "freeswitch_customer_terminal") db
    else finalize_incomplete_voicemail_playback now clock (incomplete_input_of h c) db

unfoldable pub persist_hangup_of : ℕ → ℕ → HangupEvent → Call → Db → Option Db
persist_hangup_of now clock h c db =
    if is_none c.ended_at && is_voicemail_drop_active c.state
    then persist_tagged_event h.tagged db >>= persist_hangup_of_drop now clock h c
    else finalize_call_transaction now clock (finalize_input_of h) db >>= λ r. some r.0

unfoldable pub persist_customer_hangup : ℕ → ℕ → HangupEvent → Db → Option Db
persist_customer_hangup now clock h db = elim (find_call h.tagged.call_id db) [
  | none ↦ some db
  | some c ↦ persist_hangup_of now clock h c db
]
