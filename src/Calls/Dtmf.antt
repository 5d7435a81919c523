-- ===== src/Calls/Dtmf.antt =====
-- apps/api/src/dashboard/calls.ts: `sendDtmfForCall`, cut at the command to FreeSWITCH: what is
-- read before it, and the event and the answer after it.
use outbound_freeswitch_dial.Prelude.{
  ℕ, Bool, not, ◌&&◌, Option, none, some, find, Text, codes, if◌then◌else◌, is_none,
}
use outbound_freeswitch_dial.Calls.Schema.{
  Call, CallEvent, agent, customer, Db, is_terminal, has_id, insert_lifecycle_event,
}
use outbound_freeswitch_dial.Calls.Events.{leg_of}
use outbound_freeswitch_dial.Calls.Drop.{
  DropReply, accepted, refused, leg_uuid, owned_by_user, may_drop, is_absent,
}

pub record DtmfRow : Type 0 where
  pub call : Call
  pub agent_leg_uuid : Option Text
  pub customer_leg_uuid : Option Text

abbrev pub is_active_call : ℕ → ℕ → Db → Call → Bool
is_active_call user call_id db c =
    has_id call_id c
    && owned_by_user user c.agent_id db
    && is_none c.ended_at
    && not (is_terminal c.state)

abbrev pub dtmf_row : ℕ → Db → Option Call → Option DtmfRow
dtmf_row call_id db none = none
dtmf_row call_id db (some c) = some record {
  call = c;
  agent_leg_uuid = leg_uuid (find (leg_of call_id agent) db.legs);
  customer_leg_uuid = leg_uuid (find (leg_of call_id customer) db.legs);
}

-- `allowed` goes on to the command.
pub data DtmfCheck : Type 0 where
  stopped : DropReply → DtmfCheck
  allowed : DtmfRow → DtmfCheck

abbrev pub check_row : Option DtmfRow → DtmfCheck
check_row none = stopped (refused 404)
check_row (some r) =
    if is_absent r.customer_leg_uuid
    then stopped (refused 409)
    else if not (may_drop r.call.state)
    then stopped (refused 409)
    else allowed r

unfoldable pub check_dtmf : ℕ → ℕ → Db → DtmfCheck
check_dtmf user call_id db =
    check_row (dtmf_row call_id db (find (is_active_call user call_id db) db.calls))

abbrev dtmf_event : ℕ → DtmfRow → Text → Text → Text → CallEvent
dtmf_event call_id r event_type state raw = record {
  call_id = call_id;
  agent_id = r.call.agent_id;
  event_type = event_type;
  state = state;
  reason_code = none;
  freeswitch_event_name = none;
  freeswitch_event_uuid = none;
  api_command_name = some (codes "uuid_send_dtmf");
  agent_leg_uuid = r.agent_leg_uuid;
  customer_leg_uuid = r.customer_leg_uuid;
  raw_json = raw;
}

-- `sent` says whether the command was answered; the two event types are under no unique index.
-- `state` is the name of the state that was read.
unfoldable pub report_dtmf : ℕ → Bool → Text → Text → DtmfRow → Db → Db × DropReply
unfolding insert_lifecycle_event
report_dtmf call_id sent state raw r db =
    if sent
    then (insert_lifecycle_event (dtmf_event call_id r (codes "dtmf_sent") state raw) db, accepted)
    else (
      insert_lifecycle_event (dtmf_event call_id r (codes "dtmf_failed") state raw) db,
      refused 502,
    )
