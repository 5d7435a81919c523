-- ===== src/Calls/Examples/Drops.antt =====
-- A voicemail drop at concrete tables.
use outbound_freeswitch_dial.Prelude.{◌≡◌, refl, true, Option, none, some, [], ◌∷◌, codes, text_eq}
use outbound_freeswitch_dial.Calls.Schema.{
  Leg, LegType, agent, customer, LegState, Recording, Db, insert_lifecycle_event,
}
use outbound_freeswitch_dial.Calls.Progression.{
  update_calls, guard_rows, enforce_call_state_progression, same_state, may_follow,
}
use outbound_freeswitch_dial.Calls.Drop.{
  VoicemailDropCallRow, Claim, accepted, refused, answered_with, claimed, claim_drop,
  initial_answer, get_voicemail_drop_call, is_voicemail_drop_in_progress_or_completed,
}
use outbound_freeswitch_dial.Calls.Drop.Claims.{drop_is_claimed_once}
use outbound_freeswitch_dial.Calls.Dtmf.{check_dtmf, stopped}
use outbound_freeswitch_dial.Calls.History.{IsValid}
use outbound_freeswitch_dial.Calls.Examples.Tables.{talking, tables, tables-IsValid}

abbrev message : Recording
message = record {
  id = 3;
  runtime_file_path = codes "/recordings/3.wav";
  is_active = true;
  is_default = true;
  created_at = 1;
}

abbrev leg : LegType → Leg
leg t = record {
  call_id = 1;
  type = t;
  freeswitch_uuid = some (codes "u1");
  state = LegState.answered;
  answered_at = some 20;
  ended_at = none;
}

abbrev ready_tables : Db
ready_tables = record tables {
  legs = leg agent ∷ leg customer ∷ [];
  directory = record tables.directory { recordings = message ∷ [] };
}

ready_tables-IsValid : IsValid ready_tables
ready_tables-IsValid = record {
  consistent = tables-IsValid.consistent;
  distinct = tables-IsValid.distinct;
  one_per_agent = tables-IsValid.one_per_agent;
  one_per_contact = tables-IsValid.one_per_contact;
}

abbrev taken : Option Claim
taken = claim_drop 30 50 1 (some 3) [] ready_tables

abbrev row : VoicemailDropCallRow
row = record {
  call = talking;
  agent_leg_uuid = some (codes "u1");
  customer_leg_uuid = some (codes "u1");
  assigned = none;
  selected = some message;
}

abbrev tables_of : Option Claim → Db
tables_of (some (claimed r rec db)) = db
tables_of _ = ready_tables

row-taken : taken ≡ some (claimed row message (tables_of taken))
unfolding claim_drop get_voicemail_drop_call is_voicemail_drop_in_progress_or_completed update_calls
    guard_rows enforce_call_state_progression insert_lifecycle_event text_eq same_state may_follow
row-taken = refl

drop_is_claimed_once_example :
    (initial_answer 50 1 none (tables_of taken) ≡ some accepted)
    × (claim_drop 31 50 1 none [] (tables_of taken) ≡ some (answered_with accepted))
    × (check_dtmf 50 1 (tables_of taken) ≡ stopped (refused 409))
drop_is_claimed_once_example =
    drop_is_claimed_once 30 31 50 1 (some 3) none [] [] row message ready_tables (tables_of taken)
      ready_tables-IsValid row-taken
