-- ===== src/Calls/Examples/Tables.antt =====
-- Concrete tables: one call in progress, one that has ended and one that was corrected by hand.
use outbound_freeswitch_dial.Prelude.{
  ℕ, refl, true, false, Option, none, some, [], ◌∷◌, codes, arith,
}
use outbound_freeswitch_dial.Calls.Schema.{
  bridged, completed, customer_hung_up, answered, Dial, Call, Leg, LegType, agent, customer,
  LegState, Contact, ContactStatus, new, calling, Agent, AgentStatus, in_call, ready, available, Db,
}
use outbound_freeswitch_dial.Calls.History.{IsConsistent, IsValid}

abbrev dial : Dial
dial = record {
  campaign_id = 1;
  destination_number = codes "+15550100";
  normalized_destination_number = codes "+15550100";
  caller_id = none;
  recording_id = none;
  manual_dial = false;
  call_recording_enabled = true;
  early_media_avmd_enabled = false;
  started_at = 10;
}

abbrev pub talking : Call
talking = record {
  id = 1;
  agent_id = some 5;
  contact_id = some 9;
  dial = dial;
  state = bridged;
  outcome = none;
  voicemail_signal_status = none;
  answered_at = some 20;
  ended_at = none;
  voicemail_drop_requested_at = none;
  voicemail_playback_started_at = none;
  voicemail_playback_completed_at = none;
  agent_released_at = none;
  freeswitch_terminal_at = none;
  terminal_persisted_at = none;
  terminal_source = none;
  terminal_event_name = none;
  finalization_latency_ms = none;
  manual_status_locked_at = none;
  manual_status_locked_by_user_id = none;
  updated_at = 20;
}

abbrev pub over : Call
over = record talking {
  id = 2;
  contact_id = some 8;
  state = completed;
  outcome = some customer_hung_up;
  ended_at = some 15;
}

abbrev pub corrected : Call
corrected = record over {
  id = 3;
  outcome = some answered;
  manual_status_locked_at = some 18;
  manual_status_locked_by_user_id = some 50;
}

abbrev leg : LegType → Leg
leg t = record {
  call_id = 1;
  type = t;
  freeswitch_uuid = none;
  state = LegState.answered;
  answered_at = some 20;
  ended_at = none;
}

abbrev pub contact : ℕ → ContactStatus → ℕ → Contact
contact n s attempts = record {
  id = n;
  campaign_id = 1;
  phone_number = codes "+15550100";
  normalized_phone_number = codes "+15550100";
  created_at = n;
  status = s;
  attempt_count = attempts;
  last_attempted_at = none;
  updated_at = 10;
}

abbrev agent_row : ℕ → AgentStatus → Agent
agent_row n s = record {
  id = n;
  user_id = 50;
  sip_username = codes "1005";
  caller_id = none;
  registered = true;
  status = s;
  availability_status = available;
  wrap_up_until = none;
  updated_at = 10;
}

abbrev pub tables : Db
tables = record {
  calls = talking ∷ over ∷ corrected ∷ [];
  legs = leg agent ∷ leg customer ∷ [];
  contacts = contact 9 calling 1 ∷ contact 8 new 1 ∷ contact 7 new 0 ∷ [];
  agents = agent_row 5 in_call ∷ agent_row 6 ready ∷ [];
  events = [];
  pcaps = [];
  directory = record {
    campaigns =
        record {
          id = 1;
          is_active = true;
          call_recording_enabled = true;
          early_media_avmd_enabled = false;
        }
        ∷ [];
    suppressed_numbers = codes "+15550199" ∷ [];
    recordings = [];
    users = record { id = 50; is_active = true } ∷ [];
    supervising_users = [];
    call_start_paused = false;
  };
}

talking-IsConsistent : IsConsistent talking
talking-IsConsistent = record {
  terminal_ended = refl;
  outcome_ended = refl;
  locked_ended = λ h. h;
  never_stored = refl;
}

over-IsConsistent : IsConsistent over
over-IsConsistent = record {
  terminal_ended = refl;
  outcome_ended = refl;
  locked_ended = λ h. refl;
  never_stored = refl;
}

corrected-IsConsistent : IsConsistent corrected
corrected-IsConsistent = record {
  terminal_ended = refl;
  outcome_ended = refl;
  locked_ended = λ h. refl;
  never_stored = refl;
}

pub tables-IsValid : IsValid tables
tables-IsValid = record {
  consistent = (talking-IsConsistent, (over-IsConsistent, (corrected-IsConsistent, tt)));
  distinct = (refl, (refl, (refl, tt)));
  one_per_agent = λ a. ((λ h. ground arith), ((λ h. ground arith), ((λ h. refl), tt)));
  one_per_contact = λ k. ((λ h. ground arith), ((λ h. ground arith), ((λ h. refl), tt)));
}

abbrev pub value {ℓ} : {A : Type ℓ} → A → Option A → A
value d none = d
value d (some a) = a
