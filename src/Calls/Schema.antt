-- ===== src/Calls/Schema.antt =====
-- The tables that call control reads and writes: the enumerations of packages/shared/src/index.ts
-- and the rows of apps/api/db/migrations, with the columns that the modelled handlers use.
-- A uuid column is a number, a timestamp a number of microseconds, JSON a text.
use outbound_freeswitch_dial.Prelude.{
  ℕ, ◌≡◌, refl, Bool, true, false, ◌&&◌, ◌||◌, Option, none, some, List, [], ◌∷◌, ◌++◌, any, find,
  Text, text_eq, codes, ◌==◌, if◌then◌else◌,
}

pub data CallState : Type 0 where
  created agent_ringing agent_answered customer_dialing customer_ringing bridged : CallState
  voicemail_signal_detected voicemail_drop_requested voicemail_playback_started : CallState
  agent_released voicemail_playback_completed completed failed canceled : CallState

pub data CallOutcome : Type 0 where
  answered not_answered busy failed voicemail_detected voicemail_dropped : CallOutcome
  agent_canceled customer_hung_up suppressed : CallOutcome

pub data SignalStatus : Type 0 where
  none_seen possible detected : SignalStatus

pub data LegType : Type 0 where
  agent customer : LegType

pub data LegState : Type 0 where
  created started answered ended : LegState

pub data ContactStatus : Type 0 where
  new calling completed suppressed : ContactStatus

pub data AgentStatus : Type 0 where
  offline registered ready in_call : AgentStatus

pub data Availability : Type 0 where
  available paused wrap_up : Availability

-- The columns of a call that are written when it is created; the start of a voicemail drop also
-- writes the recording.
pub record Dial : Type 0 where
  pub campaign_id : ℕ
  pub destination_number : Text
  pub normalized_destination_number : Text
  pub caller_id : Option Text
  pub recording_id : Option ℕ
  pub manual_dial : Bool
  pub call_recording_enabled : Bool
  pub early_media_avmd_enabled : Bool
  pub started_at : ℕ

pub record Call : Type 0 where
  pub id : ℕ
  pub agent_id : Option ℕ
  pub contact_id : Option ℕ
  pub dial : Dial
  pub state : CallState
  pub outcome : Option CallOutcome
  pub voicemail_signal_status : Option SignalStatus
  pub answered_at : Option ℕ
  pub ended_at : Option ℕ
  pub voicemail_drop_requested_at : Option ℕ
  pub voicemail_playback_started_at : Option ℕ
  pub voicemail_playback_completed_at : Option ℕ
  pub agent_released_at : Option ℕ
  pub freeswitch_terminal_at : Option ℕ
  pub terminal_persisted_at : Option ℕ
  pub terminal_source : Option Text
  pub terminal_event_name : Option Text
  pub finalization_latency_ms : Option ℕ
  pub manual_status_locked_at : Option ℕ
  pub manual_status_locked_by_user_id : Option ℕ
  pub updated_at : ℕ

pub record Leg : Type 0 where
  pub call_id : ℕ
  pub type : LegType
  pub freeswitch_uuid : Option Text
  pub state : LegState
  pub answered_at : Option ℕ
  pub ended_at : Option ℕ

-- `campaign_id` is nullable in the table; a contact without a campaign is never called, and left out.
pub record Contact : Type 0 where
  pub id : ℕ
  pub campaign_id : ℕ
  pub phone_number : Text
  pub normalized_phone_number : Text
  pub created_at : ℕ
  pub status : ContactStatus
  pub attempt_count : ℕ
  pub last_attempted_at : Option ℕ
  pub updated_at : ℕ

pub record Agent : Type 0 where
  pub id : ℕ
  pub user_id : ℕ
  pub sip_username : Text
  pub caller_id : Option Text
  pub registered : Bool
  pub status : AgentStatus
  pub availability_status : Availability
  pub wrap_up_until : Option ℕ
  pub updated_at : ℕ

-- A row of `call_events`.
pub record CallEvent : Type 0 where
  pub call_id : ℕ
  pub agent_id : Option ℕ
  pub event_type : Text
  pub state : Text
  pub reason_code : Option Text
  pub freeswitch_event_name : Option Text
  pub freeswitch_event_uuid : Option Text
  pub api_command_name : Option Text
  pub agent_leg_uuid : Option Text
  pub customer_leg_uuid : Option Text
  pub raw_json : Text

pub record Campaign : Type 0 where
  pub id : ℕ
  pub is_active : Bool
  pub call_recording_enabled : Bool
  pub early_media_avmd_enabled : Bool

pub record Recording : Type 0 where
  pub id : ℕ
  pub runtime_file_path : Text
  pub is_active : Bool
  pub is_default : Bool
  pub created_at : ℕ

pub record User : Type 0 where
  pub id : ℕ
  pub is_active : Bool

-- What only the start of a call or of a voicemail drop reads: the campaigns, the suppressed numbers, the voicemail
-- recordings, the users, the users who are monitoring a call, and the maintenance gate.
pub record Directory : Type 0 where
  pub campaigns : List Campaign
  pub suppressed_numbers : List Text
  pub recordings : List Recording
  pub users : List User
  pub supervising_users : List ℕ
  pub call_start_paused : Bool

-- `pcaps` are the calls with a pending packet capture.
pub record Db : Type 0 where
  pub calls : List Call
  pub legs : List Leg
  pub contacts : List Contact
  pub agents : List Agent
  pub events : List CallEvent
  pub pcaps : List ℕ
  pub directory : Directory

-- `state in ('completed', 'failed', 'canceled')`.
abbrev pub is_terminal : CallState → Bool
is_terminal completed = true
is_terminal failed = true
is_terminal canceled = true
is_terminal _ = false

-- `state in ('voicemail_drop_requested', 'voicemail_playback_started', 'agent_released')`.
abbrev pub is_voicemail_drop_active : CallState → Bool
is_voicemail_drop_active voicemail_drop_requested = true
is_voicemail_drop_active voicemail_playback_started = true
is_voicemail_drop_active agent_released = true
is_voicemail_drop_active _ = false

abbrev pub is_agent_released : CallState → Bool
is_agent_released agent_released = true
is_agent_released _ = false

abbrev pub is_calling : ContactStatus → Bool
is_calling calling = true
is_calling _ = false

abbrev pub is_paused : Availability → Bool
is_paused paused = true
is_paused _ = false

abbrev pub is_in_call : AgentStatus → Bool
is_in_call in_call = true
is_in_call _ = false

abbrev pub is_detected : Option SignalStatus → Bool
is_detected (some detected) = true
is_detected _ = false

-- `column = $n`, false where the column is null.
abbrev pub is_id : Option ℕ → ℕ → Bool
is_id none n = false
is_id (some m) n = m == n

abbrev pub has_id : ℕ → Call → Bool
has_id n c = c.id == n

unfoldable pub find_call : ℕ → Db → Option Call
find_call n db = find (has_id n) db.calls

infixl 5 ◌>>=◌
abbrev pub ◌>>=◌ {ℓ κ} : {A : Type ℓ} {B : Type κ} → Option A → (A → Option B) → Option B
none >>= f = none
some a >>= f = f a

-- Inversion of a chain that gives a value.
pub bind-eq-some {ℓ κ} :
    {A : Type ℓ} {B : Type κ} (m : Option A) (f : A → Option B) {b : B}
    → (m >>= f) ≡ some b
    → (a : A) × (m ≡ some a) × (f a ≡ some b)
bind-eq-some (some a) f h = (a, refl, h)
bind-eq-some none f h = cc

-- `on conflict (freeswitch_event_uuid) where freeswitch_event_uuid is not null do nothing`.
abbrev pub same_uuid : Option Text → CallEvent → Bool
same_uuid none e = false
same_uuid (some u) e = elim e.freeswitch_event_uuid [ none ↦ false | some v ↦ text_eq u v ]

unfoldable pub insert_event : CallEvent → Db → Db
insert_event e db =
    if any (same_uuid e.freeswitch_event_uuid) db.events
    then db
    else record db { events = db.events ++ e ∷ [] }

-- The event types of the unique index `call_events_one_voicemail_lifecycle_event_idx`.
unfoldable pub is_lifecycle_type : Text → Bool
is_lifecycle_type t =
    text_eq t (codes "voicemail_drop_requested")
    || text_eq t (codes "voicemail_playback_started")
    || text_eq t (codes "agent_released")
    || text_eq t (codes "voicemail_playback_completed")
    || text_eq t (codes "voicemail_playback_interrupted")

-- `on conflict do nothing`, for an event with no FreeSWITCH uuid.
unfoldable pub insert_lifecycle_event : CallEvent → Db → Db
insert_lifecycle_event e db =
    if is_lifecycle_type e.event_type
      && any (λ (f : CallEvent). f.call_id == e.call_id && text_eq f.event_type e.event_type)
          db.events
    then db
    else record db { events = db.events ++ e ∷ [] }
