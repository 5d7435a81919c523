-- ===== src/Calls/Creation.antt =====
-- apps/api/src/dashboard/calls.ts: the start of a call, from the choice of a contact to the commit
-- of `createDialerCall`, and the writes of `syncFreeSwitchOriginate`. The id of the new row, which
-- PostgreSQL generates, is an argument.
pub mod Admission
use outbound_freeswitch_dial.Prelude.{
  ℕ, ◌+◌, ◌*◌, Bool, true, false, not, ◌&&◌, ◌||◌, Option, none, some, List, [], ◌∷◌, ◌++◌, find,
  any, update_where, filter, Text, codes, text_eq, trim, leb, ltb, ◌==◌, if◌then◌else◌, is_none,
  is_some, coalesce,
}
use outbound_freeswitch_dial.Calls.Schema.{
  CallState, customer_dialing, agent_ringing, Call, Dial, Leg, LegType, agent, customer, LegState,
  started, Contact, ContactStatus, new, calling, completed, suppressed, Agent, AgentStatus, in_call,
  Availability, available, paused, wrap_up, Campaign, Recording, User, Directory, CallEvent, Db,
  is_terminal, is_agent_released, is_paused, is_id, has_id, find_call, insert_event, ◌>>=◌,
}
use outbound_freeswitch_dial.Calls.Progression.{update_calls}
use outbound_freeswitch_dial.Calls.Availability.{occupies}
use outbound_freeswitch_dial.Calls.Contacts.{
  RetryPolicy, find_campaign, is_active_campaign, is_suppressed, retry_is_due, is_idle_lead,
  is_completed, is_callable_status, is_next_callable, comes_before, earliest,
  get_next_callable_contact, is_callable,
}
use outbound_freeswitch_dial.Calls.Events.{leg_of, not_terminal}

pub data ContactChoice : Type 0 where
  next : ContactChoice
  lead : ℕ → ContactChoice
  manual : ContactChoice

pub record CreateInput : Type 0 where
  pub actor_user_id : Option ℕ
  pub agent_id : ℕ
  pub campaign_id : Option ℕ
  pub contact : ContactChoice
  pub destination_number : Text
  pub normalized_destination_number : Text
  pub manual_dial : Bool
  pub call_recording_enabled : Bool
  pub early_media_avmd_enabled : Bool
  pub confirm_completed_lead : Bool
  pub confirm_retry_wait : Bool
  pub event_type : Text
  pub raw : Text

pub record CreateConfig : Type 0 where
  pub retry : RetryPolicy
  pub trunk_caller_id : Option Text
  pub pcap_capture_enabled : Bool

pub data Failure : Type 0 where
  active_call agent_paused agent_not_registered lead_not_callable maintenance : Failure
  no_callable_contacts session_revoked supervisor_session : Failure

-- `DialerCallContext`.
pub record Context : Type 0 where
  pub call_recording_enabled : Bool
  pub early_media_avmd_enabled : Bool
  pub campaign_id : ℕ
  pub contact_id : Option ℕ
  pub destination_number : Text
  pub normalized_destination_number : Text

-- What a step of the transaction comes to: a value, a refusal after a rollback, or an error that is
-- thrown after a rollback.
pub data Attempt {ℓ} (A : Type ℓ) : Type ℓ where
  done : A → Attempt A
  refused : Failure → Attempt A
  thrown : Attempt A

abbrev pub then_try {ℓ κ} : {A : Type ℓ} {B : Type κ} → Attempt A → (A → Attempt B) → Attempt B
then_try (done a) f = f a
then_try (refused x) f = refused x
then_try thrown f = thrown

abbrev pub require : Bool → Failure → Attempt (Unit {0})
require true x = done tt
require false x = refused x

abbrev is_active_user : ℕ → Directory → Bool
is_active_user u d = any (λ (v : User). v.id == u && v.is_active) d.users

unfoldable pub check_actor : Option ℕ → Directory → Attempt (Unit {0})
check_actor none d = done tt
check_actor (some u) d =
    then_try (require (is_active_user u d) session_revoked)
      (λ _. require (not (any (λ v. v == u) d.supervising_users)) supervisor_session)

-- `update agents set availability_status = 'available' ... and availability_status = 'wrap_up'`.
unfoldable pub end_wrap_up : ℕ → ℕ → Db → Db
end_wrap_up now agent_id db = record db {
  agents =
      update_where
        (λ (a : Agent).
          a.id == agent_id && (elim a.availability_status [ wrap_up ↦ true | _ ↦ false ]))
        (λ a. record a { availability_status = available; wrap_up_until = none; updated_at = now })
        db.agents;
}

abbrev is_registered : Option Agent → Bool
is_registered none = false
is_registered (some a) = a.registered

abbrev is_paused_agent : Option Agent → Bool
is_paused_agent none = false
is_paused_agent (some a) = is_paused a.availability_status

unfoldable pub check_agent : ℕ → Db → Attempt (Unit {0})
check_agent agent_id db =
    let agent = find (λ (a : Agent). a.id == agent_id) db.agents in
    then_try (require (is_registered agent) agent_not_registered) (λ _.
      then_try (require (not (is_paused_agent agent)) agent_paused)
        (λ _. require (not (any (occupies agent_id) db.calls)) active_call))

abbrev pub context_of : Directory → Contact → Context
context_of d k = record {
  call_recording_enabled = elim (find_campaign k.campaign_id d) [
    | none ↦ false
    | some c ↦ c.call_recording_enabled
  ];
  early_media_avmd_enabled = elim (find_campaign k.campaign_id d) [
    | none ↦ false
    | some c ↦ c.early_media_avmd_enabled
  ];
  campaign_id = k.campaign_id;
  contact_id = some k.id;
  destination_number = k.phone_number;
  normalized_destination_number = k.normalized_phone_number;
}

abbrev pub or_refuse : Directory → Option Contact → Failure → Attempt Context
or_refuse d none x = refused x
or_refuse d (some k) x = done (context_of d k)

abbrev is_empty_text : Text → Bool
is_empty_text [] = true
is_empty_text (c ∷ t) = false

unfoldable pub manual_context : CreateInput → Option ℕ → Attempt Context
manual_context i none = thrown
manual_context i (some campaign_id) =
    if is_empty_text i.destination_number || is_empty_text i.normalized_destination_number
    then thrown
    else done (record {
      call_recording_enabled = i.call_recording_enabled;
      early_media_avmd_enabled = i.early_media_avmd_enabled;
      campaign_id = campaign_id;
      contact_id = none;
      destination_number = i.destination_number;
      normalized_destination_number = i.normalized_destination_number;
    })

unfoldable pub choose_contact :
    (ℕ → Bool) → ℕ → CreateConfig → CreateInput → ContactChoice → Option ℕ → Db → Attempt Context
unfolding manual_context get_next_callable_contact is_callable
choose_contact locked now cfg i next none db = thrown
choose_contact locked now cfg i next (some campaign_id) db =
    or_refuse db.directory (get_next_callable_contact locked now cfg.retry campaign_id db)
      no_callable_contacts
choose_contact locked now cfg i (lead k) campaign_id db =
    or_refuse db.directory
      (find (is_callable now cfg.retry db.directory i.confirm_completed_lead i.confirm_retry_wait k)
        db.contacts)
      lead_not_callable
choose_contact locked now cfg i manual campaign_id db = manual_context i campaign_id

-- `order by is_default desc, created_at desc limit 1`: `a` comes before `b`.
abbrev preferred : Recording → Recording → Bool
preferred a b =
    (a.is_default && not b.is_default)
    || (not (not a.is_default && b.is_default) && leb b.created_at a.created_at)

unfoldable pub get_default_recording : List Recording → Option Recording
get_default_recording [] = none
get_default_recording (r ∷ rs) = elim (get_default_recording rs) [
  | none ↦ (if r.is_active then some r else none)
  | some s ↦ some (if r.is_active && preferred r s then r else s)
]

abbrev non_blank : Option Text → Option Text
non_blank none = none
non_blank (some t) = elim (trim t) [ [] ↦ none | c ∷ u ↦ some (c ∷ u) ]

-- `agentCallerId?.trim() || defaultCallerId?.trim() || null`.
unfoldable pub resolve_outbound_caller_id : Option Text → Option Text → Option Text
resolve_outbound_caller_id agent_caller default_caller =
    coalesce (non_blank agent_caller) (non_blank default_caller)

abbrev caller_of : ℕ → CreateConfig → Db → Option Text
caller_of agent_id cfg db =
    resolve_outbound_caller_id
      (find (λ (a : Agent). a.id == agent_id) db.agents >>= λ a. a.caller_id) cfg.trunk_caller_id

-- The row of `insert into calls`.
unfoldable pub new_call : ℕ → ℕ → CreateConfig → CreateInput → Context → Db → Call
unfolding resolve_outbound_caller_id get_default_recording
new_call now call_id cfg i x db = record {
  id = call_id;
  agent_id = some i.agent_id;
  contact_id = x.contact_id;
  dial = record {
    campaign_id = x.campaign_id;
    destination_number = x.destination_number;
    normalized_destination_number = x.normalized_destination_number;
    caller_id = caller_of i.agent_id cfg db;
    recording_id = get_default_recording db.directory.recordings >>= λ r. some r.id;
    manual_dial = i.manual_dial;
    call_recording_enabled = x.call_recording_enabled;
    early_media_avmd_enabled = x.early_media_avmd_enabled;
    started_at = now;
  };
  state = customer_dialing;
  outcome = none;
  voicemail_signal_status = none;
  answered_at = none;
  ended_at = none;
  voicemail_drop_requested_at = none;
  voicemail_playback_started_at = none;
  voicemail_playback_completed_at = none;
  agent_released_at = none;
  freeswitch_terminal_at = none;
  terminal_persisted_at = none;
  terminal_source = none;
  terminal_event_name = none;
  finalization_latency_ms = none;
  manual_status_locked_at = none;
  manual_status_locked_by_user_id = none;
  updated_at = now;
}

-- A call that the unique index `calls_one_active_per_contact_idx` holds against a new one.
abbrev pub holds_contact : Option ℕ → Call → Bool
holds_contact none c = false
holds_contact (some k) c = is_id c.contact_id k && is_none c.ended_at && not (is_terminal c.state)

abbrev new_leg : ℕ → LegType → Leg
new_leg call_id t = record {
  call_id = call_id;
  type = t;
  freeswitch_uuid = none;
  state = LegState.created;
  answered_at = none;
  ended_at = none;
}

abbrev creation_event : ℕ → CreateInput → CallEvent
creation_event call_id i = record {
  call_id = call_id;
  agent_id = some i.agent_id;
  event_type = i.event_type;
  state = codes "customer_dialing";
  reason_code = none;
  freeswitch_event_name = none;
  freeswitch_event_uuid = none;
  api_command_name = none;
  agent_leg_uuid = none;
  customer_leg_uuid = none;
  raw_json = i.raw;
}

abbrev pub set_in_call : ℕ → Agent → Agent
set_in_call now a = record a { status = in_call; updated_at = now }

abbrev pub set_calling : ℕ → Contact → Contact
set_calling now k = record k {
  status = calling;
  attempt_count = k.attempt_count + 1;
  last_attempted_at = some now;
  updated_at = now;
}

abbrev reserve_contact : ℕ → Option ℕ → List Contact → List Contact
reserve_contact now none ks = ks
reserve_contact now (some n) ks = update_where (λ (k : Contact). k.id == n) (set_calling now) ks

-- From `insert into calls` to the commit. The two partial unique indexes refuse a second active call.
unfoldable pub insert_call : ℕ → ℕ → CreateConfig → CreateInput → Context → Db → Attempt (Db × ℕ)
unfolding new_call insert_event
insert_call now call_id cfg i x db =
    if any (occupies i.agent_id) db.calls
    then refused active_call
    else if any (holds_contact x.contact_id) db.calls
    then refused lead_not_callable
    else let told = insert_event (creation_event call_id i) db in
      done (
        record told {
          calls = db.calls ++ new_call now call_id cfg i x db ∷ [];
          legs = db.legs ++ new_leg call_id agent ∷ new_leg call_id customer ∷ [];
          agents = update_where (λ (a : Agent). a.id == i.agent_id) (set_in_call now) db.agents;
          contacts = reserve_contact now x.contact_id db.contacts;
          pcaps = if cfg.pcap_capture_enabled then db.pcaps ++ call_id ∷ [] else db.pcaps;
        },
        x.campaign_id,
      )

-- `createDialerCall` up to its commit, with the campaign of the call that it created.
-- `locked` says which contacts other transactions hold.
unfoldable pub create_dialer_call :
    (ℕ → Bool) → ℕ → ℕ → CreateConfig → CreateInput → Db → Attempt (Db × ℕ)
create_dialer_call locked now call_id cfg i db =
    then_try (require (not db.directory.call_start_paused) maintenance) (λ _.
      then_try (check_actor i.actor_user_id db.directory) (λ _.
        let awake = end_wrap_up now i.agent_id db in
        then_try (check_agent i.agent_id awake) (λ _.
          then_try (choose_contact locked now cfg i i.contact i.campaign_id awake)
            (λ x. insert_call now call_id cfg i x awake))))

-- A statement that fails outside a transaction leaves the earlier ones in force.
abbrev pub or_keep : Db → Option Db → Db × Bool
or_keep db none = (db, false)
or_keep db (some db') = (db', true)

abbrev pub set_leg_uuid : Text → Leg → Leg
set_leg_uuid u l = record l { freeswitch_uuid = some u }

abbrev pub start_leg : Text → Leg → Leg
start_leg u l = record l { freeswitch_uuid = some u; state = started }

-- The writes of `syncFreeSwitchOriginate` once FreeSWITCH has queued the originate: three
-- statements of their own, then the update of the call. `false` is the error that the trigger may
-- raise there; it leads to a failed finalization.
unfoldable pub originate_queued : ℕ → ℕ → CallEvent → Text → Text → Db → Db × Bool
originate_queued now call_id event agent_leg customer_leg db =
    let started_legs = update_where (leg_of call_id agent) (start_leg agent_leg) db.legs in
    let legs = update_where (leg_of call_id customer) (set_leg_uuid customer_leg) started_legs in
    let told = insert_event event (record db { legs = legs }) in
    or_keep told (
      update_calls (λ c. has_id call_id c && not_terminal c.state)
        (λ c. record c { state = agent_ringing; updated_at = now }) told)
