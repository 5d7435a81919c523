-- ===== src/Calls/Progression.antt =====
-- apps/api/db/migrations/023_manual_call_status_lock.sql: the trigger that guards each update of
-- a call's state, outcome or manual lock. `none` is the exception that it raises, which rolls the
-- transaction back.
use outbound_freeswitch_dial.Prelude.{
  ◌≡◌, ◌⊎◌, arith, Bool, true, false, not, ◌||◌, Option, none, some, List, [], ◌∷◌, if◌then◌else◌,
  is_none, is_some,
}
use outbound_freeswitch_dial.Calls.Schema.{
  CallState, created, agent_ringing, agent_answered, customer_dialing, customer_ringing, bridged,
  voicemail_signal_detected, voicemail_drop_requested, voicemail_playback_started, agent_released,
  voicemail_playback_completed, completed, failed, canceled, Call, Db, is_terminal, ◌>>=◌,
}

unfoldable pub same_state : CallState → CallState → Bool
same_state created created = true
same_state agent_ringing agent_ringing = true
same_state agent_answered agent_answered = true
same_state customer_dialing customer_dialing = true
same_state customer_ringing customer_ringing = true
same_state bridged bridged = true
same_state voicemail_signal_detected voicemail_signal_detected = true
same_state voicemail_drop_requested voicemail_drop_requested = true
same_state voicemail_playback_started voicemail_playback_started = true
same_state agent_released agent_released = true
same_state voicemail_playback_completed voicemail_playback_completed = true
same_state completed completed = true
same_state failed failed = true
same_state canceled canceled = true
same_state _ _ = false

-- The states that a drop may go on to, by the state that it is in.
abbrev after_drop_requested : CallState → Bool
after_drop_requested bridged = true
after_drop_requested voicemail_signal_detected = true
after_drop_requested voicemail_playback_started = true
after_drop_requested agent_released = true
after_drop_requested s = is_terminal s

abbrev after_playback_started : CallState → Bool
after_playback_started agent_released = true
after_playback_started s = is_terminal s

abbrev after_playback_completed : CallState → Bool
after_playback_completed completed = true
after_playback_completed failed = true
after_playback_completed _ = false

-- The transition tests of the trigger, for two different states.
unfoldable pub may_follow : CallState → CallState → Bool
may_follow completed s = false
may_follow failed s = false
may_follow canceled s = false
may_follow voicemail_drop_requested s = after_drop_requested s
may_follow voicemail_playback_started s = after_playback_started s
may_follow agent_released s = is_terminal s
may_follow voicemail_playback_completed s = after_playback_completed s
may_follow _ s = true

-- The row as the trigger writes it where the old row is locked.
abbrev pub keep_locked : Call → Call → Call
keep_locked old new = record new {
  state = old.state;
  outcome = old.outcome;
  manual_status_locked_at = old.manual_status_locked_at;
  manual_status_locked_by_user_id = old.manual_status_locked_by_user_id;
}

unfoldable pub enforce_call_state_progression : Call → Call → Option Call
enforce_call_state_progression old new =
    if is_some old.manual_status_locked_at
    then some (keep_locked old new)
    else if is_some new.manual_status_locked_at
    then (if not (is_terminal new.state) || is_none new.outcome then none else some new)
    else if same_state new.state old.state || may_follow old.state new.state
    then some new
    else none

-- What the trigger lets through: a locked row keeps its result, and any other is written as the
-- statement has it.
pub enforce-cases :
    (old new c : Call)
    → enforce_call_state_progression old new ≡ some c
    → ((is_some old.manual_status_locked_at ≡ true) × (c ≡ keep_locked old new))
      ⊎ ((is_some old.manual_status_locked_at ≡ false)
          × (c ≡ new)
          × ((is_some new.manual_status_locked_at ≡ true)
              ⊎ ((same_state new.state old.state || may_follow old.state new.state) ≡ true)))
unfolding enforce_call_state_progression
enforce-cases old new c e = ground arith

-- `update calls set ... where ...`, for a statement that sets the state.
unfoldable pub guard_rows : (Call → Bool) → (Call → Call) → List Call → Option (List Call)
unfolding enforce_call_state_progression
guard_rows p f [] = some []
guard_rows p f (c ∷ cs) = guard_rows p f cs >>= λ cs'.
    (if p c then enforce_call_state_progression c (f c) else some c) >>= λ c'. some (c' ∷ cs')

unfoldable pub update_calls : (Call → Bool) → (Call → Call) → Db → Option Db
unfolding guard_rows
update_calls p f db = guard_rows p f db.calls >>= λ cs. some (record db { calls = cs })
