-- ===== src/Calls/History/Updates.antt =====
-- Each update of a call that the handlers make, as the trigger lets it through.
use outbound_freeswitch_dial.Prelude.{
  ℕ, ◌≡◌, inl, inr, subst, Bool, true, false, ◌||◌, Option, some, All, arith, is_some, is_none,
  Text, Bool-cases,
}
use mathlib.Core.Option.{some-injective}
use outbound_freeswitch_dial.Calls.Schema.{
  CallState, voicemail_drop_requested, voicemail_playback_started, CallOutcome, agent_released,
  completed, Call, Db, is_terminal,
}
use outbound_freeswitch_dial.Calls.Progression.{
  enforce_call_state_progression, enforce-cases, same_state, may_follow, update_calls,
}
use outbound_freeswitch_dial.Calls.Rows.{Rows, Rows-map, Rows-and_All, Guarded, update_calls-Rows}
use outbound_freeswitch_dial.Calls.Finalization.{Decision, Terminal, close_call}
use outbound_freeswitch_dial.Calls.Events.{move_to, bridge}
use outbound_freeswitch_dial.Calls.Voicemail.{
  may_start_playback, start_playback, complete_call, abort_call, release_call, IncompleteInput,
}
use outbound_freeswitch_dial.Calls.Drop.{request_drop, give_back}
use outbound_freeswitch_dial.Calls.ManualStatus.{
  lock_status, ended_by_agent, terminal_state_for_outcome,
}
use outbound_freeswitch_dial.Calls.History.{
  IsConsistent, Later-refl, Evolves, is_off, is_playback_completed,
}

-- A state that a terminal one goes on to is itself.
passes_terminal :
    (s t : CallState) → is_terminal t ≡ true → (same_state s t || may_follow t s) ≡ true → s ≡ t
unfolding same_state may_follow
passes_terminal s t h p = ground arith

ends_plainly : (s : CallState) → is_terminal s ≡ true → is_playback_completed s ≡ false
ends_plainly s h = ground arith

passes_off :
    (s t : CallState)
    → is_off t ≡ true
    → (same_state s t || may_follow t s) ≡ true
    → is_off s ≡ true
unfolding same_state may_follow
passes_off s t h p = ground arith

passes_released :
    (s : CallState)
    → is_terminal s ≡ true
    → (same_state agent_released s || may_follow s agent_released) ≡ false
unfolding same_state may_follow
passes_released s h = ground arith

terminal_state_is_terminal : (o : CallOutcome) → is_terminal (terminal_state_for_outcome o) ≡ true
unfolding terminal_state_for_outcome
terminal_state_is_terminal o = ground arith

module _ (c c' : Call) (v : IsConsistent c) where
  pub close-Evolves :
      (clock : ℕ) (t : Option Terminal) (d : Decision)
      → is_terminal d.state ≡ true
      → enforce_call_state_progression c (close_call clock t d c) ≡ some c'
      → Evolves c c'
  close-Evolves clock t d h e = ground (
    arith,
    enforce-cases c (close_call clock t d c) c',
    ends_plainly d.state,
    passes_off d.state c.state,
    passes_terminal d.state c.state,
  )

  pub move_to-Evolves :
      (now : ℕ) (s : CallState)
      → is_terminal s ≡ false
      → is_playback_completed s ≡ false
      → is_none c.ended_at ≡ true
      → enforce_call_state_progression c (move_to now s c) ≡ some c'
      → Evolves c c'
  move_to-Evolves now s h w o e =
      ground (arith, enforce-cases c (move_to now s c) c', passes_off s c.state)

  pub bridge-Evolves :
      (now : ℕ)
      → is_none c.ended_at ≡ true
      → enforce_call_state_progression c (bridge now c) ≡ some c'
      → Evolves c c'
  bridge-Evolves now o e =
      ground (arith, enforce-cases c (bridge now c) c', passes_off (bridge now c).state c.state)

  pub complete-Evolves :
      (clock : ℕ) (at : Option ℕ) (name : Option Text) (source : Text)
      → is_none c.ended_at ≡ true
      → enforce_call_state_progression c (complete_call clock at name source c) ≡ some c'
      → Evolves c c'
  complete-Evolves clock at name source o e = ground (
    arith,
    enforce-cases c (complete_call clock at name source c) c',
    passes_off completed c.state,
  )

  pub abort-Evolves :
      (clock : ℕ) (i : IncompleteInput)
      → is_none c.ended_at ≡ true
      → enforce_call_state_progression c (abort_call clock i c) ≡ some c'
      → Evolves c c'
  abort-Evolves clock i o e = ground (
    arith,
    enforce-cases c (abort_call clock i c) c',
    passes_off (abort_call clock i c).state c.state,
  )

  pub release-Evolves :
      (now : ℕ) → enforce_call_state_progression c (release_call now c) ≡ some c' → Evolves c c'
  release-Evolves now e = ground (
    arith,
    enforce-cases c (release_call now c) c',
    passes_off agent_released c.state,
    passes_released c.state,
  )

  pub start_playback-Evolves :
      (now : ℕ)
      → is_none c.ended_at ≡ true
      → enforce_call_state_progression c (start_playback now c) ≡ some c'
      → may_start_playback c.state ≡ true
      → Evolves c c'
  start_playback-Evolves now h e m = ground (
    arith,
    enforce-cases c (start_playback now c) c',
    passes_off voicemail_playback_started c.state,
  )

  pub lock-Evolves :
      (clock user : ℕ) (o : CallOutcome)
      → is_some c.ended_at ≡ true
      → is_none c.manual_status_locked_at ≡ true
      → enforce_call_state_progression c (lock_status clock user o c) ≡ some c'
      → Evolves c c'
  lock-Evolves clock user o h l e = ground (
    arith,
    enforce-cases c (lock_status clock user o c) c',
    passes_off (terminal_state_for_outcome o) c.state,
    terminal_state_is_terminal o,
    ends_plainly (terminal_state_for_outcome o),
  )

  pub end-Evolves :
      (clock : ℕ) (o : CallOutcome)
      → is_none c.ended_at ≡ true
      → enforce_call_state_progression c (ended_by_agent clock o c) ≡ some c'
      → Evolves c c'
  end-Evolves clock o h e =
      ground (arith, enforce-cases c (ended_by_agent clock o c) c', passes_off completed c.state)

  pub request-Evolves :
      (now recording : ℕ)
      → is_none c.ended_at ≡ true
      → enforce_call_state_progression c (request_drop now recording c) ≡ some c'
      → Evolves c c'
  request-Evolves now recording h e = ground (
    arith,
    enforce-cases c (request_drop now recording c) c',
    passes_off voicemail_drop_requested c.state,
  )

  pub give_back-Evolves :
      (now : ℕ) (s : CallState)
      → is_terminal s ≡ false
      → is_playback_completed s ≡ false
      → is_none c.ended_at ≡ true
      → enforce_call_state_progression c (give_back now s c) ≡ some c'
      → Evolves c c'
  give_back-Evolves now s h w o e =
      ground (arith, enforce-cases c (give_back now s c) c', passes_off s c.state)

-- An update whose rows evolve makes the table evolve; `Q` is what is known of the rows it meets.
pub update-Evolves :
    (p : Call → Bool) (f : Call → Call) (Q : Call → Type 0) (db db' : Db)
    → ((c c' : Call)
        → IsConsistent c
        → Q c
        → p c ≡ true
        → enforce_call_state_progression c (f c) ≡ some c'
        → Evolves c c')
    → All IsConsistent db.calls
    → All Q db.calls
    → update_calls p f db ≡ some db'
    → Rows Evolves db.calls db'.calls
update-Evolves p f Q db db' h v q e =
    Rows-map (λ c c'. IsConsistent c × (Q c × Guarded p f c c')) Evolves
      (λ c c' k. row c c' k.0 k.1.0 k.1.1) db.calls db'.calls
      (Rows-and_All (λ c c'. Q c × Guarded p f c c') IsConsistent db.calls db'.calls
        (Rows-and_All (Guarded p f) Q db.calls db'.calls (update_calls-Rows p f db db' e).0 q) v)
  where
    row : (c c' : Call) → IsConsistent c → Q c → Guarded p f c c' → Evolves c c'
    row c c' k m g = elim (Bool-cases (p c)) [
      | inl hit ↦ h c c' k m hit (rw hit at g)
      | inr miss ↦ subst (Evolves c) (some-injective c c' (rw miss at g)) (k, Later-refl c)
    ]
