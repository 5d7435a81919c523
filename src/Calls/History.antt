-- ===== src/Calls/History.antt =====
-- What every handler keeps of a call row: a call is open or closed as a whole, it closes once, and
-- a result that was locked by hand stays.
pub mod Updates
pub mod Table
pub mod Handlers
pub mod Starts
pub mod Ends
pub mod Drops
pub mod Single
pub mod Reach
pub mod Totality
use outbound_freeswitch_dial.Prelude.{
  ℕ, ◌≡◌, ◌⊎◌, refl, Bool, true, false, Option, none, some, List, [], ◌∷◌, All, any, arith, ◌||◌,
  is_some, ◌∙◌,
}
use outbound_freeswitch_dial.Calls.Schema.{
  CallState, voicemail_playback_completed, CallOutcome, Call, Db, is_terminal, is_agent_released,
  has_id,
}
use outbound_freeswitch_dial.Calls.Availability.{occupies}
use outbound_freeswitch_dial.Calls.Creation.{holds_contact}
use outbound_freeswitch_dial.Calls.Rows.{Rows, KeepsId}

-- The state that a played message has in events only.
abbrev pub is_playback_completed : CallState → Bool
is_playback_completed voicemail_playback_completed = true
is_playback_completed _ = false

-- The state is terminal, an outcome is there and `ended_at` is set, or none of the three.
pub record IsConsistent (c : Call) : Type 0 where
  pub terminal_ended : is_terminal c.state ≡ is_some c.ended_at
  pub outcome_ended : is_some c.outcome ≡ is_some c.ended_at
  pub locked_ended : is_some c.manual_status_locked_at ≡ true → is_some c.ended_at ≡ true
  pub never_stored : is_playback_completed c.state ≡ false

-- The call does not occupy its agent any more.
abbrev pub is_off : CallState → Bool
is_off s = is_agent_released s || is_terminal s

-- What a later version of a row owes to an earlier one.
pub record Later (c c' : Call) : Type 0 where
  pub same_id : c'.id ≡ c.id
  pub same_agent : c'.agent_id ≡ c.agent_id
  pub same_contact : c'.contact_id ≡ c.contact_id
  pub stays_off : is_off c.state ≡ true → is_off c'.state ≡ true
  pub same_end : is_some c.ended_at ≡ true → c'.ended_at ≡ c.ended_at
  pub same_result :
      is_some c.ended_at ≡ true
      → ((c'.state ≡ c.state) × (c'.outcome ≡ c.outcome))
        ⊎ ((is_some c.manual_status_locked_at ≡ false)
            × (is_some c'.manual_status_locked_at ≡ true))
  pub same_lock :
      is_some c.manual_status_locked_at ≡ true
      → (c'.state ≡ c.state)
        × (c'.outcome ≡ c.outcome)
        × (c'.manual_status_locked_at ≡ c.manual_status_locked_at)

pub Later-refl : (c : Call) → Later c c
Later-refl c = ground arith

pub Later-trans : (a b c : Call) → Later a b → Later b c → Later a c
Later-trans a b c p q = ground arith

-- The primary key.
abbrev pub Distinct : List Call → Type 0
Distinct [] = Unit
Distinct (c ∷ cs) = (any (has_id c.id) cs ≡ false) × Distinct cs

abbrev pub AtMostOne : (Call → Bool) → List Call → Type 0
AtMostOne p [] = Unit
AtMostOne p (c ∷ cs) = (p c ≡ true → any p cs ≡ false) × AtMostOne p cs

-- `one_per_agent` and `one_per_contact` are the two partial unique indexes on the active calls.
pub record IsValid (db : Db) : Type 0 where
  pub consistent : All IsConsistent db.calls
  pub distinct : Distinct db.calls
  pub one_per_agent : (a : ℕ) → AtMostOne (occupies a) db.calls
  pub one_per_contact : (k : ℕ) → AtMostOne (holds_contact (some k)) db.calls

abbrev pub Evolves : Call → Call → Type 0
Evolves c c' = IsConsistent c' × Later c c'
