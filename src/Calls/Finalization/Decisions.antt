-- ===== src/Calls/Finalization/Decisions.antt =====
-- What finalization decides, and what its update of the call does to the row.
use outbound_freeswitch_dial.Prelude.{
  ℕ, ◌≡◌, inl, inr, true, ◌&&◌, Option, some, arith, is_some, coalesce, Bool-cases,
}
use outbound_freeswitch_dial.Calls.Schema.{Call, is_terminal}
use outbound_freeswitch_dial.Calls.Progression.{enforce_call_state_progression, enforce-cases}
use outbound_freeswitch_dial.Calls.Finalization.{
  Decision, FinalizeInput, Terminal, decide, is_finalized, close_call,
}

-- The resolver's state is a `TerminalCallState`, as its type says.
abbrev pub Resolves : FinalizeInput → Type 0
Resolves input = (c : Call) (d : Decision) → input.resolve c ≡ some d → is_terminal d.state ≡ true

-- The check constraint `calls_manual_status_lock_valid` of migration 023.
abbrev pub IsLockValid : Call → Type 0
IsLockValid c =
    is_some c.manual_status_locked_at ≡ true → (is_terminal c.state && is_some c.outcome) ≡ true

pub decide-terminal :
    (input : FinalizeInput) (c : Call) {d : Decision}
    → Resolves input
    → decide input c ≡ some d
    → is_terminal d.state ≡ true
unfolding decide
decide-terminal input c {d} r e = elim (Bool-cases (is_terminal c.state)) [
  | inl t ↦ ground (arith, r c)
  | inr t ↦ ground (arith, r c d)
]

-- The update closes the row that it is made for, locked or not.
pub guarded-close :
    (clock : ℕ) (t : Option Terminal) (d : Decision) (c c' : Call)
    → is_terminal d.state ≡ true
    → IsLockValid c
    → enforce_call_state_progression c (close_call clock t d c) ≡ some c'
    → (is_finalized c' ≡ true)
      × (c'.id ≡ c.id)
      × (c'.agent_id ≡ c.agent_id)
      × (c'.contact_id ≡ c.contact_id)
      × (c'.ended_at ≡ coalesce c.ended_at (some clock))
guarded-close clock t d c c' term lock e =
    ground (arith, enforce-cases c (close_call clock t d c) c')
