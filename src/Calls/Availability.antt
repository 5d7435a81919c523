-- ===== src/Calls/Availability.antt =====
-- apps/api/src/agent-availability.ts.
use outbound_freeswitch_dial.Prelude.{
  ℕ, Bool, true, false, not, ◌&&◌, ◌||◌, Option, none, some, List, any, find, update_where, ◌==◌,
  if◌then◌else◌, is_none,
}
use outbound_freeswitch_dial.Calls.Schema.{
  Call, Agent, offline, ready, Availability, available, paused, wrap_up, Db, is_terminal,
  is_agent_released, is_id, is_paused,
}

pub record AgentAvailability : Type 0 where
  pub status : Availability
  pub wrap_up_until : Option ℕ

abbrev is_wrap_up : Availability → Bool
is_wrap_up wrap_up = true
is_wrap_up _ = false

abbrev map_agent_availability : Option Agent → AgentAvailability
map_agent_availability none = record { status = available; wrap_up_until = none }
map_agent_availability (some a) = record {
  status = a.availability_status;
  wrap_up_until = a.wrap_up_until;
}

abbrev has_user : ℕ → Agent → Bool
has_user u a = a.user_id == u

-- `now` is the timestamp of the transaction.
unfoldable pub get_agent_availability : ℕ → ℕ → Db → Db × AgentAvailability
get_agent_availability now user_id db =
    let agents =
      update_where (λ (a : Agent). has_user user_id a && is_wrap_up a.availability_status)
        (λ a. record a { availability_status = available; wrap_up_until = none; updated_at = now })
        db.agents in
    (record db { agents = agents }, map_agent_availability (find (has_user user_id) agents))

-- `status` is `available` or `paused`: its type excludes `wrap_up`.
unfoldable pub set_agent_availability : ℕ → ℕ → Availability → Db → Db × Option AgentAvailability
set_agent_availability now agent_id status db =
    let agents =
      update_where (λ (a : Agent). a.id == agent_id)
        (λ a. record a { availability_status = status; wrap_up_until = none; updated_at = now })
        db.agents in
    let updated = find (λ (a : Agent). a.id == agent_id) agents in
    (
      record db { agents = agents },
      elim updated [ none ↦ none | some a ↦ some (map_agent_availability (some a)) ],
    )

-- A call of this agent that has not ended and has not released the agent.
abbrev pub occupies : ℕ → Call → Bool
occupies agent_id c =
    is_id c.agent_id agent_id
    && is_none c.ended_at
    && not (is_terminal c.state || is_agent_released c.state)

abbrev pub released_agent : ℕ → Agent → Agent
released_agent now a = record a {
  status = if a.registered then ready else offline;
  availability_status = if is_paused a.availability_status then paused else available;
  wrap_up_until = none;
  updated_at = now;
}

abbrev pub to_free : ℕ → List Call → Agent → Bool
to_free agent_id calls a = a.id == agent_id && not (any (occupies a.id) calls)

unfoldable pub finish_agent_call : ℕ → ℕ → Db → Db
finish_agent_call now agent_id db = record db {
  agents = update_where (to_free agent_id db.calls) (released_agent now) db.agents;
}
