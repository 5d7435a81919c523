-- ===== src/Calls/Events/Order.antt =====
-- The events of FreeSWITCH in any order.
use outbound_freeswitch_dial.Prelude.{
  ℕ, update_where, if-cases, ◌≡◌, inl, inr, refl, sym, subst, ◌∙◌, ap, Bool, true, not, ◌&&◌, ◌||◌,
  Option, none, some, List, [], ◌∷◌, All, arith, is_some, Text, leb, if◌then◌else◌, Bool-cases,
}
use mathlib.Core.Option.{some-injective}
use outbound_freeswitch_dial.Calls.Schema.{
  CallState, created, agent_ringing, agent_answered, customer_dialing, customer_ringing, bridged,
  Call, Db, insert_event, ◌>>=◌,
}
use outbound_freeswitch_dial.Calls.Progression.{
  enforce_call_state_progression, enforce-cases, same_state, may_follow, update_calls,
}
use outbound_freeswitch_dial.Calls.Rows.{
  Rows, Rows-refl, Rows-map, Guarded, update_calls-Rows, guard_rows-allowed,
}
use outbound_freeswitch_dial.Calls.Events.{
  TaggedEvent, persist_generic_event, persist_tagged_event, update_leg, move_call,
  generic_event-move, misses_call, repeats_uuid, move_to, bridge, open_in, not_terminal,
  before_dialing, before_ringing, before_agent_answers, before_bridge, leg_of, move_leg,
}

-- How far a call has come; a voicemail drop and an end are the last stage.
abbrev pub stage : CallState → ℕ
stage created = 0
stage agent_ringing = 1
stage agent_answered = 2
stage customer_dialing = 3
stage customer_ringing = 4
stage bridged = 5
stage _ = 6

-- A row after an event: as far or further, with the same end, result and answer.
pub record Forward (c c' : Call) : Type 0 where
  pub no_way_back : leb (stage c.state) (stage c'.state) ≡ true
  pub same_end : c'.ended_at ≡ c.ended_at
  pub same_outcome : c'.outcome ≡ c.outcome
  pub same_answer : is_some c.answered_at ≡ true → c'.answered_at ≡ c.answered_at

Forward-refl : (c : Call) → Forward c c
Forward-refl c = ground arith

leb_refl : (n : ℕ) → leb n n ≡ true
leb_refl n = ground arith

-- The trigger lets a row through that goes forward, or keeps what is locked.
allowed-Forward :
    (new c c' : Call)
    → leb (stage c.state) (stage new.state) ≡ true
    → new.ended_at ≡ c.ended_at
    → new.outcome ≡ c.outcome
    → (is_some c.answered_at ≡ true → new.answered_at ≡ c.answered_at)
    → enforce_call_state_progression c new ≡ some c'
    → Forward c c'
allowed-Forward new c c' f e o a h = elim (enforce-cases c new c' h) [
  | inl (lock, kept) ↦ subst (Forward c) (sym kept) (record {
    no_way_back = leb_refl (stage c.state);
    same_end = e;
    same_outcome = refl;
    same_answer = a;
  })
  | inr (free, written, why) ↦
      subst (Forward c) (sym written)
        (record { no_way_back = f; same_end = e; same_outcome = o; same_answer = a })
]

bridge-stage :
    (s : CallState) → leb (stage s) (stage (if before_bridge s then bridged else s)) ≡ true
bridge-stage s = ground arith

move_to-Forward :
    (now n : ℕ) (p : CallState → Bool) (s : CallState)
    → ((t : CallState) → p t ≡ true → leb (stage t) (stage s) ≡ true)
    → (c c' : Call) → Guarded (open_in p n) (move_to now s) c c'
    → Forward c c'
move_to-Forward now n p s h c c' g = elim (Bool-cases (open_in p n c)) [
  | inr miss ↦ subst (Forward c) (some-injective c c' (rw miss at g)) (Forward-refl c)
  | inl hit ↦
      let further : leb (stage c.state) (stage s) ≡ true = h c.state (ground arith) in
      allowed-Forward (move_to now s c) c c' further refl refl (λ e. refl) (rw hit at g)
]

bridge-Forward :
    (now n : ℕ) (c c' : Call) → Guarded (open_in not_terminal n) (bridge now) c c' → Forward c c'
bridge-Forward now n c c' g = elim (Bool-cases (open_in not_terminal n c)) [
  | inr miss ↦ subst (Forward c) (some-injective c c' (rw miss at g)) (Forward-refl c)
  | inl hit ↦
      allowed-Forward (bridge now c) c c' (bridge-stage c.state) refl refl (λ e. ground arith)
        (rw hit at g)
]

update_calls-Forward :
    (p : Call → Bool) (f : Call → Call) (db db' : Db)
    → ((c c' : Call) → Guarded p f c c' → Forward c c')
    → update_calls p f db ≡ some db'
    → Rows Forward db.calls db'.calls
update_calls-Forward p f db db' h e =
    Rows-map (Guarded p f) Forward h db.calls db'.calls (update_calls-Rows p f db db' e).0

row-Forward :
    (now n : ℕ) (p : CallState → Bool) (s : CallState) (db db' : Db)
    → ((t : CallState) → p t ≡ true → leb (stage t) (stage s) ≡ true)
    → update_calls (open_in p n) (move_to now s) db ≡ some db'
    → Rows Forward db.calls db'.calls
row-Forward now n p s db db' h e =
    update_calls-Forward (open_in p n) (move_to now s) db db' (move_to-Forward now n p s h) e

move_call-Forward :
    (now : ℕ) (e : TaggedEvent) (db db' : Db)
    → move_call now e db ≡ some db'
    → Rows Forward db.calls db'.calls
unfolding move_call
move_call-Forward now e db db' h = ground (
  arith,
  row-Forward now e.call_id before_dialing customer_dialing db db' (λ t k. ground arith),
  row-Forward now e.call_id before_ringing customer_ringing db db' (λ t k. ground arith),
  row-Forward now e.call_id before_agent_answers agent_answered db db' (λ t k. ground arith),
  update_calls-Forward (open_in not_terminal e.call_id) (bridge now) db db'
      (bridge-Forward now e.call_id),
  Rows-refl Forward Forward-refl db.calls,
)

-- A channel event, whichever and whenever it comes, moves no call back: every row is at the same
-- stage or a later one, and keeps its end, its outcome and its first time of answer.
pub events_never_move_back :
    (now : ℕ) (e : TaggedEvent) (db : Db) {db' : Db}
    → persist_generic_event now e db ≡ some db'
    → Rows Forward db.calls db'.calls
events_never_move_back now e db {db'} h =
    let (d, same, moved) = generic_event-move now e db db' h in
    subst (λ cs. Rows Forward cs db'.calls) same (move_call-Forward now e d db' moved)

move_to-allowed :
    (now n : ℕ) (p : CallState → Bool) (s : CallState)
    → ((t : CallState) → p t ≡ true → (same_state s t || may_follow t s) ≡ true)
    → (c : Call) → open_in p n c ≡ true
    → is_some (enforce_call_state_progression c (move_to now s c)) ≡ true
unfolding enforce_call_state_progression
move_to-allowed now n p s h c e = ground (arith, h c.state)

bridge-way :
    (t : CallState)
    → (same_state (if before_bridge t then bridged else t) t
        || may_follow t (if before_bridge t then bridged else t))
      ≡ true
unfolding same_state may_follow
bridge-way t = ground arith

bridge-allowed :
    (now : ℕ) (c : Call) → is_some (enforce_call_state_progression c (bridge now c)) ≡ true
unfolding enforce_call_state_progression
bridge-allowed now c = ground (arith, bridge-way c.state)

update-allowed :
    (p : Call → Bool) (f : Call → Call) (db : Db)
    → ((c : Call) → p c ≡ true → is_some (enforce_call_state_progression c (f c)) ≡ true)
    → is_some (update_calls p f db) ≡ true
unfolding update_calls
update-allowed p f db h = ground (arith, guard_rows-allowed p f db.calls (every db.calls))
  where
    every :
        (cs : List Call)
        → All (λ c. p c ≡ true → is_some (enforce_call_state_progression c (f c)) ≡ true) cs
    every [] = tt
    every (c ∷ cs) = (h c, every cs)

row-allowed :
    (now n : ℕ) (p : CallState → Bool) (s : CallState) (db : Db)
    → ((t : CallState) → p t ≡ true → (same_state s t || may_follow t s) ≡ true)
    → is_some (update_calls (open_in p n) (move_to now s) db) ≡ true
row-allowed now n p s db h =
    update-allowed (open_in p n) (move_to now s) db (move_to-allowed now n p s h)

dialing_way :
    (t : CallState)
    → before_dialing t ≡ true
    → (same_state customer_dialing t || may_follow t customer_dialing) ≡ true
unfolding same_state may_follow
dialing_way t h = ground arith

ringing_way :
    (t : CallState)
    → before_ringing t ≡ true
    → (same_state customer_ringing t || may_follow t customer_ringing) ≡ true
unfolding same_state may_follow
ringing_way t h = ground arith

agent_way :
    (t : CallState)
    → before_agent_answers t ≡ true
    → (same_state agent_answered t || may_follow t agent_answered) ≡ true
unfolding same_state may_follow
agent_way t h = ground arith

move_call-allowed : (now : ℕ) (e : TaggedEvent) (db : Db) → is_some (move_call now e db) ≡ true
unfolding move_call
move_call-allowed now e db = ground (
  arith,
  row-allowed now e.call_id before_dialing customer_dialing db dialing_way,
  row-allowed now e.call_id before_ringing customer_ringing db ringing_way,
  row-allowed now e.call_id before_agent_answers agent_answered db agent_way,
  update-allowed (open_in not_terminal e.call_id) (bridge now) db (λ c h. bridge-allowed now c),
)

stored-legs :
    (e : TaggedEvent) (db db' : Db) → persist_tagged_event e db ≡ some db' → db'.legs ≡ db.legs
unfolding persist_tagged_event insert_event
stored-legs e db db' h = ground arith

tagged-commits :
    (e : TaggedEvent) (db : Db) → is_some (persist_tagged_event e db) ≡ not (misses_call e db)
unfolding persist_tagged_event
tagged-commits e db = ground arith

leg-commits :
    (now : ℕ) (e : TaggedEvent) (u : Option Text) (db : Db)
    → is_some (update_leg now e u db >>= move_call now e) ≡ not (repeats_uuid e u db.legs)
unfolding update_leg
leg-commits now e none db = move_call-allowed now e db
leg-commits now e (some u) db =
    let b = repeats_uuid e (some u) db.legs in
    let moved = record db {
      legs = update_where (leg_of e.call_id e.leg_type) (move_leg now e u) db.legs;
    } in
    if-cases (λ o. is_some (o >>= move_call now e) ≡ not b) b none (some moved)
      (λ h. ap not (sym h)) (λ h. move_call-allowed now e moved ∙ ap not (sym h))

-- The writes of a channel event go through unless a key refuses them: the event is new and its call
-- is not there, or a leg would get a uuid that another has. The trigger raises for none of them.
pub events_commit_unless_a_key_fails :
    (now : ℕ) (e : TaggedEvent) (db : Db)
    → is_some (persist_generic_event now e db)
      ≡ (not (misses_call e db) && not (repeats_uuid e e.leg_uuid db.legs))
unfolding persist_generic_event
events_commit_unless_a_key_fails now e db = by_stored (persist_tagged_event e db) refl
  where
    by_stored :
        (o : Option Db)
        → persist_tagged_event e db ≡ o
        → is_some (o >>= λ told. update_leg now e e.leg_uuid told >>= move_call now e)
          ≡ (not (misses_call e db) && not (repeats_uuid e e.leg_uuid db.legs))
    by_stored none h = ground (arith, tagged-commits e db, ap is_some h)
    by_stored (some d) h =
        let there : not (misses_call e db) ≡ true = sym (tagged-commits e db) ∙ ap is_some h in
        leg-commits now e e.leg_uuid d
        ∙ ap (λ ls. not (repeats_uuid e e.leg_uuid ls)) (stored-legs e db d h)
        ∙ ground (arith, there)
