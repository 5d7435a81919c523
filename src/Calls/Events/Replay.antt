-- ===== src/Calls/Events/Replay.antt =====
-- Replayed channel events of apps/api/src/esl-events.ts.
use outbound_freeswitch_dial.Prelude.{
  ℕ, ◌≡◌, sym, ◌∙◌, ap, Bool, true, Option, none, some, List, [], ◌∷◌, ◌++◌, any, arith, Text,
  text_eq_refl,
}
use mathlib.Core.Option.{some-injective}
use outbound_freeswitch_dial.Calls.Schema.{
  agent_answered, customer_dialing, customer_ringing, Call, CallEvent, Db, insert_event, same_uuid,
  find_call, ◌>>=◌, bind-eq-some,
}
use outbound_freeswitch_dial.Calls.Progression.{update_calls}
use outbound_freeswitch_dial.Calls.Rows.{update_calls-Rows}
use outbound_freeswitch_dial.Calls.Events.{
  TaggedEvent, persist_generic_event, persist_tagged_event, tagged_row, update_leg, move_call,
  move_to, bridge, open_in, not_terminal, before_dialing, before_ringing, before_agent_answers,
}

any-last :
    (p : CallEvent → Bool) (es : List CallEvent) (e : CallEvent)
    → p e ≡ true
    → any p (es ++ e ∷ []) ≡ true
any-last p [] e h = ground arith
any-last p (x ∷ xs) e h = ground (arith, any-last p xs e h)

abbrev has_event : Text → Db → Bool
has_event u db = any (same_uuid (some u)) db.events

any-stays :
    (p : CallEvent → Bool) (es : List CallEvent) (e : CallEvent)
    → any p es ≡ true
    → any p (es ++ e ∷ []) ≡ true
any-stays p [] e h = ground arith
any-stays p (x ∷ xs) e h = ground (arith, any-stays p xs e)

-- An event that is stored stays stored, and its own store stores it.
tagged-stays :
    (u : Text) (e : TaggedEvent) (db db' : Db)
    → has_event u db ≡ true
    → persist_tagged_event e db ≡ some db'
    → has_event u db' ≡ true
unfolding persist_tagged_event insert_event
tagged-stays u e db db' h k =
    ground (arith, any-stays (same_uuid (some u)) db.events (tagged_row e (find_call e.call_id db)))

tagged-stores :
    (u : Text) (e : TaggedEvent) (db db' : Db)
    → e.event_uuid ≡ some u
    → persist_tagged_event e db ≡ some db'
    → has_event u db' ≡ true
unfolding persist_tagged_event insert_event
tagged-stores u e db db' i k = ground (
  arith,
  text_eq_refl u,
  any-last (same_uuid (some u)) db.events (tagged_row e (find_call e.call_id db)),
)

tagged-skips :
    (u : Text) (e : TaggedEvent) (db db' : Db)
    → e.event_uuid ≡ some u
    → has_event u db ≡ true
    → persist_tagged_event e db ≡ some db'
    → db'.events ≡ db.events
unfolding persist_tagged_event insert_event
tagged-skips u e db db' i h k = ground arith

update-events :
    (p : Call → Bool) (f : Call → Call) (db db' : Db)
    → update_calls p f db ≡ some db'
    → db'.events ≡ db.events
update-events p f db db' e = ap (λ (d : Db). d.events) (update_calls-Rows p f db db' e).1

move_call-events :
    (now : ℕ) (e : TaggedEvent) (db db' : Db)
    → move_call now e db ≡ some db'
    → db'.events ≡ db.events
unfolding move_call
move_call-events now e db db' h = ground (
  arith,
  update-events (open_in before_dialing e.call_id) (move_to now customer_dialing) db db',
  update-events (open_in before_ringing e.call_id) (move_to now customer_ringing) db db',
  update-events (open_in before_agent_answers e.call_id) (move_to now agent_answered) db db',
  update-events (open_in not_terminal e.call_id) (bridge now) db db',
)

leg-events :
    (now : ℕ) (e : TaggedEvent) (u : Option Text) (db db' : Db)
    → update_leg now e u db ≡ some db'
    → db'.events ≡ db.events
unfolding update_leg
leg-events now e none db db' h = ground arith
leg-events now e (some u) db db' h = ground arith

-- The events after a channel event are those after its store.
generic_event-stored :
    (now : ℕ) (e : TaggedEvent) (db db' : Db)
    → persist_generic_event now e db ≡ some db'
    → (a : Db) × (persist_tagged_event e db ≡ some a) × (db'.events ≡ a.events)
unfolding persist_generic_event
generic_event-stored now e db db' h =
    let (a, told, more) = bind-eq-some (persist_tagged_event e db) _ h in
    let (b, moved, last) = bind-eq-some (update_leg now e e.leg_uuid a) (move_call now e) more in
    (a, told, move_call-events now e b db' last ∙ leg-events now e e.leg_uuid a b moved)

-- Channel events, one after another.
unfoldable pub hear_all : List (ℕ × TaggedEvent) → Db → Option Db
unfolding persist_generic_event
hear_all [] db = some db
hear_all ((now, e) ∷ es) db = persist_generic_event now e db >>= hear_all es

hear_all-stays :
    (u : Text) (es : List (ℕ × TaggedEvent)) (db db' : Db)
    → has_event u db ≡ true
    → hear_all es db ≡ some db'
    → has_event u db' ≡ true
unfolding hear_all
hear_all-stays u [] db db' h k = ap (has_event u) (sym (some-injective db db' k)) ∙ h
hear_all-stays u ((now, e) ∷ es) db db' h k =
    let (d, heard, more) = bind-eq-some (persist_generic_event now e db) (hear_all es) k in
    let (a, told, same) = generic_event-stored now e db d heard in
    hear_all-stays u es d db' (ap (any (same_uuid (some u))) same ∙ tagged-stays u e db a h told)
      more

-- A channel event that carries its uuid is stored once: once it was heard, and after any further
-- channel events, its replay leaves the stored events as they are.
pub replayed_event_is_stored_once :
    (now later : ℕ) (e : TaggedEvent) (u : Text) (es : List (ℕ × TaggedEvent)) (db a b c : Db)
    → e.event_uuid ≡ some u
    → persist_generic_event now e db ≡ some a
    → hear_all es a ≡ some b
    → persist_generic_event later e b ≡ some c
    → c.events ≡ b.events
replayed_event_is_stored_once now later e u es db a b c i first between again =
    let (d, told, same) = generic_event-stored now e db a first in
    let (f, retold, same') = generic_event-stored later e b c again in
    let there =
      hear_all-stays u es a b (ap (any (same_uuid (some u))) same ∙ tagged-stores u e db d i told)
        between in
    same' ∙ tagged-skips u e b f i there retold
