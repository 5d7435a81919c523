-- ===== src/Calls/History/Starts.antt =====
-- The start of a call, as steps of the table of calls.
use outbound_freeswitch_dial.Prelude.{
  Bool, ℕ, ◌≡◌, refl, sym, subst, true, false, ◌&&◌, Option, none, some, List, All, any, arith,
  Text, ==_iff,
}
use outbound_freeswitch_dial.Calls.Schema.{
  Call, CallEvent, agent_ringing, Db, has_id, is_id, insert_event,
}
use outbound_freeswitch_dial.Calls.Progression.{update_calls}
use outbound_freeswitch_dial.Calls.Availability.{occupies}
use outbound_freeswitch_dial.Calls.Rows.{Rows}
use outbound_freeswitch_dial.Calls.Events.{not_terminal, move_to}
use outbound_freeswitch_dial.Calls.Creation.{
  done, CreateConfig, CreateInput, end_wrap_up, new_call, create_dialer_call, originate_queued,
  or_keep, holds_contact,
}
use outbound_freeswitch_dial.Calls.Creation.Admission.{create_dialer_call-Parts}
use outbound_freeswitch_dial.Calls.History.{IsConsistent, Evolves, IsValid}
use outbound_freeswitch_dial.Calls.History.Updates.{update-Evolves, move_to-Evolves}
use outbound_freeswitch_dial.Calls.History.Table.{Sound, append-Sound}
use outbound_freeswitch_dial.Calls.History.Handlers.{unchanged, All_top}

-- The contact of a call that went through is not held by another one.
holds_contact-new :
    (o : Option ℕ) (cs : List Call)
    → any (holds_contact o) cs ≡ false
    → (k : ℕ) → is_id o k ≡ true
    → any (holds_contact (some k)) cs ≡ false
holds_contact-new none cs h k e = cc
holds_contact-new (some m) cs h k e =
    subst (λ j. any (holds_contact (some j)) cs ≡ false) (ground (arith, ==_iff m k)) h

-- A new call, with an id that no call has.
pub creation-step :
    (locked : ℕ → Bool) (now n : ℕ) (cfg : CreateConfig) (i : CreateInput) (db db' : Db)
    {campaign : ℕ}
    → IsValid db
    → any (has_id n) db.calls ≡ false
    → create_dialer_call locked now n cfg i db ≡ done (db', campaign)
    → Sound db db'
unfolding end_wrap_up new_call
creation-step locked now n cfg i db db' {campaign} v fresh e =
    let parts = create_dialer_call-Parts locked now n cfg i db db' {campaign = campaign} e in
    let put = parts.inserted in
    append-Sound db db' (new_call now n cfg i parts.context (end_wrap_up now i.agent_id db)) v
      (record {
        terminal_ended = refl;
        outcome_ended = refl;
        locked_ended = λ h. h;
        never_stored = refl;
      })
      fresh
      (λ a h.
        subst (λ m. any (occupies m) db.calls ≡ false) (ground (arith, ==_iff i.agent_id a))
          put.idle_agent)
      (λ k h. holds_contact-new parts.context.contact_id db.calls put.free_contact k (ground arith))
      put.calls

event_row-calls : (e : CallEvent) (db : Db) → (insert_event e db).calls ≡ db.calls
unfolding insert_event
event_row-calls e db = ground arith

kept-step :
    (now n : ℕ) (db : Db) (o : Option Db)
    → All IsConsistent db.calls
    → update_calls (λ c. has_id n c && not_terminal c.state) (move_to now agent_ringing) db ≡ o
    → Rows Evolves db.calls (or_keep db o).0.calls
kept-step now n db none v e = unchanged db.calls v
kept-step now n db (some db') v e =
    update-Evolves (λ c. has_id n c && not_terminal c.state) (move_to now agent_ringing)
      (λ c. Unit {0}) db db'
      (λ c c' k q hit g.
        move_to-Evolves c c' k now agent_ringing refl refl (ground (arith, k.terminal_ended)) g)
      v (All_top db.calls) e

-- The writes after FreeSWITCH queued the originate.
pub originate-step :
    (now n : ℕ) (e : CallEvent) (agent_leg customer_leg : Text) (db : Db)
    → All IsConsistent db.calls
    → Rows Evolves db.calls (originate_queued now n e agent_leg customer_leg db).0.calls
unfolding originate_queued
originate-step now n e agent_leg customer_leg db v =
    let same = event_row-calls e _ in
    subst (λ cs. Rows Evolves cs (originate_queued now n e agent_leg customer_leg db).0.calls) same
      (kept-step now n _ _ (subst (All IsConsistent) (sym same) v) refl)
