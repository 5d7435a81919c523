-- ===== src/Calls/History/Ends.antt =====
-- The handlers that end a voicemail drop, release the agent, correct a result or end a call by
-- hand, as steps of the table of calls.
use outbound_freeswitch_dial.Prelude.{
  ℕ, ◌≡◌, inl, inr, refl, sym, subst, ap, ◌∙◌, Bool, true, ◌&&◌, Option, none, some, All, find,
  update_where, arith, is_some, is_none, Text, Bool-cases, Option-cases,
}
use mathlib.Core.Option.{some-injective}
use outbound_freeswitch_dial.Calls.Schema.{
  Call, CallOutcome, CallEvent, agent, ContactStatus, Db, has_id, find_call,
  is_voicemail_drop_active, ◌>>=◌, bind-eq-some, insert_event, insert_lifecycle_event,
}
use outbound_freeswitch_dial.Calls.Progression.{update_calls, enforce_call_state_progression}
use outbound_freeswitch_dial.Calls.Availability.{finish_agent_call}
use outbound_freeswitch_dial.Calls.Rows.{Rows, All-find}
use outbound_freeswitch_dial.Calls.Events.{open_in, leg_of}
use outbound_freeswitch_dial.Calls.Finalization.{
  release_agent, end_leg, end_legs, lock_call_owner_agent, owned_by,
}
use outbound_freeswitch_dial.Calls.Voicemail.{
  settle_contact, complete_call, after_completed, finalize_completed_voicemail_playback,
  IncompleteInput, abort_call, after_incomplete, finalize_incomplete_voicemail_playback,
  release_call, release_agent_after_playback_starts,
}
use outbound_freeswitch_dial.Calls.ManualStatus.{
  ManualResult, lock_status, write_status, set_status_of_row, set_manual_call_status,
  ended_by_agent, may_end, end_row, end_dialer_call, infer_agent_end_outcome,
}
use outbound_freeswitch_dial.Calls.History.{IsConsistent, Evolves, IsValid}
use outbound_freeswitch_dial.Calls.History.Updates.{
  update-Evolves, complete-Evolves, abort-Evolves, release-Evolves, lock-Evolves, end-Evolves,
}
use outbound_freeswitch_dial.Calls.History.Table.{IsOnly, found-IsOnly}
use outbound_freeswitch_dial.Calls.History.Handlers.{unchanged, All_top}

-- The writes around the update of the call leave the calls alone.
pub after_completed-calls :
    (now : ℕ) (raw : Text) (leg : Option Text) (c : Call) (db : Db)
    → (after_completed now raw leg c db).calls ≡ db.calls
unfolding after_completed insert_lifecycle_event release_agent finish_agent_call
after_completed-calls now raw leg c db = ground arith

pub after_incomplete-calls :
    (now : ℕ) (i : IncompleteInput) (owner : Option ℕ) (db : Db)
    → (after_incomplete now i owner db).calls ≡ db.calls
unfolding after_incomplete insert_lifecycle_event release_agent finish_agent_call
after_incomplete-calls now i owner db = ground arith

pub lifecycle-calls : (e : CallEvent) (db : Db) → (insert_lifecycle_event e db).calls ≡ db.calls
unfolding insert_lifecycle_event
lifecycle-calls e db = ground arith

pub event-calls : (e : CallEvent) (db : Db) → (insert_event e db).calls ≡ db.calls
unfolding insert_event
event-calls e db = ground arith

pub agent-calls : (now : ℕ) (a : Option ℕ) (db : Db) → (release_agent now a db).calls ≡ db.calls
unfolding release_agent finish_agent_call
agent-calls now a db = ground arith

-- An update that other writes follow, which leave the calls alone.
pub updated-step :
    (p : Call → Bool) (f : Call → Call) (Q : Call → Type 0) (after : Db → Option Db) (db db' : Db)
    → ((c c' : Call)
        → IsConsistent c
        → Q c
        → p c ≡ true
        → enforce_call_state_progression c (f c) ≡ some c'
        → Evolves c c')
    → ((d d' : Db) → after d ≡ some d' → d'.calls ≡ d.calls)
    → All IsConsistent db.calls
    → All Q db.calls
    → (update_calls p f db >>= after) ≡ some db'
    → Rows Evolves db.calls db'.calls
updated-step p f Q after db db' h k v q e =
    let (db1, done, last) = bind-eq-some (update_calls p f db) after e in
    subst (Rows Evolves db.calls) (sym (k db1 db' last)) (update-Evolves p f Q db db1 h v q done)

settled-calls :
    (now : ℕ) (s : ContactStatus) (k : Option ℕ) (db : Db)
    → (settle_contact now s k db).calls ≡ db.calls
settled-calls now s none db = refl
settled-calls now s (some k) db = refl

-- The end of a message that was played to its end.
pub completed-step :
    (now clock n : ℕ) (leg : Option Text) (raw : Text) (at : Option ℕ) (name : Option Text)
    (source : Text) (db db' : Db)
    → All IsConsistent db.calls
    → finalize_completed_voicemail_playback now clock n leg raw at name source db ≡ some db'
    → Rows Evolves db.calls db'.calls
unfolding finalize_completed_voicemail_playback
completed-step now clock n leg raw at name source db db' v e =
    elim (Bool-cases (lock_call_owner_agent n none db).found) [
      | inr lost ↦ ground (arith, unchanged db.calls v)
      | inl held ↦ (elim (Option-cases (find (open_in is_voicemail_drop_active n) db.calls)) [
        | inl idle ↦ ground (arith, unchanged db.calls v)
        | inr (c, busy) ↦
            updated-step (open_in is_voicemail_drop_active n) (complete_call clock at name source)
              (λ c. Unit {0}) _ db db'
              (λ x x' k q hit g. complete-Evolves x x' k clock at name source (ground arith) g)
              (λ d d' g.
                let (y, found, last) = bind-eq-some (find_call n d) _ g in
                subst (λ (z : Db). z.calls ≡ d.calls)
                  (some-injective (after_completed now raw leg y d) d' last)
                  (after_completed-calls now raw leg y d))
              v (All_top db.calls) (rw (held, busy) at e)
      ])
    ]

-- The end of a message that was cut short.
pub incomplete-step :
    (now clock : ℕ) (i : IncompleteInput) (db db' : Db)
    → All IsConsistent db.calls
    → finalize_incomplete_voicemail_playback now clock i db ≡ some db'
    → Rows Evolves db.calls db'.calls
unfolding finalize_incomplete_voicemail_playback
incomplete-step now clock i db db' v e =
    let owner = lock_call_owner_agent i.call_id none db in
    elim (Bool-cases owner.found) [
      | inr lost ↦ ground (arith, unchanged db.calls v)
      | inl held ↦
          (elim (Bool-cases
            (is_none (find (open_in is_voicemail_drop_active i.call_id) db.calls))) [
              | inl idle ↦ ground (arith, unchanged db.calls v)
              | inr busy ↦
                  updated-step (open_in is_voicemail_drop_active i.call_id) (abort_call clock i)
                    (λ c. Unit {0}) _ db db'
                    (λ x x' k q hit g. abort-Evolves x x' k clock i (ground arith) g)
                    (λ d d' g.
                      subst (λ (z : Db). z.calls ≡ d.calls)
                        (some-injective (after_incomplete now i owner.agent_id d) d' g)
                        (after_incomplete-calls now i owner.agent_id d))
                    v (All_top db.calls) (rw (held, busy) at e)
            ])
    ]

-- The release of the agent while the message plays.
pub release-step :
    (now n : ℕ) (agent_leg customer_leg : Option Text) (raw : Text) (db db' : Db)
    → All IsConsistent db.calls
    → release_agent_after_playback_starts now n agent_leg customer_leg raw db ≡ some db'
    → Rows Evolves db.calls db'.calls
unfolding release_agent_after_playback_starts
release-step now n agent_leg customer_leg raw db db' v e =
    let owner = lock_call_owner_agent n none db in
    elim (Bool-cases owner.found) [
      | inr lost ↦ ground (arith, unchanged db.calls v)
      | inl held ↦
          (elim (Bool-cases (is_none (find (open_in is_voicemail_drop_active n) db.calls))) [
            | inl idle ↦ ground (arith, unchanged db.calls v)
            | inr busy ↦
                let same = lifecycle-calls _ db in
                subst (λ cs. Rows Evolves cs db'.calls) same
                  (updated-step (has_id n) (release_call now) (λ c. Unit {0}) _ _ db'
                    (λ x x' k q hit g. release-Evolves x x' k now g)
                    (λ d d' g.
                      let freed = record d {
                        legs = update_where (leg_of n agent) (end_leg now) d.legs;
                      } in
                      subst (λ (z : Db). z.calls ≡ d.calls)
                        (some-injective (release_agent now owner.agent_id freed) d' g)
                        (agent-calls now owner.agent_id freed))
                    (subst (All IsConsistent) (sym same) v) (All_top _) (rw (held, busy) at e))
          ])
    ]

write-step :
    (clock n : ℕ) (a : Option ℕ) (user : ℕ) (o : CallOutcome) (raw : Text) (c : Call) (db db' : Db)
    {r : ManualResult}
    → IsValid db
    → find (has_id n) db.calls ≡ some c
    → is_some c.ended_at ≡ true
    → is_none c.manual_status_locked_at ≡ true
    → write_status clock n a user o raw db ≡ some (db', r)
    → Rows Evolves db.calls db'.calls
unfolding write_status
write-step clock n a user o raw c db db' {r} v f ended free e =
    let (db1, done, more) =
      bind-eq-some (update_calls (has_id n) (lock_status clock user o) db) _ e in
    let (y, found, last) = bind-eq-some (find_call n db1) _ more in
    let same = ap (λ (x : Db × ManualResult). x.0) (some-injective _ (db', r) last) in
    subst (Rows Evolves db.calls) (sym (event-calls _ db1) ∙ ap (λ (x : Db). x.calls) same) (
      update-Evolves (has_id n) (lock_status clock user o) (IsOnly n c) db db1
        (λ x x' k q hit g.
          lock-Evolves x x' k clock user o
            (subst (λ (z : Call). is_some z.ended_at ≡ true) (sym (q hit)) ended)
            (subst (λ (z : Call). is_none z.manual_status_locked_at ≡ true) (sym (q hit)) free) g)
        v.consistent (found-IsOnly n (has_id n) db.calls (λ d h. h) v.distinct f) done)

row-step :
    (clock n : ℕ) (a : Option ℕ) (user : ℕ) (o : CallOutcome) (raw : Text) (row : Option Call)
    (db db' : Db) {r : ManualResult}
    → IsValid db
    → find (has_id n) db.calls ≡ row
    → set_status_of_row clock n a user o raw row db ≡ some (db', r)
    → Rows Evolves db.calls db'.calls
unfolding set_status_of_row
row-step clock n a user o raw none db db' {r} v f e =
    ground (arith, unchanged db.calls v.consistent)
row-step clock n a user o raw (some c) db db' {r} v f e =
    ground
      (arith, unchanged db.calls v.consistent, write-step clock n a user o raw c db db' {r = r} v f)

-- A correction by hand.
pub manual-step :
    (clock n user : ℕ) (o : CallOutcome) (raw : Text) (db db' : Db) {r : ManualResult}
    → IsValid db
    → set_manual_call_status clock n user o raw db ≡ some (db', r)
    → Rows Evolves db.calls db'.calls
unfolding set_manual_call_status find_call
manual-step clock n user o raw db db' {r} v e =
    let owner = lock_call_owner_agent n (some user) db in
    ground (
      arith,
      unchanged db.calls v.consistent,
      row-step clock n owner.agent_id user o raw (find (has_id n) db.calls) db db' {r = r} v refl,
    )

end_row-step :
    (now clock n : ℕ) (raw : Text) (c : Call) (db db' : Db) (p : Call → Bool)
    → IsValid db
    → ((d : Call) → p d ≡ true → has_id n d ≡ true)
    → find p db.calls ≡ some c
    → is_none c.ended_at ≡ true
    → end_row now clock n raw c db ≡ some db'
    → Rows Evolves db.calls db'.calls
unfolding end_row end_legs
end_row-step now clock n raw c db db' p v h f free e =
    let o = infer_agent_end_outcome c.state in
    updated-step (has_id n) (ended_by_agent clock o) (IsOnly n c) _ db db'
      (λ x x' k q hit g.
        end-Evolves x x' k clock o
          (subst (λ (z : Call). is_none z.ended_at ≡ true) (sym (q hit)) free) g)
      (λ d d' g.
        ap (λ (z : Db). z.calls) (sym (some-injective _ d' g))
        ∙ agent-calls now c.agent_id _
        ∙ settled-calls now _ c.contact_id _
        ∙ event-calls _ d)
      v.consistent (found-IsOnly n p db.calls h v.distinct f) e

-- The end of a call by its agent.
pub end-step :
    (now clock user n : ℕ) (raw : Text) (db db' : Db) {b : Bool}
    → IsValid db
    → end_dialer_call now clock user n raw db ≡ some (db', b)
    → Rows Evolves db.calls db'.calls
unfolding end_dialer_call
end-step now clock user n raw db db' {b} v e =
    let p : Call → Bool = λ c. open_in may_end n c && owned_by (some user) db.agents c in
    elim (Bool-cases (lock_call_owner_agent n (some user) db).found) [
      | inr lost ↦ ground (arith, unchanged db.calls v.consistent)
      | inl held ↦ (elim (Option-cases (find p db.calls)) [
        | inl idle ↦ ground (arith, unchanged db.calls v.consistent)
        | inr (c, busy) ↦
            let (db1, done, last) =
              bind-eq-some (end_row now clock n raw c db) _ (rw (held, busy) at e) in
            let same = ap (λ (x : Db × Bool). x.0) (some-injective (db1, true) (db', b) last) in
            let hit = (All-find (λ d. Unit {0}) p db.calls (All_top db.calls) busy).1 in
            subst (λ (z : Db). Rows Evolves db.calls z.calls) same
              (end_row-step now clock n raw c db db1 p v (λ d k. ground arith) busy (ground arith)
                done)
      ])
    ]
