-- ===== src/Calls/Hangup/Ending.antt =====
-- Whatever the call is doing, the end of the customer's leg ends it.
use outbound_freeswitch_dial.Prelude.{
  ℕ, ◌≡◌, inl, inr, refl, sym, subst, ap, ◌∙◌, Bool, true, ◌&&◌, Option, none, some, List, [], ◌∷◌,
  All, find, arith, is_some, is_none, Text, codes, Bool-cases,
}
use mathlib.Core.Option.{some-injective}
use outbound_freeswitch_dial.Calls.Schema.{
  Call, Db, is_voicemail_drop_active, has_id, find_call, insert_event, ◌>>=◌,
}
use outbound_freeswitch_dial.Calls.Progression.{
  enforce_call_state_progression, enforce-cases, may_follow, update_calls,
}
use outbound_freeswitch_dial.Calls.Rows.{
  Rows-find, Guarded, update_calls-Rows, guard_rows-allowed, All-map, All-find, All_any,
}
use outbound_freeswitch_dial.Calls.Finalization.{
  Owner, decide, is_finalized, finalize_call_transaction, finalize_row, persist_finalization,
  lock_call_owner_agent,
}
use outbound_freeswitch_dial.Calls.Finalization.Decisions.{Resolves, IsLockValid}
use outbound_freeswitch_dial.Calls.Finalization.Laws.{lock-found, persist-Finalized}
use outbound_freeswitch_dial.Calls.Events.{
  open_in, hangup_cause, resolve_terminal_event, persist_tagged_event, tagged-calls, tagged_row,
  TaggedEvent,
}
use outbound_freeswitch_dial.Calls.Voicemail.{
  complete_call, after_completed, finalize_completed_voicemail_playback, IncompleteInput,
  abort_call, after_incomplete, finalize_incomplete_voicemail_playback, is_normal_hangup,
}
use outbound_freeswitch_dial.Calls.History.{IsConsistent, IsValid}
use outbound_freeswitch_dial.Calls.History.Ends.{after_completed-calls, after_incomplete-calls}
use outbound_freeswitch_dial.Calls.History.Totality.{persist-returns}
use outbound_freeswitch_dial.Calls.Hangup.{
  HangupEvent, finalize_input_of, incomplete_input_of, persist_hangup_of_drop, persist_hangup_of,
  persist_customer_hangup,
}

-- The tables that come out, with the call ended in a terminal state and with an outcome.
abbrev pub EndsCall : ℕ → Option Db → Type 0
EndsCall n o =
    (db : Db) × (o ≡ some db)
    × (c : Call) × (find (has_id n) db.calls ≡ some c)
    × (is_finalized c ≡ true)

pub returned {ℓ} : {A : Type ℓ} (o : Option A) → is_some o ≡ true → (a : A) × (o ≡ some a)
returned none h = cc
returned (some a) h = (a, refl)

-- A narrower test finds the row with the id.
find-narrower :
    (n : ℕ) (p : Call → Bool) (cs : List Call) {c : Call}
    → ((d : Call) → p d ≡ true → has_id n d ≡ true)
    → find (has_id n) cs ≡ some c
    → p c ≡ true
    → find p cs ≡ some c
find-narrower n p [] {c} h f k = cc
find-narrower n p (x ∷ xs) {c} h f k = elim (Bool-cases (has_id n x)) [
  | inl hit ↦
      let same = some-injective x c (rw hit at f) in
      ground (arith, subst (λ (z : Call). p z ≡ true) (sym same) k, same)
  | inr miss ↦ ground (arith, h x, find-narrower n p xs {c = c} h (rw miss at f) k)
]

update-allowed :
    (p : Call → Bool) (f : Call → Call) (db : Db)
    → All (λ c. p c ≡ true → is_some (enforce_call_state_progression c (f c)) ≡ true) db.calls
    → is_some (update_calls p f db) ≡ true
unfolding update_calls
update-allowed p f db a = ground (arith, guard_rows-allowed p f db.calls a)

kept-id :
    (p : Call → Bool) (f : Call → Call) (c c' : Call)
    → (f c).id ≡ c.id
    → Guarded p f c c'
    → c'.id ≡ c.id
kept-id p f c c' i g = ground (arith, enforce-cases c (f c) c')

-- An update of the drop with the id, which the trigger lets through as it is.
drop_update :
    (n : ℕ) (f : Call → Call) (db : Db) {c : Call}
    → ((x : Call)
        → IsConsistent x
        → open_in is_voicemail_drop_active n x ≡ true
        → enforce_call_state_progression x (f x) ≡ some (f x))
    → ((x : Call) → (f x).id ≡ x.id)
    → ((x : Call) → is_finalized (f x) ≡ true)
    → All IsConsistent db.calls
    → find (has_id n) db.calls ≡ some c
    → open_in is_voicemail_drop_active n c ≡ true
    → EndsCall n (update_calls (open_in is_voicemail_drop_active n) f db)
drop_update n f db {c} h id final v there busy =
    let p = open_in is_voicemail_drop_active n in
    let (db1, done) = returned (update_calls p f db) (
      update-allowed p f db (
        All-map IsConsistent
          (λ x. p x ≡ true → is_some (enforce_call_state_progression x (f x)) ≡ true)
          (λ x k hit. ap is_some (h x k hit)) db.calls v)) in
    let (rows, kept) = update_calls-Rows p f db db1 done in
    let (c', found, g) =
      Rows-find (Guarded p f) (λ x x' k. kept-id p f x x' (id x) k) n db.calls db1.calls rows
        there in
    let consistent = (All-find IsConsistent (has_id n) db.calls v there).0 in
    let same : f c ≡ c' = some-injective (f c) c' (sym (h c consistent busy) ∙ rw busy at g) in
    (db1, done, c', found, subst (λ (x : Call). is_finalized x ≡ true) same (final c))

-- A drop that is played to its end is written as it is.
complete-allowed :
    (clock : ℕ) (at : Option ℕ) (name : Option Text) (source : Text) (n : ℕ) (c : Call)
    → IsConsistent c
    → open_in is_voicemail_drop_active n c ≡ true
    → enforce_call_state_progression c (complete_call clock at name source c)
      ≡ some (complete_call clock at name source c)
unfolding enforce_call_state_progression may_follow
complete-allowed clock at name source n c k h = ground arith

abort-allowed :
    (clock : ℕ) (i : IncompleteInput) (n : ℕ) (c : Call)
    → IsConsistent c
    → open_in is_voicemail_drop_active n c ≡ true
    → enforce_call_state_progression c (abort_call clock i c) ≡ some (abort_call clock i c)
unfolding enforce_call_state_progression may_follow
abort-allowed clock i n c k h = ground arith

completed_drop :
    (now clock n : ℕ) (leg : Option Text) (raw : Text) (at : Option ℕ) (name : Option Text)
    (source : Text) (db : Db) {c : Call}
    → All IsConsistent db.calls
    → find (has_id n) db.calls ≡ some c
    → open_in is_voicemail_drop_active n c ≡ true
    → EndsCall n (finalize_completed_voicemail_playback now clock n leg raw at name source db)
unfolding finalize_completed_voicemail_playback find_call
completed_drop now clock n leg raw at name source db {c} v there busy =
    let (db1, done, c', found, final) =
      drop_update n (complete_call clock at name source) db
        (complete-allowed clock at name source n) (λ x. refl) (λ x. refl) v there busy in
    let free = ap (λ (o : Owner). o.found) (lock-found n db {c = c} (unfold find_call in there)) in
    let open_one =
      find-narrower n (open_in is_voicemail_drop_active n) db.calls (λ d h. ground arith) there
        busy in
    (
      after_completed now raw leg c' db1,
      rw (free, open_one, done, found) refl,
      c',
      rw (after_completed-calls now raw leg c' db1) found,
      final,
    )

incomplete_drop :
    (now clock : ℕ) (i : IncompleteInput) (db : Db) {c : Call}
    → All IsConsistent db.calls
    → find (has_id i.call_id) db.calls ≡ some c
    → open_in is_voicemail_drop_active i.call_id c ≡ true
    → EndsCall i.call_id (finalize_incomplete_voicemail_playback now clock i db)
unfolding finalize_incomplete_voicemail_playback
incomplete_drop now clock i db {c} v there busy =
    let n = i.call_id in
    let (db1, done, c', found, final) =
      drop_update n (abort_call clock i) db (abort-allowed clock i n) (λ x. refl)
        (λ x. ground arith) v there busy in
    let owner = lock_call_owner_agent n none db in
    let free = ap (λ (o : Owner). o.found) (lock-found n db {c = c} (unfold find_call in there)) in
    let open_one =
      find-narrower n (open_in is_voicemail_drop_active n) db.calls (λ d h. ground arith) there
        busy in
    (
      after_incomplete now i owner.agent_id db1,
      rw (free, open_one, done) refl,
      c',
      rw (after_incomplete-calls now i owner.agent_id db1) found,
      final,
    )

hangup-Resolves : (h : HangupEvent) → Resolves (finalize_input_of h)
unfolding resolve_terminal_event
hangup-Resolves h c d e = ground arith

hangup_decides :
    (h : HangupEvent) (c : Call) → decide (finalize_input_of h) c ≡ none → is_finalized c ≡ true
unfolding decide resolve_terminal_event
hangup_decides h c e = ground arith

-- The transaction goes on with the row that it finds.
finalizes_row :
    (now clock : ℕ) (h : HangupEvent) (c : Call) (db : Db)
    → find_call h.tagged.call_id db ≡ some c
    → finalize_call_transaction now clock (finalize_input_of h) db
      ≡ persist_finalization now clock (finalize_input_of h) c db
unfolding finalize_call_transaction finalize_row
finalizes_row now clock h c db there =
    ground (arith, lock-found h.tagged.call_id db there, hangup_decides h c)

finalized_call :
    (now clock : ℕ) (h : HangupEvent) (c : Call) (db : Db)
    → IsValid db
    → find (has_id h.tagged.call_id) db.calls ≡ some c
    → EndsCall h.tagged.call_id
        (finalize_call_transaction now clock (finalize_input_of h) db >>= λ r. some r.0)
finalized_call now clock h c db v there =
    let input = finalize_input_of h in
    let (r, done) =
      returned (persist_finalization now clock input c db)
        (persist-returns now clock input c db v (hangup-Resolves h) there) in
    let lock = All-map IsConsistent IsLockValid (λ x k l. ground arith) db.calls v.consistent in
    let w =
      persist-Finalized now clock input c db r.0 r.1 (hangup-Resolves h) lock there
        (hangup_decides h c) done in
    (
      r.0,
      rw (finalizes_row now clock h c db (unfold find_call in there), done) refl,
      w.call,
      w.found,
      w.final,
    )

tagged-found :
    (e : TaggedEvent) (db : Db) {c : Call}
    → find (has_id e.call_id) db.calls ≡ some c
    → (db' : Db) × (persist_tagged_event e db ≡ some db') × (db'.calls ≡ db.calls)
unfolding persist_tagged_event find_call
tagged-found e db {c} there =
    let stored = insert_event (tagged_row e (find_call e.call_id db)) db in
    let done : persist_tagged_event e db ≡ some stored = ground (arith, there) in
    (stored, done, tagged-calls e db stored done)

ended_drop :
    (now clock : ℕ) (h : HangupEvent) (c : Call) (db : Db)
    → All IsConsistent db.calls
    → find (has_id h.tagged.call_id) db.calls ≡ some c
    → open_in is_voicemail_drop_active h.tagged.call_id c ≡ true
    → EndsCall h.tagged.call_id (persist_hangup_of_drop now clock h c db)
unfolding persist_hangup_of_drop
ended_drop now clock h c db v there busy =
    elim (Bool-cases (is_normal_hangup (hangup_cause h.hangup_cause_header))) [
      | inl normal ↦ rw normal (
          completed_drop now clock h.tagged.call_id h.tagged.leg_uuid h.raw h.event_at
            (some h.tagged.event_name) (codes "freeswitch_customer_terminal") db v there busy)
      | inr other ↦ rw other (incomplete_drop now clock (incomplete_input_of h c) db v there busy)
    ]

hangup_of-EndsCall :
    (now clock : ℕ) (h : HangupEvent) (c : Call) (db : Db)
    → IsValid db
    → find (has_id h.tagged.call_id) db.calls ≡ some c
    → EndsCall h.tagged.call_id (persist_hangup_of now clock h c db)
unfolding persist_hangup_of
hangup_of-EndsCall now clock h c db v there =
    let at_id =
      (All-find (λ d. Unit {0}) (has_id h.tagged.call_id) db.calls (All_any db.calls) there).1 in
    elim (Bool-cases (is_none c.ended_at && is_voicemail_drop_active c.state)) [
      | inl drop ↦
          let (told, done, same) = tagged-found h.tagged db there in
          rw (drop, done)
            (ended_drop now clock h c told (subst (All IsConsistent) (sym same) v.consistent)
              (rw same there) (ground arith))
      | inr rest ↦ rw rest (finalized_call now clock h c db v there)
    ]

-- When the customer's leg of a call that is in valid tables ends, whatever the call is doing and
-- whatever the cause, no error is raised, and the call has ended then, in a terminal state and
-- with an outcome.
pub customer_hangup_ends_the_call :
    (now clock : ℕ) (h : HangupEvent) (db : Db) {c : Call}
    → IsValid db
    → find (has_id h.tagged.call_id) db.calls ≡ some c
    → EndsCall h.tagged.call_id (persist_customer_hangup now clock h db)
unfolding persist_customer_hangup find_call
customer_hangup_ends_the_call now clock h db {c} v there =
    rw (there, persist_customer_hangup) (hangup_of-EndsCall now clock h c db v there)
