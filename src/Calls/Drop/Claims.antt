-- ===== src/Calls/Drop/Claims.antt =====
-- What `dropVoicemailForCall` (apps/api/src/dashboard/calls.ts) makes of a call, and what a second
-- request or a rejected command makes of it then.
use outbound_freeswitch_dial.Prelude.{
  ℕ, ◌≡◌, inl, inr, refl, sym, subst, ap, ◌∙◌, true, false, Option, none, some, find, arith,
  is_some, Text, Bool-cases, ◌&&◌, ◌==◌,
}
use mathlib.Core.Option.{some-injective}
use outbound_freeswitch_dial.Calls.Schema.{
  Call, CallEvent, Agent, Recording, Db, has_id, ◌>>=◌, bind-eq-some, insert_lifecycle_event,
}
use outbound_freeswitch_dial.Calls.Progression.{update_calls, enforce-cases}
use outbound_freeswitch_dial.Calls.Rows.{Rows-find, Guarded, update_calls-Rows, All-find}
use outbound_freeswitch_dial.Calls.Events.{open_in}
use outbound_freeswitch_dial.Calls.Drop.{
  VoicemailDropCallRow, claimed, answered_with, accepted, refused, request_drop, claim_drop,
  may_drop, is_unavailable, initial_answer, answer_for, requested_event, get_voicemail_drop_call,
  row_of, drop_row, owned_by_user, claim_row, is_voicemail_drop_in_progress_or_completed,
}
use outbound_freeswitch_dial.Calls.Dtmf.{check_dtmf, check_row, dtmf_row, is_active_call, stopped}
use outbound_freeswitch_dial.Calls.History.Table.{found-IsOnly}
use outbound_freeswitch_dial.Calls.History.{IsValid, IsConsistent}
use outbound_freeswitch_dial.Calls.History.Handlers.{All_top}
use outbound_freeswitch_dial.Calls.History.Single.{narrower_finds}
use outbound_freeswitch_dial.Calls.History.Reach.{
  here, after, claims_drop, every_history_keeps_the_invariants,
}
use outbound_freeswitch_dial.Calls.History.Drops.{claim_row-cases, request_on-cases, told-calls}

row_of-cases :
    (user n : ℕ) (recording : Option ℕ) (db : Db) (o : Option Call) (r : VoicemailDropCallRow)
    → row_of user n recording db o ≡ some r
    → (c : Call) × (o ≡ some c)
      × (owned_by_user user c.agent_id db ≡ true)
      × (drop_row n recording db c ≡ r)
row_of-cases user n recording db none r e = absurd (ground arith)
row_of-cases user n recording db (some c) r e =
    elim (Bool-cases (owned_by_user user c.agent_id db)) [
      | inl own ↦ (c, refl, own, some-injective (drop_row n recording db c) r (rw own at e))
      | inr other ↦ absurd (ground (arith, other))
    ]

requested :
    (now n k : ℕ) (c c' : Call)
    → IsConsistent c
    → open_in may_drop n c ≡ true
    → Guarded (open_in may_drop n) (request_drop now k) c c'
    → c' ≡ request_drop now k c
requested now n k c c' v hit g =
    let e = rw hit at g in
    ground (arith, enforce-cases c (request_drop now k c) c' e, v.locked_ended)

Guarded-KeepsId :
    (now n k : ℕ) (c c' : Call)
    → Guarded (open_in may_drop n) (request_drop now k) c c'
    → c'.id ≡ c.id
Guarded-KeepsId now n k c c' g = elim (Bool-cases (open_in may_drop n c)) [
  | inl hit ↦ ground (arith, enforce-cases c (request_drop now k c) c' (rw hit at g))
  | inr miss ↦ ap (λ (x : Call). x.id) (sym (some-injective c c' (rw miss at g)))
]

owned-agents :
    (user : ℕ) (a : Option ℕ) (db db' : Db)
    → db'.agents ≡ db.agents
    → owned_by_user user a db' ≡ owned_by_user user a db
owned-agents user none db db' e = refl
owned-agents user (some a) db db' e =
    ap (λ rows. is_some (find (λ (x : Agent). x.id == a && x.user_id == user) rows)) e

told-agents : (e : CallEvent) (d : Db) → (insert_lifecycle_event e d).agents ≡ d.agents
unfolding insert_lifecycle_event
told-agents e d = ground arith

-- The row that a claim starts from, and the update that it makes.
pub claim-found :
    (now user n : ℕ) (recording : Option ℕ) (raw : Text) (r : VoicemailDropCallRow)
    (rec : Recording) (db db' : Db)
    → claim_drop now user n recording raw db ≡ some (claimed r rec db')
    → (find (has_id n) db.calls ≡ some r.call)
      × (owned_by_user user r.call.agent_id db ≡ true)
      × (open_in may_drop n r.call ≡ true)
      × (k : ℕ) × ((update_calls (open_in may_drop n) (request_drop now k) db >>= λ d.
            some (insert_lifecycle_event (requested_event n raw r) d))
          ≡ some db')
unfolding claim_drop get_voicemail_drop_call
claim-found now user n recording raw r rec db db' e =
    let (r0, rec0, found, there, k) =
      claim_row-cases now n recording raw db (get_voicemail_drop_call user n recording db) r rec db'
        e in
    let (same, done) = request_on-cases now n raw r0 rec0 db r rec db' k in
    let (c, at, own, row) = row_of-cases user n recording db (find (has_id n) db.calls) r0 found in
    let free = subst (λ x. is_unavailable recording x ≡ false) same there in
    let call_of : c ≡ r.call = ap (λ (x : VoicemailDropCallRow). x.call) (row ∙ same) in
    (
      at ∙ ap some call_of,
      subst (λ (x : Call). owned_by_user user x.agent_id db ≡ true) call_of own,
      ground (
        arith,
        free,
        (All-find (λ c. Unit {0}) (has_id n) db.calls (All_top db.calls) (at ∙ ap some call_of)).1,
      ),
      rec0.id,
      subst
          (λ x.
            (update_calls (open_in may_drop n) (request_drop now rec0.id) db >>= λ d.
            some (insert_lifecycle_event (requested_event n raw x) d))
            ≡ some db')
          same done,
    )

pub claim-stores :
    (now user n : ℕ) (recording : Option ℕ) (raw : Text) (r : VoicemailDropCallRow)
    (rec : Recording) (db db' : Db)
    → IsValid db
    → claim_drop now user n recording raw db ≡ some (claimed r rec db')
    → (k : ℕ) × (find (has_id n) db'.calls ≡ some (request_drop now k r.call))
      × (owned_by_user user r.call.agent_id db' ≡ true)
      × (open_in may_drop n r.call ≡ true)
unfolding claim_drop get_voicemail_drop_call
claim-stores now user n recording raw r rec db db' v e =
    let (at, own, opened, k, done) = claim-found now user n recording raw r rec db db' e in
    let (d, made, last) =
      bind-eq-some (update_calls (open_in may_drop n) (request_drop now k) db) _ done in
    let (rows, rest) = update_calls-Rows (open_in may_drop n) (request_drop now k) db d made in
    let (c', at', g) =
      Rows-find (Guarded (open_in may_drop n) (request_drop now k)) (Guarded-KeepsId now n k) n
        db.calls d.calls rows at in
    let same =
      requested now n k r.call c' (All-find IsConsistent (has_id n) db.calls v.consistent at).0
        opened g in
    let agents : db'.agents ≡ db.agents =
      ap (λ (x : Db). x.agents)
        (sym (some-injective (insert_lifecycle_event (requested_event n raw r) d) db' last))
      ∙ told-agents (requested_event n raw r) d
      ∙ ap (λ (x : Db). x.agents) rest in
    (
      k,
      ap (find (has_id n)) (told-calls _ d db' last) ∙ at' ∙ ap some same,
      owned-agents user r.call.agent_id db db' agents ∙ own,
      opened,
    )

answers_claimed :
    (later user n k now : ℕ) (recording : Option ℕ) (raw : Text) (c : Call) (db : Db)
    → owned_by_user user c.agent_id db ≡ true
    → claim_row later n recording raw db (row_of user n recording db (some (request_drop now k c)))
      ≡ some (answered_with accepted)
unfolding is_voicemail_drop_in_progress_or_completed
answers_claimed later user n k now recording raw c db own = ground (arith, own)

answers_first :
    (user n k now : ℕ) (recording : Option ℕ) (c : Call) (db : Db)
    → owned_by_user user c.agent_id db ≡ true
    → answer_for recording (row_of user n recording db (some (request_drop now k c)))
      ≡ some accepted
unfolding is_voicemail_drop_in_progress_or_completed
answers_first user n k now recording c db own = ground (arith, own)

pub claimed-IsValid :
    (now user n : ℕ) (recording : Option ℕ) (raw : Text) (r : VoicemailDropCallRow)
    (rec : Recording) (db db' : Db)
    → IsValid db
    → claim_drop now user n recording raw db ≡ some (claimed r rec db')
    → IsValid db'
claimed-IsValid now user n recording raw r rec db db' v e =
    every_history_keeps_the_invariants {spared = none} v
      (after here (claims_drop now user n recording raw r rec e))

keypad_refused :
    (user n now k : ℕ) (c : Call) (db : Db)
    → IsValid db
    → find (has_id n) db.calls ≡ some (request_drop now k c)
    → owned_by_user user c.agent_id db ≡ true
    → open_in may_drop n c ≡ true
    → check_dtmf user n db ≡ stopped (refused 409)
unfolding check_dtmf
keypad_refused user n now k c db v at own opened =
    let there =
      narrower_finds (is_active_call user n db) n (request_drop now k c) (λ d h. ground arith)
        (ground (arith, own, opened)) db.calls
        (found-IsOnly n (has_id n) db.calls (λ d h. h) v.distinct at) at in
    ap (λ o. check_row (dtmf_row n db o)) there ∙ ground arith

-- A drop is started once: over valid tables, once a request for a call has been taken, the same
-- user's next request for it, with whatever recording, is answered as done by the test before the
-- transaction and in the transaction alike, and writes nothing; and the user's keypad tones for it
-- are refused.
pub drop_is_claimed_once :
    (now later user n : ℕ) (recording other : Option ℕ) (raw raw' : Text) (r : VoicemailDropCallRow)
    (rec : Recording) (db db' : Db)
    → IsValid db
    → claim_drop now user n recording raw db ≡ some (claimed r rec db')
    → (initial_answer user n other db' ≡ some accepted)
      × (claim_drop later user n other raw' db' ≡ some (answered_with accepted))
      × (check_dtmf user n db' ≡ stopped (refused 409))
drop_is_claimed_once now later user n recording other raw raw' r rec db db' v e =
    let (k, at, own, opened) = claim-stores now user n recording raw r rec db db' v e in
    (
      unfold initial_answer get_voicemail_drop_call in
          ap (λ o. answer_for other (row_of user n other db' o)) at
          ∙ answers_first user n k now other r.call db' own,
      unfold claim_drop get_voicemail_drop_call in
          ap (λ o. claim_row later n other raw' db' (row_of user n other db' o)) at
          ∙ answers_claimed later user n k now other raw' r.call db' own,
      keypad_refused user n now k r.call db'
          (claimed-IsValid now user n recording raw r rec db db' v e) at own opened,
    )
