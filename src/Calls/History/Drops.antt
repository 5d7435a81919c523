-- ===== src/Calls/History/Drops.antt =====
-- The transactions of a voicemail drop that an agent starts (apps/api/src/dashboard/calls.ts), as
-- steps of the table of calls.
use outbound_freeswitch_dial.Prelude.{
  codes, ℕ, ◌≡◌, inl, inr, refl, sym, subst, ap, ◌∙◌, Bool, true, false, Option, none, some, All,
  find, update_where, arith, is_none, Text, Bool-cases,
}
use mathlib.Core.Option.{some-injective}
use outbound_freeswitch_dial.Calls.Schema.{
  CallState, Call, CallEvent, Recording, agent, Db, is_voicemail_drop_active, is_terminal, ◌>>=◌,
  bind-eq-some, insert_lifecycle_event,
}
use outbound_freeswitch_dial.Calls.Progression.{update_calls}
use outbound_freeswitch_dial.Calls.Rows.{Rows}
use outbound_freeswitch_dial.Calls.Events.{open_in, leg_of}
use outbound_freeswitch_dial.Calls.Finalization.{release_agent, end_leg}
use outbound_freeswitch_dial.Calls.Voicemail.{
  release_call, may_start_playback, start_playback, record_playback_started, start_playback_of,
  custom_event,
}
use outbound_freeswitch_dial.Calls.Drop.{
  VoicemailDropCallRow, claimed, request_drop, request_on, with_recording, with_effective,
  claim_row, claim_drop, give_back, may_drop, is_drop_requested, is_unavailable,
  is_voicemail_drop_in_progress_or_completed, drop_commands_fail, release_event,
  release_agent_after_transfer, requested_event, get_voicemail_drop_call, effective, find_recording,
}
use outbound_freeswitch_dial.Calls.History.{IsConsistent, Evolves, is_playback_completed}
use outbound_freeswitch_dial.Calls.History.Updates.{
  start_playback-Evolves, update-Evolves, request-Evolves, give_back-Evolves, release-Evolves,
}
use outbound_freeswitch_dial.Calls.History.Handlers.{unchanged, All_top}
use outbound_freeswitch_dial.Calls.History.Ends.{lifecycle-calls, agent-calls, updated-step}

-- A state that a drop starts from is a plain one.
plain_state :
    (s : CallState)
    → may_drop s ≡ true
    → (is_terminal s ≡ false) × (is_playback_completed s ≡ false)
plain_state s h = (ground arith, ground arith)

-- A claim that is committed comes from the update of the call.
pub request_on-cases :
    (now n : ℕ) (raw : Text) (r : VoicemailDropCallRow) (rec : Recording) (db : Db)
    (r' : VoicemailDropCallRow) (rec' : Recording) (db' : Db)
    → request_on now n raw r rec db ≡ some (claimed r' rec' db')
    → (r ≡ r')
      × ((update_calls (open_in may_drop n) (request_drop now rec.id) db >>= λ d.
            some (insert_lifecycle_event (requested_event n raw r) d))
          ≡ some db')
request_on-cases now n raw r rec db r' rec' db' e =
    elim (Bool-cases (is_none (find (open_in may_drop n) db.calls))) [
      | inl gone ↦ absurd (ground arith)
      | inr there ↦
          let (d, done, last) =
            bind-eq-some (update_calls (open_in may_drop n) (request_drop now rec.id) db) _
              (rw there at e) in
          (ground (arith, last), rw done (ground (arith, last)))
    ]

with_recording-cases :
    (now n : ℕ) (raw : Text) (r : VoicemailDropCallRow) (db : Db) (o : Option Recording)
    (r' : VoicemailDropCallRow) (rec' : Recording) (db' : Db)
    → with_recording now n raw r db o ≡ some (claimed r' rec' db')
    → (rec : Recording) × (request_on now n raw r rec db ≡ some (claimed r' rec' db'))
with_recording-cases now n raw r db none r' rec' db' e = absurd (ground arith)
with_recording-cases now n raw r db (some rec) r' rec' db' e = (rec, e)

with_effective-cases :
    (now n : ℕ) (raw : Text) (r : VoicemailDropCallRow) (db : Db) (o : Option Recording)
    (r' : VoicemailDropCallRow) (rec' : Recording) (db' : Db)
    → with_effective now n raw r db o ≡ some (claimed r' rec' db')
    → (rec : Recording) × (request_on now n raw r rec db ≡ some (claimed r' rec' db'))
with_effective-cases now n raw r db none r' rec' db' e = absurd (ground arith)
with_effective-cases now n raw r db (some rec) r' rec' db' e =
    with_recording-cases now n raw r db (find_recording (some rec.id) db) r' rec' db' e

pub claim_row-cases :
    (now n : ℕ) (recording : Option ℕ) (raw : Text) (db : Db) (o : Option VoicemailDropCallRow)
    (r' : VoicemailDropCallRow) (rec' : Recording) (db' : Db)
    → claim_row now n recording raw db o ≡ some (claimed r' rec' db')
    → (r : VoicemailDropCallRow) × (rec : Recording) × (o ≡ some r)
      × (is_unavailable recording r ≡ false)
      × (request_on now n raw r rec db ≡ some (claimed r' rec' db'))
claim_row-cases now n recording raw db none r' rec' db' e = absurd (ground arith)
claim_row-cases now n recording raw db (some r) r' rec' db' e =
    elim (Bool-cases (is_voicemail_drop_in_progress_or_completed r.call)) [
      | inl going ↦ absurd (ground (arith, going))
      | inr idle ↦ elim (Bool-cases (is_unavailable recording r)) [
        | inl lost ↦ absurd (ground (arith, idle, lost))
        | inr there ↦
            let (rec, k) =
              with_effective-cases now n raw r db (effective r) r' rec' db'
                (rw (idle, there) at e) in
            (r, rec, refl, there, k)
      ]
    ]

pub told-calls :
    (e : CallEvent) (d d' : Db) → some (insert_lifecycle_event e d) ≡ some d' → d'.calls ≡ d.calls
told-calls e d d' k =
    ap (λ (x : Db). x.calls) (sym (some-injective (insert_lifecycle_event e d) d' k))
    ∙ lifecycle-calls e d

pub claim-step :
    (now user n : ℕ) (recording : Option ℕ) (raw : Text) (r : VoicemailDropCallRow)
    (rec : Recording) (db db' : Db)
    → All IsConsistent db.calls
    → claim_drop now user n recording raw db ≡ some (claimed r rec db')
    → Rows Evolves db.calls db'.calls
unfolding claim_drop
claim-step now user n recording raw r rec db db' v e =
    let (r0, rec0, found, there, k) =
      claim_row-cases now n recording raw db (get_voicemail_drop_call user n recording db) r rec db'
        e in
    let (same, done) = request_on-cases now n raw r0 rec0 db r rec db' k in
    updated-step (open_in may_drop n) (request_drop now rec0.id) (λ c. Unit {0})
      (λ d. some (insert_lifecycle_event (requested_event n raw r0) d)) db db'
      (λ x x' c q hit g. request-Evolves x x' c now rec0.id (ground arith) g)
      (told-calls (requested_event n raw r0)) v (All_top db.calls) done

pub commands_fail-step :
    (now n : ℕ) (rejected : Bool) (name raw : Text) (r : VoicemailDropCallRow) (db db' : Db)
    → may_drop r.call.state ≡ true
    → All IsConsistent db.calls
    → drop_commands_fail now n rejected name raw r db ≡ some db'
    → Rows Evolves db.calls db'.calls
unfolding drop_commands_fail
commands_fail-step now n true name raw r db db' m v e =
    let (plain, stored) = plain_state r.call.state m in
    updated-step (open_in is_drop_requested n) (give_back now r.call.state) (λ c. Unit {0}) _ db db'
      (λ x x' c q hit g. give_back-Evolves x x' c now r.call.state plain stored (ground arith) g)
      (told-calls _) v (All_top db.calls) e
commands_fail-step now n false name raw r db db' m v e =
    subst (Rows Evolves db.calls) (sym (told-calls _ db db' e)) (unchanged db.calls v)

released-calls :
    (now n : ℕ) (a : Option ℕ) (d d' : Db)
    → some (
        release_agent now a
          (record d { legs = update_where (leg_of n agent) (end_leg now) d.legs }))
      ≡ some d'
    → d'.calls ≡ d.calls
released-calls now n a d d' k =
    ap (λ (x : Db). x.calls) (sym (some-injective _ d' k))
    ∙ agent-calls now a (record d { legs = update_where (leg_of n agent) (end_leg now) d.legs })

pub transfer-step :
    (now n : ℕ) (confirmed : Bool) (raw : Text) (r : VoicemailDropCallRow) (db db' : Db)
    → All IsConsistent db.calls
    → release_agent_after_transfer now n confirmed raw r db ≡ some db'
    → Rows Evolves db.calls db'.calls
unfolding release_agent_after_transfer
transfer-step now n false raw r db db' v e =
    subst (Rows Evolves db.calls) (sym (told-calls _ db db' e)) (unchanged db.calls v)
transfer-step now n true raw r db db' v e =
    let told = insert_lifecycle_event (release_event n raw r) db in
    let same = lifecycle-calls (release_event n raw r) db in
    subst (λ cs. Rows Evolves cs db'.calls) same
      (updated-step (open_in is_voicemail_drop_active n) (release_call now) (λ c. Unit {0}) _ told
        db' (λ x x' c q hit g. release-Evolves x x' c now g) (released-calls now n r.call.agent_id)
        (subst (All IsConsistent) (sym same) v) (All_top told.calls) e)

start_row-step :
    (now n : ℕ) (agent_leg customer_leg : Option Text) (raw : Text) (o : Option Call) (db db' : Db)
    → All IsConsistent db.calls
    → start_playback_of now n agent_leg customer_leg raw o db ≡ some db'
    → Rows Evolves db.calls db'.calls
unfolding start_playback_of
start_row-step now n agent_leg customer_leg raw none db db' v e =
    subst (λ (d : Db). Rows Evolves db.calls d.calls) (some-injective db db' e)
      (unchanged db.calls v)
start_row-step now n agent_leg customer_leg raw (some c) db db' v e =
    let t = codes "voicemail_playback_started" in
    let row = custom_event n c.agent_id t t agent_leg customer_leg raw in
    let same = lifecycle-calls row db in
    subst (λ cs. Rows Evolves cs db'.calls) same
      (update-Evolves (open_in may_start_playback n) (start_playback now) (λ x. Unit {0})
        (insert_lifecycle_event row db) db'
        (λ x x' k q hit g. start_playback-Evolves x x' k now (ground arith) g (ground arith))
        (subst (All IsConsistent) (sym same) v) (All_top _) e)

pub playback_started-step :
    (now n : ℕ) (agent_leg customer_leg : Option Text) (raw : Text) (db db' : Db)
    → All IsConsistent db.calls
    → record_playback_started now n agent_leg customer_leg raw db ≡ some db'
    → Rows Evolves db.calls db'.calls
unfolding record_playback_started
playback_started-step now n agent_leg customer_leg raw db db' v e =
    start_row-step now n agent_leg customer_leg raw
      (find (open_in is_voicemail_drop_active n) db.calls) db db' v e
