-- ===== src/Calls/History/Reach.antt =====
-- The histories of the tables: any sequence of committed handlers, in any order.
use outbound_freeswitch_dial.Prelude.{
  ℕ, ◌≡◌, ◌⊎◌, ◌∙◌, ap, sym, arith, subst, Bool, true, false, Option, none, some, refl, not, any,
  find, is_some, Text,
}
use outbound_freeswitch_dial.Calls.Schema.{
  Call, CallOutcome, CallEvent, Recording, Availability, Db, has_id, insert_lifecycle_event,
}
use outbound_freeswitch_dial.Calls.Availability.{get_agent_availability, set_agent_availability}
use outbound_freeswitch_dial.Calls.Finalization.{
  FinalizeInput, FinalizeResult, finalize_call_transaction,
}
use outbound_freeswitch_dial.Calls.Finalization.Decisions.{Resolves}
use outbound_freeswitch_dial.Calls.Events.{
  TaggedEvent, persist_generic_event, persist_tagged_event, tagged-calls,
}
use outbound_freeswitch_dial.Calls.Voicemail.{
  finalize_completed_voicemail_playback, IncompleteInput, finalize_incomplete_voicemail_playback,
  release_agent_after_playback_starts, record_playback_started,
}
use outbound_freeswitch_dial.Calls.ManualStatus.{
  ManualResult, set_manual_call_status, end_dialer_call,
}
use outbound_freeswitch_dial.Calls.Creation.{
  done, CreateConfig, CreateInput, create_dialer_call, originate_queued,
}
use outbound_freeswitch_dial.Calls.Drop.{
  VoicemailDropCallRow, claimed, claim_drop, may_drop, drop_commands_fail,
  release_agent_after_transfer,
}
use outbound_freeswitch_dial.Calls.Rows.{Rows}
use outbound_freeswitch_dial.Calls.Retention.{is_expired, delete_expired_calls}
use outbound_freeswitch_dial.Calls.History.{IsValid, Evolves, Later, Later-refl, Later-trans}
use outbound_freeswitch_dial.Calls.History.Table.{Sound, Rows-Sound, filter-IsValid}
use outbound_freeswitch_dial.Calls.History.Handlers.{
  unchanged, generic_event-step, finalization-step,
}
use outbound_freeswitch_dial.Calls.History.Ends.{
  completed-step, incomplete-step, release-step, manual-step, end-step,
}
use outbound_freeswitch_dial.Calls.Dtmf.{DtmfRow, report_dtmf}
use outbound_freeswitch_dial.Calls.History.Drops.{
  claim-step, commands_fail-step, transfer-step, playback_started-step,
}
use outbound_freeswitch_dial.Calls.History.Starts.{creation-step, originate-step}

-- One committed handler. A resolver gives a terminal state, a new call has a new id, and a drop
-- that fails was claimed from a state that a drop may start in.
pub data Step (db db' : Db) : Type 0 where
  starts :
      (locked : ℕ → Bool) (now n : ℕ) (cfg : CreateConfig) (i : CreateInput) (campaign : ℕ)
      → any (has_id n) db.calls ≡ false
      → create_dialer_call locked now n cfg i db ≡ done (db', campaign)
      → Step db db'
  originates :
      (now n : ℕ) (e : CallEvent) (agent_leg customer_leg : Text)
      → (originate_queued now n e agent_leg customer_leg db).0 ≡ db'
      → Step db db'
  hears : (now : ℕ) (e : TaggedEvent) → persist_generic_event now e db ≡ some db' → Step db db'
  stores : (e : TaggedEvent) → persist_tagged_event e db ≡ some db' → Step db db'
  finalizes :
      (now clock : ℕ) (i : FinalizeInput) (r : FinalizeResult)
      → Resolves i
      → finalize_call_transaction now clock i db ≡ some (db', r)
      → Step db db'
  completes :
      (now clock n : ℕ) (leg : Option Text) (raw : Text) (at : Option ℕ) (name : Option Text)
      (source : Text)
      → finalize_completed_voicemail_playback now clock n leg raw at name source db ≡ some db'
      → Step db db'
  aborts :
      (now clock : ℕ) (i : IncompleteInput)
      → finalize_incomplete_voicemail_playback now clock i db ≡ some db'
      → Step db db'
  releases :
      (now n : ℕ) (agent_leg customer_leg : Option Text) (raw : Text)
      → release_agent_after_playback_starts now n agent_leg customer_leg raw db ≡ some db'
      → Step db db'
  plays :
      (now n : ℕ) (agent_leg customer_leg : Option Text) (raw : Text)
      → record_playback_started now n agent_leg customer_leg raw db ≡ some db'
      → Step db db'
  corrects :
      (clock n user : ℕ) (o : CallOutcome) (raw : Text) (r : ManualResult)
      → set_manual_call_status clock n user o raw db ≡ some (db', r)
      → Step db db'
  hangs_up :
      (now clock user n : ℕ) (raw : Text) (b : Bool)
      → end_dialer_call now clock user n raw db ≡ some (db', b)
      → Step db db'
  claims_drop :
      (now user n : ℕ) (recording : Option ℕ) (raw : Text) (r : VoicemailDropCallRow)
      (rec : Recording)
      → claim_drop now user n recording raw db ≡ some (claimed r rec db')
      → Step db db'
  drop_fails :
      (now n : ℕ) (rejected : Bool) (name raw : Text) (r : VoicemailDropCallRow)
      → may_drop r.call.state ≡ true
      → drop_commands_fail now n rejected name raw r db ≡ some db'
      → Step db db'
  transfers :
      (now n : ℕ) (confirmed : Bool) (raw : Text) (r : VoicemailDropCallRow)
      → release_agent_after_transfer now n confirmed raw r db ≡ some db'
      → Step db db'
  reports_dtmf :
      (n : ℕ) (sent : Bool) (name raw : Text) (r : DtmfRow)
      → (report_dtmf n sent name raw r db).0 ≡ db'
      → Step db db'
  reads_availability : (now user : ℕ) → (get_agent_availability now user db).0 ≡ db' → Step db db'
  sets_availability :
      (now agent : ℕ) (s : Availability)
      → (set_agent_availability now agent s db).0 ≡ db'
      → Step db db'

-- Where a history is about one call, retention leaves that call.
abbrev pub Spares : Option ℕ → Db → Db → Type 0
Spares none db db' = Unit
Spares (some n) db db' = find (has_id n) db'.calls ≡ find (has_id n) db.calls

-- Handlers and runs of retention, in any order; `spared` is the call that the history is about.
pub data Reach (spared : Option ℕ) (db : Db) : Db → Type 0 where
  here : Reach spared db db
  after : {a b : Db} → Reach spared db a → Step a b → Reach spared db b
  expires :
      {a b : Db}
      → Reach spared db a
      → (cutoff : ℕ) (created_at : ℕ → ℕ) (keeps_file : ℕ → Bool)
      → delete_expired_calls cutoff created_at keeps_file a ≡ b
      → Spares spared a b
      → Reach spared db b

dtmf-calls :
    (n : ℕ) (sent : Bool) (name raw : Text) (r : DtmfRow) (db : Db)
    → (report_dtmf n sent name raw r db).0.calls ≡ db.calls
unfolding report_dtmf insert_lifecycle_event
dtmf-calls n sent name raw r db = ground arith

same_calls : (db db' : Db) → IsValid db → db.calls ≡ db'.calls → Sound db db'
same_calls db db' v e =
    Rows-Sound db db' v (subst (λ cs. Rows Evolves db.calls cs) e (unchanged db.calls v.consistent))

Step-Sound : {db db' : Db} → IsValid db → Step db db' → Sound db db'
Step-Sound {db} {db'} v s = elim s [
  | starts locked now n cfg i campaign fresh e ↦
      creation-step locked now n cfg i db db' {campaign = campaign} v fresh e
  | originates now n e agent_leg customer_leg h ↦ Rows-Sound db db' v (
      subst (λ (d : Db). Rows Evolves db.calls d.calls) h
        (originate-step now n e agent_leg customer_leg db v.consistent))
  | hears now e h ↦ Rows-Sound db db' v (generic_event-step now e db db' v.consistent h)
  | stores e h ↦ same_calls db db' v (sym (tagged-calls e db db' h))
  | finalizes now clock i r res h ↦
      Rows-Sound db db' v (finalization-step now clock i db db' {r = r} res v.consistent h)
  | completes now clock n leg raw at name source h ↦
      Rows-Sound db db' v (completed-step now clock n leg raw at name source db db' v.consistent h)
  | aborts now clock i h ↦ Rows-Sound db db' v (incomplete-step now clock i db db' v.consistent h)
  | releases now n agent_leg customer_leg raw h ↦
      Rows-Sound db db' v (release-step now n agent_leg customer_leg raw db db' v.consistent h)
  | plays now n agent_leg customer_leg raw h ↦
      Rows-Sound db db' v
        (playback_started-step now n agent_leg customer_leg raw db db' v.consistent h)
  | corrects clock n user o raw r h ↦
      Rows-Sound db db' v (manual-step clock n user o raw db db' {r = r} v h)
  | hangs_up now clock user n raw b h ↦
      Rows-Sound db db' v (end-step now clock user n raw db db' {b = b} v h)
  | claims_drop now user n recording raw r rec h ↦
      Rows-Sound db db' v (claim-step now user n recording raw r rec db db' v.consistent h)
  | drop_fails now n rejected name raw r m h ↦
      Rows-Sound db db' v (commands_fail-step now n rejected name raw r db db' m v.consistent h)
  | transfers now n confirmed raw r h ↦
      Rows-Sound db db' v (transfer-step now n confirmed raw r db db' v.consistent h)
  | reports_dtmf n sent name raw r h ↦
      same_calls db db' v (sym (dtmf-calls n sent name raw r db) ∙ ap (λ (d : Db). d.calls) h)
  | reads_availability now user h ↦
      same_calls db db' v (unfold get_agent_availability in ap (λ (d : Db). d.calls) h)
  | sets_availability now agent st h ↦
      same_calls db db' v (unfold set_agent_availability in ap (λ (d : Db). d.calls) h)
]

deletion-IsValid :
    (cutoff : ℕ) (created_at : ℕ → ℕ) (keeps_file : ℕ → Bool) (db db' : Db)
    → IsValid db
    → delete_expired_calls cutoff created_at keeps_file db ≡ db'
    → IsValid db'
unfolding delete_expired_calls
deletion-IsValid cutoff created_at keeps_file db db' v e = subst IsValid e (
    filter-IsValid (λ c. not (is_expired cutoff created_at keeps_file c)) db
      (delete_expired_calls cutoff created_at keeps_file db) v refl)

-- Whatever handlers of `Step` run, in whatever order, and however often retention deletes calls, the
-- tables stay valid: a call is in a terminal state exactly if `ended_at` is set, and has an outcome
-- exactly then; only an ended call is locked; the ids are distinct; and no agent and no contact has
-- two active calls.
pub every_history_keeps_the_invariants :
    {spared : Option ℕ} {db db' : Db} → IsValid db → Reach spared db db' → IsValid db'
every_history_keeps_the_invariants v here = v
every_history_keeps_the_invariants v (after more s) =
    (Step-Sound (every_history_keeps_the_invariants v more) s).0
every_history_keeps_the_invariants v (expires {a} {b} more cutoff created_at keeps_file e s) =
    deletion-IsValid cutoff created_at keeps_file a b (every_history_keeps_the_invariants v more) e

-- The call that retention spares is found again, as a later version of itself.
spared-Later :
    {db : Db} (n : ℕ) (c : Call) {db' : Db}
    → IsValid db
    → Reach (some n) db db'
    → find (has_id n) db.calls ≡ some c
    → (c' : Call) × (find (has_id n) db'.calls ≡ some c') × Later c c'
spared-Later n c v here f = (c, f, Later-refl c)
spared-Later n c v (after more s) f =
    let (x, g, l) = spared-Later n c v more f in
    let (y, h, m) = (Step-Sound (every_history_keeps_the_invariants v more) s).1.later n x g in
    (y, h, Later-trans c x y l m)
spared-Later n c v (expires more cutoff created_at keeps_file e s) f =
    let (x, g, l) = spared-Later n c v more f in (x, s ∙ g, l)

-- A call that has ended, after any later history in which retention does not delete it: it is there
-- with the same agent, contact and end, and its state and outcome are the same unless they were
-- locked by hand in between.
pub ended_call_keeps_its_end :
    {db db' : Db} (n : ℕ) (c : Call)
    → IsValid db
    → Reach (some n) db db'
    → find (has_id n) db.calls ≡ some c
    → is_some c.ended_at ≡ true
    → (c' : Call) × (find (has_id n) db'.calls ≡ some c')
      × (c'.agent_id ≡ c.agent_id)
      × (c'.contact_id ≡ c.contact_id)
      × (c'.ended_at ≡ c.ended_at)
      × (((c'.state ≡ c.state) × (c'.outcome ≡ c.outcome))
          ⊎ ((is_some c.manual_status_locked_at ≡ false)
              × (is_some c'.manual_status_locked_at ≡ true)))
ended_call_keeps_its_end n c v r f e =
    let (c', g, l) = spared-Later n c v r f in
    (c', g, l.same_agent, l.same_contact, l.same_end e, l.same_result e)

-- A result that was locked by hand stays as long as retention does not delete the call: after any
-- such history the call has the same state, outcome and time of the lock.
pub locked_result_is_permanent :
    {db db' : Db} (n : ℕ) (c : Call)
    → IsValid db
    → Reach (some n) db db'
    → find (has_id n) db.calls ≡ some c
    → is_some c.manual_status_locked_at ≡ true
    → (c' : Call) × (find (has_id n) db'.calls ≡ some c')
      × (c'.state ≡ c.state)
      × (c'.outcome ≡ c.outcome)
      × (c'.manual_status_locked_at ≡ c.manual_status_locked_at)
locked_result_is_permanent n c v r f e =
    let (c', g, l) = spared-Later n c v r f in let (s, o, t) = l.same_lock e in (c', g, s, o, t)
