-- ===== src/Calls/Repair/Settled.antt =====
-- What a repair leaves.
use outbound_freeswitch_dial.Prelude.{
  ℕ, ◌≡◌, ◌⊎◌, inl, inr, Bool-cases, ◌||◌, if◌then◌else◌, refl, sym, subst, Bool, true, false,
  Option, none, some, is_some, List, [], ◌∷◌, All, any, find, arith, ==_iff,
}
use outbound_freeswitch_dial.Calls.Schema.{
  Call, CallOutcome, CallState, completed, failed, Db, has_id, is_terminal, find_call,
}
use outbound_freeswitch_dial.Calls.Progression.{
  enforce_call_state_progression, may_follow, same_state, guard_rows, update_calls,
}
use outbound_freeswitch_dial.Calls.Rows.{guard_rows-allowed, All-map, All-find, All_any}
use outbound_freeswitch_dial.Calls.Finalization.{
  FinalizeResult, Decision, Terminal, is_failed, close_call, apply_decision, record_event, decide,
  is_finalized, open_leg_of, finalize_call_transaction, finalize_row, persist_finalization,
}
use outbound_freeswitch_dial.Calls.Finalization.Decisions.{Resolves, IsLockValid}
use outbound_freeswitch_dial.Calls.Finalization.Cleanup.{
  LegEnded, LegsEnded, ContactFree, ContactReleased, AgentFree, AgentReleased,
}
use outbound_freeswitch_dial.Calls.Finalization.Laws.{
  Finalized, lock-found, persist-Finalized, record_event-keeps,
}
use outbound_freeswitch_dial.Calls.History.{Distinct}
use outbound_freeswitch_dial.Calls.History.Table.{IsOnly, found-IsOnly}
use outbound_freeswitch_dial.Calls.Hangup.Ending.{returned}
use outbound_freeswitch_dial.Calls.Repair.{
  repair_input, is_through, repair_finalized_call_transaction, needs_repair, holds_stale_contact,
  has_open_leg, holds_stale_agent,
}

module _ {ℓ} {A : Type ℓ} where
  none_meets {κ} :
      (P : A → Type κ) (p : A → Bool)
      → ((x : A) → P x → p x ≡ false)
      → (xs : List A) → All P xs
      → any p xs ≡ false
  none_meets P p h [] a = refl
  none_meets P p h (x ∷ xs) a = ground (arith, h x a.0, none_meets P p h xs a.1)

no_open_leg : (db : Db) (c : Call) → LegsEnded c.id db → has_open_leg db c ≡ false
no_open_leg db c a = none_meets (LegEnded c.id) (open_leg_of c.id) (λ l h. ground arith) db.legs a

no_stale_contact :
    (db : Db) (c : Call) → ContactReleased c.id c.contact_id db → holds_stale_contact db c ≡ false
no_stale_contact db c a =
    none_meets (ContactFree c.id c.contact_id db.calls) _ (λ k h. ground arith) db.contacts a

no_stale_agent : (db : Db) (c : Call) → AgentReleased c.agent_id db → holds_stale_agent db c ≡ false
no_stale_agent db c a =
    none_meets (AgentFree c.agent_id db.calls) _ (λ k h. ground arith) db.agents a

-- A finalization that went through leaves nothing to repair.
Finalized-needs_repair :
    (n : ℕ) (db : Db) (r : FinalizeResult) (w : Finalized n db r)
    → w.call.id ≡ n
    → needs_repair db w.call ≡ false
unfolding needs_repair
Finalized-needs_repair n db r w i = ground (
  arith,
  no_open_leg db w.call (subst (λ m. LegsEnded m db) (sym i) w.legs_ended),
  no_stale_contact db w.call
      (subst (λ m. ContactReleased m w.call.contact_id db) (sym i) w.contact_released),
  no_stale_agent db w.call w.agent_released,
  w.final,
)

pub repair-Resolves : (n : ℕ) → Resolves (repair_input n)
repair-Resolves n c d e = cc

repair_decides :
    (n : ℕ) (db : Db) (c : Call)
    → needs_repair db c ≡ true
    → decide (repair_input n) c ≡ none
    → is_finalized c ≡ true
unfolding decide needs_repair
repair_decides n db c h e = ground arith

repairs_row :
    (now clock n : ℕ) (c : Call) (db : Db)
    → find_call n db ≡ some c
    → needs_repair db c ≡ true
    → finalize_call_transaction now clock (repair_input n) db
      ≡ persist_finalization now clock (repair_input n) c db
unfolding finalize_call_transaction finalize_row
repairs_row now clock n c db there h =
    ground (arith, lock-found n db there, repair_decides n db c h)

pub persist-through :
    (now clock n : ℕ) (c : Call) (db db' : Db) (r : FinalizeResult)
    → persist_finalization now clock (repair_input n) c db ≡ some (db', r)
    → is_through r.status ≡ true
unfolding persist_finalization
persist-through now clock n c db db' r e = ground arith

-- A repair keeps a terminal state, and closes a call that has none.
repair_decides-state :
    (n : ℕ) (c : Call) (d : Decision)
    → decide (repair_input n) c ≡ some d
    → (d.state ≡ c.state)
      ⊎ ((is_terminal c.state ≡ false)
          × (o : CallOutcome) × (d.state ≡ (if is_failed o then failed else completed)))
unfolding decide
repair_decides-state n c d e = elim (Bool-cases (is_terminal c.state)) [
  | inl over ↦ inl (ground arith)
  | inr going ↦ inr (going, d.outcome, ground arith)
]

repair-way :
    (s t : CallState) (o : CallOutcome)
    → (t ≡ s) ⊎ ((is_terminal s ≡ false) × (t ≡ (if is_failed o then failed else completed)))
    → (same_state t s || may_follow s t) ≡ true
unfolding same_state may_follow
repair-way s t o h = ground (arith, h)

-- The trigger lets each decision of a repair through, whatever the row.
repair-allowed :
    (clock n : ℕ) (t : Option Terminal) (c : Call) (d : Decision)
    → decide (repair_input n) c ≡ some d
    → is_some (enforce_call_state_progression c (close_call clock t d c)) ≡ true
unfolding enforce_call_state_progression
repair-allowed clock n t c d e =
    let way : (same_state d.state c.state || may_follow c.state d.state) ≡ true =
      elim (repair_decides-state n c d e) [
        | inl same ↦ repair-way c.state d.state d.outcome (inl same)
        | inr (going, o, at) ↦ repair-way c.state d.state o (inr (going, at))
      ] in
    ground (arith, way)

repairs_all :
    (clock n : ℕ) (t : Option Terminal) (c : Call) (d : Decision) (cs : List Call)
    → decide (repair_input n) c ≡ some d
    → All (IsOnly n c) cs
    → is_some (guard_rows (has_id n) (close_call clock t d) cs) ≡ true
repairs_all clock n t c d cs e only = guard_rows-allowed (has_id n) (close_call clock t d) cs (
    All-map (IsOnly n c) _
      (λ x o h.
        subst
          (λ (z : Call). is_some (enforce_call_state_progression z (close_call clock t d z)) ≡ true)
          (sym (o h)) (repair-allowed clock n t c d e))
      cs only)

repair-applies :
    (clock n : ℕ) (c : Call) (o : Option Decision) (db : Db)
    → decide (repair_input n) c ≡ o
    → All (IsOnly n c) db.calls
    → is_some (apply_decision clock (repair_input n) c o db) ≡ true
unfolding apply_decision update_calls
repair-applies clock n c none db e only = refl
repair-applies clock n c (some d) db e only =
    ground (arith, repairs_all clock n (repair_input n).terminal c d db.calls e only)

repair-commits :
    (now clock n : ℕ) (c : Call) (db : Db)
    → Distinct db.calls
    → find (has_id n) db.calls ≡ some c
    → is_some (persist_finalization now clock (repair_input n) c db) ≡ true
unfolding persist_finalization
repair-commits now clock n c db u there =
    let told = record_event (repair_input n) c db in
    let same = (record_event-keeps (repair_input n) c db).0 in
    ground (
      arith,
      repair-applies clock n c (decide (repair_input n) c) told refl (
          subst (All (IsOnly n c)) (sym same)
            (found-IsOnly n (has_id n) db.calls (λ d h. h) u there)),
    )

-- What a repair leaves of a call.
pub record IsSettled (n : ℕ) (db : Db) : Type 0 where
  pub call : Call
  pub found : find (has_id n) db.calls ≡ some call
  pub has_ended : is_some call.ended_at ≡ true
  pub is_final : is_terminal call.state ≡ true
  pub has_outcome : is_some call.outcome ≡ true
  pub legs_ended : LegsEnded n db
  pub contact_released : ContactReleased n call.contact_id db
  pub agent_released : AgentReleased call.agent_id db
  pub not_found_again : needs_repair db call ≡ false

pub Finalized-IsSettled : (n : ℕ) (db : Db) (r : FinalizeResult) → Finalized n db r → IsSettled n db
Finalized-IsSettled n db r w =
    let at_id = (All-find (λ d. Unit {0}) (has_id n) db.calls (All_any db.calls) w.found).1 in
    record {
      call = w.call;
      found = w.found;
      has_ended = ground (arith, w.final);
      is_final = ground (arith, w.final);
      has_outcome = ground (arith, w.final);
      legs_ended = w.legs_ended;
      contact_released = w.contact_released;
      agent_released = w.agent_released;
      not_found_again = Finalized-needs_repair n db r w (ground (arith, ==_iff w.call.id n));
    }

-- Over tables whose ids are distinct and where only a final result is locked, the repair of a call
-- that the query finds commits and counts, also of one that ended by its time only or by its state
-- only: the call has an end, a terminal state and an outcome then, no leg of it is open, it holds
-- neither its contact nor its agent, and the query does not find it again.
pub repair_settles_the_call :
    (now clock n : ℕ) (db : Db) {c : Call}
    → Distinct db.calls
    → All IsLockValid db.calls
    → find (has_id n) db.calls ≡ some c
    → needs_repair db c ≡ true
    → (db' : Db) × (repair_finalized_call_transaction now clock n db ≡ some (db', true))
      × IsSettled n db'
unfolding repair_finalized_call_transaction
repair_settles_the_call now clock n db {c} u lock there h =
    let input = repair_input n in
    let (r, done) =
      returned (persist_finalization now clock input c db)
        (repair-commits now clock n c db u there) in
    let w =
      persist-Finalized now clock input c db r.0 r.1 (repair-Resolves n) lock there
        (repair_decides n db c h) done in
    (
      r.0,
      rw
          (
            repairs_row now clock n c db (unfold find_call in there) h,
            done,
            persist-through now clock n c db r.0 r.1 done,
          )
          refl,
      Finalized-IsSettled n r.0 r.1 w,
    )
