-- ===== src/Calls/Finalization/Cleanup.antt =====
-- The clean-up that finalization runs, also on a call that was final before.
use outbound_freeswitch_dial.Prelude.{
  ℕ, ◌≡◌, refl, Bool, true, false, Option, none, some, List, All, arith, any, ◌==◌, is_some, [],
  ◌∷◌, update_where, if◌then◌else◌,
}
use outbound_freeswitch_dial.Calls.Schema.{
  CallOutcome, Call, Leg, ended, Contact, Agent, Db, is_calling, is_in_call, is_id,
}
use outbound_freeswitch_dial.Calls.Availability.{
  finish_agent_call, occupies, released_agent, to_free,
}
use outbound_freeswitch_dial.Calls.Rows.{All-update_where, All_any}
use outbound_freeswitch_dial.Calls.Finalization.{
  end_legs, release_contact, release_agent, contact_status_for_call_outcome, still_calls,
  open_leg_of, end_leg, to_release, set_status, clean_up,
}

abbrev pub LegEnded : ℕ → Leg → Type 0
LegEnded call_id l = (l.call_id == call_id) ≡ true → (l.state ≡ ended) × (is_some l.ended_at ≡ true)

-- No leg of the call is open.
abbrev pub LegsEnded : ℕ → Db → Type 0
LegsEnded call_id db = All (LegEnded call_id) db.legs

abbrev pub ContactFree : ℕ → Option ℕ → List Call → Contact → Type 0
ContactFree call_id contact_id calls k =
    is_id contact_id k.id ≡ true
    → is_calling k.status ≡ true
    → any (still_calls k.id call_id) calls ≡ true

-- The contact is left in `calling` only by another call of it that has not ended.
abbrev pub ContactReleased : ℕ → Option ℕ → Db → Type 0
ContactReleased call_id contact_id db = All (ContactFree call_id contact_id db.calls) db.contacts

abbrev pub AgentFree : Option ℕ → List Call → Agent → Type 0
AgentFree agent_id calls a =
    is_id agent_id a.id ≡ true → is_in_call a.status ≡ true → any (occupies a.id) calls ≡ true

-- The agent is left in `in_call` only by a call that still occupies it.
abbrev pub AgentReleased : Option ℕ → Db → Type 0
AgentReleased agent_id db = All (AgentFree agent_id db.calls) db.agents

All_trivial {ℓ κ} : {A : Type ℓ} (Q : A → Type κ) → ((x : A) → Q x) → (xs : List A) → All Q xs
All_trivial Q h [] = tt
All_trivial Q h (x ∷ xs) = (h x, All_trivial Q h xs)

updated {ℓ κ} :
    {A : Type ℓ} (Q : A → Type κ) (p : A → Bool) (f : A → A)
    → ((x : A) → Q (if p x then f x else x))
    → (xs : List A) → All Q (update_where p f xs)
updated Q p f h xs = All-update_where (λ x. Unit {0}) Q p f (λ x u. h x) xs (All_any xs)

end_leg-LegEnded :
    (now call_id : ℕ) (l : Leg)
    → LegEnded call_id (if open_leg_of call_id l then end_leg now l else l)
end_leg-LegEnded now call_id l p = ground arith

pub end_legs-LegsEnded : (now call_id : ℕ) (db : Db) → LegsEnded call_id (end_legs now call_id db)
unfolding end_legs
end_legs-LegsEnded now call_id db =
    updated (LegEnded call_id) (open_leg_of call_id) (end_leg now) (end_leg-LegEnded now call_id)
      db.legs

contact_status_not_calling :
    (o : Option CallOutcome) → is_calling (contact_status_for_call_outcome o) ≡ false
unfolding contact_status_for_call_outcome
contact_status_not_calling o = ground arith

to_release-ContactFree :
    (now call_id contact_id : ℕ) (o : Option CallOutcome) (calls : List Call) (k : Contact)
    → ContactFree call_id (some contact_id) calls (
        if to_release contact_id call_id calls k
        then set_status now (contact_status_for_call_outcome o) k
        else k)
to_release-ContactFree now call_id contact_id o calls k p q =
    ground (arith, contact_status_not_calling o)

pub release_contact-ContactReleased :
    (now call_id : ℕ) (outcome : Option CallOutcome) (contact_id : Option ℕ) (db : Db)
    → ContactReleased call_id contact_id (release_contact now call_id outcome contact_id db)
unfolding release_contact
release_contact-ContactReleased now call_id outcome none db =
    All_trivial (ContactFree call_id none db.calls) (λ k p q. cc) db.contacts
release_contact-ContactReleased now call_id outcome (some contact_id) db =
    updated (ContactFree call_id (some contact_id) db.calls)
      (to_release contact_id call_id db.calls)
      (set_status now (contact_status_for_call_outcome outcome))
      (to_release-ContactFree now call_id contact_id outcome db.calls) db.contacts

to_free-AgentFree :
    (now agent_id : ℕ) (calls : List Call) (a : Agent)
    → AgentFree (some agent_id) calls (if to_free agent_id calls a then released_agent now a else a)
to_free-AgentFree now agent_id calls a p q = ground arith

pub finish_agent_call-AgentReleased :
    (now agent_id : ℕ) (db : Db) → AgentReleased (some agent_id) (finish_agent_call now agent_id db)
unfolding finish_agent_call
finish_agent_call-AgentReleased now agent_id db =
    updated (AgentFree (some agent_id) db.calls) (to_free agent_id db.calls) (released_agent now)
      (to_free-AgentFree now agent_id db.calls) db.agents

pub release_agent-AgentReleased :
    (now : ℕ) (agent_id : Option ℕ) (db : Db)
    → AgentReleased agent_id (release_agent now agent_id db)
unfolding release_agent
release_agent-AgentReleased now none db =
    All_trivial (AgentFree none db.calls) (λ k p q. cc) db.agents
release_agent-AgentReleased now (some a) db = finish_agent_call-AgentReleased now a db

-- The clean-up writes no call, and frees the legs, the contact and the agent.
pub clean_up-calls :
    (now n : ℕ) (o : Option CallOutcome) (k a : Option ℕ) (db : Db)
    → (clean_up now n o k a db).calls ≡ db.calls
unfolding clean_up release_contact release_agent finish_agent_call end_legs
clean_up-calls now n o none none db = refl
clean_up-calls now n o none (some a) db = refl
clean_up-calls now n o (some k) none db = refl
clean_up-calls now n o (some k) (some a) db = refl

pub clean_up-LegsEnded :
    (now n : ℕ) (o : Option CallOutcome) (k a : Option ℕ) (db : Db)
    → LegsEnded n (clean_up now n o k a db)
unfolding clean_up release_contact release_agent finish_agent_call
clean_up-LegsEnded now n o none none db = end_legs-LegsEnded now n db
clean_up-LegsEnded now n o none (some a) db = end_legs-LegsEnded now n db
clean_up-LegsEnded now n o (some k) none db = end_legs-LegsEnded now n db
clean_up-LegsEnded now n o (some k) (some a) db = end_legs-LegsEnded now n db

pub clean_up-ContactReleased :
    (now n : ℕ) (o : Option CallOutcome) (k a : Option ℕ) (db : Db)
    → ContactReleased n k (clean_up now n o k a db)
unfolding clean_up release_agent finish_agent_call
clean_up-ContactReleased now n o k none db =
    release_contact-ContactReleased now n o k (end_legs now n db)
clean_up-ContactReleased now n o k (some a) db =
    release_contact-ContactReleased now n o k (end_legs now n db)

pub clean_up-AgentReleased :
    (now n : ℕ) (o : Option CallOutcome) (k a : Option ℕ) (db : Db)
    → AgentReleased a (clean_up now n o k a db)
unfolding clean_up
clean_up-AgentReleased now n o k a db =
    release_agent-AgentReleased now a (release_contact now n o k (end_legs now n db))
