-- ===== src/Calls/Creation/Admission.antt =====
-- What a call that was created has passed, and how it stands in the tables.
use outbound_freeswitch_dial.Prelude.{
  ℕ, ◌≡◌, inl, inr, refl, sym, subst, ap, Bool, true, false, not, Option, none, some, List, [], ◌∷◌,
  ◌++◌, All, any, find, update_where, arith, ◌==◌, ◌⊎◌, ◌<◌, ==_iff, Bool-cases, Option-cases,
}
use outbound_freeswitch_dial.Calls.Schema.{
  Call, Contact, Agent, Directory, Db, is_paused, is_in_call,
}
use outbound_freeswitch_dial.Calls.Availability.{occupies}
use outbound_freeswitch_dial.Calls.Contacts.{
  RetryPolicy, is_idle_lead, is_completed, retry_is_due, is_suppressed, is_active_campaign,
  is_callable_status,
}
use outbound_freeswitch_dial.Calls.Creation.{
  Attempt, done, refused, thrown, maintenance, then_try, require, CreateConfig, CreateInput,
  ContactChoice, next, lead, manual, Context, context_of, check_actor, end_wrap_up, check_agent,
  choose_contact, new_call, insert_call, create_dialer_call, holds_contact, set_in_call,
}

-- A chain that is done went through each of its links.
pub then-done {ℓ κ} :
    {A : Type ℓ} {B : Type κ} (m : Attempt A) (f : A → Attempt B) {b : B}
    → then_try m f ≡ done b
    → (a : A) × (m ≡ done a) × (f a ≡ done b)
then-done (done a) f e = (a, refl, e)
then-done (refused x) f e = cc
then-done thrown f e = cc

pub done-injective {ℓ} : {A : Type ℓ} (a b : A) → done a ≡ done b → a ≡ b
done-injective a b e = cc

abbrev pub is_agent_row : ℕ → Agent → Bool
is_agent_row n a = a.id == n

-- The tables after `insert_call`.
pub record Inserted (now n : ℕ) (cfg : CreateConfig) (i : CreateInput) (x : Context) (db db' : Db)
    : Type 0 where
  pub calls : db'.calls ≡ db.calls ++ new_call now n cfg i x db ∷ []
  pub agents : db'.agents ≡ update_where (is_agent_row i.agent_id) (set_in_call now) db.agents
  pub idle_agent : any (occupies i.agent_id) db.calls ≡ false
  pub free_contact : any (holds_contact x.contact_id) db.calls ≡ false

pub insert_call-Inserted :
    (now n : ℕ) (cfg : CreateConfig) (i : CreateInput) (x : Context) (db db' : Db) {campaign : ℕ}
    → insert_call now n cfg i x db ≡ done (db', campaign)
    → Inserted now n cfg i x db db'
unfolding insert_call
insert_call-Inserted now n cfg i x db db' {campaign} e =
    elim (Bool-cases (any (occupies i.agent_id) db.calls)) [
      | inl busy ↦ absurd (ground arith)
      | inr idle ↦ (elim (Bool-cases (any (holds_contact x.contact_id) db.calls)) [
        | inl held ↦ absurd (ground arith)
        | inr free ↦
            let same = done-injective _ (db', campaign) (rw (idle, free) at e) in
            record {
              calls = sym (ap (λ (r : Db × ℕ). r.0.calls) same);
              agents = sym (ap (λ (r : Db × ℕ). r.0.agents) same);
              idle_agent = idle;
              free_contact = free;
            }
      ])
    ]

-- The links of `create_dialer_call`; `awake` are the tables after the end of the wrap-up.
pub record Parts (locked : ℕ → Bool) (now n : ℕ) (cfg : CreateConfig) (i : CreateInput)
    (db awake db' : Db) : Type 0 where
  pub context : Context
  pub gate : db.directory.call_start_paused ≡ false
  pub actor : check_actor i.actor_user_id db.directory ≡ done tt
  pub checked : check_agent i.agent_id awake ≡ done tt
  pub chosen : choose_contact locked now cfg i i.contact i.campaign_id awake ≡ done context
  pub inserted : Inserted now n cfg i context awake db'

pub create_dialer_call-Parts :
    (locked : ℕ → Bool) (now n : ℕ) (cfg : CreateConfig) (i : CreateInput) (db db' : Db)
    {campaign : ℕ}
    → create_dialer_call locked now n cfg i db ≡ done (db', campaign)
    → Parts locked now n cfg i db (end_wrap_up now i.agent_id db) db'
unfolding create_dialer_call
create_dialer_call-Parts locked now n cfg i db db' {campaign} e =
    let awake = end_wrap_up now i.agent_id db in
    let (g, gate, e1) = then-done (require (not db.directory.call_start_paused) maintenance) _ e in
    let (u, actor, e2) = then-done (check_actor i.actor_user_id db.directory) _ e1 in
    let (w, checked, e3) = then-done (check_agent i.agent_id awake) _ e2 in
    let (x, chosen, put) =
      then-done (choose_contact locked now cfg i i.contact i.campaign_id awake) _ e3 in
    record {
      context = x;
      gate = ground arith;
      actor = actor;
      checked = checked;
      chosen = chosen;
      inserted = insert_call-Inserted now n cfg i x awake db' {campaign = campaign} put;
    }

-- What the start of a call guarantees of its agent.
pub record Admitted (now n : ℕ) (i : CreateInput) (db db' : Db) : Type 0 where
  pub agent_row : Agent
  pub agent_found :
      find (is_agent_row i.agent_id) (end_wrap_up now i.agent_id db).agents ≡ some agent_row
  pub agent_registered : agent_row.registered ≡ true
  pub agent_not_paused : is_paused agent_row.availability_status ≡ false
  pub agent_idle : any (occupies i.agent_id) db.calls ≡ false
  pub agent_now_in_call :
      All (λ a. is_agent_row i.agent_id a ≡ true → is_in_call a.status ≡ true) db'.agents
  pub starts_open : db.directory.call_start_paused ≡ false
  pub call : Call
  pub call_added : db'.calls ≡ db.calls ++ call ∷ []
  pub call_id : call.id ≡ n
  pub call_occupies : occupies i.agent_id call ≡ true

check_agent-agent :
    (n : ℕ) (db : Db)
    → check_agent n db ≡ done tt
    → (a : Agent) × (find (is_agent_row n) db.agents ≡ some a)
      × (a.registered ≡ true)
      × (is_paused a.availability_status ≡ false)
unfolding check_agent
check_agent-agent n db e = elim (Option-cases (find (is_agent_row n) db.agents)) [
  | inl gone ↦ absurd (ground arith)
  | inr (a, there) ↦ (a, there, ground arith, ground arith)
]

in_call-All :
    (now n : ℕ) (agents : List Agent)
    → All
        (λ a. is_agent_row n a ≡ true → is_in_call a.status ≡ true)
        (update_where (is_agent_row n) (set_in_call now) agents)
in_call-All now n [] = tt
in_call-All now n (a ∷ more) = (ground arith, in_call-All now n more)

-- A call that is created: the gate was open; its agent was registered, not paused and had no
-- active call, and is in `in_call` afterwards; and the tables have one call more, of the given
-- id, which occupies the agent.
pub created_call_passed_every_check :
    (locked : ℕ → Bool) (now n : ℕ) (cfg : CreateConfig) (i : CreateInput) (db : Db) {db' : Db}
    {campaign : ℕ}
    → create_dialer_call locked now n cfg i db ≡ done (db', campaign)
    → Admitted now n i db db'
unfolding end_wrap_up new_call
created_call_passed_every_check locked now n cfg i db {db'} {campaign} e =
    let parts = create_dialer_call-Parts locked now n cfg i db db' {campaign = campaign} e in
    let awake = end_wrap_up now i.agent_id db in
    let (a, there, registered, free) = check_agent-agent i.agent_id awake parts.checked in
    record {
      agent_row = a;
      agent_found = there;
      agent_registered = registered;
      agent_not_paused = free;
      agent_idle = parts.inserted.idle_agent;
      agent_now_in_call =
          subst (All _) (sym parts.inserted.agents) (in_call-All now i.agent_id awake.agents);
      starts_open = parts.gate;
      call = new_call now n cfg i parts.context awake;
      call_added = parts.inserted.calls;
      call_id = refl;
      call_occupies = ground (arith, ==_iff i.agent_id i.agent_id);
    }

-- What the request says of the contact: it is the one that was asked for, or one of the campaign
-- that is new; a call by hand has none.
abbrev pub WasAskedFor : ContactChoice → Option ℕ → Contact → Type 0
WasAskedFor next none k = ⊥
WasAskedFor next (some campaign) k = (k.campaign_id ≡ campaign) × (is_idle_lead k.status ≡ true)
WasAskedFor (lead n) campaign k = k.id ≡ n
WasAskedFor manual campaign k = ⊥

-- A contact that may be called.
pub record MayCall (i : CreateInput) (now : ℕ) (p : RetryPolicy) (d : Directory) (x : Context)
    (k : Contact) : Type 0 where
  pub context : x ≡ context_of d k
  pub not_suppressed : is_suppressed k.normalized_phone_number d ≡ false
  pub active : is_active_campaign k.campaign_id d ≡ true
  pub not_calling : is_callable_status k.status ≡ true
  pub has_attempts :
      (is_completed k.status ≡ true) × (i.confirm_completed_lead ≡ true)
      ⊎ (k.attempt_count < p.max_attempts)
        × ((retry_is_due now p k ≡ true) ⊎ (i.confirm_retry_wait ≡ true))
