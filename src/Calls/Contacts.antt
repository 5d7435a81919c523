-- ===== src/Calls/Contacts.antt =====
-- apps/api/src/dashboard/calls.ts: which contact is called next, and whether a contact that was
-- asked for may be called.
pub mod Choice
use outbound_freeswitch_dial.Prelude.{
  ℕ, ◌+◌, ◌*◌, Bool, true, false, not, ◌&&◌, ◌||◌, Option, none, some, List, [], ◌∷◌, find, any,
  filter, Text, text_eq, leb, ltb, ◌==◌, if◌then◌else◌,
}
use outbound_freeswitch_dial.Calls.Schema.{
  Contact, ContactStatus, new, calling, completed, suppressed, Campaign, Directory, Db,
}

pub record RetryPolicy : Type 0 where
  pub max_attempts : ℕ
  pub retry_delay_seconds : ℕ

abbrev pub find_campaign : ℕ → Directory → Option Campaign
find_campaign n d = find (λ (c : Campaign). c.id == n) d.campaigns

abbrev pub is_active_campaign : ℕ → Directory → Bool
is_active_campaign n d = any (λ (c : Campaign). c.id == n && c.is_active) d.campaigns

-- `left join suppression_entries ... where suppression_entries.id is null`.
abbrev pub is_suppressed : Text → Directory → Bool
is_suppressed t d = any (λ u. text_eq u t) d.suppressed_numbers

-- `last_attempted_at is null or last_attempted_at <= now() - make_interval(secs => ...)`.
abbrev pub retry_is_due : ℕ → RetryPolicy → Contact → Bool
retry_is_due now p k = elim k.last_attempted_at [
  | none ↦ true
  | some at ↦ leb (at + p.retry_delay_seconds * 1000000) now
]

abbrev pub is_idle_lead : ContactStatus → Bool
is_idle_lead new = true
is_idle_lead _ = false

abbrev pub is_completed : ContactStatus → Bool
is_completed completed = true
is_completed _ = false

abbrev pub is_callable_status : ContactStatus → Bool
is_callable_status calling = false
is_callable_status suppressed = false
is_callable_status _ = true

-- The `where` of `getNextCallableContactForUpdate`.
unfoldable pub is_next_callable : ℕ → RetryPolicy → Directory → ℕ → Contact → Bool
is_next_callable now p d campaign_id k =
    k.campaign_id == campaign_id
    && is_active_campaign k.campaign_id d
    && is_idle_lead k.status
    && ltb k.attempt_count p.max_attempts
    && retry_is_due now p k
    && not (is_suppressed k.normalized_phone_number d)

-- `order by last_attempted_at asc nulls first, created_at asc`: `a` comes before `b`.
unfoldable pub comes_before : Contact → Contact → Bool
comes_before a b = elim a.last_attempted_at [
  | none ↦ (elim b.last_attempted_at [ none ↦ leb a.created_at b.created_at | some t ↦ true ])
  | some s ↦ (elim b.last_attempted_at [
    | none ↦ false
    | some t ↦ ltb s t || (s == t && leb a.created_at b.created_at)
  ])
]

unfoldable pub earliest : List Contact → Option Contact
unfolding comes_before
earliest [] = none
earliest (k ∷ ks) = elim (earliest ks) [
  | none ↦ some k
  | some j ↦ some (if comes_before k j then k else j)
]

-- `for update of contacts skip locked`: `locked` says which rows other transactions hold, and those
-- are passed over.
abbrev pub is_offered : (ℕ → Bool) → ℕ → RetryPolicy → Directory → ℕ → Contact → Bool
is_offered locked now p d campaign_id k =
    not (locked k.id) && is_next_callable now p d campaign_id k

unfoldable pub get_next_callable_contact : (ℕ → Bool) → ℕ → RetryPolicy → ℕ → Db → Option Contact
unfolding earliest is_next_callable
get_next_callable_contact locked now p campaign_id db =
    earliest (filter (is_offered locked now p db.directory campaign_id) db.contacts)

-- The `where` of `getCallableContactForUpdate`.
unfoldable pub is_callable : ℕ → RetryPolicy → Directory → Bool → Bool → ℕ → Contact → Bool
is_callable now p d confirm_completed_lead confirm_retry_wait contact_id k =
    k.id == contact_id
    && is_active_campaign k.campaign_id d
    && is_callable_status k.status
    && ((is_completed k.status && confirm_completed_lead)
        || (not (is_completed k.status)
            && ltb k.attempt_count p.max_attempts
            && (confirm_retry_wait || retry_is_due now p k)))
    && not (is_suppressed k.normalized_phone_number d)
