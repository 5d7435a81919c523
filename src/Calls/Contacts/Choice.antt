-- ===== src/Calls/Contacts/Choice.antt =====
-- The contact that is called next.
use outbound_freeswitch_dial.Prelude.{
  ℕ, suc, ◌+◌, ◌*◌, ◌≤◌, ◌<◌, ◌⊎◌, ◌≡◌, refl, Option, ==_iff, inl, inr, subst, Bool, true, false,
  none, some, List, [], ◌∷◌, All, filter, arith, Bool-cases, Option-cases,
}
use mathlib.Core.Option.{some-injective}
use outbound_freeswitch_dial.Calls.Schema.{Contact, new, Directory, Db}
use outbound_freeswitch_dial.Calls.Contacts.{
  RetryPolicy, comes_before, earliest, is_next_callable, is_active_campaign, is_suppressed,
  is_offered, get_next_callable_contact,
}

comes_before_itself : (k : Contact) → comes_before k k ≡ true
unfolding comes_before
comes_before_itself k = ground arith

comes_before_total : (k j : Contact) → comes_before k j ≡ false → comes_before j k ≡ true
unfolding comes_before
comes_before_total k j h = ground arith

comes_before_trans :
    (a b c : Contact) → comes_before a b ≡ true → comes_before b c ≡ true → comes_before a c ≡ true
unfolding comes_before
comes_before_trans a b c p q = ground arith

earliest-none : (P : Contact → Type 0) (ks : List Contact) → earliest ks ≡ none → All P ks
unfolding earliest
earliest-none P [] e = tt
earliest-none P (x ∷ xs) e = elim (Option-cases (earliest xs)) [
  | inl lone ↦ absurd (ground arith)
  | inr (j, more) ↦ absurd (ground arith)
]

earlier_than_all :
    (a b : Contact) (ks : List Contact)
    → comes_before a b ≡ true
    → All (λ j. comes_before b j ≡ true) ks
    → All (λ j. comes_before a j ≡ true) ks
earlier_than_all a b [] h v = tt
earlier_than_all a b (k ∷ ks) h v = (comes_before_trans a b k h v.0, earlier_than_all a b ks h v.1)

-- No contact of the list comes before the earliest one.
earliest-first :
    (ks : List Contact) {k : Contact} → earliest ks ≡ some k → All (λ j. comes_before k j ≡ true) ks
unfolding earliest
earliest-first [] {k} e = cc
earliest-first (x ∷ xs) {k} e = elim (Option-cases (earliest xs)) [
  | inl lone ↦
      subst (λ z. All (λ j. comes_before z j ≡ true) (x ∷ xs)) (some-injective x k (rw lone at e))
        (comes_before_itself x, earliest-none _ xs lone)
  | inr (j, more) ↦
      let rest = earliest-first xs more in
      (elim (Bool-cases (comes_before x j)) [
        | inl first ↦
            subst (λ z. All (λ i. comes_before z i ≡ true) (x ∷ xs))
              (some-injective x k (rw (more, first) at e))
              (comes_before_itself x, earlier_than_all x j xs first rest)
        | inr later ↦
            subst (λ z. All (λ i. comes_before z i ≡ true) (x ∷ xs))
              (some-injective j k (rw (more, later) at e)) (comes_before_total x j later, rest)
      ])
]

earliest-of :
    (P : Contact → Type 0) (ks : List Contact) {k : Contact} → All P ks → earliest ks ≡ some k → P k
unfolding earliest
earliest-of P [] {k} a e = cc
earliest-of P (x ∷ xs) {k} a e = elim (Option-cases (earliest xs)) [
  | inl lone ↦ subst P (some-injective x k (rw lone at e)) a.0
  | inr (j, more) ↦ (elim (Bool-cases (comes_before x j)) [
    | inl first ↦ subst P (some-injective x k (rw (more, first) at e)) a.0
    | inr later ↦ subst P (some-injective j k (rw (more, later) at e)) (earliest-of P xs a.1 more)
  ])
]

abbrev pub IsOneOf : Contact → List Contact → Type 0
IsOneOf k [] = ⊥
IsOneOf k (x ∷ xs) = (k ≡ x) ⊎ IsOneOf k xs

-- What the dialer asks of a contact.
pub record MayBeNext (now : ℕ) (p : RetryPolicy) (d : Directory) (campaign : ℕ) (k : Contact)
    : Type 0 where
  pub in_campaign : k.campaign_id ≡ campaign
  pub active : is_active_campaign campaign d ≡ true
  pub status : k.status ≡ new
  pub has_attempts : k.attempt_count < p.max_attempts
  pub waited :
      (k.last_attempted_at ≡ none)
      ⊎ ((t : ℕ) × (k.last_attempted_at ≡ some t) × (t + p.retry_delay_seconds * 1000000 ≤ now))
  pub not_suppressed : is_suppressed k.normalized_phone_number d ≡ false

-- A contact that was never tried counts as tried before all others.
abbrev attempt_key : Option ℕ → ℕ
attempt_key none = 0
attempt_key (some t) = suc t

-- In the order of the last attempt, then of the creation.
abbrev pub IsBefore : Contact → Contact → Type 0
IsBefore k j =
    (attempt_key k.last_attempted_at < attempt_key j.last_attempted_at)
    ⊎ ((attempt_key k.last_attempted_at ≡ attempt_key j.last_attempted_at)
        × (k.created_at ≤ j.created_at))

-- The contact that the dialer calls next, by what it promises.
abbrev pub Promises :
    (ℕ → Bool) → ℕ → RetryPolicy → Directory → ℕ → List Contact → Option Contact → Type 0
Promises locked now p d campaign ks none =
    All (λ j. MayBeNext now p d campaign j → locked j.id ≡ true) ks
Promises locked now p d campaign ks (some k) =
    IsOneOf k ks
    × MayBeNext now p d campaign k
    × (locked k.id ≡ false)
    × All (λ j. MayBeNext now p d campaign j → locked j.id ≡ false → IsBefore k j) ks

callable-MayBeNext :
    (now : ℕ) (p : RetryPolicy) (d : Directory) (campaign : ℕ) (k : Contact)
    → is_next_callable now p d campaign k ≡ true
    → MayBeNext now p d campaign k
unfolding is_next_callable
callable-MayBeNext now p d campaign k h = record {
  in_campaign = ground (arith, ==_iff k.campaign_id campaign);
  active = ground (arith, ==_iff k.campaign_id campaign);
  status = ground arith;
  has_attempts = ground arith;
  waited = elim (Option-cases k.last_attempted_at) [
    | inl never ↦ inl never
    | inr (t, at) ↦ inr (t, at, ground arith)
  ];
  not_suppressed = ground arith;
}

MayBeNext-callable :
    (now : ℕ) (p : RetryPolicy) (d : Directory) (campaign : ℕ) (k : Contact)
    → MayBeNext now p d campaign k
    → is_next_callable now p d campaign k ≡ true
unfolding is_next_callable
MayBeNext-callable now p d campaign k h = ground (
  arith,
  h.in_campaign,
  h.active,
  h.status,
  h.has_attempts,
  h.waited,
  h.not_suppressed,
  ==_iff k.campaign_id campaign,
)

comes_before-IsBefore : (k j : Contact) → comes_before k j ≡ true → IsBefore k j
unfolding comes_before
comes_before-IsBefore k j h = ground arith

filter-All : (p : Contact → Bool) (ks : List Contact) → All (λ k. p k ≡ true) (filter p ks)
filter-All p [] = tt
filter-All p (k ∷ ks) = elim (Bool-cases (p k)) [
  | inl y ↦ rw y (y, filter-All p ks)
  | inr n ↦ rw n (filter-All p ks)
]

All-filter :
    (P : Contact → Type 0) (p : Contact → Bool) (ks : List Contact)
    → All P (filter p ks)
    → All (λ k. p k ≡ true → P k) ks
All-filter P p [] a = tt
All-filter P p (k ∷ ks) a = elim (Bool-cases (p k)) [
  | inl y ↦ (let b = rw y at a in ((λ h. b.0), All-filter P p ks b.1))
  | inr n ↦ ((λ h. cc), All-filter P p ks (rw n at a))
]

filter-IsOneOf :
    (p : Contact → Bool) (k : Contact) (ks : List Contact) → IsOneOf k (filter p ks) → IsOneOf k ks
filter-IsOneOf p k [] m = m
filter-IsOneOf p k (x ∷ xs) m = elim (Bool-cases (p x)) [
  | inl y ↦ (elim (rw y at m) [
    | inl here ↦ inl here
    | inr there ↦ inr (filter-IsOneOf p k xs there)
  ])
  | inr n ↦ inr (filter-IsOneOf p k xs (rw n at m))
]

All-IsOneOf : (ks : List Contact) → All (λ k. IsOneOf k ks) ks
All-IsOneOf [] = tt
All-IsOneOf (x ∷ xs) = (inl refl, later xs (All-IsOneOf xs))
  where
    later : (ys : List Contact) → All (λ k. IsOneOf k xs) ys → All (λ k. IsOneOf k (x ∷ xs)) ys
    later [] a = tt
    later (y ∷ ys) a = (inr a.0, later ys a.1)

All-map :
    (P Q : Contact → Type 0)
    → ((k : Contact) → P k → Q k)
    → (ks : List Contact) → All P ks
    → All Q ks
All-map P Q h [] a = tt
All-map P Q h (k ∷ ks) a = (h k a.0, All-map P Q h ks a.1)

-- The contact that is chosen is one of the tables and passes the tests of the query.
pub next_contact-callable :
    (locked : ℕ → Bool) (now : ℕ) (p : RetryPolicy) (campaign : ℕ) (db : Db) {k : Contact}
    → get_next_callable_contact locked now p campaign db ≡ some k
    → IsOneOf k db.contacts
      × (is_next_callable now p db.directory campaign k ≡ true)
      × (locked k.id ≡ false)
unfolding get_next_callable_contact
next_contact-callable locked now p campaign db {k} e =
    let q = is_offered locked now p db.directory campaign in
    let offered = earliest-of _ (filter q db.contacts) (filter-All q db.contacts) e in
    (
      filter-IsOneOf q k db.contacts (
          earliest-of (λ j. IsOneOf j (filter q db.contacts)) (filter q db.contacts)
            (All-IsOneOf (filter q db.contacts)) e),
      ground (arith, offered),
      ground (arith, offered),
    )

offered_if :
    (locked : ℕ → Bool) (now : ℕ) (p : RetryPolicy) (d : Directory) (campaign : ℕ) (k : Contact)
    → MayBeNext now p d campaign k
    → locked k.id ≡ false
    → is_offered locked now p d campaign k ≡ true
offered_if locked now p d campaign k m free =
    ground (arith, free, MayBeNext-callable now p d campaign k m)

choice_of :
    (locked : ℕ → Bool) (now : ℕ) (p : RetryPolicy) (campaign : ℕ) (db : Db) (o : Option Contact)
    → get_next_callable_contact locked now p campaign db ≡ o
    → Promises locked now p db.directory campaign db.contacts o
unfolding get_next_callable_contact
choice_of locked now p campaign db none e =
    let q = is_offered locked now p db.directory campaign in
    All-map (λ j. q j ≡ true → ⊥) _
      (λ j h m. elim (Bool-cases (locked j.id)) [
        | inl held ↦ held
        | inr free ↦ absurd (h (offered_if locked now p db.directory campaign j m free))
      ])
      db.contacts (All-filter (λ j. ⊥) q db.contacts (earliest-none _ (filter q db.contacts) e))
choice_of locked now p campaign db (some k) e =
    let q = is_offered locked now p db.directory campaign in
    let (there, may, free) = next_contact-callable locked now p campaign db {k = k} e in
    (
      there,
      callable-MayBeNext now p db.directory campaign k may,
      free,
      All-map (λ j. q j ≡ true → comes_before k j ≡ true) _
          (λ j h m f.
            comes_before-IsBefore k j (h (offered_if locked now p db.directory campaign j m f)))
          db.contacts
          (All-filter (λ j. comes_before k j ≡ true) q db.contacts
            (earliest-first (filter q db.contacts) e)),
    )

-- The contact that is called next: it is one of the tables, in the campaign, which is active, new,
-- with attempts left, waited for, not suppressed and not held by another transaction; and among
-- those it comes first in the order of the last attempt, never tried first, then of the creation.
-- Where there is none, another transaction holds every contact that may be called.
pub next_contact_is_eligible_and_first :
    (locked : ℕ → Bool) (now : ℕ) (p : RetryPolicy) (campaign : ℕ) (db : Db)
    → Promises locked now p db.directory campaign db.contacts
        (get_next_callable_contact locked now p campaign db)
next_contact_is_eligible_and_first locked now p campaign db =
    choice_of locked now p campaign db (get_next_callable_contact locked now p campaign db) refl
