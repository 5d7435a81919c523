-- ===== src/Calls/Rows.antt =====
-- Tables before and after an update, row by row, and what a guarded update of calls does to a row.
use outbound_freeswitch_dial.Prelude.{
  ℕ, ◌≡◌, refl, inl, inr, Bool, true, none, some, List, [], ◌∷◌, All, find, update_where, arith,
  ◌==◌, if◌then◌else◌, is_some, Bool-cases, subst,
}
use mathlib.Core.Option.{some-injective}
use outbound_freeswitch_dial.Calls.Schema.{Call, Db, has_id, bind-eq-some}
use outbound_freeswitch_dial.Calls.Progression.{
  enforce_call_state_progression, guard_rows, update_calls,
}

module _ {ℓ} {A : Type ℓ} where
  -- The same rows in the same places, each related to what it was.
  abbrev pub Rows {κ} : (A → A → Type κ) → List A → List A → Type κ
  Rows R [] [] = Unit
  Rows R (x ∷ xs) (y ∷ ys) = R x y × Rows R xs ys
  Rows R _ _ = ⊥ × Unit

  pub Rows-refl {κ} : (R : A → A → Type κ) → ((x : A) → R x x) → (xs : List A) → Rows R xs xs
  Rows-refl R h [] = tt
  Rows-refl R h (x ∷ xs) = (h x, Rows-refl R h xs)

  pub Rows-trans {κ} :
      (R : A → A → Type κ)
      → ((x y z : A) → R x y → R y z → R x z)
      → (xs ys zs : List A) → Rows R xs ys
      → Rows R ys zs
      → Rows R xs zs
  Rows-trans R h [] [] [] p q = tt
  Rows-trans R h (x ∷ xs) (y ∷ ys) (z ∷ zs) p q = (h x y z p.0 q.0, Rows-trans R h xs ys zs p.1 q.1)
  Rows-trans R h [] [] (z ∷ zs) p q = absurd q.0
  Rows-trans R h [] (y ∷ ys) zs p q = absurd p.0
  Rows-trans R h (x ∷ xs) [] zs p q = absurd p.0
  Rows-trans R h (x ∷ xs) (y ∷ ys) [] p q = absurd q.0

  pub Rows-map {κ μ} :
      (R : A → A → Type κ) (S : A → A → Type μ)
      → ((x y : A) → R x y → S x y)
      → (xs ys : List A) → Rows R xs ys
      → Rows S xs ys
  Rows-map R S h [] [] p = tt
  Rows-map R S h (x ∷ xs) (y ∷ ys) p = (h x y p.0, Rows-map R S h xs ys p.1)
  Rows-map R S h [] (y ∷ ys) p = absurd p.0
  Rows-map R S h (x ∷ xs) [] p = absurd p.0

  pub Rows-All {κ μ} :
      (R : A → A → Type κ) (P Q : A → Type μ)
      → ((x y : A) → P x → R x y → Q y)
      → (xs ys : List A) → Rows R xs ys
      → All P xs
      → All Q ys
  Rows-All R P Q h [] [] p a = tt
  Rows-All R P Q h (x ∷ xs) (y ∷ ys) p a = (h x y a.0 p.0, Rows-All R P Q h xs ys p.1 a.1)
  Rows-All R P Q h [] (y ∷ ys) p a = absurd p.0
  Rows-All R P Q h (x ∷ xs) [] p a = absurd p.0

  -- A property of every row joins a relation on the rows.
  pub Rows-and_All {κ μ} :
      (R : A → A → Type κ) (P : A → Type μ) (xs ys : List A)
      → Rows R xs ys
      → All P xs
      → Rows (λ x y. P x × R x y) xs ys
  Rows-and_All R P [] [] p a = tt
  Rows-and_All R P (x ∷ xs) (y ∷ ys) p a = ((a.0, p.0), Rows-and_All R P xs ys p.1 a.1)
  Rows-and_All R P [] (y ∷ ys) p a = absurd p.0
  Rows-and_All R P (x ∷ xs) [] p a = absurd p.0

  pub All-map {κ μ} :
      (P : A → Type κ) (Q : A → Type μ)
      → ((x : A) → P x → Q x)
      → (xs : List A) → All P xs
      → All Q xs
  All-map P Q h [] a = tt
  All-map P Q h (x ∷ xs) a = (h x a.0, All-map P Q h xs a.1)

  pub All-update_where {κ μ} :
      (P : A → Type κ) (Q : A → Type μ) (p : A → Bool) (f : A → A)
      → ((x : A) → P x → Q (if p x then f x else x))
      → (xs : List A) → All P xs
      → All Q (update_where p f xs)
  All-update_where P Q p f h [] a = tt
  All-update_where P Q p f h (x ∷ xs) a = (h x a.0, All-update_where P Q p f h xs a.1)

  pub All_any : (xs : List A) → All (λ x. Unit {0}) xs
  All_any [] = tt
  All_any (x ∷ xs) = (tt, All_any xs)

-- What a guarded update does to one row.
abbrev pub Guarded : (Call → Bool) → (Call → Call) → Call → Call → Type 0
Guarded p f c c' = (if p c then enforce_call_state_progression c (f c) else some c) ≡ some c'

pub guard_rows-Rows :
    (p : Call → Bool) (f : Call → Call) (cs cs' : List Call)
    → guard_rows p f cs ≡ some cs'
    → Rows (Guarded p f) cs cs'
unfolding guard_rows
guard_rows-Rows p f [] cs' e = subst (Rows (Guarded p f) []) (some-injective [] cs' e) tt
guard_rows-Rows p f (c ∷ cs) cs' e =
    let (ds, first, more) = bind-eq-some (guard_rows p f cs) _ e in
    let (d, second, last) =
      bind-eq-some (if p c then enforce_call_state_progression c (f c) else some c) _ more in
    subst (Rows (Guarded p f) (c ∷ cs)) (some-injective (d ∷ ds) cs' last)
      (second, guard_rows-Rows p f cs ds first)

-- The primary key of a call is kept by every update.
abbrev pub KeepsId : Call → Call → Type 0
KeepsId c c' = c'.id ≡ c.id

pub Rows-find {κ} :
    (R : Call → Call → Type κ)
    → ((c c' : Call) → R c c' → KeepsId c c')
    → (n : ℕ) (cs cs' : List Call) {c : Call} → Rows R cs cs'
    → find (has_id n) cs ≡ some c
    → (c' : Call) × (find (has_id n) cs' ≡ some c') × R c c'
Rows-find R k n [] cs' r h = cc
Rows-find R k n (x ∷ xs) [] r h = absurd r.0
Rows-find R k n (x ∷ xs) (y ∷ ys) {c} r h = elim (Bool-cases (x.id == n)) [
  | inl hit ↦
      (y, ground (arith, k x y r.0), subst (λ z. R z y) (some-injective x c (rw hit at h)) r.0)
  | inr miss ↦
      let (d, e, s) = Rows-find R k n xs ys r.1 (rw miss at h) in (d, ground (arith, k x y r.0), s)
]

-- A row that was not there is not there afterwards.
pub Rows-find-none {κ} :
    (R : Call → Call → Type κ)
    → ((c c' : Call) → R c c' → KeepsId c c')
    → (n : ℕ) (cs cs' : List Call) → Rows R cs cs'
    → find (has_id n) cs ≡ none
    → find (has_id n) cs' ≡ none
Rows-find-none R k n [] [] r h = refl
Rows-find-none R k n [] (y ∷ ys) r h = absurd r.0
Rows-find-none R k n (x ∷ xs) [] r h = refl
Rows-find-none R k n (x ∷ xs) (y ∷ ys) r h =
    ground (arith, k x y r.0, Rows-find-none R k n xs ys r.1)

-- A guarded update writes calls, and no other table.
pub update_calls-Rows :
    (p : Call → Bool) (f : Call → Call) (db db' : Db)
    → update_calls p f db ≡ some db'
    → Rows (Guarded p f) db.calls db'.calls × (db' ≡ record db { calls = db'.calls })
unfolding update_calls
update_calls-Rows p f db db' e =
    let (cs, done, last) = bind-eq-some (guard_rows p f db.calls) _ e in
    let same : record db { calls = cs } ≡ db' =
      some-injective (record db { calls = cs }) db' last in
    subst (λ (d : Db). Rows (Guarded p f) db.calls d.calls × (d ≡ record db { calls = d.calls }))
      same (guard_rows-Rows p f db.calls cs done, refl)

pub All-find {κ} :
    (P : Call → Type κ) (p : Call → Bool) (cs : List Call) {c : Call}
    → All P cs
    → find p cs ≡ some c
    → P c × (p c ≡ true)
All-find P p [] a e = cc
All-find P p (x ∷ xs) {c} a e = elim (Bool-cases (p x)) [
  | inl hit ↦ subst (λ z. P z × (p z ≡ true)) (some-injective x c (rw hit at e)) (a.0, hit)
  | inr miss ↦ All-find P p xs a.1 (rw miss at e)
]

-- An update goes through if the trigger lets each of its rows through.
pub guard_rows-allowed :
    (p : Call → Bool) (f : Call → Call) (cs : List Call)
    → All (λ c. p c ≡ true → is_some (enforce_call_state_progression c (f c)) ≡ true) cs
    → is_some (guard_rows p f cs) ≡ true
unfolding guard_rows
guard_rows-allowed p f [] a = refl
guard_rows-allowed p f (c ∷ cs) a = ground (arith, guard_rows-allowed p f cs a.1, a.0)
