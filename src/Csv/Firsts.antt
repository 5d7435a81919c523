-- ===== src/Csv/Firsts.antt =====
-- The first row of each number, and the duplicates, in `importContactsFromCsv` of
-- apps/api/src/dashboard/csv.ts.
use mathlib.Core.Option.{some-injective}
use outbound_freeswitch_dial.Prelude.{
  ◌≡◌, refl, ap, ◌∙◌, subst, Bool, true, false, ◌||◌, some, List, [], ◌∷◌, ◌++◌, length, any, find,
  filter, arith, Bool-cases, inl, inr, if-cases, All,
}
use outbound_freeswitch_dial.Csv.Import.{
  ValidRow, has_number, first_rows, insert_row, sort_by_number, comes_first,
}
use outbound_freeswitch_dial.Csv.Stored.{Apart, text_eq_sym}

any-concat :
    (p : ValidRow → Bool) (vs : List ValidRow) (v : ValidRow)
    → any p (vs ++ v ∷ []) ≡ (any p vs || p v)
any-concat p [] v = ground arith
any-concat p (w ∷ vs) v = ground (arith, any-concat p vs v)

find-concat :
    (p : ValidRow → Bool) (vs : List ValidRow) (v w : ValidRow)
    → find p vs ≡ some w
    → find p (vs ++ v ∷ []) ≡ some w
find-concat p [] v w e = absurd (ground arith)
find-concat p (u ∷ vs) v w e = ground (arith, find-concat p vs v w)

pub find-last :
    (p : ValidRow → Bool) (vs : List ValidRow) (v : ValidRow)
    → any p vs ≡ false
    → p v ≡ true
    → find p (vs ++ v ∷ []) ≡ some v
find-last p [] v e h = rw h refl
find-last p (u ∷ vs) v e h = ground (arith, find-last p vs v)

pub find-any :
    (p : ValidRow → Bool) (vs : List ValidRow)
    → any p vs ≡ true
    → (w : ValidRow) × (find p vs ≡ some w)
find-any p [] e = absurd (ground arith)
find-any p (u ∷ vs) e = elim (Bool-cases (p u)) [
  | inl h ↦ (u, rw h refl)
  | inr h ↦ let (w, f) = find-any p vs (ground arith) in (w, rw h f)
]

pub any-find :
    (p : ValidRow → Bool) (vs : List ValidRow) (w : ValidRow) → find p vs ≡ some w → any p vs ≡ true
any-find p [] w e = absurd (ground arith)
any-find p (u ∷ vs) w e = ground (arith, any-find p vs w)

pub find-All :
    (P : ValidRow → Type 0) (p : ValidRow → Bool) (vs : List ValidRow) (w : ValidRow)
    → All P vs
    → find p vs ≡ some w
    → P w
find-All P p [] w h e = absurd (ground arith)
find-All P p (u ∷ vs) w h e = elim (Bool-cases (p u)) [
  | inl t ↦ subst P (some-injective u w (rw t at e)) h.0
  | inr t ↦ find-All P p vs w h.1 (rw t at e)
]

-- A row that the map has stays.
pub find-first_rows :
    (p : ValidRow → Bool) (seen vs : List ValidRow) (w : ValidRow)
    → find p seen ≡ some w
    → find p (first_rows seen vs) ≡ some w
unfolding first_rows
find-first_rows p seen [] w e = e
find-first_rows p seen (v ∷ vs) w e =
    if-cases (λ s. find p (first_rows s vs) ≡ some w)
      (any (has_number v.normalized_phone_number) seen) seen (seen ++ v ∷ [])
      (λ there. find-first_rows p seen vs w e)
      (λ new. find-first_rows p (seen ++ v ∷ []) vs w (find-concat p seen v w e))

-- The rows of the map have numbers of their own.
Apart-concat :
    (vs : List ValidRow) (v : ValidRow)
    → Apart vs
    → any (has_number v.normalized_phone_number) vs ≡ false
    → Apart (vs ++ v ∷ [])
Apart-concat [] v h e = (refl, tt)
Apart-concat (w ∷ vs) v h e = (
  ground (
    arith,
    any-concat (has_number w.normalized_phone_number) vs v,
    text_eq_sym v.normalized_phone_number w.normalized_phone_number,
    h.0,
  ),
  Apart-concat vs v h.1 (ground arith),
)

pub first_rows-Apart : (seen vs : List ValidRow) → Apart seen → Apart (first_rows seen vs)
unfolding first_rows
first_rows-Apart seen [] h = h
first_rows-Apart seen (v ∷ vs) h =
    if-cases (λ s. Apart (first_rows s vs)) (any (has_number v.normalized_phone_number) seen) seen
      (seen ++ v ∷ []) (λ there. first_rows-Apart seen vs h)
      (λ new. first_rows-Apart (seen ++ v ∷ []) vs (Apart-concat seen v h new))

-- Sorting keeps what a test counts, and the numbers apart.
any-insert_row :
    (p : ValidRow → Bool) (v : ValidRow) (vs : List ValidRow)
    → any p (insert_row v vs) ≡ (p v || any p vs)
unfolding insert_row
any-insert_row p v [] = refl
any-insert_row p v (w ∷ vs) = ground (arith, any-insert_row p v vs)

pub any-sort_by_number :
    (p : ValidRow → Bool) (vs : List ValidRow) → any p (sort_by_number vs) ≡ any p vs
unfolding sort_by_number
any-sort_by_number p [] = refl
any-sort_by_number p (v ∷ vs) =
    any-insert_row p v (sort_by_number vs) ∙ ap (λ b. p v || b) (any-sort_by_number p vs)

insert_row-Apart :
    (v : ValidRow) (vs : List ValidRow)
    → any (has_number v.normalized_phone_number) vs ≡ false
    → Apart vs
    → Apart (insert_row v vs)
unfolding insert_row
insert_row-Apart v [] e h = (refl, tt)
insert_row-Apart v (w ∷ vs) e h =
    if-cases Apart (comes_first w.normalized_phone_number v.normalized_phone_number)
      (w ∷ insert_row v vs) (v ∷ w ∷ vs)
      (λ after. (
        ground (
          arith,
          any-insert_row (has_number w.normalized_phone_number) v vs,
          text_eq_sym v.normalized_phone_number w.normalized_phone_number,
          h.0,
        ),
        insert_row-Apart v vs (ground arith) h.1,
      ))
      (λ before. (e, h))

pub sort_by_number-Apart : (vs : List ValidRow) → Apart vs → Apart (sort_by_number vs)
unfolding sort_by_number
sort_by_number-Apart [] h = tt
sort_by_number-Apart (v ∷ vs) h =
    insert_row-Apart v (sort_by_number vs)
      (any-sort_by_number (has_number v.normalized_phone_number) vs ∙ h.0)
      (sort_by_number-Apart vs h.1)

count-insert_row :
    (p : ValidRow → Bool) (v : ValidRow) (vs : List ValidRow)
    → length (filter p (insert_row v vs)) ≡ length (filter p (v ∷ vs))
unfolding insert_row
count-insert_row p v [] = refl
count-insert_row p v (w ∷ vs) = ground (arith, count-insert_row p v vs)

pub count-sort_by_number :
    (p : ValidRow → Bool) (vs : List ValidRow)
    → length (filter p (sort_by_number vs)) ≡ length (filter p vs)
unfolding sort_by_number
count-sort_by_number p [] = refl
count-sort_by_number p (v ∷ vs) =
    ground (arith, count-insert_row p v (sort_by_number vs), count-sort_by_number p vs)
