-- ===== src/Csv/Total.antt =====
-- The duplicates that `importContactsFromCsv` of apps/api/src/dashboard/csv.ts reports, and the rows
-- that it stores, are all valid rows.
use outbound_freeswitch_dial.Prelude.{
  ℕ, suc, ◌+◌, ◌≤◌, ◌<◌, ◌≡◌, refl, ap, subst, Bool, true, false, some, List, [], ◌∷◌, ◌++◌, Text,
  text_eq, text_eq_refl, length, any, find, filter, arith, Bool-cases, inl, inr, All, filter-append,
  length-append,
}
use outbound_freeswitch_dial.Csv.Import.{
  ValidRow, has_number, first_rows, duplicate_failures, other_row,
}
use outbound_freeswitch_dial.Csv.Firsts.{find-last, find-any, any-find, find-All, find-first_rows}

-- Valid rows in the order of the file, from row `k` on.
abbrev pub NumberedFrom : ℕ → List ValidRow → Type 0
NumberedFrom k [] = Unit
NumberedFrom k (v ∷ vs) = (k ≤ v.row_number) × NumberedFrom (suc v.row_number) vs

pub numbered_later : (k m : ℕ) (vs : List ValidRow) → k ≤ m → NumberedFrom m vs → NumberedFrom k vs
numbered_later k m [] h n = tt
numbered_later k m (v ∷ vs) h n = (omega (arith, n.0), n.1)

abbrev Before : ℕ → ValidRow → Type 0
Before k v = v.row_number < k

Before-later : (k m : ℕ) (vs : List ValidRow) → k ≤ m → All (Before k) vs → All (Before m) vs
Before-later k m [] h b = tt
Before-later k m (v ∷ vs) h b = (omega (arith, b.0), Before-later k m vs h b.1)

Before-concat :
    (k : ℕ) (vs : List ValidRow) (v : ValidRow)
    → All (Before k) vs
    → v.row_number < k
    → All (Before k) (vs ++ v ∷ [])
Before-concat k [] v b h = (h, tt)
Before-concat k (w ∷ vs) v b h = (b.0, Before-concat k vs v b.1 h)

rows_there :
    (seen vs : List ValidRow) (v : ValidRow)
    → any (has_number v.normalized_phone_number) seen ≡ true
    → first_rows seen (v ∷ vs) ≡ first_rows seen vs
unfolding first_rows
rows_there seen vs v e = rw (e, first_rows) refl

rows_new :
    (seen vs : List ValidRow) (v : ValidRow)
    → any (has_number v.normalized_phone_number) seen ≡ false
    → first_rows seen (v ∷ vs) ≡ first_rows (seen ++ v ∷ []) vs
unfolding first_rows
rows_new seen vs v e = rw (e, first_rows) refl

module _ (fresh : Text → Bool) (inserted : List Text) where
  abbrev pub fresh_row : ValidRow → Bool
  fresh_row v = fresh v.normalized_phone_number

  -- `inserted` has the fresh numbers of the map.
  abbrev pub Knows : List ValidRow → Type 0
  Knows firsts = (n : Text) → any (has_number n) firsts ≡ true → any (text_eq n) inserted ≡ fresh n

  later_row :
      (firsts vs : List ValidRow) (v w : ValidRow)
      → find (has_number v.normalized_phone_number) firsts ≡ some w
      → w.row_number < v.row_number
      → length (duplicate_failures firsts inserted (v ∷ vs))
        ≡ suc (length (duplicate_failures firsts inserted vs))
  unfolding duplicate_failures
  later_row firsts vs v w e h =
      let other : other_row (some w) v.row_number ≡ true = ground arith in rw (e, other) refl

  first_row :
      (firsts vs : List ValidRow) (v : ValidRow)
      → find (has_number v.normalized_phone_number) firsts ≡ some v
      → any (text_eq v.normalized_phone_number) inserted ≡ fresh_row v
      → length (duplicate_failures firsts inserted (v ∷ vs)) + length (filter fresh_row (v ∷ []))
        ≡ suc (length (duplicate_failures firsts inserted vs))
  unfolding duplicate_failures
  first_row firsts vs v e same =
      let own : other_row (some v) v.row_number ≡ false = ground arith in
      elim (Bool-cases (fresh_row v)) [
        | inl new ↦ rw (e, own, same, new) (omega arith)
        | inr old ↦ rw (e, own, same, old) (omega arith)
      ]

  count_there :
      (k : ℕ) (seen vs : List ValidRow) (v : ValidRow)
      → NumberedFrom k (v ∷ vs)
      → All (Before k) seen
      → any (has_number v.normalized_phone_number) seen ≡ true
      → length (duplicate_failures (first_rows seen vs) inserted (v ∷ vs))
        ≡ suc (length (duplicate_failures (first_rows seen vs) inserted vs))
  count_there k seen vs v n b there =
      let p = has_number v.normalized_phone_number in
      let (w, found) = find-any p seen there in
      later_row (first_rows seen vs) vs v w (find-first_rows p seen vs w found)
        (omega (arith, find-All (Before k) p seen w b found, n.0))

  count_new :
      (seen vs : List ValidRow) (v : ValidRow)
      → any (has_number v.normalized_phone_number) seen ≡ false
      → Knows (first_rows (seen ++ v ∷ []) vs)
      → length (duplicate_failures (first_rows (seen ++ v ∷ []) vs) inserted (v ∷ vs))
          + length (filter fresh_row (v ∷ []))
        ≡ suc (length (duplicate_failures (first_rows (seen ++ v ∷ []) vs) inserted vs))
  count_new seen vs v new knows =
      let number = v.normalized_phone_number in
      let p = has_number number in
      let firsts = first_rows (seen ++ v ∷ []) vs in
      let found =
        find-first_rows p (seen ++ v ∷ []) vs v (find-last p seen v new (text_eq_refl number)) in
      first_row firsts vs v found (knows number (any-find p firsts v found))

  no_rows :
      (firsts : List ValidRow)
      → length (duplicate_failures (first_rows firsts []) inserted [])
          + length (filter fresh_row (first_rows firsts []))
        ≡ 0 + length (filter fresh_row firsts)
  unfolding first_rows duplicate_failures
  no_rows firsts = refl

  -- Every row is a duplicate, or the first of a number that is new.
  pub count_duplicates :
      (k : ℕ) (seen vs : List ValidRow)
      → NumberedFrom k vs
      → All (Before k) seen
      → Knows (first_rows seen vs)
      → length (duplicate_failures (first_rows seen vs) inserted vs)
          + length (filter fresh_row (first_rows seen vs))
        ≡ length vs + length (filter fresh_row seen)
  count_duplicates k seen [] n b knows = no_rows seen
  count_duplicates k seen (v ∷ vs) n b knows =
      let r = v.row_number in
      elim (Bool-cases (any (has_number v.normalized_phone_number) seen)) [
        | inl there ↦
            let same = rows_there seen vs v there in
            let rest =
              count_duplicates (suc r) seen vs n.1
                (Before-later k (suc r) seen (omega (arith, n.0)) b) (subst Knows same knows) in
            rw same (omega (arith, rest, count_there k seen vs v n b there))
        | inr new ↦
            let same = rows_new seen vs v new in
            let known = subst Knows same knows in
            let rest =
              count_duplicates (suc r) (seen ++ v ∷ []) vs n.1
                (Before-concat (suc r) seen v (Before-later k (suc r) seen (omega (arith, n.0)) b)
                  (omega arith))
                known in
            let more = ap length (filter-append fresh_row seen (v ∷ [])) in
            let sum = length-append (filter fresh_row seen) (filter fresh_row (v ∷ [])) in
            rw same (omega (arith, rest, count_new seen vs v new known, more, sum))
      ]
