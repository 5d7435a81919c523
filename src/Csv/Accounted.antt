-- ===== src/Csv/Accounted.antt =====
-- `importContactsFromCsv` of apps/api/src/dashboard/csv.ts accounts for every row of the file.
use outbound_freeswitch_dial.Prelude.{
  ℕ, suc, ◌+◌, ◌≡◌, refl, sym, ap, ap₂, ◌∙◌, subst, Bool, false, not, ◌&&◌, ◌||◌, Option, List, [],
  ◌∷◌, Text, text_eq, text_eq_iff, length, any, filter, map, arith, Bool-cases, Option-cases, inl,
  inr, if-cases, length-append,
}
use outbound_freeswitch_dial.Phone.{
  PhoneLibrary, Normalized, normalized, refused, normalize_phone_number,
}
use outbound_freeswitch_dial.Csv.{ParsedCsv, ok}
use outbound_freeswitch_dial.Csv.Parse.{set_of, is_filled}
use outbound_freeswitch_dial.Csv.Within.{Holds}
use outbound_freeswitch_dial.Csv.Import.{
  ValidRow, Contact, ImportReport, Sorted, has_number, first_rows, duplicate_failures,
  sort_by_number, sort_row, sort_rows, sort_number, cell_at, insert_chunks, chunks, import_rows,
  import_contacts_from_csv, find_column, phone_names, name_names,
}
use outbound_freeswitch_dial.Csv.Stored.{
  Apart, text_eq_sym, is_fresh, row_is_fresh, insert_contacts-fresh, insert_chunks-whole,
}
use outbound_freeswitch_dial.Csv.Firsts.{
  first_rows-Apart, any-sort_by_number, sort_by_number-Apart, count-sort_by_number,
}
use outbound_freeswitch_dial.Csv.Total.{NumberedFrom, numbered_later, Knows, count_duplicates}

-- What the first loop makes of the rows.
abbrev Splits : ℕ → ℕ → Sorted → Type 0
Splits n rows s = NumberedFrom n s.valid × (length s.valid + length s.failed ≡ rows)

module _ (lib : PhoneLibrary) (phone_index name_index : ℕ) (default_code : Option Text) where
  sort_number-Splits :
      (n rows : ℕ) (phone name : Text) (r : Normalized) (s : Sorted)
      → Splits (suc n) rows s
      → Splits n (suc rows) (sort_number n phone name r s)
  sort_number-Splits n rows phone name (refused r) s (order, count) =
      (numbered_later n (suc n) s.valid (omega arith) order, omega (arith, count))
  sort_number-Splits n rows phone name (normalized number) s (order, count) =
      ((omega arith, order), omega (arith, count))

  sort_row-Splits :
      (n rows : ℕ) (row : List Text) (s : Sorted)
      → Splits (suc n) rows s
      → Splits n (suc rows) (sort_row lib phone_index name_index default_code n row s)
  unfolding sort_row
  sort_row-Splits n rows row s h =
      let name = cell_at row name_index in
      let phone = cell_at row phone_index in
      elim (Bool-cases (not (is_filled name))) [
        | inl blank ↦
            rw blank (numbered_later n (suc n) s.valid (omega arith) h.0, omega (arith, h.1))
        | inr named ↦ rw named (
            sort_number-Splits n rows phone name (normalize_phone_number lib phone default_code) s
              h)
      ]

  sort_rows-Splits :
      (n : ℕ) (rows : List (List Text))
      → Splits n (length rows) (sort_rows lib phone_index name_index default_code n rows)
  unfolding sort_rows
  sort_rows-Splits n [] = (tt, refl)
  sort_rows-Splits n (row ∷ rows) =
      sort_row-Splits n (length rows) row _ (sort_rows-Splits (suc n) rows)

-- The numbers of rows, and which of them are returned.
abbrev numbers : List ValidRow → List Text
numbers = map (λ v. v.normalized_phone_number)

any-numbers : (n : Text) (vs : List ValidRow) → any (text_eq n) (numbers vs) ≡ any (has_number n) vs
any-numbers n [] = refl
any-numbers n (v ∷ vs) = ap₂ (◌||◌) (text_eq_sym n v.normalized_phone_number) (any-numbers n vs)

any-filter :
    (p f : ValidRow → Bool) (vs : List ValidRow) → any p vs ≡ false → any p (filter f vs) ≡ false
any-filter p f [] e = refl
any-filter p f (v ∷ vs) e = ground (arith, any-filter p f vs)

filter-Apart : (f : ValidRow → Bool) (vs : List ValidRow) → Apart vs → Apart (filter f vs)
filter-Apart f [] h = tt
filter-Apart f (v ∷ vs) h =
    if-cases Apart (f v) (v ∷ filter f vs) (filter f vs)
      (λ kept. (any-filter (has_number v.normalized_phone_number) f vs h.0, filter-Apart f vs h.1))
      (λ dropped. filter-Apart f vs h.1)

keeps_others :
    (x : Text) (xs : List Text)
    → any (text_eq x) xs ≡ false
    → filter (λ y. not (text_eq x y)) xs ≡ xs
keeps_others x [] e = refl
keeps_others x (y ∷ xs) e = ground (arith, keeps_others x xs)

set_of-Apart : (vs : List ValidRow) → Apart vs → set_of (numbers vs) ≡ numbers vs
unfolding set_of
set_of-Apart [] h = refl
set_of-Apart (v ∷ vs) h =
    let n = v.normalized_phone_number in
    ap (◌∷◌ n) (
      ap (filter (λ y. not (text_eq n y))) (set_of-Apart vs h.1)
      ∙ keeps_others n (numbers vs) (any-numbers n vs ∙ h.0))

length-numbers : (vs : List ValidRow) → length (numbers vs) ≡ length vs
length-numbers [] = refl
length-numbers (v ∷ vs) = ap suc (length-numbers vs)

-- A number is among the fresh rows when it is among the rows and fresh.
fresh_number :
    (fresh : Text → Bool) (n : Text) (vs : List ValidRow)
    → any (has_number n) (filter (λ v. fresh v.normalized_phone_number) vs)
      ≡ (any (has_number n) vs && fresh n)
fresh_number fresh n [] = refl
fresh_number fresh n (v ∷ vs) = elim (Bool-cases (has_number n v)) [
  | inl own ↦
      let same = ap fresh ((text_eq_iff v.normalized_phone_number n).0 own) in
      ground (arith, same, own, fresh_number fresh n vs)
  | inr other ↦ ground (arith, other, fresh_number fresh n vs)
]

-- What the inserts return and store, for the first rows of each number.
Stores : ℕ → List ValidRow → List Contact → List Contact × List Text → Type 0
Stores campaign firsts cs stored =
    (length (set_of stored.1) ≡ length (filter (row_is_fresh campaign cs) firsts))
    × (length stored.0 ≡ length cs + length (set_of stored.1))
    × Knows (is_fresh campaign cs) stored.1 firsts

chunks_store :
    (campaign : ℕ) (firsts : List ValidRow) (cs : List Contact)
    → Apart firsts
    → Stores campaign firsts cs (insert_chunks campaign (chunks 1000 (sort_by_number firsts)) cs)
unfolding Stores chunks
chunks_store campaign firsts cs h =
    let rows = sort_by_number firsts in
    let apart = sort_by_number-Apart firsts h in
    let whole =
      insert_chunks-whole campaign (length rows) 1000 rows cs (omega arith) (omega arith) in
    let (returned, size) = insert_contacts-fresh campaign rows cs apart in
    let fresh_rows = filter (row_is_fresh campaign cs) rows in
    let ret = ap (λ r. r.1) whole ∙ returned in
    let same =
      ap set_of ret
      ∙ set_of-Apart fresh_rows (filter-Apart (row_is_fresh campaign cs) rows apart)
      ∙ sym ret in
    let counted =
      ap length ret
      ∙ length-numbers fresh_rows
      ∙ count-sort_by_number (row_is_fresh campaign cs) firsts in
    (
      ap length same ∙ counted,
      ap (λ r. length r.0) whole
          ∙ size
          ∙ ap (λ r. length cs + length r.1) (sym whole)
          ∙ ap (λ l. length cs + length l) (sym same),
      λ n there.
          ap (any (text_eq n)) ret
          ∙ any-numbers n fresh_rows
          ∙ fresh_number (is_fresh campaign cs) n rows
          ∙ ap (λ b. b && is_fresh campaign cs n)
              (any-sort_by_number (has_number n) firsts ∙ there),
    )

Accounts : List Contact → List Contact × ImportReport → Type 0
Accounts cs done =
    (done.1.total_rows ≡ done.1.imported_rows + done.1.failed_rows)
    × (done.1.failed_rows ≡ length done.1.failures)
    × (length done.0 ≡ length cs + done.1.imported_rows)

module _ (campaign : ℕ) (parsed : ParsedCsv) (s : Sorted) (cs : List Contact) where
  -- The report and the contacts of the transaction, given what the first loop gives.
  import_rows-Accounts :
      Splits 2 (length parsed.rows) s → Accounts cs (import_rows campaign parsed s cs)
  unfolding import_rows Accounts Stores
  import_rows-Accounts (order, count) =
      let firsts = first_rows [] s.valid in
      let stored = insert_chunks campaign (chunks 1000 (sort_by_number firsts)) cs in
      let (new, size, knows) = chunks_store campaign firsts cs (first_rows-Apart [] s.valid tt) in
      let duplicates =
        count_duplicates (is_fresh campaign cs) stored.1 2 [] s.valid order tt knows in
      (
        omega (arith, new, duplicates, count),
        sym (length-append s.failed (duplicate_failures firsts stored.1 s.valid)),
        size,
      )

import-Accounts :
    (lib : PhoneLibrary) (campaign : ℕ) (parsed : ParsedCsv) (default_code : Option Text)
    (cs : List Contact)
    → Holds (Accounts cs) (import_contacts_from_csv lib campaign parsed default_code cs)
unfolding import_contacts_from_csv
import-Accounts lib campaign parsed default_code cs =
    elim (Option-cases (find_column parsed.headers phone_names)) [
      | inl missing ↦ rw missing tt
      | inr (i, found) ↦ elim (Option-cases (find_column parsed.headers name_names)) [
        | inl missing ↦ rw (found, missing) tt
        | inr (j, named) ↦
            rw (found, named)
              (import_rows-Accounts campaign parsed (sort_rows lib i j default_code 2 parsed.rows)
                cs (sort_rows-Splits lib i j default_code 2 parsed.rows))
      ]
    ]

-- When an import succeeds, every row of the file is imported or reported as a failure, the failures
-- are as many as are counted, and the contacts have grown by the rows that are counted as imported.
pub import_accounts_for_every_row :
    (lib : PhoneLibrary) (campaign : ℕ) (parsed : ParsedCsv) (default_code : Option Text)
    (cs stored : List Contact) (report : ImportReport)
    → import_contacts_from_csv lib campaign parsed default_code cs ≡ ok (stored, report)
    → (report.total_rows ≡ report.imported_rows + report.failed_rows)
      × (report.failed_rows ≡ length report.failures)
      × (length stored ≡ length cs + report.imported_rows)
unfolding Accounts
import_accounts_for_every_row lib campaign parsed default_code cs stored report e =
    subst (Holds (Accounts cs)) e (import-Accounts lib campaign parsed default_code cs)
