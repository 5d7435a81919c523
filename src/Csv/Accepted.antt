-- ===== src/Csv/Accepted.antt =====
-- What a file that `parseCsv` of apps/api/src/dashboard/csv.ts takes is like.
use outbound_freeswitch_dial.Prelude.{
  if-cases, byte_length, ℕ, suc, ◌+◌, ◌≤◌, ◌≡◌, refl, Bool, true, false, not, none, List, [], ◌∷◌,
  Text, trim, to_lower_case, ltb, ◌==◌, length, any, All, filter, map, arith, Option-cases, inl,
  inr, ap, subst,
}
use outbound_freeswitch_dial.Csv.{ParsedCsv, CsvParseLimits, Limits, limits_in_force, ok}
use outbound_freeswitch_dial.Csv.Parse.{
  is_filled, read_rows, strip_bom, clean_headers, set_of, wider_row, row_is_filled, check_headers,
  shift_headers, parse_csv,
}
use outbound_freeswitch_dial.Csv.Within.{
  Holds, throw_if-Holds, Holds-bind, cells_of, CellFits, RowFits, RowsFit, read_rows-Fits,
  length-trim,
}

-- The header row is there, within the limits, without blank or repeated names; the rows are within
-- the limits, not wider than the header, and not blank.
abbrev pub RowIsAccepted : Limits → ParsedCsv → List Text → Type 0
RowIsAccepted l p r = All (CellFits l) r × (length r ≤ length p.headers) × (row_is_filled r ≡ true)

abbrev pub IsAccepted : Limits → ParsedCsv → Type 0
IsAccepted l p =
    RowFits l p.headers
    × (1 ≤ length p.headers)
    × (any (λ h. not (is_filled h)) p.headers ≡ false)
    × (length (set_of (map to_lower_case p.headers)) ≡ length p.headers)
    × All (RowIsAccepted l p) p.rows
    × (length p.rows ≤ l.data_rows)
    × (length p.headers + cells_of p.rows ≤ l.cells)

cells_of-filter :
    (f : List Text → Bool) (rs : List (List Text)) → cells_of (filter f rs) ≤ cells_of rs
cells_of-filter f [] = omega arith
cells_of-filter f (r ∷ rs) = ground (arith, cells_of-filter f rs)

length-filter {ℓ} : {A : Type ℓ} (f : A → Bool) (xs : List A) → length (filter f xs) ≤ length xs
length-filter f [] = omega arith
length-filter f (x ∷ xs) = ground (arith, length-filter f xs)

length-strip_bom : (t : Text) → length (strip_bom t) ≤ length t
length-strip_bom [] = omega arith
length-strip_bom (c ∷ t) = ground arith

module _ (l : Limits) where
  trims-fit : (hs : List Text) → All (CellFits l) hs → All (CellFits l) (map trim hs)
  trims-fit [] h = tt
  trims-fit (c ∷ hs) h = (omega (arith, length-trim c, h.0), trims-fit hs h.1)

  length-map-trim : (hs : List Text) → length (map trim hs) ≡ length hs
  length-map-trim [] = refl
  length-map-trim (c ∷ hs) = ap suc (length-map-trim hs)

  clean_headers-fit :
      (hs : List Text)
      → All (CellFits l) hs
      → All (CellFits l) (clean_headers hs) × (length (clean_headers hs) ≡ length hs)
  unfolding clean_headers
  clean_headers-fit [] h = (tt, refl)
  clean_headers-fit (c ∷ hs) h = (
    (omega (arith, length-strip_bom (trim c), length-trim c, h.0), trims-fit hs h.1),
    ap suc (length-map-trim hs),
  )

  -- The rows that are kept, when none is wider than the header.
  kept_rows :
      (p : ParsedCsv) (i : ℕ) (rs : List (List Text))
      → wider_row (length p.headers) i rs ≡ none
      → All (RowFits l) rs
      → All (RowIsAccepted l p) (filter row_is_filled rs)
  unfolding wider_row
  kept_rows p i [] e h = tt
  kept_rows p i (r ∷ rs) e h =
      if-cases (All (RowIsAccepted l p)) (row_is_filled r) (r ∷ filter row_is_filled rs)
        (filter row_is_filled rs)
        (λ filled. ((h.0.0, ground arith, filled), kept_rows p (suc i) rs (ground arith) h.1))
        (λ blank. kept_rows p (suc i) rs (ground arith) h.1)

  check_headers-IsAccepted :
      (hs : List Text) (rs : List (List Text))
      → RowFits l hs
      → All (RowFits l) rs
      → length rs ≤ l.data_rows
      → length hs + cells_of rs ≤ l.cells
      → Holds (IsAccepted l) (check_headers hs rs)
  unfolding check_headers
  check_headers-IsAccepted hs rs fit rows count cells =
      let P = IsAccepted l in
      let p : ParsedCsv = record { headers = hs; rows = filter row_is_filled rs } in
      throw_if-Holds P (length hs == 0) _ _ (λ there.
        throw_if-Holds P (any (λ h. not (is_filled h)) hs) _ _ (λ named.
          throw_if-Holds P (not (length (set_of (map to_lower_case hs)) == length hs)) _ _
            (λ distinct. elim (Option-cases (wider_row (length hs) 0 rs)) [
              | inr (i, wide) ↦ rw wide tt
              | inl fits ↦ rw fits (
                fit,
                ground arith,
                named,
                ground arith,
                kept_rows p 0 rs fits rows,
                omega (arith, length-filter row_is_filled rs),
                omega (arith, cells_of-filter row_is_filled rs),
              )
            ])))

  shift_headers-IsAccepted :
      (rs : List (List Text)) → RowsFit l rs → Holds (IsAccepted l) (shift_headers rs)
  unfolding shift_headers RowsFit
  shift_headers-IsAccepted [] h =
      check_headers-IsAccepted [] [] (tt, omega arith) tt (omega arith) (omega arith)
  shift_headers-IsAccepted (r ∷ rs) ((fit, fits), count, cells) =
      let (cleaned, same) = clean_headers-fit r fit.0 in
      check_headers-IsAccepted (clean_headers r) rs (cleaned, omega (arith, same, fit.1)) fits
        (omega arith) (omega (arith, same))

parse_csv-Holds :
    (input : Text) (limits : CsvParseLimits)
    → Holds (IsAccepted (limits_in_force limits)) (parse_csv input limits)
unfolding parse_csv
parse_csv-Holds input limits =
    let l = limits_in_force limits in
    throw_if-Holds (IsAccepted l) (ltb l.bytes (byte_length input)) _ _ (λ small.
      Holds-bind (RowsFit l) (IsAccepted l) (read_rows l input) shift_headers
        (read_rows-Fits l input) (shift_headers-IsAccepted l))

parse_csv-small :
    (input : Text) (limits : CsvParseLimits) (p : ParsedCsv)
    → parse_csv input limits ≡ ok p
    → byte_length input ≤ (limits_in_force limits).bytes
unfolding parse_csv
parse_csv-small input limits p e = ground arith

-- A file that `parseCsv` takes is not larger than the limit on bytes; it has a header row without
-- blank or repeated names, and no row wider than it; its rows are not blank, and its cells, its
-- columns, its rows and the cells of all rows together are within the limits in force.
pub file_taken_is_within_limits :
    (input : Text) (limits : CsvParseLimits) (p : ParsedCsv)
    → parse_csv input limits ≡ ok p
    → (byte_length input ≤ (limits_in_force limits).bytes) × IsAccepted (limits_in_force limits) p
file_taken_is_within_limits input limits p e = (
  parse_csv-small input limits p e,
  subst (Holds (IsAccepted (limits_in_force limits))) e (parse_csv-Holds input limits),
)
