-- ===== src/Csv/Trimmed.antt =====
-- Trimmed texts, and the cells of an export of apps/api/src/dashboard/routes.ts once they are
-- trimmed, as `parseCsv` of apps/api/src/dashboard/csv.ts does.
use outbound_freeswitch_dial.Prelude.{
  ℕ, ◌≡◌, refl, false, List, [], ◌∷◌, Text, trim, trim_start, trim_end, trim_end_cons, is_space,
  ◌==◌, map, arith, Bool-cases, inl, inr, ◌∙◌, sym, ap, any, ◌⊎◌,
}
use outbound_freeswitch_dial.Csv.Parse.{is_filled, strip_bom, row_is_filled, clean_headers}
use outbound_freeswitch_dial.Csv.Export.{starts_formula, spreadsheet_safe}
use outbound_freeswitch_dial.Csv.Reading.{cell_value, row_values}

trim_end_cons-trimmed :
    (c : ℕ) (w : Text) → trim_end w ≡ w → trim_end (trim_end_cons c w) ≡ trim_end_cons c w
unfolding trim_end_cons trim_end
trim_end_cons-trimmed c [] e = elim (Bool-cases (is_space c)) [
  | inl s ↦ rw s
  | inr s ↦ rw (s, s) refl
]
trim_end_cons-trimmed c (d ∷ t) e = ap (trim_end_cons c) e

trim_end-trim_end : (t : Text) → trim_end (trim_end t) ≡ trim_end t
unfolding trim_end
trim_end-trim_end [] = refl
trim_end-trim_end (c ∷ t) = trim_end_cons-trimmed c (trim_end t) (trim_end-trim_end t)

-- A text is blank, or starts, once trimmed at the start, with a unit that is not white space.
trim_start-cases :
    (t : Text)
    → (trim_start t ≡ []) ⊎ ((c : ℕ) × (u : Text) × (is_space c ≡ false) × (trim_start t ≡ c ∷ u))
unfolding trim_start
trim_start-cases [] = inl refl
trim_start-cases (c ∷ t) = elim (Bool-cases (is_space c)) [
  | inl s ↦ rw s (trim_start-cases t)
  | inr s ↦ rw s (inr (c, t, s, refl))
]

trim_end-starts : (c : ℕ) (u : Text) → is_space c ≡ false → trim_end (c ∷ u) ≡ c ∷ trim_end u
unfolding trim_end
trim_end-starts c u s = by_cases (trim_end u)
  where
    by_cases : (w : Text) → trim_end_cons c w ≡ c ∷ w
    by_cases [] = rw s
    by_cases (d ∷ w) = refl

trim_start-kept : (c : ℕ) (u : Text) → is_space c ≡ false → trim_start (c ∷ u) ≡ c ∷ u
unfolding trim_start
trim_start-kept c u s = rw s

pub trim-cases :
    (t : Text)
    → ((trim_start t ≡ []) × (trim t ≡ []))
      ⊎ ((c : ℕ) × (u : Text) × (is_space c ≡ false)
          × (trim_start t ≡ c ∷ u)
          × (trim t ≡ c ∷ trim_end u))
unfolding trim
trim-cases t = elim (trim_start-cases t) [
  | inl e ↦ inl (e, ap trim_end e)
  | inr (c, u, s, e) ↦ inr (c, u, s, e, ap trim_end e ∙ trim_end-starts c u s)
]

pub trim-trim : (t : Text) → trim (trim t) ≡ trim t
unfolding trim
trim-trim t = elim (trim-cases t) [
  | inl (e, f) ↦ ap trim f ∙ sym f
  | inr (c, u, s, e, f) ↦
      ap trim f
      ∙ ap trim_end (trim_start-kept c (trim_end u) s)
      ∙ ap trim_end (sym f)
      ∙ trim_end-trim_end (trim_start t)
]

bom_is_space : (c : ℕ) → is_space c ≡ false → (c == 0xFEFF) ≡ false
unfolding is_space
bom_is_space c s = ground arith

strip_bom-trim : (t : Text) → strip_bom (trim t) ≡ trim t
strip_bom-trim t = elim (trim-cases t) [
  | inl (e, f) ↦ rw f refl
  | inr (c, u, s, e, f) ↦ rw (f, bom_is_space c s) refl
]

-- The cells that are read back are trimmed already: the header's cleaning leaves them alone, and a
-- row is blank as it was.
map-trim-row_values : (r : List Text) → map trim (row_values r) ≡ row_values r
unfolding row_values cell_value
map-trim-row_values [] = refl
map-trim-row_values (c ∷ r) = rw (trim-trim (spreadsheet_safe c), map-trim-row_values r) refl

pub clean_headers-row_values : (r : List Text) → clean_headers (row_values r) ≡ row_values r
unfolding clean_headers row_values cell_value
clean_headers-row_values [] = refl
clean_headers-row_values (c ∷ r) =
    let t = trim (spreadsheet_safe c) in
    rw (trim-trim (spreadsheet_safe c), strip_bom-trim (spreadsheet_safe c), map-trim-row_values r)
      refl

pub row_is_filled-row_values :
    (r : List Text) → row_is_filled (row_values r) ≡ any is_filled (row_values r)
unfolding row_values cell_value
row_is_filled-row_values [] = refl
row_is_filled-row_values (c ∷ r) =
    rw (trim-trim (spreadsheet_safe c), row_is_filled-row_values r) refl

trim_start-trim : (t : Text) → trim_start (trim t) ≡ trim t
unfolding trim_start
trim_start-trim t = elim (trim-cases t) [
  | inl (e, f) ↦ rw f refl
  | inr (c, u, s, e, f) ↦ rw f (trim_start-kept c (trim_end u) s)
]

starts_formula-trim : (t : Text) → starts_formula (trim t) ≡ starts_formula (trim_start t)
unfolding starts_formula
starts_formula-trim t = elim (trim-cases t) [
  | inl (e, f) ↦ rw (e, f) refl
  | inr (c, u, s, e, f) ↦ rw (e, f) refl
]

guarded_is_no_formula :
    (value : Text) → starts_formula (trim_start (spreadsheet_safe value)) ≡ false
unfolding spreadsheet_safe starts_formula is_space
guarded_is_no_formula value = elim (Bool-cases (starts_formula (trim_start value))) [
  | inl f ↦ rw f (ap starts_formula (trim_start-kept b'\'' value refl))
  | inr n ↦ rw n n
]

-- A cell that the export writes for a text, once it is read back and trimmed at the start, does
-- not start with `=`, `+`, `-` or `@`: no spreadsheet takes it for a formula.
exported_cell_is_no_formula :
    (value : Text) → starts_formula (trim_start (cell_value value)) ≡ false
unfolding cell_value
exported_cell_is_no_formula value =
    ap starts_formula (trim_start-trim (spreadsheet_safe value))
    ∙ starts_formula-trim (spreadsheet_safe value)
    ∙ guarded_is_no_formula value
