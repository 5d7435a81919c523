-- ===== src/Csv/Delimiter.antt =====
-- The delimiter that `detectCsvDelimiter` of apps/api/src/dashboard/csv.ts finds in an export of
-- apps/api/src/dashboard/routes.ts.
use outbound_freeswitch_dial.Prelude.{
  join, ℕ, ◌+◌, ◌≡◌, refl, true, false, not, Option, some, List, [], ◌∷◌, ◌++◌, Text, is_space,
  ◌==◌, map, if◌then◌else◌, arith, Bool-cases, inl, inr, ◌∙◌, ap, append_assoc,
}
use outbound_freeswitch_dial.Csv.{Result, ok, thrown, each_unit, head, is_at, go, skip, stop}
use outbound_freeswitch_dial.Csv.Parse.{Counts, count_unit, detect_csv_delimiter, delimiter_of}
use outbound_freeswitch_dial.Csv.Within.{Holds}
use outbound_freeswitch_dial.Csv.Export.{
  spreadsheet_safe, double_quotes, csv_cell, csv_line, call_history_csv_rows,
}

count_closes :
    (n : Option ℕ) (k : Counts)
    → k.in_quotes ≡ true
    → is_at b'"' n ≡ false
    → count_unit b'"' n k ≡ go (record k { in_quotes = false })
unfolding count_unit
count_closes n k q e = ground arith

count_inside :
    (c : ℕ) (n : Option ℕ) (k : Counts)
    → k.in_quotes ≡ true
    → (c == b'"') ≡ false
    → count_unit c n k
      ≡ go (record k { row_has_value = if not (is_space c) then true else k.row_has_value })
unfolding count_unit
count_inside c n k q e = ground arith

count_doubled : (k : Counts) → k.in_quotes ≡ true → count_unit b'"' (some b'"') k ≡ skip k
unfolding count_unit
count_doubled k q = rw q

count_opens :
    (n : Option ℕ) (k : Counts)
    → k.in_quotes ≡ false
    → count_unit b'"' n k ≡ go (record k { in_quotes = true })
unfolding count_unit
count_opens n k q = ground arith

count_comma :
    (n : Option ℕ) (k : Counts)
    → k.in_quotes ≡ false
    → count_unit b',' n k ≡ go (record k { comma_count = k.comma_count + 1 })
unfolding count_unit
count_comma n k q = ground arith

count_last_line :
    (n : Option ℕ) (k : Counts)
    → k.in_quotes ≡ false
    → k.row_has_value ≡ true
    → count_unit b'\n' n k ≡ stop k
unfolding count_unit
count_last_line n k q v = ground arith

count_blank_line :
    (n : Option ℕ) (k : Counts)
    → k.in_quotes ≡ false
    → k.row_has_value ≡ false
    → count_unit b'\n' n k ≡ go (record k { comma_count = 0; semicolon_count = 0 })
unfolding count_unit
count_blank_line n k q v = ground arith

-- The semicolons of an export stand inside quotes.
abbrev NoSemicolon : Counts → Type 0
NoSemicolon k = k.semicolon_count ≡ 0

-- From every state outside of quotes, without a semicolon so far.
abbrev CountsNone : Text → Type 0
CountsNone rest =
    (k : Counts)
    → k.in_quotes ≡ false
    → k.semicolon_count ≡ 0
    → Holds NoSemicolon (each_unit count_unit false rest k)

-- What is between the quotes of a cell is not counted.
count_quoted :
    (v rest : Text) (k : Counts)
    → k.in_quotes ≡ true
    → k.semicolon_count ≡ 0
    → is_at b'"' (head rest) ≡ false
    → CountsNone rest
    → Holds NoSemicolon (each_unit count_unit false (double_quotes v ++ b'"' ∷ rest) k)
unfolding each_unit double_quotes
count_quoted [] rest k q z n h =
    rw (count_closes (head rest) k q n) (h (record k { in_quotes = false }) refl z)
count_quoted (c ∷ v) rest k q z n h = elim (Bool-cases (c == b'"')) [
  | inl e ↦ rw (e, count_doubled k q) (count_quoted v rest k q z n h)
  | inr e ↦
      rw (e, count_inside c (head (double_quotes v ++ b'"' ∷ rest)) k q e)
        (count_quoted v rest _ q z n h)
]

count_cell :
    (v rest : Text)
    → is_at b'"' (head rest) ≡ false
    → CountsNone rest
    → CountsNone (csv_cell v ++ rest)
unfolding csv_cell each_unit
count_cell v rest n h k q z =
    rw (count_opens _ k q, append_assoc (double_quotes (spreadsheet_safe v)) (b'"' ∷ []) rest)
      (count_quoted (spreadsheet_safe v) rest (record k { in_quotes = true }) refl z n h)

count_end_of_line : (rest : Text) → CountsNone rest → CountsNone (b'\n' ∷ rest)
unfolding each_unit
count_end_of_line rest h k q z = elim (Bool-cases k.row_has_value) [
  | inl v ↦ rw (count_last_line (head rest) k q v) z
  | inr v ↦
      rw (count_blank_line (head rest) k q v)
        (h (record k { comma_count = 0; semicolon_count = 0 }) q refl)
]

count_comma_first : (rest : Text) → CountsNone rest → CountsNone (b',' ∷ rest)
unfolding each_unit
count_comma_first rest h k q z =
    rw (count_comma (head rest) k q) (h (record k { comma_count = k.comma_count + 1 }) q z)

count_row :
    (r : List Text) (rest : Text) → CountsNone rest → CountsNone (csv_line r ++ b'\n' ∷ rest)
unfolding csv_line join
count_row [] rest h = count_end_of_line rest h
count_row (c ∷ []) rest h = count_cell c (b'\n' ∷ rest) refl (count_end_of_line rest h)
count_row (c ∷ d ∷ r) rest h =
    rw (append_assoc (csv_cell c) (b',' ∷ join b',' (map csv_cell (d ∷ r))) (b'\n' ∷ rest))
      (count_cell c _ refl (count_comma_first _ (count_row (d ∷ r) rest h)))

-- The lines, each with its line end.
unfoldable pub lines : List (List Text) → Text
unfolding csv_line
lines [] = []
lines (r ∷ rs) = csv_line r ++ b'\n' ∷ lines rs

count_rows : (rs : List (List Text)) → CountsNone (lines rs)
unfolding lines each_unit
count_rows [] k q z = z
count_rows (r ∷ rs) k q z = count_row r (lines rs) (count_rows rs) k q z

-- An export is the lines of its rows.
pub export-lines :
    (r : List Text) (rs : List (List Text)) → call_history_csv_rows (r ∷ rs) ≡ lines (r ∷ rs)
unfolding call_history_csv_rows lines join
export-lines r [] = refl
export-lines r (s ∷ rs) =
    append_assoc (csv_line r) (b'\n' ∷ join b'\n' (map csv_line (s ∷ rs))) (b'\n' ∷ [])
    ∙ ap (λ t. csv_line r ++ b'\n' ∷ t) (export-lines s rs)

delimiter_without_semicolon : (m : Result Counts) → Holds NoSemicolon m → delimiter_of m ≡ b','
delimiter_without_semicolon (ok k) h = ground arith
delimiter_without_semicolon (thrown e) h = refl

pub delimiter_of_export : (rs : List (List Text)) → detect_csv_delimiter (lines rs) ≡ b','
unfolding detect_csv_delimiter
delimiter_of_export rs = delimiter_without_semicolon _ (count_rows rs _ refl refl)
