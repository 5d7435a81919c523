-- ===== src/Csv/Reading.antt =====
-- What the loop of `parseCsv` of apps/api/src/dashboard/csv.ts reads from an export of
-- apps/api/src/dashboard/routes.ts.
use outbound_freeswitch_dial.Prelude.{
  join, ℕ, suc, ◌+◌, ◌≤◌, ◌≡◌, refl, true, false, Option, some, List, [], ◌∷◌, ◌++◌, Text, trim,
  ◌==◌, ==_iff, length, any, length-append, length-concat, All, map, arith, Bool-cases, inl, inr,
  ◌∙◌, sym, ap, append_assoc, append-nil,
}
use outbound_freeswitch_dial.Csv.{Limits, Result, ok, each_unit, head, is_at, go, skip}
use outbound_freeswitch_dial.Csv.Parse.{Reader, read_unit, add_unit, is_filled}
use outbound_freeswitch_dial.Csv.Export.{spreadsheet_safe, double_quotes, csv_cell, csv_line}

-- The cells as they are read back.
unfoldable pub cell_value : Text → Text
unfolding spreadsheet_safe trim
cell_value c = trim (spreadsheet_safe c)

unfoldable pub row_values : List Text → List Text
unfolding cell_value
row_values r = map cell_value r

module _ (l : Limits) where
  read_closes :
      (n : Option ℕ) (r : Reader)
      → r.in_quotes ≡ true
      → is_at b'"' n ≡ false
      → read_unit l b',' b'"' n r ≡ go (record r { in_quotes = false })
  unfolding read_unit
  read_closes n r q e = ground arith

  read_opens :
      (n : Option ℕ) (r : Reader)
      → r.in_quotes ≡ false
      → read_unit l b',' b'"' n r ≡ go (record r { in_quotes = true })
  unfolding read_unit
  read_opens n r q = ground arith

  add_unit_short :
      (c : ℕ) (r : Reader)
      → suc (length r.field) ≤ l.cell_characters
      → add_unit l c r ≡ ok (record r { field = r.field ++ c ∷ [] })
  add_unit_short c r h = ground (arith, length-concat r.field c)

  read_doubled :
      (r : Reader)
      → r.in_quotes ≡ true
      → suc (length r.field) ≤ l.cell_characters
      → read_unit l b',' b'"' (some b'"') r ≡ skip (record r { field = r.field ++ b'"' ∷ [] })
  unfolding read_unit
  read_doubled r q h = ground (arith, length-concat r.field b'"')

  read_inside :
      (c : ℕ) (n : Option ℕ) (r : Reader)
      → r.in_quotes ≡ true
      → (c == b'"') ≡ false
      → suc (length r.field) ≤ l.cell_characters
      → read_unit l b',' c n r ≡ go (record r { field = r.field ++ c ∷ [] })
  unfolding read_unit
  read_inside c n r q e h = ground (arith, length-concat r.field c)

  read_quoted :
      (v rest : Text) (r : Reader)
      → r.in_quotes ≡ true
      → is_at b'"' (head rest) ≡ false
      → length (r.field ++ v) ≤ l.cell_characters
      → each_unit (read_unit l b',') false (double_quotes v ++ b'"' ∷ rest) r
        ≡ each_unit
            (read_unit l b',')
            false
            rest
            (record r { field = r.field ++ v; in_quotes = false })
  unfolding each_unit double_quotes
  read_quoted [] rest r q n h = rw (append-nil, read_closes (head rest) r q n)
  read_quoted (c ∷ v) rest r q n h =
      let short : suc (length r.field) ≤ l.cell_characters =
        omega (arith, length-append r.field (c ∷ v), h) in
      let at_rest : Text → Result Reader =
        λ t. each_unit (read_unit l b',') false rest (record r { field = t; in_quotes = false }) in
      let fits : (d : ℕ) → length ((r.field ++ d ∷ []) ++ v) ≤ l.cell_characters = λ d.
        rw (append_assoc r.field (d ∷ []) v)
          (omega (arith, length-append r.field (d ∷ v), length-append r.field (c ∷ v), h)) in
      elim (Bool-cases (c == b'"')) [
        | inl e ↦
            rw (e, read_doubled r q short)
              (read_quoted v rest (record r { field = r.field ++ b'"' ∷ [] }) q n (fits b'"')
                ∙ ap at_rest (append_assoc r.field (b'"' ∷ []) v)
                ∙ ap (λ d. at_rest (r.field ++ d ∷ v)) (sym ((==_iff c b'"').0 e)))
        | inr e ↦
            rw (e, read_inside c (head (double_quotes v ++ b'"' ∷ rest)) r q e short)
              (read_quoted v rest (record r { field = r.field ++ c ∷ [] }) q n (fits c)
                ∙ ap at_rest (append_assoc r.field (c ∷ []) v))
      ]

  read_cell :
      (v rest : Text) (r : Reader)
      → r.in_quotes ≡ false
      → r.field ≡ []
      → is_at b'"' (head rest) ≡ false
      → length (spreadsheet_safe v) ≤ l.cell_characters
      → each_unit (read_unit l b',') false (csv_cell v ++ rest) r
        ≡ each_unit
            (read_unit l b',')
            false
            rest
            (record r { field = spreadsheet_safe v; in_quotes = false })
  unfolding csv_cell each_unit
  read_cell v rest r q f n h =
      rw (read_opens _ r q, append_assoc (double_quotes (spreadsheet_safe v)) (b'"' ∷ []) rest)
        (read_quoted (spreadsheet_safe v) rest (record r { in_quotes = true }) refl n (rw f h)
          ∙ ap
              (λ t.
                each_unit (read_unit l b',') false rest
                  (record r { field = t ++ spreadsheet_safe v; in_quotes = false }))
              f)

  comma_step :
      (n : Option ℕ) (r : Reader)
      → r.in_quotes ≡ false
      → suc (length r.row) ≤ l.columns
      → read_unit l b',' b',' n r
        ≡ go (record r { row = r.row ++ trim r.field ∷ []; field = []; in_quotes = false })
  unfolding read_unit
  comma_step n r q h = ground (arith, length-concat r.row (trim r.field))

  read_comma :
      (rest : Text) (r : Reader)
      → r.in_quotes ≡ false
      → suc (length r.row) ≤ l.columns
      → each_unit (read_unit l b',') false (b',' ∷ rest) r
        ≡ each_unit
            (read_unit l b',')
            false
            rest
            (record r { row = r.row ++ trim r.field ∷ []; field = []; in_quotes = false })
  unfolding each_unit
  read_comma rest r q h = rw (comma_step (head rest) r q h) refl

  -- The state after a line whose row is `row`.
  unfoldable pub after_row : Reader → List Text → Reader
  after_row r row = record r {
    rows = r.rows ++ row ∷ [];
    row = [];
    field = [];
    cell_count = r.cell_count + length row;
    in_quotes = false;
  }

  line_end_step :
      (n : Option ℕ) (r : Reader)
      → r.in_quotes ≡ false
      → suc (length r.row) ≤ l.columns
      → any is_filled (r.row ++ trim r.field ∷ []) ≡ true
      → r.cell_count + length (r.row ++ trim r.field ∷ []) ≤ l.cells
      → length r.rows ≤ l.data_rows
      → read_unit l b',' b'\n' n r ≡ go (after_row r (r.row ++ trim r.field ∷ []))
  unfolding read_unit after_row
  line_end_step n r q h filled cells rows =
      ground (
        arith,
        length-concat r.row (trim r.field),
        length-concat r.rows (r.row ++ trim r.field ∷ []),
      )

  read_line_end :
      (rest : Text) (r : Reader)
      → r.in_quotes ≡ false
      → suc (length r.row) ≤ l.columns
      → any is_filled (r.row ++ trim r.field ∷ []) ≡ true
      → r.cell_count + length (r.row ++ trim r.field ∷ []) ≤ l.cells
      → length r.rows ≤ l.data_rows
      → each_unit (read_unit l b',') false (b'\n' ∷ rest) r
        ≡ each_unit (read_unit l b',') false rest (after_row r (r.row ++ trim r.field ∷ []))
  unfolding each_unit
  read_line_end rest r q h filled cells rows =
      rw (line_end_step (head rest) r q h filled cells rows) refl

  unfoldable pub CellReads : Text → Type 0
  CellReads c = length (spreadsheet_safe c) ≤ l.cell_characters

  pub read_row :
      (cs : List Text) (rest : Text) (r : Reader)
      → r.in_quotes ≡ false
      → r.field ≡ []
      → 1 ≤ length cs
      → All CellReads cs
      → length r.row + length cs ≤ l.columns
      → any is_filled (r.row ++ row_values cs) ≡ true
      → r.cell_count + (length r.row + length cs) ≤ l.cells
      → length r.rows ≤ l.data_rows
      → each_unit (read_unit l b',') false (csv_line cs ++ b'\n' ∷ rest) r
        ≡ each_unit (read_unit l b',') false rest (after_row r (r.row ++ row_values cs))
  unfolding csv_line join row_values cell_value CellReads after_row
  read_row [] rest r q f one fit cols filled cells rows = absurd (omega (arith, one))
  read_row (c ∷ []) rest r q f one fit cols filled cells rows =
      read_cell c (b'\n' ∷ rest) r q f refl fit.0
      ∙ read_line_end rest (record r { field = spreadsheet_safe c; in_quotes = false }) refl
          (omega arith) filled (omega (arith, length-concat r.row (trim (spreadsheet_safe c)))) rows
  read_row (c ∷ d ∷ cs) rest r q f one fit cols filled cells rows =
      let moved : Reader = record r {
        row = r.row ++ cell_value c ∷ [];
        field = [];
        in_quotes = false;
      } in
      let same = append_assoc r.row (cell_value c ∷ []) (row_values (d ∷ cs)) in
      let grown = length-concat r.row (cell_value c) in
      rw (append_assoc (csv_cell c) (b',' ∷ join b',' (map csv_cell (d ∷ cs))) (b'\n' ∷ rest)) (
        read_cell c _ r q f refl fit.0
        ∙ read_comma _ (record r { field = spreadsheet_safe c; in_quotes = false }) refl
            (omega arith)
        ∙ read_row (d ∷ cs) rest moved refl refl (omega arith) fit.1 (omega (arith, grown))
            (ap (any is_filled) same ∙ filled) (omega (arith, grown)) rows
        ∙ ap (λ t. each_unit (read_unit l b',') false rest (after_row r t)) same)
