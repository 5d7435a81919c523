-- ===== src/Csv/RoundTrip.antt =====
-- `parseCsv` of apps/api/src/dashboard/csv.ts reads back what the export of
-- apps/api/src/dashboard/routes.ts writes.
use outbound_freeswitch_dial.Prelude.{
  byte_length, suc, ◌+◌, ◌≤◌, ◌≡◌, refl, true, false, not, none, List, [], ◌∷◌, ◌++◌, Text, trim,
  trim_start, trim_end, to_lower_case, ltb, ◌==◌, ==_refl, length, any, length-concat, All, filter,
  map, arith, ◌∙◌, sym, ap, append_assoc, append-nil,
}
use outbound_freeswitch_dial.Csv.{Limits, CsvParseLimits, limits_in_force, ok, ◌>>=◌, each_unit}
use outbound_freeswitch_dial.Csv.Parse.{
  Reader, read_unit, finish, is_filled, start, read_rows, row_is_filled, set_of, wider_row,
  check_headers, shift_headers, parse_csv,
}
use outbound_freeswitch_dial.Csv.Within.{cells_of}
use outbound_freeswitch_dial.Csv.Export.{call_history_csv_rows}
use outbound_freeswitch_dial.Csv.Delimiter.{lines, export-lines, delimiter_of_export}
use outbound_freeswitch_dial.Csv.Reading.{row_values, CellReads, read_row, after_row}
use outbound_freeswitch_dial.Csv.Trimmed.{clean_headers-row_values, row_is_filled-row_values}

length-row_values : (r : List Text) → length (row_values r) ≡ length r
unfolding row_values
length-row_values [] = refl
length-row_values (c ∷ r) = ap suc (length-row_values r)

filled-length : (r : List Text) → any is_filled (row_values r) ≡ true → 1 ≤ length r
unfolding row_values
filled-length [] h = ground arith
filled-length (c ∷ r) h = omega arith

-- A row that can be exported and read: its guarded cells and their number are within the limits,
-- and it is not blank.
abbrev pub RowReads : Limits → List Text → Type 0
RowReads l r = All (CellReads l) r × (length r ≤ l.columns) × (any is_filled (row_values r) ≡ true)

module _ (l : Limits) where
  -- The last line end leaves one empty cell, which makes a blank row.
  finish_blank :
      (r : Reader)
      → r.in_quotes ≡ false
      → r.field ≡ []
      → r.row ≡ []
      → 1 ≤ l.columns
      → finish l r ≡ ok r.rows
  unfolding finish trim trim_start trim_end
  finish_blank r q f e one = ground arith

  nothing_left : (r : Reader) → (each_unit (read_unit l b',') false [] r >>= finish l) ≡ finish l r
  unfolding each_unit
  nothing_left r = refl

  read_lines :
      (rs : List (List Text)) (r : Reader)
      → r.in_quotes ≡ false
      → r.field ≡ []
      → r.row ≡ []
      → All (RowReads l) rs
      → 1 ≤ l.columns
      → length r.rows + length rs ≤ suc l.data_rows
      → r.cell_count + cells_of rs ≤ l.cells
      → (do s ← each_unit (read_unit l b',') false (lines rs) r; finish l s)
        ≡ ok (r.rows ++ map row_values rs)
  unfolding lines after_row
  read_lines [] r q f e reads one count cells =
      nothing_left r ∙ finish_blank r q f e one ∙ ap ok (sym (append-nil r.rows))
  read_lines (row ∷ rs) r q f e reads one count cells =
      let values = r.row ++ row_values row in
      let same : values ≡ row_values row = ap (λ t. t ++ row_values row) e in
      let size : length values ≡ length row = ap length same ∙ length-row_values row in
      ap (λ m. m >>= finish l)
        (read_row l row (lines rs) r q f (filled-length row reads.0.2) reads.0.0
          (rw e (omega (arith, reads.0.1))) (ap (any is_filled) same ∙ reads.0.2)
          (rw e (omega arith)) (omega arith))
      ∙ read_lines rs (after_row l r values) refl refl refl reads.1 one
          (omega (arith, length-concat r.rows values)) (omega (arith, size))
      ∙ ap ok (append_assoc r.rows (values ∷ []) (map row_values rs))
      ∙ ap (λ v. ok (r.rows ++ v ∷ map row_values rs)) same

-- What an export has to be like, for the limits in force, so that its file is taken.
pub record Exportable (l : Limits) (header : List Text) (rows : List (List Text)) : Type 0 where
  pub small : byte_length (call_history_csv_rows (header ∷ rows)) ≤ l.bytes
  pub header_reads : RowReads l header
  pub rows_read : All (RowReads l) rows
  pub few_rows : length rows ≤ l.data_rows
  pub few_cells : length header + cells_of rows ≤ l.cells
  pub header_named : any (λ h. not (is_filled h)) (row_values header) ≡ false
  pub header_distinct : length (set_of (map to_lower_case (row_values header))) ≡ length header
  pub none_wider : wider_row (length header) 0 (map row_values rows) ≡ none

keeps_rows :
    (l : Limits) (rs : List (List Text))
    → All (RowReads l) rs
    → filter row_is_filled (map row_values rs) ≡ map row_values rs
keeps_rows l [] h = refl
keeps_rows l (r ∷ rs) h = rw (row_is_filled-row_values r ∙ h.0.2, keeps_rows l rs h.1) refl

check_headers_of_export :
    (l : Limits) (header : List Text) (rows : List (List Text))
    → Exportable l header rows
    → check_headers (row_values header) (map row_values rows)
      ≡ ok (record { headers = row_values header; rows = map row_values rows })
unfolding check_headers
check_headers_of_export l header rows x =
    let there : (length header == 0) ≡ false =
      ground (arith, filled-length header x.header_reads.2) in
    rw
      (
        length-row_values header,
        x.header_named,
        x.header_distinct,
        ==_refl (length header),
        x.none_wider,
        there,
        keeps_rows l rows x.rows_read,
      )
      refl

read_export :
    (l : Limits) (header : List Text) (rows : List (List Text))
    → Exportable l header rows
    → read_rows l (lines (header ∷ rows)) ≡ ok (map row_values (header ∷ rows))
unfolding read_rows
read_export l header rows x = rw (delimiter_of_export (header ∷ rows)) (
    read_lines l (header ∷ rows) start refl refl refl (x.header_reads, x.rows_read)
      (omega (arith, filled-length header x.header_reads.2, x.header_reads.1))
      (omega (arith, x.few_rows)) (omega (arith, x.few_cells)))

parse_csv-shift_headers :
    (input : Text) (limits : CsvParseLimits) (rows : List (List Text))
    → byte_length input ≤ (limits_in_force limits).bytes
    → read_rows (limits_in_force limits) input ≡ ok rows
    → parse_csv input limits ≡ shift_headers rows
unfolding parse_csv
parse_csv-shift_headers input limits rows small e =
    let fits : ltb (limits_in_force limits).bytes (byte_length input) ≡ false = ground arith in
    rw (fits, e) refl

shift_headers_of_export :
    (l : Limits) (header : List Text) (rows : List (List Text))
    → Exportable l header rows
    → shift_headers (map row_values (header ∷ rows))
      ≡ ok (record { headers = row_values header; rows = map row_values rows })
unfolding shift_headers
shift_headers_of_export l header rows x =
    rw (clean_headers-row_values header) (check_headers_of_export l header rows x)

-- A file that the export writes, if it is within the limits, its header row without blank or
-- repeated names, no row blank or wider than the header, is read back by the parser: the rows are
-- the exported ones, each cell guarded against formulas and trimmed.
pub exported_file_reads_back :
    (limits : CsvParseLimits) (header : List Text) (rows : List (List Text))
    → Exportable (limits_in_force limits) header rows
    → parse_csv (call_history_csv_rows (header ∷ rows)) limits
      ≡ ok (record { headers = row_values header; rows = map row_values rows })
exported_file_reads_back limits header rows x =
    let l = limits_in_force limits in
    parse_csv-shift_headers (call_history_csv_rows (header ∷ rows)) limits
      (map row_values (header ∷ rows)) x.small
      (ap (read_rows l) (export-lines header rows) ∙ read_export l header rows x)
    ∙ shift_headers_of_export l header rows x
