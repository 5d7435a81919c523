-- ===== src/Csv/Parse.antt =====
-- apps/api/src/dashboard/csv.ts: `parseCsv`, `detectCsvDelimiter` and the limits on columns, cells
-- and rows.
use outbound_freeswitch_dial.Prelude.{
  byte_length, bytes_from, ℕ, suc, ◌+◌, ◌-◌, Bool, true, false, not, ◌&&◌, ◌||◌, Option, none, some,
  List, [], ◌∷◌, ◌++◌, Text, trim, is_space, to_lower_case, text_eq, ltb, ◌==◌, length, any, filter,
  map, if◌then◌else◌,
}
use outbound_freeswitch_dial.Csv.{
  ParsedCsv, CsvParseLimits, Limits, limits_in_force, too_many_bytes, cell_too_long,
  too_many_columns, too_many_cells, too_many_rows, unterminated_quote, header_required,
  header_blank, header_repeated, row_wider_than_header, Result, ok, thrown, ◌>>=◌, ◌>>◌, throw_if,
  Turn, go, skip, stop, fail, is_at, each_unit,
}

-- The variables of the search for the delimiter.
pub record Counts : Type 0 where
  pub comma_count : ℕ
  pub semicolon_count : ℕ
  pub in_quotes : Bool
  pub row_has_value : Bool

unfoldable pub count_unit : ℕ → Option ℕ → Counts → Turn Counts
unfolding is_space
count_unit c next k =
    if c == b'"' && k.in_quotes && is_at b'"' next
    then skip k
    else if c == b'"'
    then go (record k { in_quotes = not k.in_quotes })
    else if not k.in_quotes && (c == b'\n' || c == b'\r')
    then (if k.row_has_value
        then stop k
        else if c == b'\r' && is_at b'\n' next
        then skip (record k { comma_count = 0; semicolon_count = 0 })
        else go (record k { comma_count = 0; semicolon_count = 0 }))
    else if not k.in_quotes && c == b','
    then go (record k { comma_count = k.comma_count + 1 })
    else if not k.in_quotes && c == b';'
    then go (record k { semicolon_count = k.semicolon_count + 1 })
    else if not (is_space c)
    then go (record k { row_has_value = true })
    else go k

abbrev pub delimiter_of : Result Counts → ℕ
delimiter_of (ok k) = if ltb k.comma_count k.semicolon_count then b';' else b','
delimiter_of (thrown e) = b','

unfoldable pub detect_csv_delimiter : Text → ℕ
unfolding each_unit count_unit
detect_csv_delimiter input = delimiter_of (
    each_unit count_unit false input
      (record { comma_count = 0; semicolon_count = 0; in_quotes = false; row_has_value = false }))

-- The variables of the parser's loop.
pub record Reader : Type 0 where
  pub rows : List (List Text)
  pub field : Text
  pub row : List Text
  pub in_quotes : Bool
  pub cell_count : ℕ

abbrev pub is_filled : Text → Bool
is_filled [] = false
is_filled (c ∷ t) = true

-- `field += char`, and the limit on a cell.
abbrev pub add_unit : Limits → ℕ → Reader → Result Reader
add_unit l c r =
    throw_if (ltb l.cell_characters (length (r.field ++ c ∷ []))) cell_too_long
    >> ok (record r { field = r.field ++ c ∷ [] })

-- `row.push(field.trim())`, and the limit on columns.
abbrev pub push_cell : Limits → Reader → Result Reader
push_cell l r =
    throw_if (ltb l.columns (length (r.row ++ trim r.field ∷ []))) too_many_columns
    >> ok (record r { row = r.row ++ trim r.field ∷ [] })

abbrev pub push_row : Limits → Reader → Result Reader
push_row l r =
    if any is_filled r.row
    then throw_if (ltb l.cells (r.cell_count + length r.row)) too_many_cells
      >> throw_if (ltb l.data_rows (length (r.rows ++ r.row ∷ []) - 1)) too_many_rows
      >> ok (record r { cell_count = r.cell_count + length r.row; rows = r.rows ++ r.row ∷ [] })
    else ok r

abbrev pub end_cell : Limits → Reader → Result Reader
end_cell l r = push_cell l r >>= λ s. ok (record s { field = [] })

abbrev pub end_row : Limits → Reader → Result Reader
end_row l r = push_cell l r >>= λ s. push_row l s >>= λ u. ok (record u { field = []; row = [] })

abbrev pub turn : Bool → Result Reader → Turn Reader
turn true (ok r) = skip r
turn false (ok r) = go r
turn skipped (thrown e) = fail e

unfoldable pub read_unit : Limits → ℕ → ℕ → Option ℕ → Reader → Turn Reader
unfolding trim
read_unit l delimiter c next r =
    if c == b'"' && r.in_quotes && is_at b'"' next
    then turn true (add_unit l b'"' r)
    else if c == b'"'
    then go (record r { in_quotes = not r.in_quotes })
    else if c == delimiter && not r.in_quotes
    then turn false (end_cell l r)
    else if (c == b'\n' || c == b'\r') && not r.in_quotes
    then turn (c == b'\r' && is_at b'\n' next) (end_row l r)
    else turn false (add_unit l c r)

abbrev pub start : Reader
start = record { rows = []; field = []; row = []; in_quotes = false; cell_count = 0 }

-- After the loop: the last cell and row.
unfoldable pub finish : Limits → Reader → Result (List (List Text))
unfolding trim
finish l r = do
  throw_if r.in_quotes unterminated_quote
  s ← push_cell l r
  u ← push_row l s
  ok u.rows

unfoldable pub read_rows : Limits → Text → Result (List (List Text))
unfolding each_unit read_unit detect_csv_delimiter finish
read_rows l input = do
  r ← each_unit (read_unit l (detect_csv_delimiter input)) false input start
  finish l r

abbrev pub strip_bom : Text → Text
strip_bom [] = []
strip_bom (c ∷ t) = if c == 0xFEFF then t else c ∷ t

-- `index === 0 ? trimmed.replace(/^\uFEFF/, "") : trimmed`.
unfoldable pub clean_headers : List Text → List Text
unfolding trim
clean_headers [] = []
clean_headers (h ∷ hs) = strip_bom (trim h) ∷ map trim hs

-- `new Set(values)`, whose size counts the values once each.
unfoldable pub set_of : List Text → List Text
unfolding text_eq
set_of [] = []
set_of (x ∷ xs) = x ∷ filter (λ y. not (text_eq x y)) (set_of xs)

unfoldable pub wider_row : ℕ → ℕ → List (List Text) → Option ℕ
wider_row width index [] = none
wider_row width index (r ∷ rs) =
    let rest = wider_row width (suc index) rs in if ltb width (length r) then some index else rest

abbrev pub row_is_filled : List Text → Bool
row_is_filled r = any (λ c. is_filled (trim c)) r

abbrev pub reject_wider : Option ℕ → Result (Unit {0})
reject_wider none = ok tt
reject_wider (some i) = thrown (row_wider_than_header (i + 2))

unfoldable pub check_headers : List Text → List (List Text) → Result ParsedCsv
unfolding trim set_of wider_row to_lower_case
check_headers hs rows = do
  throw_if (length hs == 0) header_required
  throw_if (any (λ h. not (is_filled h)) hs) header_blank
  throw_if (not (length (set_of (map to_lower_case hs)) == length hs)) header_repeated
  reject_wider (wider_row (length hs) 0 rows)
  ok (record { headers = hs; rows = filter row_is_filled rows })

-- `rows.shift() ?? []`, and the checks.
unfoldable pub shift_headers : List (List Text) → Result ParsedCsv
unfolding clean_headers check_headers
shift_headers [] = check_headers [] []
shift_headers (h ∷ rows) = check_headers (clean_headers h) rows

unfoldable pub parse_csv : Text → CsvParseLimits → Result ParsedCsv
unfolding limits_in_force read_rows shift_headers bytes_from
parse_csv input limits =
    let l = limits_in_force limits in
    do
      throw_if (ltb l.bytes (byte_length input)) too_many_bytes
      rows ← read_rows l input
      shift_headers rows
