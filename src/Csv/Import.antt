-- ===== src/Csv/Import.antt =====
-- apps/api/src/dashboard/csv.ts: `importContactsFromCsv`. The table of contacts is the part of it
-- that the import reads and writes; a failure keeps its row number and reason.
use outbound_freeswitch_dial.Prelude.{
  ℕ, zero, suc, ◌+◌, Bool, true, false, not, ◌&&◌, ◌||◌, Option, none, some, List, [], ◌∷◌, ◌++◌,
  Text, codes, text_eq, trim, to_lower_case, leb, ltb, ◌==◌, length, any, find, take, drop,
  get_elem?, if◌then◌else◌,
}
use outbound_freeswitch_dial.Phone.{
  PhoneLibrary, Refusal, Normalized, normalized, refused, normalize_phone_number,
}
use outbound_freeswitch_dial.Csv.{
  ParsedCsv, CsvImportError, phone_column_missing, name_column_missing, Result, ok, thrown, ◌>>=◌,
}
use outbound_freeswitch_dial.Csv.Parse.{is_filled, set_of}

pub data FailureReason : Type 0 where
  name_required : FailureReason
  phone_refused : Refusal → FailureReason
  duplicate_phone : FailureReason

pub record ImportFailure : Type 0 where
  pub failed_row : ℕ
  pub reason : FailureReason

pub record ValidRow : Type 0 where
  pub row_number : ℕ
  pub phone_number : Text
  pub normalized_phone_number : Text
  pub display_name : Text

pub record Contact : Type 0 where
  pub campaign_id : ℕ
  pub contact_number : Text
  pub contact_name : Text

pub record ImportReport : Type 0 where
  pub total_rows : ℕ
  pub imported_rows : ℕ
  pub failed_rows : ℕ
  pub duplicate_rows : ℕ
  pub failures : List ImportFailure

-- `/[^a-z0-9]+/g` becomes `_`, and underscores at the ends go.
abbrev is_name_unit : ℕ → Bool
is_name_unit c = (leb b'a' c && leb c b'z') || (leb b'0' c && leb c b'9')

-- The flag says that the unit before was replaced.
unfoldable pub underscore : Bool → Text → Text
underscore replaced [] = []
underscore replaced (c ∷ t) =
    let rest = underscore (not (is_name_unit c)) t in
    if is_name_unit c then c ∷ rest else if replaced then rest else b'_' ∷ rest

unfoldable pub strip_start : Text → Text
strip_start [] = []
strip_start (c ∷ t) = let rest = strip_start t in if c == b'_' then rest else c ∷ t

abbrev underscore_end : ℕ → Text → Text
underscore_end c [] = if c == b'_' then [] else c ∷ []
underscore_end c (d ∷ t) = c ∷ d ∷ t

unfoldable pub strip_end : Text → Text
strip_end [] = []
strip_end (c ∷ t) = underscore_end c (strip_end t)

unfoldable pub normalize_header : Text → Text
unfolding trim to_lower_case underscore strip_start strip_end
normalize_header value = strip_end (strip_start (underscore false (to_lower_case (trim value))))

-- The index, or `none` for -1.
abbrev next_index : Option ℕ → Option ℕ
next_index none = none
next_index (some i) = some (suc i)

unfoldable pub find_column : List Text → List Text → Option ℕ
unfolding normalize_header text_eq
find_column [] candidates = none
find_column (h ∷ hs) candidates =
    let rest = next_index (find_column hs candidates) in
    if any (text_eq (normalize_header h)) candidates then some 0 else rest

abbrev pub phone_names : List Text
phone_names =
    codes "phone" ∷ codes "phone_number" ∷ codes "number" ∷ codes "mobile" ∷ codes "cell" ∷ []

abbrev pub name_names : List Text
name_names = codes "name" ∷ codes "full_name" ∷ codes "contact" ∷ codes "display_name" ∷ []

abbrev or_blank : Option Text → Text
or_blank none = []
or_blank (some t) = t

-- `(row[index] ?? "").trim()`.
unfoldable pub cell_at : List Text → ℕ → Text
unfolding trim
cell_at row index = trim (or_blank (get_elem? row index))

pub record Sorted : Type 0 where
  pub valid : List ValidRow
  pub failed : List ImportFailure

abbrev pub add_valid : ValidRow → Sorted → Sorted
add_valid v s = record s { valid = v ∷ s.valid }

abbrev pub add_failed : ImportFailure → Sorted → Sorted
add_failed f s = record s { failed = f ∷ s.failed }

abbrev pub sort_number : ℕ → Text → Text → Normalized → Sorted → Sorted
sort_number n phone name (refused r) s =
    add_failed (record { failed_row = n; reason = phone_refused r }) s
sort_number n phone name (normalized number) s =
    add_valid
      (record {
        row_number = n;
        phone_number = phone;
        normalized_phone_number = number;
        display_name = name;
      })
      s

module _ (lib : PhoneLibrary) (phone_index name_index : ℕ) (default_code : Option Text) where
  -- The body of the first loop, in front of the rows after it.
  unfoldable pub sort_row : ℕ → List Text → Sorted → Sorted
  unfolding cell_at normalize_phone_number
  sort_row n row s =
      let name = cell_at row name_index in
      let phone = cell_at row phone_index in
      if not (is_filled name)
      then add_failed (record { failed_row = n; reason = name_required }) s
      else sort_number n phone name (normalize_phone_number lib phone default_code) s

  -- The first row under the header is row 2.
  unfoldable pub sort_rows : ℕ → List (List Text) → Sorted
  unfolding sort_row
  sort_rows n [] = record { valid = []; failed = [] }
  sort_rows n (row ∷ rows) = sort_row n row (sort_rows (suc n) rows)

abbrev pub has_number : Text → ValidRow → Bool
has_number n v = text_eq v.normalized_phone_number n

-- `firstRowByNumber`: the row is set unless the map has its number.
unfoldable pub first_rows : List ValidRow → List ValidRow → List ValidRow
unfolding text_eq
first_rows seen [] = seen
first_rows seen (v ∷ vs) =
    first_rows (if any (has_number v.normalized_phone_number) seen then seen else seen ++ v ∷ []) vs

-- `left < right` on strings.
unfoldable pub comes_first : Text → Text → Bool
comes_first [] [] = false
comes_first [] (d ∷ u) = true
comes_first (c ∷ t) [] = false
comes_first (c ∷ t) (d ∷ u) = ltb c d || (c == d && comes_first t u)

-- `sort`: equal rows keep their order.
unfoldable pub insert_row : ValidRow → List ValidRow → List ValidRow
unfolding comes_first
insert_row v [] = v ∷ []
insert_row v (w ∷ ws) =
    let rest = insert_row v ws in
    if comes_first w.normalized_phone_number v.normalized_phone_number then w ∷ rest else v ∷ w ∷ ws

unfoldable pub sort_by_number : List ValidRow → List ValidRow
unfolding insert_row
sort_by_number [] = []
sort_by_number (v ∷ vs) = insert_row v (sort_by_number vs)

-- `chunks(values, size)`, with as many turns as there are values.
unfoldable pub chunks_on : ℕ → ℕ → List ValidRow → List (List ValidRow)
chunks_on zero size values = []
chunks_on (suc fuel) size [] = []
chunks_on (suc fuel) size (v ∷ vs) = take size (v ∷ vs) ∷ chunks_on fuel size (drop size (v ∷ vs))

unfoldable pub chunks : ℕ → List ValidRow → List (List ValidRow)
unfolding chunks_on
chunks size values = chunks_on (length values) size values

abbrev pub is_contact : ℕ → Text → Contact → Bool
is_contact campaign n c = c.campaign_id == campaign && text_eq c.contact_number n

-- `insert ... on conflict do nothing returning normalized_phone_number`, row by row.
abbrev pub with_returned : Text → List Contact × List Text → List Contact × List Text
with_returned n (cs, ns) = (cs, n ∷ ns)

unfoldable pub insert_contacts : ℕ → List ValidRow → List Contact → List Contact × List Text
unfolding text_eq
insert_contacts campaign [] cs = (cs, [])
insert_contacts campaign (v ∷ vs) cs =
    let number = v.normalized_phone_number in
    let added : Contact = record {
      campaign_id = campaign;
      contact_number = number;
      contact_name = v.display_name;
    } in
    let there = insert_contacts campaign vs cs in
    let inserted = with_returned number (insert_contacts campaign vs (cs ++ added ∷ [])) in
    elim (any (is_contact campaign number) cs) [ true ↦ there | false ↦ inserted ]

abbrev pub and_returned : List Text → List Contact × List Text → List Contact × List Text
and_returned ns (cs, more) = (cs, ns ++ more)

abbrev pub over_chunks :
    List Contact × List Text → (List Contact → List Contact × List Text) → List Contact × List Text
over_chunks (cs, ns) rest = and_returned ns (rest cs)

-- One statement for each chunk.
unfoldable pub insert_chunks : ℕ → List (List ValidRow) → List Contact → List Contact × List Text
unfolding insert_contacts
insert_chunks campaign [] cs = (cs, [])
insert_chunks campaign (chunk ∷ more) cs =
    over_chunks (insert_contacts campaign chunk cs) (insert_chunks campaign more)

-- `firstRow?.rowNumber !== row.rowNumber || !insertedNumbers.has(...)`.
abbrev pub other_row : Option ValidRow → ℕ → Bool
other_row none n = true
other_row (some w) n = not (w.row_number == n)

abbrev pub is_duplicate : List ValidRow → List Text → ValidRow → Bool
is_duplicate firsts inserted v =
    other_row (find (has_number v.normalized_phone_number) firsts) v.row_number
    || not (any (text_eq v.normalized_phone_number) inserted)

unfoldable pub duplicate_failures : List ValidRow → List Text → List ValidRow → List ImportFailure
unfolding text_eq
duplicate_failures firsts inserted [] = []
duplicate_failures firsts inserted (v ∷ vs) =
    let rest = duplicate_failures firsts inserted vs in
    if is_duplicate firsts inserted v
    then record { failed_row = v.row_number; reason = duplicate_phone } ∷ rest
    else rest

abbrev pub report_of : ParsedCsv → Sorted → List ImportFailure → List Text → ImportReport
report_of parsed s duplicates inserted = record {
  total_rows = length parsed.rows;
  imported_rows = length (set_of inserted);
  failed_rows = length s.failed + length duplicates;
  duplicate_rows = length duplicates;
  failures = s.failed ++ duplicates;
}

-- The transaction.
unfoldable pub import_rows : ℕ → ParsedCsv → Sorted → List Contact → List Contact × ImportReport
unfolding first_rows sort_by_number chunks insert_chunks duplicate_failures set_of
import_rows campaign parsed s cs =
    let firsts = first_rows [] s.valid in
    let stored = insert_chunks campaign (chunks 1000 (sort_by_number firsts)) cs in
    (stored.0, report_of parsed s (duplicate_failures firsts stored.1 s.valid) stored.1)

abbrev pub column : Option ℕ → CsvImportError → Result ℕ
column none e = thrown e
column (some i) e = ok i

unfoldable pub import_contacts_from_csv :
    PhoneLibrary → ℕ → ParsedCsv → Option Text → List Contact → Result (List Contact × ImportReport)
unfolding find_column sort_rows import_rows
import_contacts_from_csv lib campaign parsed default_code cs = do
  phone_index ← column (find_column parsed.headers phone_names) phone_column_missing
  name_index ← column (find_column parsed.headers name_names) name_column_missing
  ok (
      import_rows campaign parsed (sort_rows lib phone_index name_index default_code 2 parsed.rows)
        cs)
