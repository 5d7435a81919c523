-- ===== src/Csv.antt =====
-- apps/api/src/dashboard/csv.ts: the reading of an uploaded CSV file under limits, and the two
-- imports; with the export of apps/api/src/dashboard/routes.ts, whose files it reads back. An error
-- that is thrown is a value, without its message.
pub mod Parse
pub mod Within
pub mod Accepted
pub mod Export
pub mod Delimiter
pub mod Reading
pub mod Trimmed
pub mod RoundTrip
pub mod Import
pub mod Stored
pub mod Firsts
pub mod Total
pub mod Accounted
pub mod Examples
use outbound_freeswitch_dial.Prelude.{
  ℕ, suc, ◌+◌, Bool, true, false, not, ◌&&◌, ◌||◌, Option, none, some, List, [], ◌∷◌, ◌++◌, Text,
  leb, ltb, ◌==◌, length, any, if◌then◌else◌,
}

pub record ParsedCsv : Type 0 where
  pub headers : List Text
  pub rows : List (List Text)

pub record CsvParseLimits : Type 0 where
  pub max_bytes : Option ℕ
  pub max_cell_characters : Option ℕ
  pub max_cells : Option ℕ
  pub max_columns : Option ℕ
  pub max_rows : Option ℕ

-- The limits in force.
pub record Limits : Type 0 where
  pub bytes : ℕ
  pub cell_characters : ℕ
  pub cells : ℕ
  pub columns : ℕ
  pub data_rows : ℕ

abbrev pub or_default : Option ℕ → ℕ → ℕ
or_default none d = d
or_default (some n) d = n

unfoldable pub limits_in_force : CsvParseLimits → Limits
limits_in_force l = record {
  bytes = or_default l.max_bytes 67108864;
  cell_characters = or_default l.max_cell_characters 65536;
  cells = or_default l.max_cells 2000000;
  columns = or_default l.max_columns 128;
  data_rows = or_default l.max_rows 250000;
}

pub data CsvImportError : Type 0 where
  too_many_bytes : CsvImportError
  cell_too_long : CsvImportError
  too_many_columns : CsvImportError
  too_many_cells : CsvImportError
  too_many_rows : CsvImportError
  unterminated_quote : CsvImportError
  header_required : CsvImportError
  header_blank : CsvImportError
  header_repeated : CsvImportError
  row_wider_than_header : ℕ → CsvImportError
  phone_column_missing : CsvImportError
  name_column_missing : CsvImportError

pub data Result {ℓ} (A : Type ℓ) : Type ℓ where
  ok : A → Result A
  thrown : CsvImportError → Result A

infixl 5 ◌>>=◌
infixr 5 ◌>>◌
abbrev pub ◌>>=◌ {ℓ κ} : {A : Type ℓ} {B : Type κ} → Result A → (A → Result B) → Result B
ok a >>= f = f a
thrown e >>= f = thrown e

abbrev pub ◌>>◌ {ℓ} : {B : Type ℓ} → Result (Unit {0}) → Result B → Result B
m >> k = m >>= λ _. k

abbrev pub throw_if : Bool → CsvImportError → Result (Unit {0})
throw_if true e = thrown e
throw_if false e = ok tt

-- How the body of a loop over the units of a text ends: at the next unit, past it (the body's own
-- `index += 1`), by `break`, or by an error.
pub data Turn {ℓ} (S : Type ℓ) : Type ℓ where
  go : S → Turn S
  skip : S → Turn S
  stop : S → Turn S
  fail : CsvImportError → Turn S

abbrev pub head : Text → Option ℕ
head [] = none
head (c ∷ t) = some c

abbrev pub is_at : ℕ → Option ℕ → Bool
is_at c none = false
is_at c (some d) = d == c

module _ {ℓ} {S : Type ℓ} where
  -- `for (let index = 0; index < input.length; index += 1)`, on the unit and the one after it.
  abbrev pub take_turn : Turn S → (Bool → S → Result S) → Result S
  take_turn (go s) rest = rest false s
  take_turn (skip s) rest = rest true s
  take_turn (stop s) rest = ok s
  take_turn (fail e) rest = thrown e

  unfoldable pub each_unit : (ℕ → Option ℕ → S → Turn S) → Bool → Text → S → Result S
  each_unit body skipped [] s = ok s
  each_unit body true (c ∷ t) s = each_unit body false t s
  each_unit body false (c ∷ t) s =
      take_turn (body c (head t) s) (λ skipped s'. each_unit body skipped t s')
