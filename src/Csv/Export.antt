-- ===== src/Csv/Export.antt =====
-- The CSV export of the call history: `csvCell` and `callHistoryCsvRows` of
-- apps/api/src/dashboard/routes.ts. The manifest of exported recordings has the same two functions.
use outbound_freeswitch_dial.Prelude.{
  join, Bool, false, ◌||◌, List, [], ◌∷◌, ◌++◌, Text, trim_start, ◌==◌, map, if◌then◌else◌,
}

-- `/^[=+\-@]/.test(value)`.
unfoldable pub starts_formula : Text → Bool
starts_formula [] = false
starts_formula (c ∷ t) = c == b'=' || c == b'+' || c == b'-' || c == b'@'

unfoldable pub spreadsheet_safe : Text → Text
unfolding starts_formula trim_start
spreadsheet_safe value = if starts_formula (trim_start value) then b'\'' ∷ value else value

-- `replaceAll('"', '""')`.
unfoldable pub double_quotes : Text → Text
double_quotes [] = []
double_quotes (c ∷ t) =
    let rest = double_quotes t in if c == b'"' then b'"' ∷ b'"' ∷ rest else c ∷ rest

unfoldable pub csv_cell : Text → Text
unfolding spreadsheet_safe double_quotes
csv_cell value = b'"' ∷ double_quotes (spreadsheet_safe value) ++ b'"' ∷ []

unfoldable pub csv_line : List Text → Text
unfolding csv_cell join
csv_line row = join b',' (map csv_cell row)

unfoldable pub call_history_csv_rows : List (List Text) → Text
unfolding csv_line join
call_history_csv_rows rows = join b'\n' (map csv_line rows) ++ b'\n' ∷ []
