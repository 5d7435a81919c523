-- ===== src/Csv/Examples.antt =====
-- Files read and written at concrete contents.
use outbound_freeswitch_dial.Prelude.{
  ltb, length, true, if◌then◌else◌, ◌++◌, ◌+◌, ◌≡◌, ◌≤◌, refl, none, some, List, [], ◌∷◌, Text,
  codes, map, byte_length, bytes_from, to_lower_case, arith,
}
use outbound_freeswitch_dial.Csv.{
  ParsedCsv, CsvParseLimits, limits_in_force, ok, thrown, unterminated_quote, too_many_rows,
  row_wider_than_header,
}
use outbound_freeswitch_dial.Csv.Parse.{parse_csv, set_of, wider_row}
use outbound_freeswitch_dial.Csv.Accepted.{IsAccepted, file_taken_is_within_limits}
use outbound_freeswitch_dial.Csv.Export.{call_history_csv_rows, spreadsheet_safe}
use outbound_freeswitch_dial.Csv.Reading.{row_values, CellReads}
use outbound_freeswitch_dial.Phone.{PhoneLibrary, invalid_international}
use outbound_freeswitch_dial.Csv.Import.{
  Contact, ImportReport, name_required, phone_refused, duplicate_phone, import_contacts_from_csv,
}
use outbound_freeswitch_dial.Csv.Accounted.{import_accounts_for_every_row}
use outbound_freeswitch_dial.Csv.RoundTrip.{Exportable, exported_file_reads_back}

abbrev no_limits : CsvParseLimits
no_limits = record {
  max_bytes = none;
  max_cell_characters = none;
  max_cells = none;
  max_columns = none;
  max_rows = none;
}

-- `Name;Phone`, a quoted cell with the delimiter in it, and a blank row.
abbrev contacts_file : Text
contacts_file = codes "Name;Phone\r\n\"Doe; Jane\" ; +1415\n;\n"

abbrev contacts : ParsedCsv
contacts = record {
  headers = codes "Name" ∷ codes "Phone" ∷ [];
  rows = (codes "Doe; Jane" ∷ codes "+1415" ∷ []) ∷ [];
}

contacts_read : parse_csv contacts_file no_limits ≡ ok contacts
unfolding parse_csv
contacts_read = refl

unterminated : parse_csv (codes "a\n\"b") no_limits ≡ thrown unterminated_quote
unfolding parse_csv
unterminated = refl

wide_row : parse_csv (codes "a\nb,c") no_limits ≡ thrown (row_wider_than_header 2)
unfolding parse_csv
wide_row = refl

too_long :
    parse_csv (codes "a\nb\nc") (record no_limits { max_rows = some 1 }) ≡ thrown too_many_rows
unfolding parse_csv
too_long = refl

file_taken_is_within_limits_example :
    (byte_length contacts_file ≤ (limits_in_force no_limits).bytes)
    × IsAccepted (limits_in_force no_limits) contacts
file_taken_is_within_limits_example =
    file_taken_is_within_limits contacts_file no_limits contacts contacts_read

abbrev history_header : List Text
history_header = codes "lead" ∷ codes "phone" ∷ []

abbrev history_rows : List (List Text)
history_rows = (codes "=1+\"1\"" ∷ codes " 49 " ∷ []) ∷ []

history_Exportable : Exportable (limits_in_force no_limits) history_header history_rows
unfolding call_history_csv_rows limits_in_force row_values bytes_from CellReads spreadsheet_safe
    set_of wider_row to_lower_case
history_Exportable = record {
  small = omega arith;
  header_reads = ((omega arith, (omega arith, tt)), omega arith, refl);
  rows_read = (((omega arith, (omega arith, tt)), omega arith, refl), tt);
  few_rows = omega arith;
  few_cells = omega arith;
  header_named = refl;
  header_distinct = refl;
  none_wider = refl;
}

exported_file_reads_back_example :
    parse_csv (call_history_csv_rows (history_header ∷ history_rows)) no_limits
    ≡ ok (record { headers = row_values history_header; rows = map row_values history_rows })
exported_file_reads_back_example =
    exported_file_reads_back no_limits history_header history_rows history_Exportable

-- The formula is guarded, and the cell is trimmed.
history_values : map row_values history_rows ≡ (codes "'=1+\"1\"" ∷ codes "49" ∷ []) ∷ []
unfolding row_values
history_values = refl

-- A library that takes every number of more than four units.
abbrev phones : PhoneLibrary
phones = record {
  is_supported_country = λ c. true;
  parse_valid = λ n c. if ltb 4 (length n) then some n else none;
}

abbrev campaign_file : ParsedCsv
campaign_file = record {
  headers = codes "Full Name" ∷ codes "Mobile" ∷ [];
  rows =
      (codes "Ann" ∷ codes "+49 301" ∷ [])
      ∷ (codes "" ∷ codes "+49302" ∷ [])
      ∷ (codes "Ann again" ∷ codes "+49301" ∷ [])
      ∷ (codes "Bob" ∷ codes "+49" ∷ [])
      ∷ (codes "Cy" ∷ codes "0049303" ∷ [])
      ∷ [];
}

abbrev known : List Contact
known =
    (record { campaign_id = 1; contact_number = codes "+49303"; contact_name = codes "Cy" }) ∷ []

abbrev imported : List Contact
imported =
    known
    ++ (record { campaign_id = 1; contact_number = codes "+49301"; contact_name = codes "Ann" })
      ∷ []

abbrev import_report : ImportReport
import_report = record {
  total_rows = 5;
  imported_rows = 1;
  failed_rows = 4;
  duplicate_rows = 2;
  failures =
      (record { failed_row = 3; reason = name_required })
      ∷ (record { failed_row = 5; reason = phone_refused invalid_international })
      ∷ (record { failed_row = 4; reason = duplicate_phone })
      ∷ (record { failed_row = 6; reason = duplicate_phone })
      ∷ [];
}

campaign_imported :
    import_contacts_from_csv phones 1 campaign_file none known ≡ ok (imported, import_report)
unfolding import_contacts_from_csv
campaign_imported = refl

import_accounts_for_every_row_example :
    (import_report.total_rows ≡ import_report.imported_rows + import_report.failed_rows)
    × (import_report.failed_rows ≡ length import_report.failures)
    × (length imported ≡ length known + import_report.imported_rows)
import_accounts_for_every_row_example =
    import_accounts_for_every_row phones 1 campaign_file none known imported import_report
      campaign_imported
