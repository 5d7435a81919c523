-- ===== src/Esl.antt =====
-- FreeSWITCH's event socket, as apps/api/src/esl-events.ts and apps/api/src/esl.ts read it: the
-- headers of a frame.
pub mod Frames
pub mod Buffers
pub mod Streams
pub mod Overrun
pub mod Listener
pub mod Delivery
pub mod Replies
pub mod Protocol
pub mod Chunks
pub mod Command
pub mod Settled
pub mod Originate
pub mod Injection
pub mod Examples
use outbound_freeswitch_dial.Prelude.{
  ℕ, suc, ◌+◌, ◌*◌, ◌-◌, Bool, true, false, ◌&&◌, Option, none, some, List, [], ◌∷◌, ◌++◌, Text,
  codes, text_eq, starts_with, trim, to_lower_case, leb, ltb, ◌==◌, length, drop, if◌then◌else◌,
}

-- An object with text fields, in insertion order.
abbrev pub Headers : Type 0
Headers = List (Text × Text)

-- `headers[key]`.
unfoldable pub header : Text → Headers → Option Text
unfolding text_eq
header k [] = none
header k ((j, v) ∷ h) = let rest = header k h in if text_eq j k then some v else rest

unfoldable pub set_header : Text → Text → Headers → Headers
unfolding text_eq
set_header k v [] = (k, v) ∷ []
set_header k v ((j, w) ∷ h) =
    let rest = set_header k v h in if text_eq j k then (j, v) ∷ h else (j, w) ∷ rest

-- `{ ...first, ...second }`.
unfoldable pub merge : Headers → Headers → Headers
unfolding set_header
merge h [] = h
merge h ((k, v) ∷ more) = merge (set_header k v h) more

pub record EslFrame : Type 0 where
  pub headers : Headers
  pub body : Text

-- What stands before and after the first occurrence of a text.
abbrev pub before : ℕ → Option (Text × Text) → Option (Text × Text)
before c none = none
before c (some (a, b)) = some (c ∷ a, b)

unfoldable pub cut : Text → Text → Option (Text × Text)
unfolding starts_with
cut p [] = if starts_with p [] then some ([], []) else none
cut p (c ∷ t) =
    let rest = before c (cut p t) in
    if starts_with p (c ∷ t) then some ([], drop (length p) (c ∷ t)) else rest

-- `value.split(/\r?\n/)`.
abbrev pub onto_first : ℕ → List Text → List Text
onto_first c [] = (c ∷ []) ∷ []
onto_first c (l ∷ ls) = (c ∷ l) ∷ ls

unfoldable pub split_lines : Text → List Text
unfolding starts_with
split_lines [] = [] ∷ []
split_lines (c ∷ t) =
    let rest = split_lines t in
    if c == b'\n'
    then [] ∷ rest
    else if c == b'\r' && starts_with (codes "\n") t
    then rest
    else onto_first c rest

abbrev pub header_entry : Option (Text × Text) → Headers
header_entry none = []
header_entry (some (k, v)) = (to_lower_case (trim k), trim v) ∷ []

unfoldable pub header_entries : List Text → Headers
unfolding cut to_lower_case trim
header_entries [] = []
header_entries (l ∷ ls) = header_entry (cut (codes ":") l) ++ header_entries ls

unfoldable pub parse_headers : Text → Headers
unfolding merge header_entries split_lines
parse_headers value = merge [] (header_entries (split_lines value))

-- `Number(value)` of decimal digits or of a blank text; any other text gives `none`, which the
-- callers take for no length.
abbrev is_digit : ℕ → Bool
is_digit c = leb b'0' c && leb c b'9'

unfoldable pub digits_value : ℕ → Text → Option ℕ
digits_value n [] = some n
digits_value n (c ∷ t) =
    let rest = digits_value (n * 10 + (c - b'0')) t in if is_digit c then rest else none

unfoldable pub to_number : Text → Option ℕ
unfolding digits_value trim
to_number t = digits_value 0 (trim t)

abbrev pub length_of : Option Text → ℕ
length_of none = 0
length_of (some v) = elim (to_number v) [ none ↦ 0 | some n ↦ n ]

unfoldable pub content_length : Headers → ℕ
unfolding header to_number
content_length h = length_of (header (codes "content-length") h)
