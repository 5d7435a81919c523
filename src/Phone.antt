-- ===== src/Phone.antt =====
-- apps/api/src/dashboard/phone.ts: `normalizePhoneNumber`. What it calls of libphonenumber is a
-- parameter.
use outbound_freeswitch_dial.Prelude.{
  ℕ, Bool, ◌&&◌, Option, none, some, [], ◌∷◌, Text, trim, to_upper_case, filter, leb, ◌==◌,
  if◌then◌else◌, is_some, is_none,
}

-- `isSupportedCountry`, and `parsePhoneNumberFromString` with and without a country: the number in
-- E.164 of a valid one.
pub record PhoneLibrary : Type 0 where
  pub is_supported_country : Text → Bool
  pub parse_valid : Text → Option Text → Option Text

-- The reasons of a refusal, without their texts.
pub data Refusal : Type 0 where
  missing_number : Refusal
  unsupported_country : Refusal
  country_required : Refusal
  invalid_international : Refusal
  invalid_local : Refusal

pub data Normalized : Type 0 where
  normalized : Text → Normalized
  refused : Refusal → Normalized

abbrev is_digit : ℕ → Bool
is_digit c = leb b'0' c && leb c b'9'

-- `raw.replace(/^00(?=\d)/, "+")`.
unfoldable pub prepare : Text → Text
prepare [] = []
prepare (a ∷ []) = a ∷ []
prepare (a ∷ b ∷ []) = a ∷ b ∷ []
prepare (a ∷ b ∷ c ∷ t) =
    if a == b'0' && b == b'0' && is_digit c then b'+' ∷ c ∷ t else a ∷ b ∷ c ∷ t

unfoldable pub normalize_international : Text → Option Text
normalize_international [] = none
normalize_international (c ∷ t) = if c == b'+' then some (b'+' ∷ filter is_digit t) else none

-- A country code that is given and not empty.
abbrev given_code : Option Text → Option Text
given_code none = none
given_code (some []) = none
given_code (some (c ∷ t)) = some (c ∷ t)

module _ (lib : PhoneLibrary) where
  abbrev supported : Option Text → Option Text
  supported none = none
  supported (some v) =
      let code = to_upper_case (trim v) in if lib.is_supported_country code then some code else none

  unfoldable pub normalize_country_code : Option Text → Option Text
  unfolding trim to_upper_case
  normalize_country_code value = supported (given_code value)

  abbrev parsed : Option Text → Refusal → Normalized
  parsed none reason = refused reason
  parsed (some n) reason = normalized n

  abbrev parse_number : Text → Option Text → Option Text → Normalized
  parse_number prepared (some number) country =
      parsed (lib.parse_valid number none) invalid_international
  parse_number prepared none country = parsed (lib.parse_valid prepared country) invalid_local

  abbrev normalize_prepared : Text → Option Text → Normalized
  normalize_prepared prepared default_code =
      let number = normalize_international prepared in
      let country = normalize_country_code default_code in
      if is_some (given_code default_code) && is_none country
      then refused unsupported_country
      else if is_none number && is_none country
      then refused country_required
      else parse_number prepared number country

  abbrev normalize_raw : Text → Option Text → Normalized
  normalize_raw [] default_code = refused missing_number
  normalize_raw (c ∷ t) default_code = normalize_prepared (prepare (c ∷ t)) default_code

  unfoldable pub normalize_phone_number : Text → Option Text → Normalized
  unfolding trim prepare normalize_international normalize_country_code
  normalize_phone_number value default_code = normalize_raw (trim value) default_code
