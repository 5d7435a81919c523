-- ===== src/Prelude/Strings.antt =====
-- JavaScript strings as lists of UTF-16 code units, with the operations of `String.prototype`
-- that the source calls.
use Prim.Native.Nat.{ℕ, ◌+◌, ◌-◌}
use Prim.Native.Char.{code}
use Prim.Native.String.{String}
use mathlib.Core.Path.{◌≡◌, refl}
use mathlib.Core.Logic.{◌↔◌}
use mathlib.Core.Bool.{Bool, true, false, ◌&&◌, ◌||◌}
use mathlib.Core.List.{List, [], ◌∷◌, ◌++◌, map}
use native.Mathlib.Omega.{arith}
use outbound_freeswitch_dial.Prelude.Tests.{leb, ltb, ◌==◌, if◌then◌else◌}

abbrev pub Text : Type 0
Text = List ℕ

-- The units of a literal; every literal of the source that is used below is ASCII.
abbrev pub codes : String → Text
codes String.[] = []
codes (String.◌∷◌ c s) = code c ∷ codes s

-- `===` on strings.
unfoldable pub text_eq : Text → Text → Bool
text_eq [] [] = true
text_eq (x ∷ xs) (y ∷ ys) = x == y && text_eq xs ys
text_eq _ _ = false

pub text_eq_iff : (a b : Text) → (text_eq a b ≡ true) ↔ (a ≡ b)
unfolding text_eq
text_eq_iff (x ∷ a) (y ∷ b) = ground (arith, text_eq_iff a b)
text_eq_iff _ _ = ground arith

pub text_eq_refl : (a : Text) → text_eq a a ≡ true
text_eq_refl a = (text_eq_iff a a).1 refl

-- `prefix.startsWith`, as a test.
unfoldable pub starts_with : Text → Text → Bool
starts_with [] t = true
starts_with (c ∷ p) [] = false
starts_with (c ∷ p) (d ∷ t) = c == d && starts_with p t

unfoldable pub includes : Text → Text → Bool
unfolding starts_with
includes p [] = starts_with p []
includes p (c ∷ t) = starts_with p (c ∷ t) || includes p t

-- `toLowerCase` and `toUpperCase` on ASCII letters; other units are left as they are.
abbrev pub lower : ℕ → ℕ
lower c = if leb b'A' c && leb c b'Z' then c + 32 else c

abbrev pub upper : ℕ → ℕ
upper c = if leb b'a' c && leb c b'z' then c - 32 else c

unfoldable pub to_lower_case : Text → Text
to_lower_case = map lower

unfoldable pub to_upper_case : Text → Text
to_upper_case = map upper

-- The white space of `String.prototype.trim` and of `\s`: blanks, line ends, U+00A0, U+FEFF and
-- the Unicode space separators.
unfoldable pub is_space : ℕ → Bool
is_space c =
    (leb 9 c && leb c 13)
    || c == 32
    || c == 0xA0
    || c == 0x1680
    || (leb 0x2000 c && leb c 0x200A)
    || c == 0x2028
    || c == 0x2029
    || c == 0x202F
    || c == 0x205F
    || c == 0x3000
    || c == 0xFEFF

unfoldable pub trim_start : Text → Text
unfolding is_space
trim_start [] = []
trim_start (c ∷ t) = let rest = trim_start t in if is_space c then rest else c ∷ t

-- `c` in front of a text whose end is trimmed.
unfoldable pub trim_end_cons : ℕ → Text → Text
trim_end_cons c [] = if is_space c then [] else c ∷ []
trim_end_cons c (d ∷ t) = c ∷ d ∷ t

-- Drops the white space at the end.
unfoldable pub trim_end : Text → Text
unfolding is_space trim_end_cons
trim_end [] = []
trim_end (c ∷ t) = trim_end_cons c (trim_end t)

unfoldable pub trim : Text → Text
unfolding trim_start trim_end
trim t = trim_end (trim_start t)

-- `Buffer.byteLength(input, "utf8")`: a surrogate that is not one of a pair is written as U+FFFD.
-- `paired` says that the unit before was a high surrogate.
abbrev pub unit_bytes : Bool → ℕ → ℕ
unit_bytes paired c =
    if ltb c 0x80
    then 1
    else if ltb c 0x800
    then 2
    else if paired && leb 0xDC00 c && leb c 0xDFFF
    then 1
    else 3

unfoldable pub bytes_from : Bool → Text → ℕ
bytes_from paired [] = 0
bytes_from paired (c ∷ t) = unit_bytes paired c + bytes_from (leb 0xD800 c && leb c 0xDBFF) t

abbrev pub byte_length : Text → ℕ
byte_length t = bytes_from false t

-- `values.join(separator)`, for a separator of one unit.
unfoldable pub join : ℕ → List Text → Text
join separator [] = []
join separator (x ∷ []) = x
join separator (x ∷ y ∷ xs) = x ++ separator ∷ join separator (y ∷ xs)
