-- ===== src/Esl/Injection.antt =====
-- The caller id and the destination in the commands of apps/api/src/esl.ts.
use outbound_freeswitch_dial.Prelude.{
  ℕ, ◌≡◌, refl, sym, ap, ap₂, ◌∙◌, true, false, not, ◌||◌, Option, none, some, List, [], ◌∷◌, ◌++◌,
  Text, codes, trim, join, filter, filter-append, arith, Bool-cases, inl, inr,
}
use mathlib.Core.Option.{some-injective}
use outbound_freeswitch_dial.Esl.Originate.{
  TrunkConfig, BridgeInput, given, ip_auth, registration, TrunkMode, is_filled, is_digit,
  is_separator, normalize_destination, escape_originate_variable, build_originate_variables,
  build_customer_dial_string, caller_id_variable, agent_variables, customer_variables,
  fixed_customer_variables, dial_string_for, build_agent_bridge_originate_command, bridge_command,
  over_dial,
}

-- The units of a command that part its variables from each other and from the rest.
abbrev pub separators : Text → Text
separators t = filter is_separator t

same_append :
    (a b c d : Text)
    → separators a ≡ separators b
    → separators c ≡ separators d
    → separators (a ++ c) ≡ separators (b ++ d)
same_append a b c d e f =
    filter-append is_separator a c ∙ ap₂ (◌++◌) e f ∙ sym (filter-append is_separator b d)

separators-escape : (v : Text) → separators (escape_originate_variable v) ≡ []
unfolding escape_originate_variable
separators-escape [] = refl
separators-escape (c ∷ v) = elim (Bool-cases (is_separator c)) [
  | inl e ↦ rw e (separators-escape v)
  | inr e ↦ rw (e, e) (separators-escape v)
]

digit_is_no_separator : (c : ℕ) → is_digit c ≡ true → is_separator c ≡ false
digit_is_no_separator c e = ground arith

separators-digits : (v : Text) → separators (filter is_digit v) ≡ []
separators-digits [] = refl
separators-digits (c ∷ v) = elim (Bool-cases (is_digit c)) [
  | inl e ↦ rw (e, digit_is_no_separator c e) (separators-digits v)
  | inr e ↦ rw e (separators-digits v)
]

separators-join :
    (xs : List Text) (v w : Text)
    → separators v ≡ separators w
    → separators (join b',' (xs ++ v ∷ [])) ≡ separators (join b',' (xs ++ w ∷ []))
unfolding join
separators-join [] v w e = e
separators-join (x ∷ []) v w e = same_append x x (b',' ∷ v) (b',' ∷ w) refl (ap (◌∷◌ b',') e)
separators-join (x ∷ y ∷ xs) v w e =
    same_append x x (b',' ∷ join b',' (y ∷ xs ++ v ∷ [])) (b',' ∷ join b',' (y ∷ xs ++ w ∷ [])) refl
      (ap (◌∷◌ b',') (separators-join (y ∷ xs) v w e))

same_variables :
    (xs : List Text) (v w : Text)
    → is_filled v ≡ true
    → is_filled w ≡ true
    → separators v ≡ separators w
    → separators (build_originate_variables (xs ++ v ∷ []))
      ≡ separators (build_originate_variables (xs ++ w ∷ []))
unfolding build_originate_variables
same_variables xs v w f g e =
    ap (λ l. separators (join b',' l)) (filled_last v f)
    ∙ separators-join (filter is_filled xs) v w e
    ∙ sym (ap (λ l. separators (join b',' l)) (filled_last w g))
  where
    filled_last :
        (u : Text)
        → is_filled u ≡ true
        → filter is_filled (xs ++ u ∷ []) ≡ filter is_filled xs ++ u ∷ []
    filled_last u h = filter-append is_filled xs (u ∷ []) ∙ rw h refl

abbrev pub separators_of : Option Text → Option Text
separators_of none = none
separators_of (some t) = some (separators t)

same_dial :
    (mode : TrunkMode) (k : TrunkConfig) (d e : Text)
    → separators d ≡ separators e
    → separators_of (dial_string_for mode k d) ≡ separators_of (dial_string_for mode k e)
same_dial ip_auth k d e same = elim (Bool-cases (not (is_filled k.proxy))) [
  | inl missing ↦ rw missing refl
  | inr there ↦ rw there (ap some (simp (filter-append is_separator, same)))
]
same_dial registration k d e same =
    elim (Bool-cases (not (is_filled k.proxy) || not (is_filled k.username))) [
      | inl missing ↦ rw missing refl
      | inr there ↦ rw there (
          ap some (
            same_append (codes "sofia/gateway/sip-trunk/") (codes "sofia/gateway/sip-trunk/") d e
              refl same))
    ]

separators-dial :
    (k : TrunkConfig) (m n : Text)
    → separators_of (build_customer_dial_string k m)
      ≡ separators_of (build_customer_dial_string k n)
unfolding build_customer_dial_string normalize_destination
separators-dial k m n =
    same_dial k.mode k _ _ (separators-digits (trim m) ∙ sym (separators-digits (trim n)))

-- A caller id that is given.
abbrev pub dialing : BridgeInput → Text → Text → BridgeInput
dialing i caller number = record i { caller_id = given caller; destination_number = number }

caller_id_variable-filled :
    (c : Text) → is_filled c ≡ true → is_filled (caller_id_variable c) ≡ true
unfolding caller_id_variable
caller_id_variable-filled [] e = e
caller_id_variable-filled (x ∷ c) e = refl

separators-caller_id_variable : (c : Text) → separators (caller_id_variable c) ≡ []
unfolding caller_id_variable
separators-caller_id_variable [] = refl
separators-caller_id_variable (x ∷ c) = separators-escape (x ∷ c)

module _ (k : TrunkConfig) (i : BridgeInput) (c d m n : Text) where
  same_customer_variables :
      is_filled c ≡ true
      → is_filled d ≡ true
      → separators (build_originate_variables (customer_variables k (dialing i c m)))
        ≡ separators (build_originate_variables (customer_variables k (dialing i d n)))
  unfolding customer_variables
  same_customer_variables e f =
      same_variables (fixed_customer_variables k i) (caller_id_variable c) (caller_id_variable d)
        (caller_id_variable-filled c e) (caller_id_variable-filled d f)
        (separators-caller_id_variable c ∙ sym (separators-caller_id_variable d))

  same_bridge :
      (s t : Text)
      → is_filled c ≡ true
      → is_filled d ≡ true
      → separators s ≡ separators t
      → separators (bridge_command k (dialing i c m) s)
        ≡ separators (bridge_command k (dialing i d n) t)
  unfolding agent_variables
  same_bridge s t e f g = simp (filter-append is_separator, same_customer_variables e f, g)

  same_over :
      (o p : Option Text)
      → is_filled c ≡ true
      → is_filled d ≡ true
      → separators_of o ≡ separators_of p
      → separators_of (over_dial k (dialing i c m) o)
        ≡ separators_of (over_dial k (dialing i d n) p)
  same_over none none e f g = refl
  same_over none (some t) e f g = absurd (ground arith)
  same_over (some s) none e f g = absurd (ground arith)
  same_over (some s) (some t) e f g = ap some (same_bridge s t e f (some-injective _ _ g))

-- Whatever caller id and destination are dialled, the braces and commas of the command are the same
-- ones: neither of them ends the list of variables or adds a variable to it. It is refused for one
-- destination only if it is refused for the other.
pub dialled_texts_add_no_variable :
    (k : TrunkConfig) (i : BridgeInput) (c d m n : Text)
    → is_filled c ≡ true
    → is_filled d ≡ true
    → separators_of (build_agent_bridge_originate_command k (dialing i c m))
      ≡ separators_of (build_agent_bridge_originate_command k (dialing i d n))
unfolding build_agent_bridge_originate_command
dialled_texts_add_no_variable k i c d m n e f =
    same_over k i c d m n _ _ e f (separators-dial k m n)
