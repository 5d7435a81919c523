-- ===== src/Esl/Buffers.antt =====
-- A buffer of apps/api/src/esl-events.ts that grows at its end: the occurrences that `extractFrames`
-- finds, and one frame.
use outbound_freeswitch_dial.Prelude.{
  ℕ, zero, suc, ◌+◌, ◌≤◌, ◌<◌, ◌≡◌, refl, sym, ap, ap₂, ◌∙◌, subst, Bool, true, false, ◌&&◌, Option,
  none, some, [], ◌∷◌, ◌++◌, Text, starts_with, leb, ltb, ◌==◌, length, take, drop, All, all,
  byte_length, bytes_from, arith, length-append, Bool-cases, inl, inr, length-drop,
}
use outbound_freeswitch_dial.Esl.{Headers, EslFrame, cut, before}
use outbound_freeswitch_dial.Esl.Frames.{frame_of}

-- A text of ASCII units.
abbrev pub IsAscii : Text → Type 0
IsAscii t = All (λ c. c < 128) t

-- The test of it.
pub all-IsAscii : (t : Text) → all (λ c. ltb c 128) t ≡ true → IsAscii t
all-IsAscii [] e = tt
all-IsAscii (c ∷ t) e = (ground arith, all-IsAscii t (ground arith))

pub IsAscii-append : (a b : Text) → IsAscii a → IsAscii b → IsAscii (a ++ b)
IsAscii-append [] b h k = k
IsAscii-append (c ∷ a) b h k = (h.0, IsAscii-append a b h.1 k)

pub IsAscii-end : (a b : Text) → IsAscii (a ++ b) → IsAscii b
IsAscii-end [] b h = h
IsAscii-end (c ∷ a) b h = IsAscii-end a b h.1

pub length-bytes_from : (p : Bool) (t : Text) → length t ≤ bytes_from p t
unfolding bytes_from
length-bytes_from p [] = omega arith
length-bytes_from p (c ∷ t) = ground (arith, length-bytes_from (leb 0xD800 c && leb c 0xDBFF) t)

pub bytes_from-IsAscii : (p : Bool) (t : Text) → IsAscii t → bytes_from p t ≡ length t
unfolding bytes_from
bytes_from-IsAscii p [] h = refl
bytes_from-IsAscii p (c ∷ t) h =
    ground (arith, h.0, bytes_from-IsAscii (leb 0xD800 c && leb c 0xDBFF) t h.1)

-- Occurrences of a text.
starts_with-length : (p t : Text) → starts_with p t ≡ true → length p ≤ length t
unfolding starts_with
starts_with-length [] t e = omega arith
starts_with-length (c ∷ p) [] e = ground arith
starts_with-length (c ∷ p) (d ∷ t) e = ground (arith, starts_with-length p t)

starts_with-append : (p t b : Text) → length p ≤ length t → starts_with p (t ++ b) ≡ starts_with p t
unfolding starts_with
starts_with-append [] t b h = refl
starts_with-append (c ∷ p) [] b h = ground arith
starts_with-append (c ∷ p) (d ∷ t) b h =
    ap (λ q. c == d && q) (starts_with-append p t b (omega arith))

pub drop-append : (n : ℕ) (t b : Text) → n ≤ length t → drop n (t ++ b) ≡ drop n t ++ b
drop-append zero t b h = refl
drop-append (suc n) [] b h = ground arith
drop-append (suc n) (c ∷ t) b h = drop-append n t b (omega arith)

pub take-append : (n : ℕ) (t b : Text) → n ≤ length t → take n (t ++ b) ≡ take n t
take-append zero t b h = refl
take-append (suc n) [] b h = ground arith
take-append (suc n) (c ∷ t) b h = ap (◌∷◌ c) (take-append n t b (omega arith))

pub some_pair {ℓ κ} :
    {A : Type ℓ} {B : Type κ} {a c : A} {b d : B}
    → ◌≡◌ {A = Option (A × B)} (some (a, b)) (some (c, d))
    → (a ≡ c) × (b ≡ d)
some_pair e = (ground arith, ground arith)

before-some :
    {x y : Text} (c : ℕ) (o : Option (Text × Text))
    → before c o ≡ some (x, y)
    → (z : Text) × (o ≡ some (z, y)) × (x ≡ c ∷ z)
before-some c none e = ground arith
before-some c (some (a, b)) e = (a, ground arith, ground arith)

cut-here :
    (p : Text) (c : ℕ) (t : Text)
    → starts_with p (c ∷ t) ≡ true
    → cut p (c ∷ t) ≡ some ([], drop (length p) (c ∷ t))
unfolding cut
cut-here p c t s = rw s

cut-later :
    (p : Text) (c : ℕ) (t : Text)
    → starts_with p (c ∷ t) ≡ false
    → cut p (c ∷ t) ≡ before c (cut p t)
unfolding cut
cut-later p c t s = rw s

-- A text that is found is as long as what stands before and after it leaves.
pub cut-length :
    (p t x y : Text) → cut p t ≡ some (x, y) → length x + length p + length y ≡ length t
unfolding cut
cut-length p [] x y e = ground (arith, starts_with-length p [])
cut-length p (c ∷ t) x y e = elim (Bool-cases (starts_with p (c ∷ t))) [
  | inl s ↦
      ground
        (arith, cut-here p c t s, starts_with-length p (c ∷ t) s, length-drop (length p) (c ∷ t))
  | inr s ↦
      let (z, f, g) = before-some c (cut p t) (sym (cut-later p c t s) ∙ e) in
      rw g (omega (arith, cut-length p t z y f))
]

-- What comes later does not change the first occurrence.
pub cut-append :
    (p t b x y : Text) → cut p t ≡ some (x, y) → 1 ≤ length p → cut p (t ++ b) ≡ some (x, y ++ b)
cut-append p [] b x y e one = absurd (omega (arith, cut-length p [] x y e))
cut-append p (c ∷ t) b x y e one =
    let same = starts_with-append p (c ∷ t) b (omega (arith, cut-length p (c ∷ t) x y e)) in
    elim (Bool-cases (starts_with p (c ∷ t))) [
      | inl s ↦
          cut-here p c (t ++ b) (same ∙ s)
          ∙ ap (λ u. some ([], u))
              (drop-append (length p) (c ∷ t) b (starts_with-length p (c ∷ t) s))
          ∙ ap (λ o. elim o [ none ↦ none | some (u, v) ↦ some (u, v ++ b) ])
              (sym (cut-here p c t s) ∙ e)
      | inr s ↦
          let (z, f, g) = before-some c (cut p t) (sym (cut-later p c t s) ∙ e) in
          cut-later p c (t ++ b) (same ∙ s)
          ∙ ap (before c) (cut-append p t b z y f one)
          ∙ ap (λ u. some (u, y ++ b)) (sym g)
    ]

IsAscii-drop : (n : ℕ) (t : Text) → IsAscii t → IsAscii (drop n t)
IsAscii-drop zero t h = h
IsAscii-drop (suc n) [] h = tt
IsAscii-drop (suc n) (c ∷ t) h = IsAscii-drop n t h.1

pub cut-IsAscii : (p t x y : Text) → cut p t ≡ some (x, y) → IsAscii t → IsAscii y
cut-IsAscii p [] x [] e h = tt
cut-IsAscii p [] x (d ∷ y) e h = absurd (omega (arith, cut-length p [] x (d ∷ y) e))
cut-IsAscii p (c ∷ t) x y e h = elim (Bool-cases (starts_with p (c ∷ t))) [
  | inl s ↦
      subst IsAscii (some_pair (sym (cut-here p c t s) ∙ e)).1 (IsAscii-drop (length p) (c ∷ t) h)
  | inr s ↦
      let (z, f, g) = before-some c (cut p t) (sym (cut-later p c t s) ∙ e) in
      cut-IsAscii p t z y f h.1
]

-- One turn of the loop, when the buffer is longer.
pub frame_of-append :
    (h : Headers) (n : ℕ) (after b : Text) (f : EslFrame) (r : Text)
    → IsAscii after
    → frame_of h n after ≡ some (f, r)
    → (frame_of h n (after ++ b) ≡ some (f, r ++ b)) × IsAscii r × (length r ≤ length after)
frame_of-append h zero after b f r ascii e =
    let (same, left) = some_pair e in
    (
      ap₂ (λ g t. some (g, t ++ b)) same left,
      subst IsAscii left ascii,
      omega (arith, ap length left),
    )
frame_of-append h (suc n) after b f r ascii e =
    elim (Bool-cases (ltb (byte_length after) (suc n))) [
      | inl short ↦ absurd (ground arith)
      | inr there ↦
          let fits : suc n ≤ length after = ground (arith, bytes_from-IsAscii false after ascii) in
          let fits_too : ltb (byte_length (after ++ b)) (suc n) ≡ false =
            ground (arith, length-bytes_from false (after ++ b), length-append after b) in
          let (same, left) = some_pair (rw there at e) in
          (
            rw (fits_too, take-append (suc n) after b fits, drop-append (suc n) after b fits)
                (ap₂ (λ g t. some (g, t ++ b)) same left),
            subst IsAscii left (IsAscii-drop (suc n) after ascii),
            omega (arith, ap length left, length-drop (suc n) after),
          )
    ]
