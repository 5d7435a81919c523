-- ===== src/Esl/Streams.antt =====
-- What `extractFrames` of apps/api/src/esl-events.ts takes from a stream that arrives in chunks.
use outbound_freeswitch_dial.Prelude.{
  ℕ, zero, suc, ◌+◌, ◌*◌, ◌≤◌, ◌<◌, ◌≡◌, refl, sym, ap, ap₂, ◌∙◌, subst, Option, none, some, List,
  [], ◌∷◌, ◌++◌, Text, codes, length, Bool-cases, ltb, byte_length, length-drop, arith,
  append_assoc, Option-cases, inl, inr,
}
use outbound_freeswitch_dial.Esl.{Headers, EslFrame, cut, parse_headers, content_length}
use outbound_freeswitch_dial.Esl.Frames.{
  next_frame, frame_at, frame_of, extract_on, with_frame, extract_frames,
}
use outbound_freeswitch_dial.Esl.Buffers.{
  IsAscii, some_pair, cut-length, cut-append, cut-IsAscii, frame_of-append,
}

frame_of-length :
    (h : Headers) (n : ℕ) (after : Text) (f : EslFrame) (r : Text)
    → frame_of h n after ≡ some (f, r)
    → length r ≤ length after
frame_of-length h zero after f r e = omega (arith, ap length (some_pair e).1)
frame_of-length h (suc n) after f r e = elim (Bool-cases (ltb (byte_length after) (suc n))) [
  | inl short ↦ absurd (ground arith)
  | inr there ↦ omega (arith, ap length (some_pair (rw there at e)).1, length-drop (suc n) after)
]

-- A frame takes the blank line at least.
next_frame-length :
    (t r : Text) (f : EslFrame) → next_frame t ≡ some (f, r) → length r + 2 ≤ length t
unfolding next_frame
next_frame-length t r f e = elim (Option-cases (cut (codes "\n\n") t)) [
  | inl none_found ↦ absurd (ground arith)
  | inr ((h, after), found) ↦
      let headers = parse_headers h in
      let left = frame_of-length headers (content_length headers) after f r (rw found at e) in
      omega (arith, left, cut-length (codes "\n\n") t h after found)
]

next_frame-append :
    (t b r : Text) (f : EslFrame)
    → IsAscii t
    → next_frame t ≡ some (f, r)
    → (next_frame (t ++ b) ≡ some (f, r ++ b)) × IsAscii r
unfolding next_frame
next_frame-append t b r f ascii e = elim (Option-cases (cut (codes "\n\n") t)) [
  | inl none_found ↦ absurd (ground arith)
  | inr ((h, after), found) ↦
      let headers = parse_headers h in
      let longer =
        frame_of-append headers (content_length headers) after b f r
          (cut-IsAscii (codes "\n\n") t h after found ascii) (rw found at e) in
      (ap frame_at (cut-append (codes "\n\n") t b h after found (omega arith)) ∙ longer.0, longer.1)
]

extract_on-fuel :
    (f g : ℕ) (t : Text) → length t < f → length t < g → extract_on f t ≡ extract_on g t
unfolding extract_on
extract_on-fuel zero g t h k = absurd (omega (arith, h))
extract_on-fuel (suc f) zero t h k = absurd (omega (arith, k))
extract_on-fuel (suc f) (suc g) t h k = elim (Option-cases (next_frame t)) [
  | inl last ↦ rw (last, extract_on) refl
  | inr ((fr, r), more) ↦
      let shorter = next_frame-length t r fr more in
      rw (more, extract_on)
        (ap (with_frame fr)
          (extract_on-fuel f g r (omega (arith, shorter)) (omega (arith, shorter))))
]

pub extract-last : (t : Text) → next_frame t ≡ none → extract_frames t ≡ some ([], t)
unfolding extract_frames extract_on
extract-last t e = rw (e, extract_on) refl

extract-more :
    (t r : Text) (f : EslFrame)
    → next_frame t ≡ some (f, r)
    → extract_frames t ≡ with_frame f (extract_frames r)
unfolding extract_frames extract_on
extract-more t r f e =
    rw (e, extract_on)
      (ap (with_frame f) (
        extract_on-fuel (length t) (suc (length r)) r (omega (arith, next_frame-length t r f e))
          (omega arith)))

unfoldable pub Ends : Text → Type 0
Ends t =
    (frames : List EslFrame) × (rest : Text) × (extract_frames t ≡ some (frames, rest))
    × (next_frame rest ≡ none)
    × (length rest + 2 * length frames ≤ length t)

pub Ends-below : (n : ℕ) (t : Text) → length t < n → Ends t
unfolding Ends
Ends-below zero t h = absurd (omega (arith, h))
Ends-below (suc n) t h = elim (Option-cases (next_frame t)) [
  | inl last ↦ ([], t, extract-last t last, last, omega arith)
  | inr ((f, r), more) ↦
      let (fs, rest, e, last, size) =
        Ends-below n r (omega (arith, next_frame-length t r f more)) in
      (
        f ∷ fs,
        rest,
        extract-more t r f more ∙ ap (with_frame f) e,
        last,
        omega (arith, size, next_frame-length t r f more),
      )
]

-- The loop that takes frames from a buffer ends, whatever the buffer holds: it gives the frames and
-- a rest in which no frame is complete, and the rest and two units for each frame are at most what
-- the buffer held.
pub extraction_always_ends :
    (buffer : Text)
    → (frames : List EslFrame) × (rest : Text) × (extract_frames buffer ≡ some (frames, rest))
      × (next_frame rest ≡ none)
      × (length rest + 2 * length frames ≤ length buffer)
unfolding Ends
extraction_always_ends buffer = Ends-below (suc (length buffer)) buffer (omega arith)

abbrev pub with_frames :
    List EslFrame → Option (List EslFrame × Text) → Option (List EslFrame × Text)
with_frames fs none = none
with_frames fs (some (gs, rest)) = some (fs ++ gs, rest)

pub with_frames-nil : (o : Option (List EslFrame × Text)) → with_frames [] o ≡ o
with_frames-nil none = refl
with_frames-nil (some (gs, r)) = refl

with_frames-cons :
    (f : EslFrame) (fs : List EslFrame) (o : Option (List EslFrame × Text))
    → with_frame f (with_frames fs o) ≡ with_frames (f ∷ fs) o
with_frames-cons f fs none = refl
with_frames-cons f fs (some (gs, r)) = refl

pub with_frames-with_frames :
    (fs gs : List EslFrame) (o : Option (List EslFrame × Text))
    → with_frames fs (with_frames gs o) ≡ with_frames (fs ++ gs) o
with_frames-with_frames fs gs none = refl
with_frames-with_frames fs gs (some (hs, r)) = ap (λ u. some (u, r)) (sym (append_assoc fs gs hs))

-- What a buffer gives does not change when more arrives.
pub extract-append :
    (n : ℕ) (t b r : Text) (fs : List EslFrame)
    → length t < n
    → IsAscii t
    → extract_frames t ≡ some (fs, r)
    → (extract_frames (t ++ b) ≡ with_frames fs (extract_frames (r ++ b))) × IsAscii r
unfolding Ends
extract-append zero t b r fs h ascii e = absurd (omega (arith, h))
extract-append (suc n) t b r fs h ascii e = elim (Option-cases (next_frame t)) [
  | inl last ↦
      let (none_yet, same) = some_pair (sym (extract-last t last) ∙ e) in
      (
        sym (with_frames-nil (extract_frames (t ++ b)))
            ∙ ap₂ (λ u v. with_frames u (extract_frames (v ++ b))) none_yet same,
        subst IsAscii same ascii,
      )
  | inr ((f, s), more) ↦
      let (gs, rest, f_rest, last, size) = Ends-below (suc (length s)) s (omega arith) in
      let longer = next_frame-append t b s f ascii more in
      let later =
        extract-append n s b rest gs (omega (arith, next_frame-length t s f more)) longer.1
          f_rest in
      let (same, left) = some_pair (sym (extract-more t s f more ∙ ap (with_frame f) f_rest) ∙ e) in
      (
        extract-more (t ++ b) (s ++ b) f longer.0
            ∙ ap (with_frame f) later.0
            ∙ with_frames-cons f gs (extract_frames (rest ++ b))
            ∙ ap₂ (λ u v. with_frames u (extract_frames (v ++ b))) same left,
        subst IsAscii left later.1,
      )
]
