-- ===== src/Esl/Overrun.antt =====
-- The body that `extractFrames` of apps/api/src/esl-events.ts slices: `Content-Length` counts
-- bytes, and `slice` counts UTF-16 units.
use outbound_freeswitch_dial.Prelude.{
  ℕ, zero, suc, ◌-◌, ◌≤◌, ◌≡◌, refl, ap, ap₂, ◌∙◌, Bool, false, ◌&&◌, some, [], ◌∷◌, ◌++◌, Text,
  codes, leb, ltb, length, take, drop, byte_length, bytes_from, arith,
}
use outbound_freeswitch_dial.Esl.{header, Headers, EslFrame, cut, parse_headers, content_length}
use outbound_freeswitch_dial.Esl.Frames.{
  next_frame, frame_at, frame_of, is_plain_event, unwrap_plain_event,
}
use outbound_freeswitch_dial.Esl.Buffers.{length-bytes_from}

bytes_from-append : (p : Bool) (a b : Text) → bytes_from p a ≤ bytes_from p (a ++ b)
unfolding bytes_from
bytes_from-append p [] b = omega arith
bytes_from-append p (c ∷ a) b = omega (arith, bytes_from-append (leb 0xD800 c && leb c 0xDBFF) a b)

take_past : (n : ℕ) (a b : Text) → length a ≤ n → take n (a ++ b) ≡ a ++ take (n - length a) b
take_past n [] b h = ap (λ m. take m b) (omega arith)
take_past zero (c ∷ a) b h = absurd (omega (arith, h))
take_past (suc n) (c ∷ a) b h =
    ap (◌∷◌ c) (take_past n a b (omega arith) ∙ ap (λ m. a ++ take m b) (omega arith))

drop_past : (n : ℕ) (a b : Text) → length a ≤ n → drop n (a ++ b) ≡ drop (n - length a) b
drop_past n [] b h = ap (λ m. drop m b) (omega arith)
drop_past zero (c ∷ a) b h = absurd (omega (arith, h))
drop_past (suc n) (c ∷ a) b h = drop_past n a b (omega arith) ∙ ap (λ m. drop m b) (omega arith)

unwrap_plain_event-other :
    (f : EslFrame)
    → is_plain_event (header (codes "content-type") f.headers) ≡ false
    → unwrap_plain_event f ≡ f
unfolding unwrap_plain_event
unwrap_plain_event-other f e = rw e refl

frame_of_body :
    (h : Headers) (n : ℕ) (body rest : Text)
    → n ≡ byte_length body
    → 1 ≤ n
    → is_plain_event (header (codes "content-type") h) ≡ false
    → let extra = byte_length body - length body in
      frame_of h n (body ++ rest)
      ≡ some (record { headers = h; body = body ++ take extra rest }, drop extra rest)
frame_of_body h zero body rest e one other = absurd (omega (arith, one))
frame_of_body h (suc n) body rest e one other =
    let there : ltb (byte_length (body ++ rest)) (suc n) ≡ false =
      ground (arith, bytes_from-append false body rest) in
    let long : length body ≤ suc n = omega (arith, length-bytes_from false body, e) in
    let extra : suc n - length body ≡ byte_length body - length body =
      ap (λ m. m - length body) e in
    rw (there, take_past (suc n) body rest long, drop_past (suc n) body rest long)
      (ap₂ (λ f t. some (f, t))
        (unwrap_plain_event-other
            (record { headers = h; body = body ++ take (suc n - length body) rest }) other
          ∙ ap (λ m. record { headers = h; body = body ++ take m rest }) extra)
        (ap (λ m. drop m rest) extra))

-- A frame whose `Content-Length` is the number of bytes of its body, and which is not an event,
-- has more than that body when the body is not ASCII: it also takes from what follows as many units
-- as the body has bytes more than units, and these are missing where the next frame starts.
pub body_takes_what_follows :
    (buffer head body rest : Text)
    → cut (codes "\n\n") buffer ≡ some (head, body ++ rest)
    → content_length (parse_headers head) ≡ byte_length body
    → 1 ≤ byte_length body
    → is_plain_event (header (codes "content-type") (parse_headers head)) ≡ false
    → let extra = byte_length body - length body in
      next_frame buffer
      ≡ some
          (record { headers = parse_headers head; body = body ++ take extra rest }, drop extra rest)
unfolding next_frame
body_takes_what_follows buffer head body rest found size one other =
    ap frame_at found ∙ frame_of_body (parse_headers head) _ body rest size (rw size one) other
