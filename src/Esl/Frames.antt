-- ===== src/Esl/Frames.antt =====
-- apps/api/src/esl-events.ts: `extractFrames` and `unwrapPlainEvent`; apps/api/src/esl.ts:
-- `parseEslResponse`. The number of turns of the loop is bounded by fuel.
use outbound_freeswitch_dial.Prelude.{
  ℕ, zero, suc, Bool, true, false, Option, none, some, List, [], ◌∷◌, Text, codes, text_eq,
  includes, ltb, length, take, drop, if◌then◌else◌, byte_length,
}
use outbound_freeswitch_dial.Esl.{
  Headers, header, merge, EslFrame, cut, parse_headers, content_length,
}

abbrev pub or_empty : Option Text → Text
or_empty none = []
or_empty (some t) = t

-- `!value`, of an optional text.
abbrev pub is_empty : Option Text → Bool
is_empty none = true
is_empty (some []) = true
is_empty (some (c ∷ t)) = false

abbrev pub is_plain_event : Option Text → Bool
is_plain_event none = false
is_plain_event (some v) = text_eq v (codes "text/event-plain")

abbrev pub unwrapped : EslFrame → Headers → Text → EslFrame
unwrapped frame event rest =
    if is_empty (header (codes "event-name") event)
    then frame
    else record { headers = merge frame.headers event; body = rest }

abbrev pub unwrap_at : EslFrame → Option (Text × Text) → EslFrame
unwrap_at frame none = frame
unwrap_at frame (some (h, rest)) = unwrapped frame (parse_headers h) rest

unfoldable pub unwrap_plain_event : EslFrame → EslFrame
unfolding text_eq includes header merge cut parse_headers
unwrap_plain_event frame =
    if is_plain_event (header (codes "content-type") frame.headers)
    then unwrap_at frame (
        cut (if includes (codes "\r\n\r\n") frame.body then codes "\r\n\r\n" else codes "\n\n")
          frame.body)
    else frame

-- One turn of the loop: the frame at the front of the buffer and the rest, or `break`.
abbrev pub frame_of : Headers → ℕ → Text → Option (EslFrame × Text)
frame_of h zero after = some (
  unwrap_plain_event (record { headers = h; body = or_empty (header (codes "reply-text") h) }),
  after,
)
frame_of h (suc n) after =
    if ltb (byte_length after) (suc n)
    then none
    else some
        (unwrap_plain_event (record { headers = h; body = take (suc n) after }), drop (suc n) after)

abbrev pub frame_at : Option (Text × Text) → Option (EslFrame × Text)
frame_at none = none
frame_at (some (h, after)) =
    let headers = parse_headers h in frame_of headers (content_length headers) after

unfoldable pub next_frame : Text → Option (EslFrame × Text)
unfolding unwrap_plain_event header cut parse_headers content_length
next_frame buffer = frame_at (cut (codes "\n\n") buffer)

abbrev pub with_frame : EslFrame → Option (List EslFrame × Text) → Option (List EslFrame × Text)
with_frame frame none = none
with_frame frame (some (frames, rest)) = some (frame ∷ frames, rest)

-- `none` says that the fuel ran out.
unfoldable pub extract_on : ℕ → Text → Option (List EslFrame × Text)
unfolding next_frame
extract_on zero buffer = none
extract_on (suc fuel) buffer = elim (next_frame buffer) [
  | none ↦ some ([], buffer)
  | some (frame, rest) ↦ with_frame frame (extract_on fuel rest)
]

-- Each turn takes two units at least, so that the units of the buffer are fuel enough.
unfoldable pub extract_frames : Text → Option (List EslFrame × Text)
unfolding extract_on
extract_frames buffer = extract_on (suc (length buffer)) buffer

pub record EslCommandResponse : Type 0 where
  pub body : Text
  pub headers : Headers
  pub raw : Text

abbrev or_text : Option Text → Text → Text
or_text none t = t
or_text (some v) t = v

abbrev pub response_of : Text → Headers → ℕ → Text → Option EslCommandResponse
response_of raw h zero after =
    some (record { body = or_text (header (codes "reply-text") h) after; headers = h; raw = raw })
response_of raw h (suc n) after =
    if ltb (byte_length after) (suc n)
    then none
    else some (record { body = take (suc n) after; headers = h; raw = raw })

abbrev pub response_at : Text → Option (Text × Text) → Option EslCommandResponse
response_at raw none = none
response_at raw (some (h, after)) =
    let headers = parse_headers h in response_of raw headers (content_length headers) after

unfoldable pub parse_esl_response : Text → Option EslCommandResponse
unfolding header cut parse_headers content_length
parse_esl_response raw = response_at raw (cut (codes "\n\n") raw)
