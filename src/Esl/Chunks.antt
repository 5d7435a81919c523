-- ===== src/Esl/Chunks.antt =====
-- The buffer of the `data` handlers of apps/api/src/esl-events.ts, over a run of chunks.
use outbound_freeswitch_dial.Prelude.{
  suc, ◌≡◌, sym, ap, ◌∙◌, Option, none, some, List, [], ◌∷◌, ◌++◌, Text, All, length, arith,
  append_assoc, append-nil,
}
use outbound_freeswitch_dial.Esl.{EslFrame}
use outbound_freeswitch_dial.Esl.Frames.{next_frame, extract_frames}
use outbound_freeswitch_dial.Esl.Buffers.{IsAscii, IsAscii-append}
use outbound_freeswitch_dial.Esl.Streams.{
  Ends, Ends-below, with_frames, extract-append, extract-last,
}

-- `buffer += chunk`, the frames of it, and `buffer = extraction.rest`, for each chunk.
abbrev feed_rest :
    Option (List EslFrame × Text)
    → (Text → Option (List EslFrame × Text))
    → Option (List EslFrame × Text)
feed_rest none rest = none
feed_rest (some (fs, buffer)) rest = with_frames fs (rest buffer)

unfoldable pub feed : Text → List Text → Option (List EslFrame × Text)
unfolding extract_frames
feed buffer [] = some ([], buffer)
feed buffer (chunk ∷ chunks) =
    feed_rest (extract_frames (buffer ++ chunk)) (λ rest. feed rest chunks)

abbrev pub concat : List Text → Text
concat [] = []
concat (t ∷ ts) = t ++ concat ts

-- However an ASCII stream is cut into chunks, the same frames come from it, and the same rest.
pub chunks_give_the_same_frames :
    (buffer : Text) (chunks : List Text)
    → IsAscii buffer
    → All IsAscii chunks
    → next_frame buffer ≡ none
    → feed buffer chunks ≡ extract_frames (buffer ++ concat chunks)
unfolding feed Ends
chunks_give_the_same_frames buffer [] ascii all last =
    sym (ap extract_frames (append-nil buffer) ∙ extract-last buffer last)
chunks_give_the_same_frames buffer (chunk ∷ chunks) ascii every last =
    let t = buffer ++ chunk in
    let (fs, rest, e, none_left, size) = Ends-below (suc (length t)) t (omega arith) in
    let whole =
      extract-append (suc (length t)) t (concat chunks) rest fs (omega arith)
        (IsAscii-append buffer chunk ascii every.0) e in
    ap (λ o. feed_rest o (λ r. feed r chunks)) e
    ∙ ap (with_frames fs) (chunks_give_the_same_frames rest chunks whole.1 every.1 none_left)
    ∙ sym whole.0
    ∙ ap extract_frames (append_assoc buffer chunk (concat chunks))
