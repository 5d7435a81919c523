-- ===== src/Esl/Listener.antt =====
-- The connection of the event listener of apps/api/src/esl-events.ts: the `data` handler of
-- `connect` in `startFreeSwitchEventListener`. A chunk is its text; logs and metrics are left out,
-- and what the handler does outside the connection and the queue are effects.
use outbound_freeswitch_dial.Prelude.{
  Bool, true, false, ◌&&◌, Option, none, some, List, [], ◌∷◌, ◌++◌, Text, codes, text_eq,
  starts_with, if◌then◌else◌,
}
use outbound_freeswitch_dial.Queue.{Queue, Options, enqueue}
use outbound_freeswitch_dial.Esl.{header, EslFrame}
use outbound_freeswitch_dial.Esl.Frames.{extract_frames}

pub data Stage : Type 0 where
  auth_request : Stage
  auth_reply : Stage
  subscribe_reply : Stage
  events : Stage

pub data ListenerEffect : Type 0 where
  wrote_auth : ListenerEffect
  wrote_subscription : ListenerEffect
  destroyed : ListenerEffect
  set_connected : Bool → ListenerEffect
  requested_reconciliation : ListenerEffect
  fallback_handles : EslFrame → ListenerEffect

pub record Connection (E : Type 0) : Type 0 where
  pub buffer : Text
  pub stage : Stage
  pub queue : Queue EslFrame E
  pub effects : List ListenerEffect

abbrev pub header_is : Text → Text → EslFrame → Bool
header_is k v f = elim (header k f.headers) [ none ↦ false | some w ↦ text_eq w v ]

-- `frame.headers["reply-text"]?.startsWith("+OK")`.
unfoldable pub is_accepted : EslFrame → Bool
unfolding header starts_with
is_accepted f = elim (header (codes "reply-text") f.headers) [
  | none ↦ false
  | some w ↦ starts_with (codes "+OK") w
]

module _ {E : Type 0} where
  abbrev pub does : List ListenerEffect → Connection E → Connection E
  does es c = record c { effects = c.effects ++ es }

  unfoldable pub on_auth_request : EslFrame → Connection E → Connection E
  unfolding header text_eq
  on_auth_request f c =
      if header_is (codes "content-type") (codes "auth/request") f
      then does (wrote_auth ∷ []) (record c { stage = auth_reply })
      else c

  unfoldable pub on_auth_reply : EslFrame → Connection E → Connection E
  unfolding is_accepted
  on_auth_reply f c =
      if is_accepted f
      then does (wrote_subscription ∷ []) (record c { stage = subscribe_reply })
      else does (destroyed ∷ []) c

  unfoldable pub on_subscribe_reply : EslFrame → Connection E → Connection E
  unfolding header text_eq is_accepted
  on_subscribe_reply f c =
      if header_is (codes "content-type") (codes "command/reply") f && is_accepted f
      then does (set_connected true ∷ requested_reconciliation ∷ []) (record c { stage = events })
      else does (destroyed ∷ []) c

  -- The second part says that the loop breaks.
  abbrev pub overflow_if_refused : Queue EslFrame E × Bool → Connection E → Connection E × Bool
  overflow_if_refused (q, true) c = (record c { queue = q }, false)
  overflow_if_refused (q, false) c =
      (does (set_connected false ∷ destroyed ∷ []) (record c { queue = q }), true)

  unfoldable pub on_event : Options E → EslFrame → Connection E → Connection E × Bool
  unfolding enqueue
  on_event o f c = overflow_if_refused (enqueue o f c.queue) (does (fallback_handles f ∷ []) c)

  -- The branches of the loop's body.
  unfoldable pub at_stage : Stage → Options E → EslFrame → Connection E → Connection E × Bool
  unfolding on_auth_request on_auth_reply on_subscribe_reply on_event
  at_stage auth_request o f c = (on_auth_request f c, false)
  at_stage auth_reply o f c = (on_auth_reply f c, false)
  at_stage subscribe_reply o f c = (on_subscribe_reply f c, false)
  at_stage events o f c = on_event o f c

  unfoldable pub on_frame : Options E → EslFrame → Connection E → Connection E × Bool
  unfolding at_stage
  on_frame o f c = at_stage c.stage o f c

  abbrev pub unless_broken : Connection E × Bool → (Connection E → Connection E) → Connection E
  unless_broken (c, true) rest = c
  unless_broken (c, false) rest = rest c

  unfoldable pub on_frames : Options E → List EslFrame → Connection E → Connection E
  unfolding on_frame
  on_frames o [] c = c
  on_frames o (f ∷ fs) c = unless_broken (on_frame o f c) (on_frames o fs)

  abbrev pub on_extraction : Options E → Option (List EslFrame × Text) → Connection E → Connection E
  on_extraction o none c = c
  on_extraction o (some (frames, rest)) c = on_frames o frames (record c { buffer = rest })

  unfoldable pub on_data : Options E → Text → Connection E → Connection E
  unfolding extract_frames on_frames
  on_data o chunk c = on_extraction o (extract_frames (c.buffer ++ chunk)) c

  unfoldable pub on_chunks : Options E → List Text → Connection E → Connection E
  unfolding on_data
  on_chunks o [] c = c
  on_chunks o (chunk ∷ chunks) c = on_chunks o chunks (on_data o chunk c)
