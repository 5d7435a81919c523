-- ===== src/Esl/Protocol.antt =====
-- The order in which the `data` handler of apps/api/src/esl-events.ts talks to FreeSWITCH.
use outbound_freeswitch_dial.Prelude.{
  filter-append, ◌≡◌, refl, ap, ◌∙◌, Bool, true, false, ◌&&◌, ◌||◌, Option, none, some, List, [],
  ◌∷◌, ◌++◌, Text, codes, filter, any, if-cases, arith, ◌≤◌,
}
use outbound_freeswitch_dial.Queue.{Queue, Options, enqueue}
use outbound_freeswitch_dial.Esl.{EslFrame}
use outbound_freeswitch_dial.Esl.Frames.{extract_frames}
use outbound_freeswitch_dial.Esl.Replies.{replies_needed, count_ok, frames_heard, on_chunks-replies}
use outbound_freeswitch_dial.Esl.Listener.{
  Stage, auth_request, auth_reply, subscribe_reply, events, ListenerEffect, wrote_auth,
  wrote_subscription, destroyed, set_connected, requested_reconciliation, fallback_handles,
  Connection, on_auth_request, on_auth_reply, on_subscribe_reply, on_event, on_frame, at_stage,
  on_frames, on_data, on_chunks, on_extraction, does, header_is, is_accepted, unless_broken,
  overflow_if_refused,
}

abbrev is_write : ListenerEffect → Bool
is_write wrote_auth = true
is_write wrote_subscription = true
is_write _ = false

-- Reconciliation is asked for, and events are handled, on a subscribed connection only.
abbrev needs_subscription : ListenerEffect → Bool
needs_subscription requested_reconciliation = true
needs_subscription (fallback_handles f) = true
needs_subscription _ = false

-- What has been written up to a stage. Before the stage of events, no event has been handled and
-- the queue is still the first one.
abbrev pub Obeys :
    {E : Type 0} → Queue EslFrame E → Stage → List ListenerEffect → Queue EslFrame E → Type 0
Obeys q auth_request es r =
    (filter is_write es ≡ []) × (any needs_subscription es ≡ false) × (r ≡ q)
Obeys q auth_reply es r =
    (filter is_write es ≡ wrote_auth ∷ []) × (any needs_subscription es ≡ false) × (r ≡ q)
Obeys q subscribe_reply es r =
    (filter is_write es ≡ wrote_auth ∷ wrote_subscription ∷ [])
    × (any needs_subscription es ≡ false)
    × (r ≡ q)
Obeys q events es r = filter is_write es ≡ wrote_auth ∷ wrote_subscription ∷ []

any-append :
    (p : ListenerEffect → Bool) (xs ys : List ListenerEffect)
    → any p (xs ++ ys) ≡ (any p xs || any p ys)
any-append p [] ys = refl
any-append p (x ∷ xs) ys = ground (arith, any-append p xs ys)

module _ {E : Type 0} (o : Options E) (q : Queue EslFrame E) where
  Follows : Connection E → Type 0
  Follows c = Obeys q c.stage c.effects c.queue

  does-append :
      (es more : List ListenerEffect) (w : List ListenerEffect)
      → filter is_write es ≡ w
      → filter is_write (es ++ more) ≡ w ++ filter is_write more
  does-append es more w e = filter-append is_write es more ∙ ap (λ u. u ++ filter is_write more) e

  quiet :
      (es more : List ListenerEffect)
      → any needs_subscription es ≡ false
      → any needs_subscription more ≡ false
      → any needs_subscription (es ++ more) ≡ false
  quiet es more e k = ground (arith, any-append needs_subscription es more)

  auth_request-Follows :
      (f : EslFrame) (c : Connection E)
      → c.stage ≡ auth_request
      → Follows c
      → Follows (on_auth_request f c)
  unfolding Follows on_auth_request
  auth_request-Follows f c e h =
      let (wrote, none_yet, same) : Obeys q auth_request c.effects c.queue = rw e at h in
      if-cases Follows (header_is (codes "content-type") (codes "auth/request") f)
        (does (wrote_auth ∷ []) (record c { stage = auth_reply })) c
        (λ asked.
          (does-append c.effects (wrote_auth ∷ []) [] wrote, quiet c.effects _ none_yet refl, same))
        (λ other. h)

  auth_reply-Follows :
      (f : EslFrame) (c : Connection E)
      → c.stage ≡ auth_reply
      → Follows c
      → Follows (on_auth_reply f c)
  unfolding Follows on_auth_reply
  auth_reply-Follows f c e h =
      let (wrote, none_yet, same) : Obeys q auth_reply c.effects c.queue = rw e at h in
      if-cases Follows (is_accepted f)
        (does (wrote_subscription ∷ []) (record c { stage = subscribe_reply }))
        (does (destroyed ∷ []) c)
        (λ accepted. (
          does-append c.effects (wrote_subscription ∷ []) (wrote_auth ∷ []) wrote,
          quiet c.effects _ none_yet refl,
          same,
        ))
        (λ other. rw e (
          does-append c.effects (destroyed ∷ []) (wrote_auth ∷ []) wrote,
          quiet c.effects _ none_yet refl,
          same,
        ))

  subscribe_reply-Follows :
      (f : EslFrame) (c : Connection E)
      → c.stage ≡ subscribe_reply
      → Follows c
      → Follows (on_subscribe_reply f c)
  unfolding Follows on_subscribe_reply
  subscribe_reply-Follows f c e h =
      let (wrote, none_yet, same) : Obeys q subscribe_reply c.effects c.queue = rw e at h in
      if-cases Follows (header_is (codes "content-type") (codes "command/reply") f && is_accepted f)
        (does (set_connected true ∷ requested_reconciliation ∷ []) (record c { stage = events }))
        (does (destroyed ∷ []) c) (λ accepted. does-append c.effects _ _ wrote)
        (λ other.
          rw e
            (does-append c.effects (destroyed ∷ []) _ wrote, quiet c.effects _ none_yet refl, same))

  on_event-Follows :
      (f : EslFrame) (c : Connection E) → c.stage ≡ events → Follows c → Follows (on_event o f c).0
  unfolding Follows on_event
  on_event-Follows f c e h =
      let wrote : Obeys q events c.effects c.queue = rw e at h in
      let handled = does-append c.effects (fallback_handles f ∷ []) _ wrote in
      ends (enqueue o f c.queue) handled
    where
      ends :
          (r : Queue EslFrame E × Bool)
          → filter is_write (c.effects ++ fallback_handles f ∷ [])
            ≡ wrote_auth ∷ wrote_subscription ∷ []
          → Follows (overflow_if_refused r (does (fallback_handles f ∷ []) c)).0
      ends (r, true) w = rw e w
      ends (r, false) w = rw e (does-append (c.effects ++ fallback_handles f ∷ []) _ _ w)

  on_frame-Follows : (f : EslFrame) (c : Connection E) → Follows c → Follows (on_frame o f c).0
  unfolding on_frame at_stage
  on_frame-Follows f c h = by_stage c.stage refl
    where
      by_stage : (s : Stage) → c.stage ≡ s → Follows (at_stage s o f c).0
      by_stage auth_request e = auth_request-Follows f c e h
      by_stage auth_reply e = auth_reply-Follows f c e h
      by_stage subscribe_reply e = subscribe_reply-Follows f c e h
      by_stage events e = on_event-Follows f c e h

  on_frames-Follows :
      (fs : List EslFrame) (c : Connection E) → Follows c → Follows (on_frames o fs c)
  unfolding on_frames
  on_frames-Follows [] c h = h
  on_frames-Follows (f ∷ fs) c h =
      goes_on (on_frame o f c) (on_frames o fs) (on_frame-Follows f c h) (on_frames-Follows fs)
    where
      goes_on :
          (r : Connection E × Bool) (rest : Connection E → Connection E)
          → Follows r.0
          → ((d : Connection E) → Follows d → Follows (rest d))
          → Follows (unless_broken r rest)
      goes_on (d, true) rest k later = k
      goes_on (d, false) rest k later = later d k

  on_data-Follows : (chunk : Text) (c : Connection E) → Follows c → Follows (on_data o chunk c)
  unfolding on_data Follows
  on_data-Follows chunk c h = extracted (extract_frames (c.buffer ++ chunk))
    where
      extracted : (x : Option (List EslFrame × Text)) → Follows (on_extraction o x c)
      extracted none = h
      extracted (some (fs, rest)) = on_frames-Follows fs (record c { buffer = rest }) h

  on_chunks-Follows :
      (chunks : List Text) (c : Connection E) → Follows c → Follows (on_chunks o chunks c)
  unfolding on_chunks
  on_chunks-Follows [] c h = h
  on_chunks-Follows (chunk ∷ chunks) c h =
      on_chunks-Follows chunks (on_data o chunk c) (on_data-Follows chunk c h)

-- A new connection, on the queue that all connections share.
abbrev pub connected : {E : Type 0} → Queue EslFrame E → Connection E
connected q = record { buffer = []; stage = auth_request; queue = q; effects = [] }

-- Over any chunks that a new connection receives: the password is written first and once, the
-- subscription once after it, and nothing else is; the subscription is written only after a reply
-- that begins with `+OK`, and events are handled only after a second one; until then no event is
-- handled, no reconciliation is asked for, and nothing is queued.
pub connection_talks_in_order :
    {E : Type 0} (o : Options E) (q : Queue EslFrame E) (chunks : List Text)
    → let c = on_chunks o chunks (connected q) in
      Obeys q c.stage c.effects c.queue
      × (replies_needed c.stage ≤ count_ok (frames_heard o chunks (connected q)))
unfolding Follows
connection_talks_in_order o q chunks = (
  on_chunks-Follows o q chunks (connected q) (refl, refl, refl),
  on_chunks-replies o chunks (connected q) refl,
)
