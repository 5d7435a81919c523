-- ===== src/Esl/Replies.antt =====
-- What FreeSWITCH has to have replied before a connection of apps/api/src/esl-events.ts goes on.
use outbound_freeswitch_dial.Prelude.{
  ℕ, ◌+◌, ◌≤◌, ◌≡◌, refl, Bool, true, false, ◌&&◌, Option, none, some, List, [], ◌∷◌, ◌++◌, Text,
  codes, text_eq, starts_with, take, arith, ==_iff, if◌then◌else◌, if-cases,
}
use outbound_freeswitch_dial.Queue.{Queue, Options, enqueue}
use outbound_freeswitch_dial.Esl.{EslFrame, header}
use outbound_freeswitch_dial.Esl.Frames.{extract_frames}
use outbound_freeswitch_dial.Esl.Listener.{
  Stage, auth_request, auth_reply, subscribe_reply, events, wrote_auth, wrote_subscription,
  destroyed, set_connected, requested_reconciliation, fallback_handles, Connection, on_auth_request,
  on_auth_reply, on_subscribe_reply, on_event, on_frame, at_stage, on_frames, on_data, on_chunks,
  on_extraction, does, header_is, is_accepted, unless_broken, overflow_if_refused,
}

-- The reply of a frame begins with `+OK`.
abbrev begins_ok : Option Text → Bool
begins_ok none = false
begins_ok (some t) = text_eq (take 3 t) (codes "+OK")

abbrev pub says_ok : EslFrame → Bool
says_ok f = begins_ok (header (codes "reply-text") f.headers)

abbrev pub count_ok : List EslFrame → ℕ
count_ok [] = 0
count_ok (f ∷ fs) = (if says_ok f then 1 else 0) + count_ok fs

count_ok-append : (fs gs : List EslFrame) → count_ok (fs ++ gs) ≡ count_ok fs + count_ok gs
count_ok-append [] gs = omega arith
count_ok-append (f ∷ fs) gs = omega (arith, count_ok-append fs gs)

-- How often FreeSWITCH has to have said `+OK` for a stage: for the password, and the subscription.
abbrev pub replies_needed : Stage → ℕ
replies_needed auth_request = 0
replies_needed auth_reply = 0
replies_needed subscribe_reply = 1
replies_needed events = 2

begins-ok :
    (t : Text) → starts_with (codes "+OK") t ≡ true → text_eq (take 3 t) (codes "+OK") ≡ true
unfolding starts_with text_eq
begins-ok [] h = ground arith
begins-ok (a ∷ []) h = ground arith
begins-ok (a ∷ b ∷ []) h = ground arith
begins-ok (a ∷ b ∷ c ∷ t) h = ground (arith, ==_iff a 43, ==_iff b 79, ==_iff c 75)

accepted-ok : (f : EslFrame) → is_accepted f ≡ true → says_ok f ≡ true
unfolding is_accepted
accepted-ok f h = by_reply (header (codes "reply-text") f.headers) h
  where
    by_reply :
        (o : Option Text)
        → elim o as (λ x. Bool) [ none ↦ false | some w ↦ starts_with (codes "+OK") w ] ≡ true
        → begins_ok o ≡ true
    by_reply none h = cc
    by_reply (some w) h = begins-ok w h

abbrev pub frames_of : Option (List EslFrame × Text) → List EslFrame
frames_of none = []
frames_of (some (fs, rest)) = fs

-- The frames that a connection takes from its chunks.
unfoldable pub frames_heard : {E : Type 0} → Options E → List Text → Connection E → List EslFrame
frames_heard o [] c = []
frames_heard o (chunk ∷ chunks) c =
    frames_of (extract_frames (c.buffer ++ chunk)) ++ frames_heard o chunks (on_data o chunk c)

module _ {E : Type 0} (o : Options E) where
  abbrev Needs : ℕ → Connection E → Type 0
  Needs n c = replies_needed c.stage ≤ n

  on_frame-replies :
      (f : EslFrame) (c : Connection E)
      → Needs (replies_needed c.stage + count_ok (f ∷ [])) (on_frame o f c).0
  unfolding on_frame at_stage on_auth_request on_auth_reply on_subscribe_reply on_event
  on_frame-replies f c = by_stage c.stage refl
    where
      refused :
          (r : Queue EslFrame E × Bool)
          → (overflow_if_refused r (does (fallback_handles f ∷ []) c)).0.stage ≡ c.stage
      refused (r, true) = refl
      refused (r, false) = refl

      by_stage :
          (s : Stage)
          → c.stage ≡ s
          → Needs (replies_needed s + count_ok (f ∷ [])) (at_stage s o f c).0
      by_stage auth_request e =
          if-cases (Needs (0 + count_ok (f ∷ [])))
            (header_is (codes "content-type") (codes "auth/request") f)
            (does (wrote_auth ∷ []) (record c { stage = auth_reply })) c (λ h. omega arith)
            (λ h. rw e (omega arith))
      by_stage auth_reply e =
          if-cases (Needs (0 + count_ok (f ∷ []))) (is_accepted f)
            (does (wrote_subscription ∷ []) (record c { stage = subscribe_reply }))
            (does (destroyed ∷ []) c) (λ h. rw (accepted-ok f h) (omega arith))
            (λ h. rw e (omega arith))
      by_stage subscribe_reply e =
          if-cases (Needs (1 + count_ok (f ∷ [])))
            (header_is (codes "content-type") (codes "command/reply") f && is_accepted f)
            (does (set_connected true ∷ requested_reconciliation ∷ [])
              (record c { stage = events }))
            (does (destroyed ∷ []) c) (λ h. rw (accepted-ok f (ground arith)) (omega arith))
            (λ h. rw e (omega arith))
      by_stage events e = rw (refused (enqueue o f c.queue), e) (omega arith)

  on_frames-replies :
      (fs : List EslFrame) (c : Connection E)
      → Needs (replies_needed c.stage + count_ok fs) (on_frames o fs c)
  unfolding on_frames
  on_frames-replies [] c = omega arith
  on_frames-replies (f ∷ fs) c =
      goes_on (on_frame o f c) (on_frame-replies f c) (on_frames-replies fs)
    where
      goes_on :
          (r : Connection E × Bool)
          → Needs (replies_needed c.stage + count_ok (f ∷ [])) r.0
          → ((d : Connection E) → Needs (replies_needed d.stage + count_ok fs) (on_frames o fs d))
          → Needs (replies_needed c.stage + count_ok (f ∷ fs)) (unless_broken r (on_frames o fs))
      goes_on (d, true) k later = omega (arith, k)
      goes_on (d, false) k later = omega (arith, k, later d)

  on_data-replies :
      (chunk : Text) (c : Connection E)
      → Needs
          (replies_needed c.stage + count_ok (frames_of (extract_frames (c.buffer ++ chunk))))
          (on_data o chunk c)
  unfolding on_data
  on_data-replies chunk c = extracted (extract_frames (c.buffer ++ chunk))
    where
      extracted :
          (x : Option (List EslFrame × Text))
          → Needs (replies_needed c.stage + count_ok (frames_of x)) (on_extraction o x c)
      extracted none = omega arith
      extracted (some (fs, rest)) = on_frames-replies fs (record c { buffer = rest })

  on_chunks-all :
      (chunks : List Text) (c : Connection E)
      → Needs (replies_needed c.stage + count_ok (frames_heard o chunks c)) (on_chunks o chunks c)
  unfolding on_chunks frames_heard
  on_chunks-all [] c = omega arith
  on_chunks-all (chunk ∷ chunks) c = omega (
    arith,
    on_data-replies chunk c,
    on_chunks-all chunks (on_data o chunk c),
    count_ok-append (frames_of (extract_frames (c.buffer ++ chunk)))
        (frames_heard o chunks (on_data o chunk c)),
  )

  -- A connection that starts anew.
  pub on_chunks-replies :
      (chunks : List Text) (c : Connection E)
      → replies_needed c.stage ≡ 0
      → replies_needed (on_chunks o chunks c).stage ≤ count_ok (frames_heard o chunks c)
  on_chunks-replies chunks c e = omega (arith, e, on_chunks-all chunks c)
