-- ===== src/Esl/Settled.antt =====
-- What an exchange of apps/api/src/esl.ts has written, and how its promise is settled.
use outbound_freeswitch_dial.Prelude.{
  ℕ, zero, suc, ltb, byte_length, ap₂, ◌≡◌, refl, sym, ap, ◌∙◌, subst, Bool, true, false, not, ◌&&◌,
  Option, none, some, List, [], ◌∷◌, ◌++◌, Text, codes, includes, if-cases, is_some, arith,
  Bool-cases, Option-cases, inl, inr,
}
use mathlib.Core.Option.{some-injective}
use outbound_freeswitch_dial.Esl.{Headers, cut, parse_headers}
use outbound_freeswitch_dial.Esl.Frames.{EslCommandResponse, parse_esl_response, response_of}
use outbound_freeswitch_dial.Esl.Command.{
  CommandStage, auth, connect, command, Settlement, resolved, rejected, Exchange, SocketEvent,
  data_arrives, times_out, errs, Credentials, write, is_auth, auth_line, command_line, is_error,
  error_message, settle_response, send_auth, advance, on_data, hear, unless_settled, exchange_step,
  exchange, opened,
}

-- What has been written at a stage.
abbrev auth_written : Credentials → Bool → List Text
auth_written k true = auth_line k ∷ []
auth_written k false = []

abbrev pub written_by : Credentials → CommandStage → Bool → List Text
written_by k auth sent = auth_written k sent
written_by k connect sent = auth_written k sent ++ codes "connect\n\n" ∷ []
written_by k command sent = (auth_written k sent ++ codes "connect\n\n" ∷ []) ++ command_line k ∷ []

-- A promise is resolved only with a whole reply to the command, which is no error.
abbrev pub IsEarned : CommandStage → Option Settlement → Type 0
IsEarned s none = Unit
IsEarned s (some (rejected m)) = Unit
IsEarned s (some (resolved r)) =
    (s ≡ command) × (is_error r ≡ false) × (parse_esl_response r.raw ≡ some r)

abbrev pub InOrder : Credentials → Exchange → Type 0
InOrder k x = (x.written ≡ written_by k x.stage x.auth_sent) × IsEarned x.stage x.settled

response_of-raw :
    (raw : Text) (h : Headers) (n : ℕ) (after : Text) (r : EslCommandResponse)
    → response_of raw h n after ≡ some r
    → r.raw ≡ raw
response_of-raw raw h zero after r e = sym (ap (λ q. q.raw) (some-injective _ r e))
response_of-raw raw h (suc n) after r e = elim (Bool-cases (ltb (byte_length after) (suc n))) [
  | inl short ↦ absurd (ground arith)
  | inr there ↦ sym (ap (λ q. q.raw) (some-injective _ r (rw there at e)))
]

parse_esl_response-raw :
    (raw : Text) (r : EslCommandResponse) → parse_esl_response raw ≡ some r → r.raw ≡ raw
unfolding parse_esl_response
parse_esl_response-raw raw r e = elim (Option-cases (cut (codes "\n\n") raw)) [
  | inl missing ↦ absurd (ground arith)
  | inr ((h, after), found) ↦ response_of-raw raw (parse_headers h) _ after r (rw found at e)
]

stage_is_auth : (s : CommandStage) → is_auth s ≡ true → s ≡ auth
stage_is_auth auth e = refl
stage_is_auth connect e = absurd (ground arith)
stage_is_auth command e = absurd (ground arith)

and-parts : (a b c : Bool) → (a && b && c) ≡ true → (a ≡ true) × (b ≡ true)
and-parts true true c e = (refl, refl)
and-parts true false c e = absurd (ground arith)
and-parts false b c e = absurd (ground arith)

not_sent : (b : Bool) → not b ≡ true → b ≡ false
not_sent true e = sym e
not_sent false e = refl

module _ (k : Credentials) where
  Open : Exchange → Type 0
  Open x = (x.written ≡ written_by k x.stage x.auth_sent) × (x.settled ≡ none)

  unsettled-InOrder : (x : Exchange) → Open x → InOrder k x
  unfolding Open
  unsettled-InOrder x (w, s) = (w, subst (IsEarned x.stage) (sym s) tt)

  send_auth-Open : (x : Exchange) → Open x → Open (send_auth k x)
  unfolding Open send_auth
  send_auth-Open x (w, s) =
      let asked = includes (codes "Content-Type: auth/request") x.buffer in
      if-cases Open (is_auth x.stage && not x.auth_sent && asked)
        (write (auth_line k) (record x { auth_sent = true })) x
        (λ h.
          let (at_auth, unsent) = and-parts (is_auth x.stage) (not x.auth_sent) asked h in
          let e = stage_is_auth x.stage at_auth in
          (
            ap (λ l. l ++ auth_line k ∷ []) (w ∙ ap₂ (written_by k) e (not_sent x.auth_sent unsent))
                ∙ ap (λ t. written_by k t true) (sym e),
            s,
          ))
        (λ other. (w, s))

  settle_response-InOrder :
      (r : EslCommandResponse) (x : Exchange)
      → x.stage ≡ command
      → Open x
      → parse_esl_response x.buffer ≡ some r
      → InOrder k (settle_response r x)
  unfolding Open settle_response
  settle_response-InOrder r x e (w, s) found =
      if-cases (InOrder k) (is_error r) (record x { settled = some (rejected (error_message r)) })
        (record x { settled = some (resolved r) }) (λ bad. (w, tt))
        (λ good.
          (w, (e, good, ap parse_esl_response (parse_esl_response-raw x.buffer r found) ∙ found)))

  advance-InOrder :
      (s : CommandStage) (x : Exchange) → x.stage ≡ s → Open x → InOrder k (advance s k x)
  unfolding Open advance
  advance-InOrder auth x e (w, s) =
      if-cases (InOrder k) (includes (codes "+OK accepted") x.buffer)
        (write (codes "connect\n\n") (record x { stage = connect; buffer = [] })) x
        (λ accepted. (
          ap (λ l. l ++ codes "connect\n\n" ∷ []) (w ∙ ap (λ t. written_by k t x.auth_sent) e),
          subst (IsEarned connect) (sym s) tt,
        ))
        (λ other. unsettled-InOrder x (w, s))
  advance-InOrder connect x e (w, s) =
      if-cases (InOrder k) (is_some (parse_esl_response x.buffer))
        (write (command_line k) (record x { stage = command; buffer = [] })) x
        (λ replied. (
          ap (λ l. l ++ command_line k ∷ []) (w ∙ ap (λ t. written_by k t x.auth_sent) e),
          subst (IsEarned command) (sym s) tt,
        ))
        (λ other. unsettled-InOrder x (w, s))
  advance-InOrder command x e (w, s) = elim (Option-cases (parse_esl_response x.buffer)) [
    | inl partly ↦ rw partly (unsettled-InOrder x (w, s))
    | inr (r, found) ↦ rw found (settle_response-InOrder r x e (w, s) found)
  ]

  hear-InOrder : (e : SocketEvent) (x : Exchange) → Open x → InOrder k (hear k e x)
  unfolding Open on_data
  hear-InOrder (data_arrives chunk) x h =
      let y = send_auth k (record x { buffer = x.buffer ++ chunk }) in
      advance-InOrder y.stage y refl (send_auth-Open (record x { buffer = x.buffer ++ chunk }) h)
  hear-InOrder times_out x (w, s) = (w, tt)
  hear-InOrder (errs message) x (w, s) = (w, tt)

  exchange_step-InOrder :
      (e : SocketEvent) (x : Exchange) → InOrder k x → InOrder k (exchange_step k e x)
  unfolding exchange_step Open
  exchange_step-InOrder e x h = elim (Option-cases x.settled) [
    | inl open_still ↦
        subst (λ o. InOrder k (unless_settled o x (hear k e x))) (sym open_still)
          (hear-InOrder e x (h.0, open_still))
    | inr (s, done) ↦ subst (λ o. InOrder k (unless_settled o x (hear k e x))) (sym done) h
  ]

  exchange-InOrder :
      (es : List SocketEvent) (x : Exchange) → InOrder k x → InOrder k (exchange k es x)
  unfolding exchange
  exchange-InOrder [] x h = h
  exchange-InOrder (e ∷ es) x h =
      exchange-InOrder es (exchange_step k e x) (exchange_step-InOrder e x h)

  settled_stays :
      (es : List SocketEvent) (x : Exchange) (s : Settlement)
      → x.settled ≡ some s
      → exchange k es x ≡ x
  unfolding exchange exchange_step
  settled_stays [] x s e = refl
  settled_stays (v ∷ es) x s e =
      ap (λ o. exchange k es (unless_settled o x (hear k v x))) e ∙ settled_stays es x s e

  exchange-append :
      (es more : List SocketEvent) (x : Exchange)
      → exchange k (es ++ more) x ≡ exchange k more (exchange k es x)
  unfolding exchange
  exchange-append [] more x = refl
  exchange-append (e ∷ es) more x = exchange-append es more (exchange_step k e x)

-- Over any events of the socket: the password, `connect` and the command are written in this order,
-- each once at most; the promise is resolved only after the command is written, with a whole reply
-- that is no error; and once it is settled, no later event changes anything.
pub exchange_settles_at_most_once :
    (k : Credentials) (es more : List SocketEvent)
    → let x = exchange k es opened in
      InOrder k x × ((s : Settlement) → x.settled ≡ some s → exchange k (es ++ more) opened ≡ x)
exchange_settles_at_most_once k es more = (
  exchange-InOrder k es opened (refl, tt),
  λ s e. exchange-append k es more opened ∙ settled_stays k more (exchange k es opened) s e,
)
