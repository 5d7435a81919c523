-- ===== src/Esl/Command.antt =====
-- apps/api/src/esl.ts: `sendFreeSwitchCommand`, one command over a socket of its own, as the steps
-- that the socket's events make.
use outbound_freeswitch_dial.Prelude.{
  Bool, true, false, not, ◌&&◌, ◌||◌, Option, none, some, List, [], ◌∷◌, ◌++◌, Text, codes,
  starts_with, includes, if◌then◌else◌, is_some,
}
use outbound_freeswitch_dial.Esl.{header}
use outbound_freeswitch_dial.Esl.Frames.{EslCommandResponse, parse_esl_response}

pub data CommandStage : Type 0 where
  auth : CommandStage
  connect : CommandStage
  command : CommandStage

pub data Settlement : Type 0 where
  resolved : EslCommandResponse → Settlement
  rejected : Text → Settlement

pub record Exchange : Type 0 where
  pub stage : CommandStage
  pub buffer : Text
  pub auth_sent : Bool
  pub written : List Text
  pub settled : Option Settlement

pub data SocketEvent : Type 0 where
  data_arrives : Text → SocketEvent
  times_out : SocketEvent
  errs : Text → SocketEvent

pub record Credentials : Type 0 where
  pub password : Text
  pub command_text : Text

abbrev pub write : Text → Exchange → Exchange
write t x = record x { written = x.written ++ t ∷ [] }

abbrev pub is_auth : CommandStage → Bool
is_auth auth = true
is_auth _ = false

unfoldable pub auth_line : Credentials → Text
auth_line k = codes "auth " ++ k.password ++ codes "\n\n"

unfoldable pub command_line : Credentials → Text
command_line k = k.command_text ++ codes "\n\n"

abbrev reply_starts : Text → Option Text → Bool
reply_starts p none = false
reply_starts p (some v) = starts_with p v

-- `parsed.body.startsWith("-ERR") || parsed.headers["reply-text"]?.startsWith("-ERR")`.
unfoldable pub is_error : EslCommandResponse → Bool
unfolding starts_with header
is_error r =
    starts_with (codes "-ERR") r.body
    || reply_starts (codes "-ERR") (header (codes "reply-text") r.headers)

abbrev first_filled : Text → Option Text → Text → Text
first_filled [] none last = last
first_filled [] (some []) last = last
first_filled [] (some (c ∷ t)) last = c ∷ t
first_filled (c ∷ t) o last = c ∷ t

unfoldable pub error_message : EslCommandResponse → Text
unfolding header
error_message r =
    first_filled r.body (header (codes "reply-text") r.headers) (codes "FreeSWITCH command failed")

unfoldable pub settle_response : EslCommandResponse → Exchange → Exchange
unfolding is_error error_message
settle_response r x =
    if is_error r
    then record x { settled = some (rejected (error_message r)) }
    else record x { settled = some (resolved r) }

abbrev pub settle_if_whole : Option EslCommandResponse → Exchange → Exchange
settle_if_whole none x = x
settle_if_whole (some r) x = settle_response r x

-- The first `if` of the handler.
unfoldable pub send_auth : Credentials → Exchange → Exchange
unfolding includes auth_line
send_auth k x =
    if is_auth x.stage && not x.auth_sent && includes (codes "Content-Type: auth/request") x.buffer
    then write (auth_line k) (record x { auth_sent = true })
    else x

-- The branches after it.
unfoldable pub advance : CommandStage → Credentials → Exchange → Exchange
unfolding includes parse_esl_response command_line settle_response
advance auth k x =
    if includes (codes "+OK accepted") x.buffer
    then write (codes "connect\n\n") (record x { stage = connect; buffer = [] })
    else x
advance connect k x =
    if is_some (parse_esl_response x.buffer)
    then write (command_line k) (record x { stage = command; buffer = [] })
    else x
advance command k x = settle_if_whole (parse_esl_response x.buffer) x

unfoldable pub on_data : Credentials → Text → Exchange → Exchange
unfolding send_auth advance
on_data k chunk x =
    let y = send_auth k (record x { buffer = x.buffer ++ chunk }) in advance y.stage k y

-- `cleanup` takes the handlers off, so that a settled exchange hears nothing.
abbrev pub unless_settled : Option Settlement → Exchange → Exchange → Exchange
unless_settled none x y = y
unless_settled (some s) x y = x

abbrev pub hear : Credentials → SocketEvent → Exchange → Exchange
hear k (data_arrives chunk) x = on_data k chunk x
hear k times_out x = record x { settled = some (rejected (codes "ESL command timed out")) }
hear k (errs message) x = record x { settled = some (rejected message) }

unfoldable pub exchange_step : Credentials → SocketEvent → Exchange → Exchange
unfolding on_data
exchange_step k e x = unless_settled x.settled x (hear k e x)

unfoldable pub exchange : Credentials → List SocketEvent → Exchange → Exchange
unfolding exchange_step
exchange k [] x = x
exchange k (e ∷ es) x = exchange k es (exchange_step k e x)

abbrev pub opened : Exchange
opened = record { stage = auth; buffer = []; auth_sent = false; written = []; settled = none }
