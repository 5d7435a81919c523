-- ===== src/Esl/Originate.antt =====
-- apps/api/src/esl.ts: the commands that originate a call.
use outbound_freeswitch_dial.Prelude.{
  ℕ, Bool, true, false, not, ◌&&◌, ◌||◌, Option, none, some, List, [], ◌∷◌, ◌++◌, Text, codes, trim,
  join, leb, ◌==◌, filter, if◌then◌else◌,
}

pub data TrunkMode : Type 0 where
  ip_auth : TrunkMode
  registration : TrunkMode

-- A jitter buffer of so many milliseconds, or off.
pub data JitterBuffer : Type 0 where
  off : JitterBuffer
  msec : Text → JitterBuffer

pub record TrunkConfig : Type 0 where
  pub esl_enabled : Bool
  pub mode : TrunkMode
  pub proxy : Text
  pub username : Text
  pub trunk_caller_id : Text
  pub domain : Text
  pub rewrite_timestamps : Bool
  pub jitter_buffer : JitterBuffer

-- `callerId?: string | null`.
pub data CallerId : Type 0 where
  unset : CallerId
  withheld : CallerId
  given : Text → CallerId

pub record BridgeInput : Type 0 where
  pub agent_leg_uuid : Text
  pub caller_id : CallerId
  pub call_id : Text
  pub customer_leg_uuid : Text
  pub destination_number : Text
  pub sip_username : Text

pub data SupervisorMode : Type 0 where
  listen : SupervisorMode
  whisper : SupervisorMode
  join_call : SupervisorMode

pub record EavesdropInput : Type 0 where
  pub supervised_call_id : Text
  pub supervisor_mode : SupervisorMode
  pub session_id : Text
  pub supervisor_username : Text
  pub supervisor_leg_uuid : Text
  pub target_agent_leg_uuid : Text

abbrev pub is_filled : Text → Bool
is_filled [] = false
is_filled (c ∷ t) = true

unfoldable pub can_originate_customer_leg : TrunkConfig → Bool
can_originate_customer_leg k = if not k.esl_enabled then false else elim k.mode [
  | ip_auth ↦ is_filled k.proxy
  | registration ↦ is_filled k.proxy && is_filled k.username
]

abbrev pub is_digit : ℕ → Bool
is_digit c = leb b'0' c && leb c b'9'

unfoldable pub normalize_destination : Text → Text
unfolding trim
normalize_destination value = filter is_digit (trim value)

abbrev pub dial_string_for : TrunkMode → TrunkConfig → Text → Option Text
dial_string_for ip_auth k digits =
    if not (is_filled k.proxy)
    then none
    else some (codes "sofia/external/" ++ digits ++ codes "@" ++ k.proxy)
dial_string_for registration k digits =
    if not (is_filled k.proxy) || not (is_filled k.username)
    then none
    else some (codes "sofia/gateway/sip-trunk/" ++ digits)

-- `none` where it throws.
unfoldable pub build_customer_dial_string : TrunkConfig → Text → Option Text
unfolding normalize_destination
build_customer_dial_string k number = dial_string_for k.mode k (normalize_destination number)

-- `/[{},]/`.
abbrev pub is_separator : ℕ → Bool
is_separator c = c == b'{' || c == b'}' || c == b','

unfoldable pub escape_originate_variable : Text → Text
escape_originate_variable value = filter (λ c. not (is_separator c)) value

-- `values.filter(Boolean).join(",")`; a `null` is an empty text, which is dropped as well.
unfoldable pub build_originate_variables : List Text → Text
unfolding join
build_originate_variables values = join b',' (filter is_filled values)

abbrev pub effective_caller_id : TrunkConfig → CallerId → Text
effective_caller_id k unset = k.trunk_caller_id
effective_caller_id k withheld = []
effective_caller_id k (given t) = t

unfoldable pub caller_id_variable : Text → Text
unfolding escape_originate_variable
caller_id_variable [] = []
caller_id_variable (c ∷ t) =
    codes "origination_caller_id_number=" ++ escape_originate_variable (c ∷ t)

abbrev timestamp_variables : Bool → List Text
timestamp_variables true =
    codes "rtp_rewrite_timestamps=true"
    ∷ codes "rtp_autoflush_during_bridge=true"
    ∷ codes "rtp_notimer_during_bridge=false"
    ∷ []
timestamp_variables false = []

abbrev pub jitter_variables : JitterBuffer → List Text
jitter_variables off = []
jitter_variables (msec n) =
    (codes "jitterbuffer_msec=" ++ n)
    ∷ codes "rtp_jitter_buffer_during_bridge=true"
    ∷ codes "rtp_jitter_buffer_plc=true"
    ∷ codes "rtp_media_autofix_timing=true"
    ∷ codes "rtp_autoflush_during_bridge=false"
    ∷ []

unfoldable pub agent_variables : TrunkConfig → BridgeInput → List Text
agent_variables k i =
    (codes "origination_uuid=" ++ i.agent_leg_uuid)
    ∷ (codes "outbound_dialer_call_id=" ++ i.call_id)
    ∷ codes "outbound_dialer_leg_type=agent"
    ∷ (codes "sip_h_X-Outbound-Dialer-Call-ID=" ++ i.call_id)
    ∷ codes "originate_timeout=30"
    ∷ codes "bridge_early_media=true"
    ∷ codes "hangup_after_bridge=true"
    ∷ codes "continue_on_fail=false"
    ∷ timestamp_variables k.rewrite_timestamps

abbrev pub fixed_customer_variables : TrunkConfig → BridgeInput → List Text
fixed_customer_variables k i =
    (codes "origination_uuid=" ++ i.customer_leg_uuid)
    ∷ (codes "outbound_dialer_call_id=" ++ i.call_id)
    ∷ codes "outbound_dialer_leg_type=customer"
    ∷ codes "absolute_codec_string=^^:PCMU:PCMA:G729"
    ∷ codes "ignore_early_media=false"
    ∷ codes "media_bug_answer_req=false"
    ∷ codes "originate_timeout=45"
    ∷ jitter_variables k.jitter_buffer

unfoldable pub customer_variables : TrunkConfig → BridgeInput → List Text
unfolding caller_id_variable
customer_variables k i =
    fixed_customer_variables k i ++ caller_id_variable (effective_caller_id k i.caller_id) ∷ []

abbrev pub bridge_command : TrunkConfig → BridgeInput → Text → Text
bridge_command k i dial =
    codes "originate {"
    ++ build_originate_variables (agent_variables k i)
    ++ codes "}user/"
    ++ i.sip_username
    ++ codes "@"
    ++ k.domain
    ++ codes " &bridge({"
    ++ build_originate_variables (customer_variables k i)
    ++ codes "}"
    ++ dial
    ++ codes ")"

abbrev pub over_dial : TrunkConfig → BridgeInput → Option Text → Option Text
over_dial k i none = none
over_dial k i (some dial) = some (bridge_command k i dial)

unfoldable pub build_agent_bridge_originate_command : TrunkConfig → BridgeInput → Option Text
unfolding build_customer_dial_string build_originate_variables agent_variables customer_variables
build_agent_bridge_originate_command k i =
    over_dial k i (build_customer_dial_string k i.destination_number)

abbrev mode_name : SupervisorMode → Text
mode_name listen = codes "listen"
mode_name whisper = codes "whisper"
mode_name join_call = codes "join"

abbrev whispers_to_agent : SupervisorMode → Text
whispers_to_agent join_call = codes "eavesdrop_whisper_aleg=true"
whispers_to_agent _ = []

abbrev whispers_to_customer : SupervisorMode → Text
whispers_to_customer listen = []
whispers_to_customer _ = codes "eavesdrop_whisper_bleg=true"

unfoldable pub supervisor_variables : EavesdropInput → List Text
supervisor_variables i =
    (codes "origination_uuid=" ++ i.supervisor_leg_uuid)
    ∷ (codes "outbound_dialer_supervisor_session_id=" ++ i.session_id)
    ∷ (codes "outbound_dialer_supervisor_call_id=" ++ i.supervised_call_id)
    ∷ (codes "outbound_dialer_supervisor_mode=" ++ mode_name i.supervisor_mode)
    ∷ (codes "sip_h_X-Outbound-Dialer-Supervisor-Session-ID=" ++ i.session_id)
    ∷ (codes "sip_h_X-Outbound-Dialer-Supervisor-Mode=" ++ mode_name i.supervisor_mode)
    ∷ codes "outbound_dialer_leg_type=supervisor"
    ∷ codes "originate_timeout=15"
    ∷ codes "hangup_after_bridge=true"
    ∷ codes "eavesdrop_enable_dtmf=false"
    ∷ codes "eavesdrop_bridge_aleg=true"
    ∷ codes "eavesdrop_bridge_bleg=true"
    ∷ whispers_to_agent i.supervisor_mode
    ∷ whispers_to_customer i.supervisor_mode
    ∷ []

unfoldable pub build_supervisor_eavesdrop_originate_command : TrunkConfig → EavesdropInput → Text
unfolding build_originate_variables supervisor_variables
build_supervisor_eavesdrop_originate_command k i =
    codes "originate {"
    ++ build_originate_variables (supervisor_variables i)
    ++ codes "}user/"
    ++ i.supervisor_username
    ++ codes "@"
    ++ k.domain
    ++ codes " &eavesdrop("
    ++ i.target_agent_leg_uuid
    ++ codes ")"
