-- ===== src/Esl/Examples.antt =====
-- Streams, connections and commands at concrete inputs.
use outbound_freeswitch_dial.Prelude.{
  ℕ, ◌+◌, ◌-◌, ◌*◌, ◌≤◌, ◌≡◌, refl, true, false, none, some, List, [], ◌∷◌, ◌++◌, Text, codes, map,
  length, take, drop, ltb, byte_length, bytes_from, arith, All,
}
use outbound_freeswitch_dial.Queue.{Queue, Options}
use outbound_freeswitch_dial.Queue.Order.{items}
use outbound_freeswitch_dial.Esl.{header, EslFrame, cut, parse_headers, content_length}
use outbound_freeswitch_dial.Esl.Frames.{is_plain_event, next_frame, extract_frames}
use outbound_freeswitch_dial.Esl.Buffers.{IsAscii, all-IsAscii}
use outbound_freeswitch_dial.Esl.Streams.{extraction_always_ends}
use outbound_freeswitch_dial.Esl.Chunks.{feed, concat, chunks_give_the_same_frames}
use outbound_freeswitch_dial.Esl.Overrun.{body_takes_what_follows}
use outbound_freeswitch_dial.Esl.Listener.{
  Connection, events, fallback_handles, on_frames, on_chunks,
}
use outbound_freeswitch_dial.Esl.Delivery.{overflow, subscribed_connection_queues_in_order}
use outbound_freeswitch_dial.Esl.Replies.{replies_needed, count_ok, frames_heard}
use outbound_freeswitch_dial.Esl.Protocol.{Obeys, connected, connection_talks_in_order}
use outbound_freeswitch_dial.Esl.Command.{
  Credentials, SocketEvent, data_arrives, times_out, Settlement, resolved, exchange, opened,
}
use outbound_freeswitch_dial.Esl.Settled.{InOrder, exchange_settles_at_most_once}
use outbound_freeswitch_dial.Esl.Originate.{
  TrunkConfig, ip_auth, off, BridgeInput, unset, build_agent_bridge_originate_command,
}
use outbound_freeswitch_dial.Esl.Injection.{separators_of, dialing, dialled_texts_add_no_variable}

abbrev auth_request_text : Text
auth_request_text = codes "Content-Type: auth/request\n\n"

abbrev accepted_text : Text
accepted_text = codes "Content-Type: command/reply\nReply-Text: +OK accepted\n\n"

abbrev heartbeat_text : Text
heartbeat_text = codes "Content-Length: 5\n\nhello"

-- A frame with a body, and a part of the next one.
heartbeat_frame :
    extract_frames (heartbeat_text ++ codes "Conte")
    ≡ some (
      (record { headers = (codes "content-length", codes "5") ∷ []; body = codes "hello" }) ∷ [],
      codes "Conte",
    )
unfolding extract_frames bytes_from
heartbeat_frame = refl

extraction_always_ends_example :
    (frames : List EslFrame) × (rest : Text) × (extract_frames heartbeat_text ≡ some (frames, rest))
    × (next_frame rest ≡ none)
    × (length rest + 2 * length frames ≤ length heartbeat_text)
extraction_always_ends_example = extraction_always_ends heartbeat_text

abbrev cut_stream : List Text
cut_stream = codes "Content-Le" ∷ codes "ngth: 1\n" ∷ codes "\nx" ∷ []

nothing_buffered : next_frame [] ≡ none
unfolding next_frame
nothing_buffered = refl

chunks_give_the_same_frames_example : feed [] cut_stream ≡ extract_frames (concat cut_stream)
chunks_give_the_same_frames_example =
    chunks_give_the_same_frames [] cut_stream tt each_is_ascii nothing_buffered
  where
    each_is_ascii : All IsAscii cut_stream
    each_is_ascii = (
      all-IsAscii (codes "Content-Le") refl,
      (all-IsAscii (codes "ngth: 1\n") refl, (all-IsAscii (codes "\nx") refl, tt)),
    )

-- `é` has two bytes and one unit.
abbrev accented : Text
accented = codes "Content-Length: 2\n\n" ++ 0xE9 ∷ codes "Content"

accented_head :
    cut (codes "\n\n") accented ≡ some (codes "Content-Length: 2", 0xE9 ∷ codes "Content")
unfolding cut
accented_head = refl

accented_length :
    content_length (parse_headers (codes "Content-Length: 2")) ≡ byte_length (0xE9 ∷ [])
unfolding content_length parse_headers bytes_from
accented_length = refl

accented_plain :
    is_plain_event (header (codes "content-type") (parse_headers (codes "Content-Length: 2")))
    ≡ false
unfolding header parse_headers
accented_plain = refl

accented_there : 1 ≤ byte_length (0xE9 ∷ [])
unfolding bytes_from
accented_there = omega arith

body_takes_what_follows_example :
    next_frame accented
    ≡ some (
      record {
        headers = parse_headers (codes "Content-Length: 2");
        body = (0xE9 ∷ []) ++ take (byte_length (0xE9 ∷ []) - 1) (codes "Content");
      },
      drop (byte_length (0xE9 ∷ []) - 1) (codes "Content"),
    )
body_takes_what_follows_example =
    body_takes_what_follows accented (codes "Content-Length: 2") (0xE9 ∷ []) (codes "Content")
      accented_head accented_length accented_there accented_plain

abbrev small_queue : Options ℕ
small_queue = record {
  initial_retry_ms = 250;
  max_retry_ms = 1000;
  max_size = 2;
  is_transient = λ x. true;
}

abbrev empty_queue : Queue EslFrame ℕ
empty_queue = record {
  entries = [];
  waiters = [];
  processing = false;
  in_flight = none;
  timer = false;
  stopped = false;
  next_key = 0;
  effects = [];
}

abbrev subscribed : Connection ℕ
subscribed = record { buffer = []; stage = events; queue = empty_queue; effects = [] }

abbrev event : Text → EslFrame
event name = record { headers = (codes "event-name", name) ∷ []; body = [] }

abbrev three_events : List EslFrame
three_events = event (codes "A") ∷ event (codes "B") ∷ event (codes "C") ∷ []

-- The third event finds no room.
subscribed_connection_queues_in_order_example :
    (items (on_frames small_queue three_events subscribed).queue.entries ≡ take 2 three_events)
    × ((on_frames small_queue three_events subscribed).effects
        ≡ map fallback_handles (take 3 three_events) ++ overflow (ltb 2 (length three_events)))
subscribed_connection_queues_in_order_example =
    subscribed_connection_queues_in_order 2 small_queue three_events subscribed refl refl refl

abbrev handshake : List Text
handshake = auth_request_text ∷ accepted_text ∷ accepted_text ∷ heartbeat_text ∷ []

connection_talks_in_order_example :
    let c = on_chunks small_queue handshake (connected empty_queue) in
    Obeys empty_queue c.stage c.effects c.queue
    × (replies_needed c.stage
        ≤ count_ok (frames_heard small_queue handshake (connected empty_queue)))
connection_talks_in_order_example = connection_talks_in_order small_queue empty_queue handshake

handshake_subscribes : (on_chunks small_queue handshake (connected empty_queue)).stage ≡ events
unfolding on_chunks bytes_from
handshake_subscribes = refl

abbrev status : Credentials
status = record { password = codes "ClueCon"; command_text = codes "api status" }

abbrev status_events : List SocketEvent
status_events =
    data_arrives auth_request_text
    ∷ data_arrives accepted_text
    ∷ data_arrives accepted_text
    ∷ data_arrives (codes "Content-Length: 2\n\nUP")
    ∷ []

exchange_settles_at_most_once_example :
    let x = exchange status status_events opened in
    InOrder status x
    × ((s : Settlement)
        → x.settled ≡ some s
        → exchange status (status_events ++ times_out ∷ []) opened ≡ x)
exchange_settles_at_most_once_example =
    exchange_settles_at_most_once status status_events (times_out ∷ [])

status_resolves :
    (exchange status status_events opened).settled
    ≡ some (
        resolved (record {
          body = codes "UP";
          headers = (codes "content-length", codes "2") ∷ [];
          raw = codes "Content-Length: 2\n\nUP";
        }))
unfolding exchange bytes_from
status_resolves = refl

abbrev trunk : TrunkConfig
trunk = record {
  esl_enabled = true;
  mode = ip_auth;
  proxy = codes "sip.example";
  username = [];
  trunk_caller_id = [];
  domain = codes "pbx";
  rewrite_timestamps = false;
  jitter_buffer = off;
}

abbrev bridge : BridgeInput
bridge = record {
  agent_leg_uuid = codes "a1";
  caller_id = unset;
  call_id = codes "c1";
  customer_leg_uuid = codes "l1";
  destination_number = codes "+49 30";
  sip_username = codes "100";
}

-- A caller id that would close the list of variables.
dialled_texts_add_no_variable_example :
    separators_of (
      build_agent_bridge_originate_command trunk (dialing bridge (codes "1,x=y}") (codes "+49 30")))
    ≡ separators_of
        (build_agent_bridge_originate_command trunk (dialing bridge (codes "2") (codes "{1}")))
dialled_texts_add_no_variable_example =
    dialled_texts_add_no_variable trunk bridge (codes "1,x=y}") (codes "2") (codes "+49 30")
      (codes "{1}") refl refl
