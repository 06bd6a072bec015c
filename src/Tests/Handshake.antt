-- ===== src/Tests/Handshake.antt =====
-- A whole registration on concrete bundles.
use sm4ns.Base.{
  ℕ, zero, suc, ◌≡◌, refl, true, if◌then◌else◌, String, [], ◌∷◌, codes, length, length-append, ◌<◌,
  ◌^◌, Option, none, some, Outcome, returns, arith,
}
use sm4ns.Base.Maps.{find}
use sm4ns.Header.{make_bundle_header}
use sm4ns.Conglomerate.{parse_json_message_base, get_base_message, get_json_message}
use sm4ns.Serialize.{
  OngoingSerialization, new_serialization, serialize_begin, add_generic, serialize_begin_ids,
  header_of, vary_header_bytes, length_bytes,
}
use sm4ns.Serialize.Layout.{length-vary_header_bytes}
use sm4ns.Broker.Outgoing.{frame}
use sm4ns.Registration.Connecting.{do_connect-attempts}
use sm4ns.Messages.{
  AgentsInfoMessage, string_member, parse_new_agents, parse_agent_ids, parse_strings,
}
use sm4ns.Make.{make_id_response, id_response}
use sm4ns.Agents.{Registry}
use sm4ns.Agents.Presence.{NoNull, AllSockets}
use sm4ns.Session.{Session}
use sm4ns.Broker.{Broker}
use sm4ns.Registration.{do_connect}
use sm4ns.Registration.Answers.{with_sent}
use sm4ns.Registration.Letters.{Letter, IsLetter, letter_before, vary_of}
use sm4ns.Registration.Start.{start}
use sm4ns.Registration.Enrolled.{IsHandshake, enrolled, start-handshake}
use sm4ns.Handlers.Effects.{contains, new_agent}
use sm4ns.Writer.{write, write_value, write_members, write_items}
use sm4ns.Tests.SampleJson.{Tree, sample, request_value, agents_value, message_of}
use sm4ns.Tests.Samples.{open_session, awake_broker, two_agents_world}

abbrev answer_42 : OngoingSerialization
answer_42 =
    add_generic
      (codes
        "{\"msg_type\":\"id_response\",\"id\":\"987654321\",\"token\":\"42\",\"type\":\"ns-3\",\"services\":[\"srv_all_locations\"]}")
      (serialize_begin new_serialization)

answer_42-made :
    make_id_response sample "42" (serialize_begin new_serialization) ≡ returns answer_42
unfolding make_id_response id_response write write_value write_members write_items
answer_42-made = refl

-- A message of the server, behind its brace.
abbrev letter : String → Tree → String → Letter Tree
letter tail root msg_type = record {
  send_id = codes "0";
  dest_id = codes "9";
  item = record { text = b'{' ∷ codes tail; root = root; base = record { msg_type = msg_type } };
}

letter-IsLetter :
    (tail : String) (root : Tree) (msg_type : String)
    → sample.parse (b'{' ∷ codes tail) ≡ some root
    → parse_json_message_base sample root ≡ returns (record { msg_type = msg_type })
    → length (codes tail) < 1000
    → IsLetter sample (letter tail root msg_type) msg_type
letter-IsLetter tail root msg_type parsed typed short =
    let l = letter tail root msg_type in
    record {
      readable = record {
        tail = codes tail;
        opens = refl;
        parsed = parsed;
        typed = typed;
        short = omega (arith, short);
      };
      typed = refl;
      short_send = omega arith;
      short_dest = omega arith;
      short = omega (
        arith,
        short,
        length-append (vary_header_bytes (vary_of l)) (b'{' ∷ codes tail),
        length-vary_header_bytes (vary_of l),
      );
    }

abbrev request_tail : String
request_tail = "\"msg_type\":\"id_request\",\"token\":\"42\"}"

abbrev request : Letter Tree
request = letter request_tail request_value "id_request"

abbrev agents_tail : String
agents_tail = "\"msg_type\":\"new_agents\",\"add\":[\"7\",\"3\"]}"

abbrev agents : Letter Tree
agents = letter agents_tail agents_value "new_agents"

abbrev ack_tail : String
ack_tail = "\"msg_type\":\"id_ack\"}"

abbrev ack : Letter Tree
ack = letter ack_tail (message_of "id_ack") "id_ack"

abbrev seven_and_three : AgentsInfoMessage
seven_and_three = record {
  base = record { msg_type = "new_agents" };
  add_agent_ids = "7" ∷ "3" ∷ [];
  rem_agent_ids = [];
}

handshake : IsHandshake sample request agents ack "42" seven_and_three
unfolding parse_json_message_base string_member parse_new_agents parse_agent_ids parse_strings
    get_base_message get_json_message
handshake = record {
  is_request = letter-IsLetter request_tail _ _ refl refl (omega arith);
  is_agents = letter-IsLetter agents_tail _ _ refl refl (omega arith);
  is_ack = letter-IsLetter ack_tail _ _ refl refl (omega arith);
  request_json = refl;
  has_token = refl;
  its_token = refl;
  agents_json = refl;
  parsed = refl;
}

answer_42-short : length (frame answer_42) < 2 ^ 32
unfolding add_generic serialize_begin serialize_begin_ids vary_header_bytes length_bytes header_of
    make_bundle_header
answer_42-short = omega arith

abbrev server_session : Session
server_session = record open_session {
  inbound = letter_before request (letter_before agents (letter_before ack (9 ∷ [])));
}

-- The server answers the second attempt.
abbrev second_time : ℕ → Outcome (Option Session)
second_time zero = returns none
second_time (suc n) = returns (some server_session)

second_time-connects : do_connect second_time 200 ≡ returns (some (some server_session))
second_time-connects = do_connect-attempts second_time 200 (omega arith) (omega arith)

abbrev new_broker : Broker sample
new_broker = record awake_broker { world = record two_agents_world { all_agents = [] } }

start-handshake_example :
    (registry : Registry ℕ) × (start sample second_time "Default" new_broker
      ≡ returns (
          some (
            true,
            enrolled sample new_broker registry
                (with_sent answer_42 (record server_session { inbound = 9 ∷ [] })),
          )))
    × ((i : String)
        → find i registry
          ≡ (if contains i ("7" ∷ "3" ∷ []) then some (some (new_agent i)) else none))
    × NoNull registry
    × AllSockets registry
start-handshake_example =
    start-handshake sample second_time new_broker server_session request agents ack "42"
      seven_and_three "7" ("3" ∷ []) answer_42 (9 ∷ []) second_time-connects refl refl handshake
      refl answer_42-made answer_42-short refl
