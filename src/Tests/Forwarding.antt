-- ===== src/Tests/Forwarding.antt =====
-- Messages that are made and forwarded, and bundles that come in, on concrete data.
use sm4ns.Base.{
  ℕ, subst, ◌≡◌, refl, true, false, Bool-cases, inl, inr, String, List, [], ◌∷◌, ◌++◌, Bytes, codes,
  All, Option, none, some, returns, throws, ◌>>=◌, ◌==◌, arith, missing_msg_type, bad_opaque_send,
}
use sm4ns.Header.{blank, make_bundle_header}
use sm4ns.JsonLib.Objects.{with_member, Represents}
use sm4ns.Conglomerate.{MessageBase, get_count, parse_json_message_base}
use sm4ns.Serialize.{new_serialization}
use sm4ns.Serialize.Items.{add_all}
use sm4ns.Queue.{empty}
use sm4ns.Messages.{DPoint, parse_opaque_send, parse_all_locations}
use sm4ns.Make.{all_locations_value}
use sm4ns.Make.Locations.{parse_all_locations-make}
use sm4ns.Handlers.Locations.{last_location}
use sm4ns.Base.Maps.{Map, find}
use sm4ns.Make.{opaque_send_value}
use sm4ns.Make.OpaqueSend.{one_message, parse_opaque_send-make, parse_opaque_send-make_broadcast}
use sm4ns.Receive.{copied_names, forward, receive_packets}
use sm4ns.Receive.Forwarded.{
  AllObjects, Forwards, forward-missing_msg_type, receive_packets-add_all,
}
use sm4ns.Session.{Session, read, async_read}
use sm4ns.Session.Async.{as_read, async_read-read}
use sm4ns.Session.Stream.{IsBundle}
use sm4ns.Broker.{Broker, handle_messages, io_round, pause}
use sm4ns.Broker.Outgoing.{begun_again}
use sm4ns.Broker.Ticks.{ticked_session, IsTickedClient}
use sm4ns.Broker.Progress.{io_round-pause}
use sm4ns.Tests.SampleJson.{Tree, text, member, no_members, sample, message_of}
use sm4ns.Tests.SampleLaws.{sample-IsTree, sample-BuildsObjects}
use sm4ns.Tests.SampleMembers.{sample-ReadsMembers, sample-BuildsArrays, sample-ReadsReals}
use sm4ns.Tests.Samples.{item_a, open_session, two_agents_world, awake_broker}
use sm4ns.Tests.Brokers.{empty_header, from_a, empty_bundle-read}

abbrev opaque_base : MessageBase
opaque_base = record { msg_type = "opaque_send" }

parse_opaque_send-make_example :
    (v : Tree) × (opaque_send_value sample "5" ("2" ∷ "7" ∷ []) "hello" "base64" "wifi" ≡ returns v)
    × (parse_opaque_send sample (one_message v opaque_base) 0
        ≡ returns (record {
          base = opaque_base;
          from_id = "987654321";
          to_ids = "2" ∷ "7" ∷ [];
          broadcast = false;
          content = "hello";
          format = "base64";
          tech = "wifi";
        }))
parse_opaque_send-make_example =
    parse_opaque_send-make sample sample-BuildsObjects sample-ReadsMembers sample-BuildsArrays "5"
      "2" ("7" ∷ []) "hello" "base64" "wifi" opaque_base

parse_opaque_send-make_broadcast_example :
    (v : Tree) × (opaque_send_value sample "5" [] "hello" "base64" "wifi" ≡ returns v)
    × (sample.get v "broadcast" ≡ returns (sample.of_bool true))
    × (parse_opaque_send sample (one_message v opaque_base) 0 ≡ throws bad_opaque_send)
parse_opaque_send-make_broadcast_example =
    parse_opaque_send-make_broadcast sample sample-BuildsObjects sample-ReadsMembers
      sample-BuildsArrays "5" "hello" "base64" "wifi" opaque_base

-- An object with one member.
abbrev one_member : String → Option Tree
one_member = with_member "MESSAGE_TYPE" (text "T") (λ name. none)

one_member-Represents :
    (name x : String)
    → Represents sample
        (member name (text x) no_members)
        (with_member name (text x) (λ other. none))
one_member-Represents name x = record {
  can_set = inr refl;
  named = λ other. elim (Bool-cases (other == name)) [ inl q ↦ rw q refl | inr q ↦ rw q refl ];
  found = λ other. elim (Bool-cases (other == name)) [ inl q ↦ rw q refl | inr q ↦ rw q refl ];
}

forward-missing_msg_type_example :
    (outgoing : Tree) × (forward sample (member "MESSAGE_TYPE" (text "T") no_members)
      ≡ returns outgoing)
    × All
        (λ name.
          sample.get outgoing name ≡ sample.get (member "MESSAGE_TYPE" (text "T") no_members) name)
        copied_names
    × (parse_json_message_base sample outgoing ≡ throws missing_msg_type)
forward-missing_msg_type_example =
    forward-missing_msg_type sample sample-BuildsObjects sample-ReadsMembers
      (member "MESSAGE_TYPE" (text "T") no_members) one_member
      (one_member-Represents "MESSAGE_TYPE" "T")

-- A JSON text, an empty packet, and one that is no JSON text.
abbrev three_packets : List Bytes
three_packets = item_a.text ∷ [] ∷ codes "{" ∷ []

three_packets-AllObjects : AllObjects sample three_packets
three_packets-AllObjects = (
  (λ v e. (
    with_member "msg_type" (text "a") (λ other. none),
    subst (λ t. Represents sample t (with_member "msg_type" (text "a") (λ other. none)))
        (let q : some (message_of "a") ≡ some v = e in cc) (one_member-Represents "msg_type" "a"),
  )),
  (
    λ v e. absurd (let q : none ≡ some v = e in cc),
    (λ v e. absurd (let q : none ≡ some v = e in cc), tt),
  ),
)

receive_packets-add_all_example :
    (texts : List Bytes) × (receive_packets sample three_packets new_serialization
      ≡ returns (add_all texts new_serialization))
    × Forwards sample three_packets texts
receive_packets-add_all_example =
    receive_packets-add_all sample sample-BuildsObjects sample-ReadsMembers sample-IsTree
      three_packets new_serialization three_packets-AllObjects

-- The header of a bundle has come, and half of what follows it.
abbrev cut_session : Session
cut_session = record open_session { inbound = 1 ∷ 1 ∷ 0 ∷ 0 ∷ 0 ∷ 0 ∷ 0 ∷ 2 ∷ 65 ∷ [] }

async_read-read_example : (async_read true blank [] cut_session >>= as_read) ≡ read cut_session
async_read-read_example = async_read-read true blank [] cut_session

empty_header-IsBundle : IsBundle empty_header (65 ∷ [])
empty_header-IsBundle = record {
  fits = record {
    send_id = omega arith;
    dest_id = omega arith;
    count = omega arith;
    rem = omega arith;
  };
  rem = refl;
  some_data = omega arith;
}

abbrev reading_broker : Broker sample
reading_broker = record awake_broker {
  session = record open_session {
    inbound = make_bundle_header empty_header ++ (65 ∷ [] ++ 1 ∷ []);
  };
  m_pause = true;
}

io_round-pause_example :
    (text : Bytes) × IsTickedClient sample text
    × ((io_round sample false reading_broker >>= pause sample)
        ≡ returns (
          record reading_broker {
            session = record (ticked_session sample reading_broker text) { inbound = 1 ∷ [] };
            incoming_header = empty_header;
            m_incoming = empty;
            m_outgoing = begun_again reading_broker.m_outgoing;
            m_global_tick = 1;
            scheduled = 1;
          },
          true,
        ))
unfolding handle_messages get_count
io_round-pause_example =
    io_round-pause sample sample-BuildsObjects sample-IsTree false reading_broker empty_header
      (65 ∷ []) (1 ∷ []) from_a two_agents_world refl refl empty_header-IsBundle empty_bundle-read
      refl refl

-- The agent "1" is named twice.
abbrev three_locations : Map (DPoint ℕ)
three_locations =
    ("1", record { x = 2; y = 3 })
    ∷ ("2", record { x = 5; y = 5 })
    ∷ ("1", record { x = 4; y = 4 })
    ∷ []

parse_all_locations-make_example :
    (v : Tree) × (locations : Map (DPoint ℕ)) × (all_locations_value sample three_locations
      ≡ returns v)
    × (parse_all_locations sample (one_message v opaque_base) 0
        ≡ returns (record { base = opaque_base; agent_locations = locations }))
    × ((i : String) → find i locations ≡ last_location i three_locations)
parse_all_locations-make_example =
    parse_all_locations-make sample sample-BuildsObjects sample-ReadsMembers sample-BuildsArrays
      sample-ReadsReals "1" (record { x = 2; y = 3 })
      (("2", record { x = 5; y = 5 }) ∷ ("1", record { x = 4; y = 4 }) ∷ []) opaque_base
