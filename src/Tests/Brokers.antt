-- ===== src/Tests/Brokers.antt =====
-- Ticks, arrivals and runs of a broker on concrete data.
use sm4ns.Base.{
  ◌≡◌, ◌≢◌, ap, refl, true, false, [], ◌∷◌, Bytes, codes, some, returns, throws, connection_down,
  arith,
}
use sm4ns.Header.{BundleHeader}
use sm4ns.Conglomerate.{MessageConglomerate, no_messages}
use sm4ns.Serialize.{vary_header_bytes, length_bytes, deserialize}
use sm4ns.Serialize.RoundTrip.{transmit, deserialize_v1_lem}
use sm4ns.Queue.{empty, push}
use sm4ns.Broker.{
  Broker, new_broker, on_message_received, pause, async_receive, read_handler, deliver,
}
use sm4ns.Session.{end_of_file, success}
use sm4ns.Broker.Outgoing.{begun_again, second_bundle, second_bundle-repeats}
use sm4ns.Broker.Ticks.{ticked_session, IsTickedClient, on_message_received-deserialize, pause-open}
use sm4ns.Broker.Reachable.{Reachable, made, receives, arrives, Waiting, Reachable-Waiting}
use sm4ns.Broker.ReadErrors.{read_handler-end_of_file}
use sm4ns.Broker.Mailbox.{Delivered, readable, arrived_in, first_world, Reachable-Delivered}
use sm4ns.Tests.SampleJson.{Tree, sample, message_of}
use sm4ns.Tests.SampleLaws.{sample-IsTree, sample-BuildsObjects}
use sm4ns.Tests.Samples.{
  item_a, item_b, item_a-Readable, open_session, two_agents_world, awake_broker,
}

second_bundle-repeats_example :
    (c : MessageConglomerate Tree) × (transmit sample
        (second_bundle sample (codes "9") (codes "0") item_a item_b)
      ≡ returns (some c))
    × (c.messages_json ≡ message_of "a" ∷ [])
    × (c.message_bases ≡ record { msg_type = "a" } ∷ [])
second_bundle-repeats_example =
    second_bundle-repeats sample (codes "9") (codes "0") item_a item_b item_a-Readable refl
      (omega arith) (omega arith)

-- A bundle with no messages, from a sender with the id "A".
abbrev pub empty_header : BundleHeader
empty_header = record { send_id_len = 1; dest_id_len = 0; message_count = 0; rem_len = 1 }

abbrev pub from_a : MessageConglomerate Tree
from_a = record no_messages { sender_id = 65 ∷ [] }

pub empty_bundle-read :
    deserialize sample empty_header (65 ∷ []) no_messages ≡ returns (some from_a)
unfolding deserialize vary_header_bytes length_bytes
empty_bundle-read =
    deserialize_v1_lem sample (record { send_id = 65 ∷ []; dest_id = []; msg_lengths = [] }) [] []
      (65 ∷ []) 1 tt refl refl (omega arith)

on_message_received-deserialize_example :
    on_message_received sample empty_header (65 ∷ []) awake_broker
    ≡ returns (record awake_broker { m_incoming = push from_a empty; m_pause = false })
on_message_received-deserialize_example =
    on_message_received-deserialize sample empty_header (65 ∷ []) awake_broker from_a refl
      empty_bundle-read refl

pause-open_example :
    (text : Bytes) × IsTickedClient sample text
    × (pause sample awake_broker
        ≡ returns (
          record awake_broker {
            session = ticked_session sample awake_broker text;
            m_pause = true;
            m_incoming = empty;
            m_outgoing = begun_again awake_broker.m_outgoing;
            m_global_tick = 1;
            scheduled = 1;
            world = two_agents_world;
          },
          true,
        ))
pause-open_example =
    pause-open sample awake_broker two_agents_world sample-BuildsObjects sample-IsTree refl refl
      refl

first_broker-receives :
    async_receive sample (new_broker sample open_session two_agents_world)
    ≡ returns (record (new_broker sample open_session two_agents_world) { reading = true })
unfolding async_receive new_broker
first_broker-receives = refl

Reachable-Waiting_example :
    Waiting sample (record (new_broker sample open_session two_agents_world) { reading = true })
Reachable-Waiting_example =
    Reachable-Waiting sample sample-BuildsObjects sample-IsTree
      (record (new_broker sample open_session two_agents_world) { reading = true })
      (receives (new_broker sample open_session two_agents_world)
        (record (new_broker sample open_session two_agents_world) { reading = true })
        (made open_session two_agents_world) first_broker-receives)

abbrev listening : Broker sample
listening = record (new_broker sample open_session two_agents_world) { reading = true }

abbrev with_bundle : Broker sample
with_bundle = record listening {
  incoming_header = empty_header;
  m_incoming = push from_a empty;
  m_pause = false;
}

listening-arrival :
    read_handler sample success
      (record listening { incoming_header = empty_header; incoming_message = 65 ∷ [] })
    ≡ returns with_bundle
unfolding read_handler deliver async_receive new_broker
listening-arrival =
    let b : Broker sample = record listening {
      incoming_header = empty_header;
      incoming_message = 65 ∷ [];
      reading = false;
    } in
    rw
      (on_message_received-deserialize sample empty_header (65 ∷ []) b from_a refl empty_bundle-read
        refl)
      refl

abbrev with_bundle-Reachable : Reachable sample with_bundle
with_bundle-Reachable =
    arrives listening with_bundle success empty_header (65 ∷ [])
      (receives (new_broker sample open_session two_agents_world) listening
        (made open_session two_agents_world) first_broker-receives)
      refl listening-arrival

Reachable-Delivered_example :
    Delivered sample
      (arrived_in sample with_bundle with_bundle-Reachable)
      (first_world sample with_bundle with_bundle-Reachable)
      with_bundle
Reachable-Delivered_example =
    Reachable-Delivered sample sample-BuildsObjects sample-IsTree with_bundle with_bundle-Reachable

-- The bundle has arrived and is waiting.
with_bundle-waits :
    (arrived_in sample with_bundle with_bundle-Reachable ≡ from_a ∷ [])
    × (with_bundle.m_incoming.message_list ≡ from_a ∷ [])
unfolding push
with_bundle-waits = (ap (readable sample) empty_bundle-read, refl)

read_handler-end_of_file_example :
    ((b' : Broker sample) → read_handler sample end_of_file awake_broker ≢ returns b')
    × (read_handler sample end_of_file (record awake_broker { incoming_message = [] })
        ≡ throws connection_down)
read_handler-end_of_file_example = read_handler-end_of_file sample awake_broker
