-- ===== src/Tests/Samples.antt =====
-- Concrete messages, agents and brokers.
use sm4ns.Base.{ℕ, refl, true, false, [], ◌∷◌, codes, none, some, arith}
use sm4ns.Header.{BundleHeader, Fits, blank}
use sm4ns.Serialize.{new_serialization}
use sm4ns.Queue.{empty}
use sm4ns.Conglomerate.{parse_json_message_base}
use sm4ns.Conglomerate.Added.{Readable}
use sm4ns.Serialize.Items.{Item}
use sm4ns.Agents.{Agent, Registry, World, plain, wfd, create_agent}
use sm4ns.Session.{Session}
use sm4ns.Broker.{Broker}
use sm4ns.Tests.SampleJson.{Tree, message_of, sample}

abbrev pub small_header : BundleHeader
small_header = record { send_id_len = 9; dest_id_len = 1; message_count = 1; rem_len = 3 }

pub small_header-Fits : Fits small_header
small_header-Fits = record {
  send_id = omega arith;
  dest_id = omega arith;
  count = omega arith;
  rem = omega arith;
}

abbrev pub item_a : Item Tree
item_a = record {
  text = codes "{\"msg_type\":\"a\"}";
  root = message_of "a";
  base = record { msg_type = "a" };
}

abbrev pub item_b : Item Tree
item_b = record {
  text = codes "{\"msg_type\":\"b\"}";
  root = message_of "b";
  base = record { msg_type = "b" };
}

pub item_a-Readable : Readable sample item_a.text item_a.root item_a.base
unfolding parse_json_message_base
item_a-Readable = record {
  tail = codes "\"msg_type\":\"a\"}";
  opens = refl;
  parsed = refl;
  typed = refl;
  short = omega arith;
}

pub item_b-Readable : Readable sample item_b.text item_b.root item_b.base
unfolding parse_json_message_base
item_b-Readable = record {
  tail = codes "\"msg_type\":\"b\"}";
  opens = refl;
  parsed = refl;
  typed = refl;
  short = omega arith;
}

abbrev pub open_session : Session
open_session = record { socket_open = true; inbound = []; outbound = [] }

abbrev pub agent_1 : Agent ℕ
agent_1 = record (create_agent "1" plain) { ready = true }

abbrev pub agent_2 : Agent ℕ
agent_2 = record (create_agent "2" plain) { ready = true }

abbrev pub wifi_agent_1 : Agent ℕ
wifi_agent_1 = create_agent "1" (wfd none)

abbrev pub wifi_agent_2 : Agent ℕ
wifi_agent_2 = create_agent "2" (wfd none)

abbrev pub two_wifi_agents_world : World ℕ
two_wifi_agents_world = record {
  all_agents = ("1", some wifi_agent_1) ∷ ("2", some wifi_agent_2) ∷ [];
  packets = [];
  global_pckt_cnt = 0;
}

abbrev pub two_agents : Registry ℕ
two_agents = ("1", some agent_1) ∷ ("2", some agent_2) ∷ []

abbrev pub two_agents_world : World ℕ
two_agents_world = record { all_agents = two_agents; packets = []; global_pckt_cnt = 0 }

-- A broker that is awake, with nothing queued.
abbrev pub awake_broker : Broker sample
awake_broker = record {
  session = open_session;
  incoming_header = blank;
  incoming_message = [];
  reading = true;
  m_pause = false;
  m_incoming = empty;
  m_outgoing = new_serialization;
  m_global_tick = 0;
  scheduled = 0;
  world = two_agents_world;
}
