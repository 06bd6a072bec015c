-- ===== src/Agents.antt =====
-- Agents and their registry (model/smb_agent.h and smb_agent.cc). The registry `AllAgents` maps an
-- id to a Ptr<Agent>, which may be null. An agent is reached through its own entry only, so it is
-- kept there by value. Of an agent's node there is the position that the handlers set; the groups,
-- the socket and the network of an agent are in modules of their own.
pub mod Networking
pub mod Addresses
pub mod Presence
pub mod Groups
pub mod Sockets
use sm4ns.Base.{
  ℕ, ◌+◌, ◌%◌, ◌^◌, Bool, true, false, String, List, [], ◌∷◌, ◌++◌, Bytes, Option, none, some,
  Outcome, returns, undefined, undefined_if, not, ◌&&◌, ◌>>=◌, ◌>>◌,
}
use sm4ns.Base.Maps.{Map, find, assign, insert, erase}

-- Agent, or WFD_Agent with its role and its group.
pub data AgentRole : Type 0 where
  wfd_go wfd_client : AgentRole

pub data AgentClass : Type 0 where
  plain : AgentClass
  wfd : Option (AgentRole × ℕ) → AgentClass

-- `position` is the x and y of the last SetPosition (z is 0.0), `ready` that init() has run.
pub record Agent (R : Type 0) : Type 0 where
  pub agent_id : String
  pub class_of : AgentClass
  pub ready : Bool
  pub position : Option (R × R)

abbrev pub Registry : Type 0 → Type 0
Registry R = Map (Option (Agent R))

-- A packet that was handed to the sending agent's socket.
pub record Packet : Type 0 where
  pub sender : String
  pub recipient : String
  pub content : Bytes

-- The process-wide state that the handlers use: `AllAgents`, the packets given to ns-3, and
-- `Broker::global_pckt_cnt`.
pub record World (R : Type 0) : Type 0 where
  pub all_agents : Registry R
  pub packets : List Packet
  pub global_pckt_cnt : ℕ

module _ {R : Type 0} where
  -- CreateObject<Agent>(id, broker)
  abbrev pub create_agent : String → AgentClass → Agent R
  create_agent id c = record { agent_id = id; class_of = c; ready = false; position = none }

  unfoldable pub add_agent : String → Agent R → Registry R → Registry R
  add_agent id ag all_agents = insert id (some ag) all_agents

  -- getAgent: `AllAgents[agId]` puts a null entry in for an id that is not there.
  unfoldable pub get_agent : String → Registry R → Option (Agent R) × Registry R
  get_agent id all_agents = elim (find id all_agents) [
    | some ag ↦ (ag, all_agents)
    | none ↦ (none, assign id none all_agents)
  ]

  -- RemoveAgent: Dispose() through a null pointer is undefined.
  unfoldable pub remove_agent : String → Registry R → Outcome (Registry R)
  remove_agent id all_agents = elim (find id all_agents) [
    | none ↦ returns all_agents
    | some none ↦ undefined
    | some (some ag) ↦ returns (erase id all_agents)
  ]

  -- Whether the agent has the node, the socket and the address that Agent::init gives it;
  -- WFD_Agent::init sets none of `m_node`, `m_socket` and `iic`.
  abbrev pub has_socket : Agent R → Bool
  has_socket ag = elim ag.class_of [ plain ↦ ag.ready | wfd role ↦ false ]

  -- SetPosition: without `m_node` it goes through a null pointer.
  unfoldable pub set_position : R → R → Agent R → Outcome (Agent R)
  set_position x y ag = do
    undefined_if (not (has_socket ag))
    returns (record ag { position = some (x, y) })

  -- GetPosition; `none` is where ns-3 has put the node.
  pub get_position : Agent R → Outcome (Option (R × R))
  get_position ag = do undefined_if (not (has_socket ag)); returns ag.position

  -- GetBroadcastAddress goes through `m_device`, which nothing ever sets.
  pub get_broadcast_address : {Address : Type 0} → Agent R → Outcome Address
  get_broadcast_address ag = undefined

  -- The counter goes up, and the packet is handed to the socket.
  abbrev pub hand_over : Agent R → Agent R → Bytes → World R → World R
  hand_over sender ag content w = record w {
    packets =
        w.packets
        ++ record { sender = sender.agent_id; recipient = ag.agent_id; content = content } ∷ [];
    global_pckt_cnt = (w.global_pckt_cnt + 1) % 2 ^ 32;
  }

  -- SendTo: the result is that of Socket::Send, which ns-3 computes; -1 without a destination. A
  -- missing socket is a null pointer, a missing address an index out of range.
  unfoldable pub send_to : Agent R → Option (Agent R) → Bytes → World R → Outcome (World R)
  send_to sender none content w = returns w
  send_to sender (some ag) content w = do
    undefined_if (not (has_socket sender && has_socket ag))
    returns (hand_over sender ag content w)
