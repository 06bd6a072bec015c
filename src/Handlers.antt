-- ===== src/Handlers.antt =====
-- The handlers of incoming messages (model/message/handlers.h and handlers.cc).
pub mod Effects
pub mod Locations
pub mod Routes
pub mod Recipients
pub mod Deliveries
use sm4ns.Base.{
  ℕ, not, true, String, List, [], ◌∷◌, Option, none, some, Outcome, returns, throws, ◌>>=◌,
  unknown_handler, invalid_message,
}
use sm4ns.Base.Maps.{Map, find, assign}
use sm4ns.Header.{new_bundles}
use sm4ns.JsonLib.{JsonLib}
use sm4ns.Writer.{single_line, write}
use sm4ns.Conglomerate.{MessageConglomerate}
use sm4ns.Messages.{
  DPoint, OpaqueSendMessage, AgentsInfoMessage, AllLocationsMessage, parse_new_agents,
  parse_all_locations, parse_opaque_send, string_member,
}
use sm4ns.Make.{set_string}
use sm4ns.Agents.{
  Agent, Registry, World, plain, create_agent, add_agent, get_agent, remove_agent, set_position,
  send_to,
}

-- The subclasses of Handler.
pub data Handler : Type 0 where
  all_location_handler agents_info_handler null_handler opaque_send_handler : Handler
  invalid_handler : Handler

-- The map that the constructor of HandlerLookup fills.
pub handler_map : Map Handler
unfolding assign
handler_map = assign "UNICAST" invalid_handler (
    assign "MULTICAST" invalid_handler (
      assign "opaque_send" opaque_send_handler (
        assign "ticked_simmob" null_handler (
          assign "new_agents" agents_info_handler
            (assign "all_locations" all_location_handler [])))))

unfoldable pub get_handler : String → Outcome Handler
unfolding handler_map find
get_handler msg_type = elim (find msg_type handler_map) [
  | some h ↦ returns h
  | none ↦ throws unknown_handler
]

module _ {R : Type 0} where
  -- A new agent is initialised before it is added.
  unfoldable pub add_new_agents : List String → Registry R → Registry R
  add_new_agents [] agents = agents
  add_new_agents (id ∷ ids) agents =
      add_new_agents ids (add_agent id (record (create_agent id plain) { ready = true }) agents)

  unfoldable pub remove_agents : List String → Registry R → Outcome (Registry R)
  remove_agents [] agents = returns agents
  remove_agents (id ∷ ids) agents = do agents' ← remove_agent id agents; remove_agents ids agents'

  -- One location: an unknown id and a null agent are passed over.
  unfoldable pub set_location : String → DPoint R → Registry R → Outcome (Registry R)
  set_location id p agents = elim (find id agents) [
    | none ↦ returns agents
    | some none ↦ returns agents
    | some (some ag) ↦ (do ag' ← set_position p.x p.y ag; returns (assign id (some ag') agents))
  ]

  unfoldable pub set_locations : Map (DPoint R) → Registry R → Outcome (Registry R)
  set_locations [] agents = returns agents
  set_locations ((id, p) ∷ rest) agents = do
    agents' ← set_location id p agents
    set_locations rest agents'

module _ (j : JsonLib) where
  open j use {Value, Real}

  -- The loop over the recipients, `res` being the message without or with an older "to_id".
  unfoldable pub send_to_each : Agent Real → Value → List String → World Real → Outcome (World Real)
  send_to_each sending_agent res [] w = returns w
  send_to_each sending_agent res (id ∷ ids) w = do
    res' ← set_string j res "to_id" id
    to_id ← string_member j res' "to_id"
    let (receiving_agent, agents) = get_agent to_id w.all_agents
    let w' = record w { all_agents = agents }
    elim receiving_agent [
      | none ↦ send_to_each sending_agent res' ids w'
      | some ag ↦ (do
        str ← write j (single_line (not new_bundles)) res'
        w'' ← send_to sending_agent (some ag) str w'
        send_to_each sending_agent res' ids w'')
    ]

  unfoldable pub handle_opaque_send : OpaqueSendMessage → World Real → Outcome (World Real)
  handle_opaque_send os_msg w = do
    res ← set_string j j.null "msg_type" "opaque_receive"
    res ← set_string j res "from_id" os_msg.from_id
    res ← set_string j res "data" os_msg.content
    from_id ← string_member j res "from_id"
    let (sending_agent, agents) = get_agent from_id w.all_agents
    let w' = record w { all_agents = agents }
    elim sending_agent [ none ↦ returns w' | some ag ↦ send_to_each ag res os_msg.to_ids w' ]

  unfoldable pub handle_agents_info : AgentsInfoMessage → World Real → Outcome (World Real)
  handle_agents_info a_info w = do
    agents ← remove_agents a_info.rem_agent_ids (add_new_agents a_info.add_agent_ids w.all_agents)
    returns (record w { all_agents = agents })

  unfoldable pub handle_all_locations : AllLocationsMessage Real → World Real → Outcome (World Real)
  handle_all_locations a_info w = do
    agents ← set_locations a_info.agent_locations w.all_agents
    returns (record w { all_agents = agents })

  -- The virtual method `handle`.
  unfoldable pub handle :
      Handler → MessageConglomerate Value → ℕ → World Real → Outcome (World Real)
  handle all_location_handler messages msg_number w = do
    a_info ← parse_all_locations j messages msg_number
    handle_all_locations a_info w
  handle agents_info_handler messages msg_number w = do
    a_info ← parse_new_agents j messages msg_number
    handle_agents_info a_info w
  handle null_handler messages msg_number w = returns w
  handle opaque_send_handler messages msg_number w = do
    os_msg ← parse_opaque_send j messages msg_number
    handle_opaque_send os_msg w
  handle invalid_handler messages msg_number w = throws invalid_message
