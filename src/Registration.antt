-- ===== src/Registration.antt =====
-- Registration and WFD_Registration (model/network/registration.h, registration.cc).
-- `connect n` is what the n-th call of Connection::connect gives: a connected session, or `none` for
-- the result false; it throws if the server's name cannot be resolved. Waiting has no model.
pub mod Answers
pub mod Connecting
pub mod Enrolled
pub mod Letters
pub mod Networks
pub mod Newcomers
pub mod Reached
pub mod Nodes
pub mod Roles
pub mod Start
use sm4ns.Base.{
  ℕ, zero, suc, ◌+◌, ◌%◌, ◌^◌, Bool, true, false, not, ◌=ℕ◌, if◌then◌else◌, String, List, [], ◌∷◌,
  ◌++◌, Bytes, is_empty, Option, none, some, Outcome, returns, throws, undefined, throw_if, ◌>>=◌,
  ◌>>◌, ◌==◌, invalid_application, binary_id_request, binary_new_agents,
}
use sm4ns.Base.Maps.{Map, assign}
use sm4ns.Header.{BundleHeader, blank}
use sm4ns.JsonLib.{JsonLib}
use sm4ns.Conglomerate.{MessageBase, MessageConglomerate, get_json_message, no_messages}
use sm4ns.Serialize.{
  OngoingSerialization, new_serialization, serialize_begin, serialize_end, deserialize_single,
}
use sm4ns.Messages.{AgentsInfoMessage, parse_new_agents, string_member}
use sm4ns.Make.{WfdGroup, make_id_response, make_go_client}
use sm4ns.Agents.{
  Agent, AgentClass, Registry, World, plain, wfd, wfd_go, wfd_client, create_agent, add_agent,
}
use sm4ns.Agents.Groups.{WfdContainers, WfdNetwork, no_containers, first_id, init, config_all}
use sm4ns.Session.{Session, read, write}

-- The loop of doConnect from `sec` on, for `rounds` rounds; with none left there is no answer.
unfoldable pub connect_from :
    (ℕ → Outcome (Option Session)) → ℕ → ℕ → ℕ → Outcome (Option (Option Session))
connect_from connect timeout sec zero = returns none
connect_from connect timeout sec (suc rounds) = do
  connected ← connect sec
  let again = connect_from connect timeout ((sec + 1) % 2 ^ 32) rounds
  elim connected [
    | some session ↦ returns (some (some session))
    | none ↦ if (sec + 1) % 2 ^ 32 =ℕ timeout then returns (some none) else again
  ]

-- doConnect: `sec` is an unsigned int, so it meets the timeout after 2 ^ 32 rounds at most.
pub do_connect : (ℕ → Outcome (Option Session)) → ℕ → Outcome (Option (Option Session))
unfolding connect_from
do_connect connect timeout = connect_from connect timeout 0 (2 ^ 32)

-- The socket, the agents, the members of the registration object, the static containers of WFD_Agent
-- and the networks that configAll has made.
pub record Registering (R : Type 0) : Type 0 where
  pub session : Session
  pub world : World R
  pub application : String
  pub wfd_groups : Map WfdGroup
  pub wfd_membership : Map String
  pub wfd_containers : WfdContainers
  pub networks : List WfdNetwork

-- A registration that has just begun.
abbrev pub begun : {R : Type 0} → Session → World R → String → Registering R
begun session world application = record {
  session = session;
  world = world;
  application = application;
  wfd_groups = [];
  wfd_membership = [];
  wfd_containers = no_containers;
  networks = [];
}

-- A step that can fail with the result false, and the next one.
infixl 5 ◌then_if◌
abbrev pub ◌then_if◌ {ℓ} :
    {S : Type ℓ} → Outcome (Bool × S) → (S → Outcome (Bool × S)) → Outcome (Bool × S)
m then_if next = do (ok, s) ← m; if ok then next s else returns (false, s)

module _ {R : Type 0} where
  -- The loop over the agents.
  unfoldable pub init_each :
      Registry R → Registry R → WfdContainers → Outcome (Registry R × WfdContainers)
  init_each all_agents [] c = returns ([], c)
  init_each all_agents ((id, none) ∷ rest) c = undefined
  init_each all_agents ((id, some ag) ∷ rest) c = do
    (ag', c1) ← init all_agents ag c
    (rest', c2) ← init_each all_agents rest c1
    returns ((id, some ag') ∷ rest', c2)

  -- Registration::doInitialization
  unfoldable pub do_initialization : Registering R → Outcome (Bool × Registering R)
  do_initialization r = do
    (agents, c) ← init_each r.world.all_agents r.world.all_agents r.wfd_containers
    returns (true, record r { world = record r.world { all_agents = agents }; wfd_containers = c })

  -- The loop of doRoleAssignment: the members in order, and the membership map.
  unfoldable pub join_group : String → Registry R → Map String → Outcome (List String × Map String)
  join_group group_id [] membership = returns ([], membership)
  join_group group_id ((id, none) ∷ rest) membership = undefined
  join_group group_id ((id, some ag) ∷ rest) membership = do
    (members, membership') ← join_group group_id rest (assign ag.agent_id group_id membership)
    returns (ag.agent_id ∷ members, membership')

  unfoldable pub do_role_assignment : Registering R → Outcome (Bool × Registering R)
  do_role_assignment r = do
    group_id ← first_id r.world.all_agents
    (members, membership) ← join_group group_id r.world.all_agents r.wfd_membership
    let group : WfdGroup = record { group_id = group_id; go = group_id; members = members }
    returns (
      true,
      record r { wfd_groups = assign group_id group r.wfd_groups; wfd_membership = membership },
    )

  -- The loop that creates the agents of the first message.
  unfoldable pub add_application_agents : String → List String → Registry R → Outcome (Registry R)
  add_application_agents application [] agents = returns agents
  add_application_agents application (id ∷ ids) agents =
      let rest = λ (c : AgentClass).
        add_application_agents application ids (add_agent id (create_agent id c) agents) in
      if application == "Default"
      then rest plain
      else if application == "stk"
      then rest (wfd none)
      else throws invalid_application

module _ (j : JsonLib) where
  open j use {Value, Real}

  -- Receiving one bundle with one message of a type; `none` stands for a result false.
  unfoldable pub receive_single :
      String
      → Registering Real
      → Outcome (Option (BundleHeader × MessageConglomerate Value) × Registering Real)
  receive_single expected_type r = do
    (received, session) ← read r.session
    let r' = record r { session = session }
    elim received [
      | none ↦ returns (none, r')
      | some (head, str) ↦ (do
        single ← deserialize_single j head str expected_type no_messages
        elim single [
          | none ↦ returns (none, r')
          | some (msg, conglom) ↦ returns (some (head, conglom), r')
        ])
    ]

  -- Ending a serialization and sending it; if there is nothing to end, an empty text goes out under
  -- the header that was in `head` before.
  unfoldable pub end_and_send :
      BundleHeader → OngoingSerialization → Registering Real → Outcome (Bool × Registering Real)
  end_and_send head res r = do
    ended ← serialize_end j res
    (ok, session) ← elim ended [
      | none ↦ write head [] r.session
      | some (head', text) ↦ write head' text r.session
    ]
    returns (ok, record r { session = session })

  unfoldable pub do_who_are_you : Registering Real → Outcome (Bool × Registering Real)
  do_who_are_you r = do
    (received, r') ← receive_single "id_request" r
    elim received [
      | none ↦ returns (false, r')
      | some (head, conglom) ↦ (do
        props ← get_json_message j conglom 0
        throw_if (j.is_null props) binary_id_request
        has_token ← j.is_member props "token"
        if not has_token then returns (false, r') else do
          token ← string_member j props "token"
          res ← make_id_response j token (serialize_begin new_serialization)
          end_and_send head res r')
    ]

  unfoldable pub do_agents_info : Registering Real → Outcome (Bool × Registering Real)
  do_agents_info r = do
    (received, r') ← receive_single "new_agents" r
    elim received [
      | none ↦ returns (false, r')
      | some (head, conglom) ↦ (do
        props ← get_json_message j conglom 0
        throw_if (j.is_null props) binary_new_agents
        a_info ← parse_new_agents j conglom 0
        if is_empty a_info.add_agent_ids then returns (false, r') else do
          agents ← add_application_agents r'.application a_info.add_agent_ids r'.world.all_agents
          returns (true, record r' { world = record r'.world { all_agents = agents } }))
    ]

  unfoldable pub do_ready : Registering Real → Outcome (Bool × Registering Real)
  do_ready r = do
    (received, r') ← receive_single "id_ack" r
    returns (elim received [ none ↦ (false, r') | some c ↦ (true, r') ])

  -- configAll
  unfoldable pub configure_networks : Registering Real → Outcome (Bool × Registering Real)
  configure_networks r = do
    (networks, c) ← config_all r.wfd_containers
    returns (true, record r { networks = r.networks ++ networks; wfd_containers = c })

  -- The answer that tells the server of the groups.
  unfoldable pub send_groups : Registering Real → Outcome (Bool × Registering Real)
  send_groups r = do
    res ← make_go_client j r.wfd_groups (serialize_begin new_serialization)
    end_and_send blank res r

  -- WFD_Registration::doInitialization
  unfoldable pub do_wfd_initialization : Registering Real → Outcome (Bool × Registering Real)
  do_wfd_initialization r =
      do_role_assignment r then_if do_initialization then_if send_groups then_if configure_networks
