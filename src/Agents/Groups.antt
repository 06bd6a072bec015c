-- ===== src/Agents/Groups.antt =====
-- The Wi-Fi Direct agents' groups (WFD_Agent in model/smb_agent.h and smb_agent.cc): the roles, the
-- node containers that all agents share, and the networks that configAll makes of them. A node is
-- written as the id of the agent that it was made for.
use sm4ns.Base.{
  ℕ, zero, suc, ◌+◌, true, ◌=ℕ◌, if◌then◌else◌, String, List, [], ◌∷◌, ◌++◌, Bytes, codes, length,
  none, some, Outcome, returns, undefined, undefined_if, ◌>>=◌, ◌>>◌, ◌==◌,
}
use sm4ns.Base.Integers.{print_nat}
use sm4ns.Agents.{Agent, AgentRole, Registry, plain, wfd, wfd_go, wfd_client}

abbrev pub NodeContainer : Type 0
NodeContainer = List String

-- std::map from group ids to containers; its entries and its size count, and not their order.
abbrev pub Containers : Type 0
Containers = List (ℕ × NodeContainer)

-- What is under a group id; an empty container for a new one.
unfoldable pub in_group : ℕ → Containers → NodeContainer
in_group group_id [] = []
in_group group_id ((g, nodes) ∷ rest) = if group_id =ℕ g then nodes else in_group group_id rest

-- `containers[group_id].Add(node)`
unfoldable pub join : ℕ → String → Containers → Containers
join group_id node [] = (group_id, node ∷ []) ∷ []
join group_id node ((g, nodes) ∷ rest) =
    if group_id =ℕ g then (g, nodes ++ node ∷ []) ∷ rest else (g, nodes) ∷ join group_id node rest

-- `containers[group_id]` puts an empty container in for a new id.
unfoldable pub touch : ℕ → Containers → Containers
touch group_id [] = (group_id, []) ∷ []
touch group_id ((g, nodes) ∷ rest) =
    if group_id =ℕ g then (g, nodes) ∷ rest else (g, nodes) ∷ touch group_id rest

-- The static containers of WFD_Agent.
pub record WfdContainers : Type 0 where
  pub wfd_go_nc : Containers
  pub wfd_cln_nc : Containers
  pub wfd_nc : NodeContainer

abbrev pub no_containers : WfdContainers
no_containers = record { wfd_go_nc = []; wfd_cln_nc = []; wfd_nc = [] }

-- What configAll installs for one group: the devices are one access point and the stations, and the
-- internet stack and the mobility go to all nodes of the group.
pub record WfdNetwork : Type 0 where
  pub ssid : Bytes
  pub access_point : String
  pub stations : List String
  pub nodes : List String

module _ {R : Type 0} where
  -- `AllAgents.begin()->second->GetAgentId()`
  unfoldable pub first_id : Registry R → Outcome String
  first_id [] = undefined
  first_id ((id, none) ∷ rest) = undefined
  first_id ((id, some ag) ∷ rest) = returns ag.agent_id

  unfoldable pub figure_out_group : Registry R → Agent R → Outcome (AgentRole × ℕ)
  figure_out_group all_agents ag = do
    go_id ← first_id all_agents
    returns (if ag.agent_id == go_id then wfd_go else wfd_client, 0)

-- The node goes to the containers of its role and to that of all nodes.
unfoldable pub add_node : AgentRole → ℕ → String → WfdContainers → WfdContainers
add_node wfd_go group_id node c = record c {
  wfd_go_nc = join group_id node c.wfd_go_nc;
  wfd_nc = c.wfd_nc ++ node ∷ [];
}
add_node wfd_client group_id node c = record c {
  wfd_cln_nc = join group_id node c.wfd_cln_nc;
  wfd_nc = c.wfd_nc ++ node ∷ [];
}

module _ {R : Type 0} where
  unfoldable pub wfd_init : Registry R → Agent R → WfdContainers → Outcome (Agent R × WfdContainers)
  wfd_init all_agents ag c = do
    (role, group_id) ← figure_out_group all_agents ag
    returns (
      record ag { class_of = wfd (some (role, group_id)); ready = true },
      add_node role group_id ag.agent_id c,
    )

  -- The virtual method `init`. Agent::init puts one more node into the agent's container and installs
  -- the internet stack on all of them, which ends the program at a node that has it.
  unfoldable pub init : Registry R → Agent R → WfdContainers → Outcome (Agent R × WfdContainers)
  init all_agents ag c = elim ag.class_of [
    | plain ↦ (do undefined_if ag.ready; returns (record ag { ready = true }, c))
    | wfd role ↦ wfd_init all_agents ag c
  ]

-- One round of configAll. A group without an owner has no node for the access point, so Get(0) is
-- out of range.
unfoldable pub config_group : ℕ → WfdContainers → Outcome (WfdNetwork × WfdContainers)
config_group group_id c =
    let clients = in_group group_id c.wfd_cln_nc in
    elim (in_group group_id c.wfd_go_nc) [
      | [] ↦ undefined
      | go ∷ more ↦ returns (
        record {
          ssid = codes "WFD-GRP-" ++ print_nat group_id;
          access_point = go;
          stations = clients;
          nodes = (go ∷ more) ++ clients;
        },
        record c { wfd_cln_nc = touch group_id c.wfd_cln_nc },
      )
    ]

-- The loop from a group id on.
unfoldable pub config_from : ℕ → ℕ → WfdContainers → Outcome (List WfdNetwork × WfdContainers)
config_from zero group_id c = returns ([], c)
config_from (suc rounds) group_id c = do
  (network, c1) ← config_group group_id c
  (networks, c2) ← config_from rounds (group_id + 1) c1
  returns (network ∷ networks, c2)

-- configAll: the size of `wfd_go_nc` stays while every group has an owner.
unfoldable pub config_all : WfdContainers → Outcome (List WfdNetwork × WfdContainers)
config_all c = config_from (length c.wfd_go_nc) 0 c
