-- ===== src/Registration/Nodes.antt =====
-- Which containers the nodes of a Wi-Fi Direct registration join (doInitialization of
-- model/network/registration.cc, WFD_Agent::init of model/smb_agent.cc).
use sm4ns.Base.{
  ℕ, ◌≡◌, sym, ap, ◌∙◌, true, if◌then◌else◌, String, List, [], ◌∷◌, ◌++◌, append_assoc, append-nil,
  some, returns, ◌==◌, Bool-cases, inl, inr, arith,
}
use sm4ns.Base.Maps.{Map, find, assign}
use sm4ns.Agents.{Agent, AgentClass, plain, wfd, wfd_go, wfd_client}
use sm4ns.Agents.Groups.{Containers, WfdContainers, in_group, join, add_node}
use sm4ns.Registration.{Registering, do_initialization, do_role_assignment, ◌then_if◌}
use sm4ns.Registration.Roles.{
  AllFirst, registry_of, ids_of, with_roles, with_nodes, node_of, do_initialization-with_nodes,
}
use sm4ns.Handlers.Effects.{contains}

pub in_group-join :
    (g : ℕ) (node : String) (cs : Containers)
    → in_group g (join g node cs) ≡ in_group g cs ++ node ∷ []
unfolding in_group join
in_group-join g node [] = ground arith
in_group-join g node ((h, nodes) ∷ rest) = ground (arith, in_group-join g node rest)

-- Those among some ids that are the owner's, and the others.
abbrev pub owners : String → List String → List String
owners go_id [] = []
owners go_id (id ∷ ids) = let rest = owners go_id ids in if id == go_id then id ∷ rest else rest

abbrev pub clients : String → List String → List String
clients go_id [] = []
clients go_id (id ∷ ids) = let rest = clients go_id ids in if id == go_id then rest else id ∷ rest

-- Nodes of these ids have joined the containers of the group 0 by their roles, and that of all nodes.
abbrev pub Joined : String → List String → WfdContainers → WfdContainers → Type 0
Joined go_id ids before after =
    (in_group 0 after.wfd_go_nc ≡ in_group 0 before.wfd_go_nc ++ owners go_id ids)
    × (in_group 0 after.wfd_cln_nc ≡ in_group 0 before.wfd_cln_nc ++ clients go_id ids)
    × (after.wfd_nc ≡ before.wfd_nc ++ ids)

-- The id of a Wi-Fi Direct agent in front of others.
abbrev with_wfd : String → AgentClass → List String → List String
with_wfd id plain ids = ids
with_wfd id (wfd role) ids = id ∷ ids

joined_first :
    (here : List String) (node : String) (more all : List String)
    → all ≡ (here ++ node ∷ []) ++ more
    → all ≡ here ++ node ∷ more
joined_first here node more all e = e ∙ append_assoc here (node ∷ []) more

module _ {R : Type 0} where
  -- The ids of the Wi-Fi Direct agents.
  abbrev pub wfd_ids : List (Agent R) → List String
  wfd_ids [] = []
  wfd_ids (ag ∷ ags) = with_wfd ag.agent_id ag.class_of (wfd_ids ags)

  with_nodes-Joined :
      (go_id : String) (ags : List (Agent R)) (c : WfdContainers)
      → Joined go_id (wfd_ids ags) c (with_nodes go_id ags c)
  unfolding add_node
  with_nodes-Joined go_id [] c = (sym (append-nil _), sym (append-nil _), sym (append-nil _))
  with_nodes-Joined go_id (ag ∷ ags) c = by_class ag.class_of (λ c1. with_nodes-Joined go_id ags c1)
    where
      by_class :
          (k : AgentClass)
          → ((c1 : WfdContainers) → Joined go_id (wfd_ids ags) c1 (with_nodes go_id ags c1))
          → Joined go_id
              (with_wfd ag.agent_id k (wfd_ids ags))
              c
              (with_nodes go_id ags (node_of go_id ag.agent_id k c))
      by_class plain ih = ih c
      by_class (wfd role) ih = elim (Bool-cases (ag.agent_id == go_id)) [
        | inl owner ↦
            let (o, l, a) = ih (add_node wfd_go 0 ag.agent_id c) in
            let first =
              ap (λ t. t ++ owners go_id (wfd_ids ags)) (in_group-join 0 ag.agent_id c.wfd_go_nc) in
            rw owner (joined_first _ _ _ _ (o ∙ first), l, joined_first _ _ _ _ a)
        | inr client ↦
            let (o, l, a) = ih (add_node wfd_client 0 ag.agent_id c) in
            let first =
              ap (λ t. t ++ clients go_id (wfd_ids ags))
                (in_group-join 0 ag.agent_id c.wfd_cln_nc) in
            rw client (o, joined_first _ _ _ _ (l ∙ first), joined_first _ _ _ _ a)
      ]

  -- With agents under their own ids, and at least one, of which those that are not Wi-Fi Direct ones
  -- were not initialised before, role assignment and then initialisation
  -- succeed. There is one group, named after the first agent, which is its owner, and all agents are
  -- its members in order; the membership map sends exactly these ids to it besides what it held.
  -- Every agent is initialised, and of the Wi-Fi Direct agents the owner is told to be the group
  -- owner and the others to be clients, so the agents agree with the group. In the containers of the
  -- group 0, the nodes of the Wi-Fi Direct agents with the owner's id stand behind the owners that
  -- were there, those of the others behind the clients, and all of them, in order, behind all nodes.
  pub do_initialization-do_role_assignment :
      (r : Registering R) (ag : Agent R) (ags : List (Agent R))
      → r.world.all_agents ≡ registry_of (ag ∷ ags)
      → AllFirst (ag ∷ ags)
      → (membership : Map String) × (c : WfdContainers) × ((do_role_assignment r
            then_if do_initialization)
          ≡ returns (
            true,
            record r {
              world = record r.world {
                all_agents = registry_of (with_roles ag.agent_id (ag ∷ ags));
              };
              wfd_groups =
                  assign ag.agent_id
                    (record {
                      group_id = ag.agent_id;
                      go = ag.agent_id;
                      members = ids_of (ag ∷ ags);
                    })
                    r.wfd_groups;
              wfd_membership = membership;
              wfd_containers = c;
            },
          ))
        × ((i : String)
            → find i membership ≡ (
                if contains i (ids_of (ag ∷ ags))
                then some ag.agent_id
                else find i r.wfd_membership))
        × Joined ag.agent_id (wfd_ids (ag ∷ ags)) r.wfd_containers c
  do_initialization-do_role_assignment r ag ags e once =
      let (membership, done, found) = do_initialization-with_nodes r ag ags e once in
      (
        membership,
        with_nodes ag.agent_id (ag ∷ ags) r.wfd_containers,
        done,
        found,
        with_nodes-Joined ag.agent_id (ag ∷ ags) r.wfd_containers,
      )
