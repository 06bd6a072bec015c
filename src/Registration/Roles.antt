-- ===== src/Registration/Roles.antt =====
-- The roles of a Wi-Fi Direct group (model/network/registration.cc, model/smb_agent.cc): what the
-- registration tells the server, and what the agents are told.
use sm4ns.Base.{
  ◌≡◌, refl, ap, ◌∙◌, Bool, true, false, All, if◌then◌else◌, String, List, [], ◌∷◌, some, returns,
  ◌==◌, arith, eq_iff,
}
use sm4ns.Base.Maps.{Map, find, assign, find-assign}
use sm4ns.Agents.{Agent, AgentClass, Registry, plain, wfd, wfd_go, wfd_client}
use sm4ns.Agents.Groups.{WfdContainers, first_id, figure_out_group, init, wfd_init, add_node}
use sm4ns.Registration.{
  Registering, init_each, do_initialization, join_group, do_role_assignment, ◌then_if◌,
}
use sm4ns.Handlers.Effects.{contains}

-- The class of an agent in the group of `go_id`.
abbrev pub class_in : String → String → AgentClass → AgentClass
class_in go_id id plain = plain
class_in go_id id (wfd role) = wfd (some ((if id == go_id then wfd_go else wfd_client), 0))

-- The containers when such an agent has been initialised.
abbrev pub node_of : String → String → AgentClass → WfdContainers → WfdContainers
node_of go_id id plain c = c
node_of go_id id (wfd role) c = add_node (if id == go_id then wfd_go else wfd_client) 0 id c

-- Whether an agent would have its internet stack installed for the second time.
abbrev pub installs_again : AgentClass → Bool → Bool
installs_again plain ready = ready
installs_again (wfd role) ready = false

module _ {R : Type 0} where
  -- No agent has been given its internet stack.
  abbrev pub AllFirst : List (Agent R) → Type 0
  AllFirst ags = All (λ ag. installs_again ag.class_of ag.ready ≡ false) ags

  -- Agents under their own ids.
  abbrev pub registry_of : List (Agent R) → Registry R
  registry_of [] = []
  registry_of (ag ∷ ags) = (ag.agent_id, some ag) ∷ registry_of ags

  abbrev pub ids_of : List (Agent R) → List String
  ids_of [] = []
  ids_of (ag ∷ ags) = ag.agent_id ∷ ids_of ags

  abbrev pub with_roles : String → List (Agent R) → List (Agent R)
  with_roles go_id [] = []
  with_roles go_id (ag ∷ ags) =
      record ag { class_of = class_in go_id ag.agent_id ag.class_of; ready = true }
      ∷ with_roles go_id ags

  -- The containers when these agents have been initialised.
  abbrev pub with_nodes : String → List (Agent R) → WfdContainers → WfdContainers
  with_nodes go_id [] c = c
  with_nodes go_id (ag ∷ ags) c = with_nodes go_id ags (node_of go_id ag.agent_id ag.class_of c)

  init_lem :
      (all_agents : Registry R) (go_id : String) (ag : Agent R) (c : WfdContainers)
      → first_id all_agents ≡ returns go_id
      → installs_again ag.class_of ag.ready ≡ false
      → init all_agents ag c
        ≡ returns (
          record ag { class_of = class_in go_id ag.agent_id ag.class_of; ready = true },
          node_of go_id ag.agent_id ag.class_of c,
        )
  init_lem all_agents go_id ag c first once = by_class ag.class_of refl once
    where
      by_class :
          (k : AgentClass)
          → ag.class_of ≡ k
          → installs_again k ag.ready ≡ false
          → init all_agents ag c
            ≡ returns (
              record ag { class_of = class_in go_id ag.agent_id ag.class_of; ready = true },
              node_of go_id ag.agent_id ag.class_of c,
            )
      by_class plain e first_time =
          unfold init in
          rw (e, init)
            (rw first_time (ap (λ k. returns (record ag { class_of = k; ready = true }, c)) e))
      by_class (wfd role) e first_time =
          unfold init wfd_init figure_out_group in rw (e, init) (rw first refl)

  init_each_lem :
      (all_agents : Registry R) (go_id : String) (ags : List (Agent R)) (c : WfdContainers)
      → first_id all_agents ≡ returns go_id
      → AllFirst ags
      → init_each all_agents (registry_of ags) c
        ≡ returns (registry_of (with_roles go_id ags), with_nodes go_id ags c)
  unfolding init_each
  init_each_lem all_agents go_id [] c first once = refl
  init_each_lem all_agents go_id (ag ∷ ags) c first (here, later) = rw (
    init_lem all_agents go_id ag c first here,
    init_each_lem all_agents go_id ags (node_of go_id ag.agent_id ag.class_of c) first later,
  )

  join_group_lem :
      (i group_id : String) (ags : List (Agent R)) (membership : Map String)
      → (membership' : Map String) × (join_group group_id (registry_of ags) membership
          ≡ returns (ids_of ags, membership'))
        × ((i : String)
            → find i membership'
              ≡ (if contains i (ids_of ags) then some group_id else find i membership))
  unfolding join_group
  join_group_lem i group_id [] membership = (membership, refl, λ i. refl)
  join_group_lem i group_id (ag ∷ ags) membership =
      let (m, e, f) = join_group_lem i group_id ags (assign ag.agent_id group_id membership) in
      (
        m,
        rw e,
        λ i.
            f i
            ∙ ground (arith, find-assign i ag.agent_id group_id membership, eq_iff i ag.agent_id),
      )

  -- Role assignment and then initialisation, with the containers as the agents fill them.
  pub do_initialization-with_nodes :
      (r : Registering R) (ag : Agent R) (ags : List (Agent R))
      → r.world.all_agents ≡ registry_of (ag ∷ ags)
      → AllFirst (ag ∷ ags)
      → (membership : Map String) × ((do_role_assignment r then_if do_initialization)
          ≡ returns (
            true,
            record r {
              world = record r.world {
                all_agents = registry_of (with_roles ag.agent_id (ag ∷ ags));
              };
              wfd_groups =
                  assign ag.agent_id
                    (record {
                      group_id = ag.agent_id;
                      go = ag.agent_id;
                      members = ids_of (ag ∷ ags);
                    })
                    r.wfd_groups;
              wfd_membership = membership;
              wfd_containers = with_nodes ag.agent_id (ag ∷ ags) r.wfd_containers;
            },
          ))
        × ((i : String)
            → find i membership ≡ (
                if contains i (ids_of (ag ∷ ags))
                then some ag.agent_id
                else find i r.wfd_membership))
  unfolding do_role_assignment do_initialization
  do_initialization-with_nodes r ag ags e once =
      let all_agents = registry_of (ag ∷ ags) in
      let (membership, joined, found) =
        join_group_lem ag.agent_id ag.agent_id (ag ∷ ags) r.wfd_membership in
      let first : first_id all_agents ≡ returns ag.agent_id = unfold first_id in refl in
      (
        membership,
        rw e (
            rw (
              first,
              joined,
              init_each_lem all_agents ag.agent_id (ag ∷ ags) r.wfd_containers first once,
            )),
        found,
      )
