-- ===== src/Registration/Networks.antt =====
-- The network that a Wi-Fi Direct registration makes (model/network/registration.cc, configAll of
-- model/smb_agent.cc), and the group that it tells the server.
use sm4ns.Base.{
  ℕ, ◌≡◌, refl, sym, ap, ◌∙◌, true, false, if◌then◌else◌, String, List, [], ◌∷◌, ◌++◌, append_assoc,
  append-nil, Option, returns, All, arith, Outcome, Bool, ◌==◌, eq_iff, eq_refl, codes,
}
use sm4ns.Base.Maps.{assign}
use sm4ns.Base.Integers.{print_nat, decimal_text}
use sm4ns.JsonLib.{JsonLib, IsTree, BuildsObjects, ReadsMembers, BuildsArrays}
use sm4ns.Serialize.{OngoingSerialization, new_serialization, serialize_begin}
use sm4ns.Make.{WfdGroup, make_go_client}
use sm4ns.Session.{Session}
use sm4ns.Header.{blank}
use sm4ns.Agents.{Agent, World, AgentRole, wfd, wfd_go, wfd_client}
use sm4ns.Agents.Groups.{
  WfdContainers, WfdNetwork, no_containers, in_group, join, touch, add_node, config_group,
  config_from, config_all,
}
use sm4ns.Registration.{
  Registering, begun, do_role_assignment, do_initialization, ◌then_if◌, do_wfd_initialization,
  send_groups, configure_networks,
}
use sm4ns.Registration.Answers.{counts, with_sent, end_and_send-open, make_go_client-Returns}
use sm4ns.Registration.Nodes.{in_group-join}
use sm4ns.Registration.Roles.{
  installs_again, AllFirst, registry_of, ids_of, with_roles, with_nodes, node_of,
  do_initialization-with_nodes,
}
use sm4ns.Handlers.Effects.{contains}

-- The network of an owner and its clients.
abbrev pub network_of : String → List String → WfdNetwork
network_of go_id clients = record {
  ssid = codes "WFD-GRP-0";
  access_point = go_id;
  stations = clients;
  nodes = go_id ∷ clients;
}

config_all-owner :
    (go_id : String) (clients : List String) (c : WfdContainers)
    → c.wfd_go_nc ≡ (0, go_id ∷ []) ∷ []
    → in_group 0 c.wfd_cln_nc ≡ clients
    → config_all c
      ≡ returns (network_of go_id clients ∷ [], record c { wfd_cln_nc = touch 0 c.wfd_cln_nc })
unfolding config_all config_from config_group in_group
config_all-owner go_id clients c owner others =
    let text : print_nat 0 ≡ codes "0" = unfold print_nat decimal_text in refl in
    rw owner (rw (others, text) refl)

module _ {R : Type 0} where
  abbrev pub AllWfd : List (Agent R) → Type 0
  AllWfd ags = All (λ ag. (role : Option (AgentRole × ℕ)) × (ag.class_of ≡ wfd role)) ags

  AllWfd-AllFirst : (ags : List (Agent R)) → AllWfd ags → AllFirst ags
  AllWfd-AllFirst [] wfds = tt
  AllWfd-AllFirst (ag ∷ ags) ((role, e), wfds) =
      (ap (λ k. installs_again k ag.ready) e, AllWfd-AllFirst ags wfds)

  with_nodes-wfd :
      (go_id : String) (ag : Agent R) (ags : List (Agent R)) (c : WfdContainers) (role : AgentRole)
      → ((old : Option (AgentRole × ℕ)) × (ag.class_of ≡ wfd old))
      → (if ag.agent_id == go_id then wfd_go else wfd_client) ≡ role
      → with_nodes go_id (ag ∷ ags) c ≡ with_nodes go_id ags (add_node role 0 ag.agent_id c)
  with_nodes-wfd go_id ag ags c role (old, e) is_role =
      ap (λ k. with_nodes go_id ags (node_of go_id ag.agent_id k c)) e
      ∙ ap (λ k. with_nodes go_id ags (add_node k 0 ag.agent_id c)) is_role

  -- Agents that are not the group owner.
  with_nodes-clients :
      (go_id : String) (ags : List (Agent R)) (c : WfdContainers)
      → AllWfd ags
      → contains go_id (ids_of ags) ≡ false
      → ((with_nodes go_id ags c).wfd_go_nc ≡ c.wfd_go_nc)
        × (in_group 0 (with_nodes go_id ags c).wfd_cln_nc ≡ in_group 0 c.wfd_cln_nc ++ ids_of ags)
  unfolding add_node
  with_nodes-clients go_id [] c wfds apart = (refl, sym (append-nil _))
  with_nodes-clients go_id (ag ∷ ags) c (is_wfd, wfds) apart =
      let client : (if ag.agent_id == go_id then wfd_go else wfd_client) ≡ wfd_client =
        ground (arith, apart, eq_iff ag.agent_id go_id, eq_iff go_id ag.agent_id) in
      let rest : contains go_id (ids_of ags) ≡ false = ground (arith, apart) in
      let (same, more) =
        with_nodes-clients go_id ags (add_node wfd_client 0 ag.agent_id c) wfds rest in
      let step = with_nodes-wfd go_id ag ags c wfd_client is_wfd client in
      (
        ap (λ x. x.wfd_go_nc) step ∙ same,
        ap (λ x. in_group 0 x.wfd_cln_nc) step
            ∙ more
            ∙ ap (λ l. l ++ ids_of ags) (in_group-join 0 ag.agent_id c.wfd_cln_nc)
            ∙ append_assoc (in_group 0 c.wfd_cln_nc) (ag.agent_id ∷ []) (ids_of ags),
      )

  config_all-with_nodes :
      (ag : Agent R) (ags : List (Agent R))
      → AllWfd (ag ∷ ags)
      → contains ag.agent_id (ids_of ags) ≡ false
      → (c : WfdContainers) × (config_all (with_nodes ag.agent_id (ag ∷ ags) no_containers)
          ≡ returns (network_of ag.agent_id (ids_of ags) ∷ [], c))
  config_all-with_nodes ag ags (is_wfd, wfds) apart =
      let start = add_node wfd_go 0 ag.agent_id no_containers in
      let go : (if ag.agent_id == ag.agent_id then wfd_go else wfd_client) ≡ wfd_go =
        rw (eq_refl ag.agent_id) refl in
      let step = with_nodes-wfd ag.agent_id ag ags no_containers wfd_go is_wfd go in
      let (owners, clients) = with_nodes-clients ag.agent_id ags start wfds apart in
      (
        _,
        ap config_all step
            ∙ config_all-owner ag.agent_id (ids_of ags) (with_nodes ag.agent_id ags start)
                (owners ∙ unfold add_node join in refl)
                (clients ∙ unfold add_node in_group in refl),
      )

  -- The group of an owner and its clients.
  abbrev pub group_of : Agent R → List (Agent R) → WfdGroup
  group_of ag ags = record { group_id = ag.agent_id; go = ag.agent_id; members = ids_of (ag ∷ ags) }

module _ (j : JsonLib) (tree : IsTree j) (build : BuildsObjects j) (members : ReadsMembers j)
    (arrays : BuildsArrays j) where
  open j use {Real}

  -- The settings are made only after a message that was sent.
  settle :
      (m : Outcome (Bool × Registering Real)) (ok : Bool) (r : Registering Real) (c : WfdContainers)
      (network : WfdNetwork)
      → m ≡ returns (ok, r)
      → config_all r.wfd_containers ≡ returns (network ∷ [], c)
      → r.networks ≡ []
      → (r' : Registering Real) × ((m then_if configure_networks j) ≡ returns (ok, r'))
        × (r'.session ≡ r.session)
        × (r'.world ≡ r.world)
        × (r'.networks ≡ (if ok then network ∷ [] else []))
  unfolding configure_networks
  settle m true r c network e config fresh = (
    record r { networks = network ∷ []; wfd_containers = c },
    rw e (rw (config, fresh) refl),
    refl,
    refl,
    refl,
  )
  settle m false r c network e config fresh = (r, rw e refl, refl, refl, fresh)

  -- Wi-Fi Direct agents under their own ids, at least one, the first's id not among the others',
  -- and an open socket: then the initialisation of a registration that has just begun comes to an
  -- end. It sends one bundle, with a message made of one group that has the first agent as its owner
  -- and all of them as members. If the number of bytes written counts as true, the initialisation
  -- succeeds, and then ns-3 has been given exactly one network, with the first agent as the access
  -- point and the others as its stations; else it fails, and there is no network. In both cases the
  -- agents have been told their roles.
  pub do_wfd_initialization-network :
      (session : Session) (world : World Real) (application : String) (ag : Agent Real)
      (ags : List (Agent Real))
      → world.all_agents ≡ registry_of (ag ∷ ags)
      → AllWfd (ag ∷ ags)
      → contains ag.agent_id (ids_of ags) ≡ false
      → session.socket_open ≡ true
      → (answer : OngoingSerialization) × (r : Registering Real) × (make_go_client j
            ((ag.agent_id, group_of ag ags) ∷ [])
            (serialize_begin new_serialization)
          ≡ returns answer)
        × (do_wfd_initialization j (begun session world application) ≡ returns (counts answer, r))
        × (r.session ≡ with_sent answer session)
        × (r.world ≡ record world { all_agents = registry_of (with_roles ag.agent_id (ag ∷ ags)) })
        × (r.networks ≡ (if counts answer then network_of ag.agent_id (ids_of ags) ∷ [] else []))
  unfolding do_wfd_initialization send_groups configure_networks assign
  do_wfd_initialization-network session world application ag ags e wfds apart up =
      let (membership, assigned, _) =
        do_initialization-with_nodes (begun session world application) ag ags e
          (AllWfd-AllFirst (ag ∷ ags) wfds) in
      let (answer, made) =
        make_go_client-Returns j tree build members arrays ag.agent_id ag.agent_id (ids_of ags)
          (group_of ag ags) (serialize_begin new_serialization) refl in
      let (c, config) = config_all-with_nodes ag ags wfds apart in
      let r1 = record (begun session world application) {
        world = record world { all_agents = registry_of (with_roles ag.agent_id (ag ∷ ags)) };
        wfd_groups = (ag.agent_id, group_of ag ags) ∷ [];
        wfd_membership = membership;
        wfd_containers = with_nodes ag.agent_id (ag ∷ ags) no_containers;
      } in
      let sent : send_groups j r1
          ≡ returns (counts answer, record r1 { session = with_sent answer session }) =
        rw made (end_and_send-open j blank answer r1 up) in
      let (r, done, to_session, to_world, to_networks) =
        settle
          (do_role_assignment (begun session world application)
            then_if do_initialization
            then_if send_groups j)
          (counts answer) (record r1 { session = with_sent answer session }) c
          (network_of ag.agent_id (ids_of ags)) (rw assigned sent) config refl in
      (answer, r, made, done, to_session, to_world, to_networks)
