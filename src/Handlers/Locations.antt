-- ===== src/Handlers/Locations.antt =====
-- What an "all_locations" message does to the registry (model/message/handlers.cc).
use sm4ns.Base.{
  ◌≡◌, ◌⊎◌, refl, sym, ap, ◌∙◌, String, Bool, true, false, if◌then◌else◌, [], ◌∷◌, Option, none,
  some, returns, undefined, arith, ◌==◌, eq_iff, Bool-cases, inl, inr,
}
use sm4ns.Base.Maps.{Map, find, assign, find-assign}
use sm4ns.JsonLib.{JsonLib}
use sm4ns.Messages.{DPoint, AllLocationsMessage}
use sm4ns.Agents.{Agent, Registry, World, set_position, has_socket}
use sm4ns.Agents.Presence.{AllSockets, held, known}
use sm4ns.Handlers.{set_location, set_locations, handle_all_locations}

module _ {R : Type 0} where
  -- Where the last location of an agent in a message puts it.
  abbrev pub last_location : String → Map (DPoint R) → Option (DPoint R)
  last_location i [] = none
  last_location i ((id, p) ∷ rest) = elim (last_location i rest) [
    | some q ↦ some q
    | none ↦ if i == id then some p else none
  ]

  abbrev pub placed : DPoint R → Agent R → Agent R
  placed p ag = record ag { position = some (p.x, p.y) }

  abbrev pub moved : Option (DPoint R) → Option (Option (Agent R)) → Option (Option (Agent R))
  moved (some p) (some (some ag)) = some (some (placed p ag))
  moved (some p) (some none) = some none
  moved (some p) none = none
  moved none entry = entry

  -- One location is set, and the sockets stay.
  abbrev Located : String → DPoint R → Registry R → Registry R → Type 0
  Located id p agents agents' =
      (i : String) → find i agents' ≡ moved (if i == id then some p else none) (find i agents)

  unmoved :
      (i id : String) (p : DPoint R) (agents : Registry R) (entry : Option (Option (Agent R)))
      → find id agents ≡ entry
      → moved (some p) entry ≡ entry
      → find i agents ≡ moved (if i == id then some p else none) (find i agents)
  unmoved i id p agents entry e same = elim (Bool-cases (i == id)) [
    | inl here ↦ rw here (
        ap (λ k. find k agents) ((eq_iff i id).0 here)
        ∙ e
        ∙ sym same
        ∙ ap (moved (some p)) (sym e)
        ∙ ap (λ k. moved (some p) (find k agents)) (sym ((eq_iff i id).0 here)))
    | inr other ↦ rw other refl
  ]

  set_location_lem :
      (id : String) (p : DPoint R) (agents : Registry R)
      → AllSockets agents
      → (agents' : Registry R) × (set_location id p agents ≡ returns agents')
        × Located id p agents agents'
        × AllSockets agents'
  set_location_lem id p agents sockets = by_entry (find id agents) refl
    where
      there :
          (i : String) (ag : Agent R)
          → find id agents ≡ some (some ag)
          → (if i == id then some (some (placed p ag)) else find i agents)
            ≡ moved (if i == id then some p else none) (find i agents)
      there i ag e = elim (Bool-cases (i == id)) [
        | inl here ↦
            let at : find i agents ≡ some (some ag) =
              ap (λ k. find k agents) ((eq_iff i id).0 here) ∙ e in
            rw here (rw at refl)
        | inr other ↦ rw other refl
      ]

      still :
          (i : String) (ag b : Agent R)
          → find id agents ≡ some (some ag)
          → known i (assign id (some (placed p ag)) agents) ≡ some b
          → has_socket b ≡ true
      still i ag b e known_b = elim (Bool-cases (i == id)) [
        | inl here ↦
            let after : find i (assign id (some (placed p ag)) agents) ≡ some (some (placed p ag)) =
              find-assign i id (some (placed p ag)) agents ∙ rw here refl in
            sym (
              ap {B = Bool} (λ o. elim o [ none ↦ true | some c ↦ has_socket c ])
                (sym (ap held after) ∙ known_b))
            ∙ sockets id ag (rw e refl)
        | inr other ↦
            let after : find i (assign id (some (placed p ag)) agents) ≡ find i agents =
              find-assign i id (some (placed p ag)) agents ∙ rw other refl in
            sockets i b (sym (ap held after) ∙ known_b)
      ]

      by_entry :
          (entry : Option (Option (Agent R)))
          → find id agents ≡ entry
          → (agents' : Registry R) × (set_location id p agents ≡ returns agents')
            × Located id p agents agents'
            × AllSockets agents'
      by_entry none e = (
        agents,
        unfold set_location in rw (e, set_location),
        λ i. unmoved i id p agents none e refl,
        sockets,
      )
      by_entry (some none) e = (
        agents,
        unfold set_location in rw (e, set_location),
        λ i. unmoved i id p agents (some none) e refl,
        sockets,
      )
      by_entry (some (some ag)) e = (
        assign id (some (placed p ag)) agents,
        unfold set_location set_position in rw (e, set_location, sockets id ag (rw e refl)),
        λ i. find-assign i id (some (placed p ag)) agents ∙ there i ag e,
        λ i b known_b. still i ag b e known_b,
      )

  -- Setting locations after another: the last one of an agent counts.
  set_locations_lem :
      (ls : Map (DPoint R)) (agents : Registry R)
      → AllSockets agents
      → (agents' : Registry R) × (set_locations ls agents ≡ returns agents')
        × ((i : String) → find i agents' ≡ moved (last_location i ls) (find i agents))
        × AllSockets agents'
  unfolding set_locations
  set_locations_lem [] agents sockets = (agents, refl, λ i. refl, sockets)
  set_locations_lem ((id, p) ∷ rest) agents sockets =
      let (agents1, e1, located, sockets1) = set_location_lem id p agents sockets in
      let (agents2, e2, moved2, sockets2) = set_locations_lem rest agents1 sockets1 in
      (
        agents2,
        rw e1 e2,
        λ i. moved2 i ∙ ap (moved (last_location i rest)) (located i) ∙ ground arith,
        sockets2,
      )

  -- One location of an agent without a node is undefined behaviour, and the locations of others
  -- leave the agent in the registry.
  set_location-no_node :
      (i id : String) (p : DPoint R) (ag : Agent R) (agents : Registry R)
      → find i agents ≡ some (some ag)
      → has_socket ag ≡ false
      → (set_location id p agents ≡ undefined)
        ⊎ ((i == id) ≡ false)
          × (agents' : Registry R) × (set_location id p agents ≡ returns agents')
          × (find i agents' ≡ some (some ag))
  set_location-no_node i id p ag agents there bare = elim (Bool-cases (i == id)) [
    | inl here ↦
        let at : find id agents ≡ some (some ag) =
          ap (λ k. find k agents) (sym ((eq_iff i id).0 here)) ∙ there in
        inl (unfold set_location set_position in rw (at, set_location, bare))
    | inr other ↦ by_entry (find id agents) refl other
  ]
    where
      by_entry :
          (entry : Option (Option (Agent R)))
          → find id agents ≡ entry
          → (i == id) ≡ false
          → (set_location id p agents ≡ undefined)
            ⊎ ((i == id) ≡ false)
              × (agents' : Registry R) × (set_location id p agents ≡ returns agents')
              × (find i agents' ≡ some (some ag))
      by_entry none e other =
          inr (other, agents, unfold set_location in rw (e, set_location), there)
      by_entry (some none) e other =
          inr (other, agents, unfold set_location in rw (e, set_location), there)
      by_entry (some (some b)) e other = elim (Bool-cases (has_socket b)) [
        | inl up ↦ inr (
          other,
          assign id (some (placed p b)) agents,
          unfold set_location set_position in rw (e, set_location, up),
          find-assign i id (some (placed p b)) agents ∙ rw other there,
        )
        | inr down ↦ inl (unfold set_location set_position in rw (e, set_location, down))
      ]

  set_locations-no_node :
      (i : String) (q : DPoint R) (ls : Map (DPoint R)) (ag : Agent R) (agents : Registry R)
      → find i agents ≡ some (some ag)
      → has_socket ag ≡ false
      → last_location i ls ≡ some q
      → set_locations ls agents ≡ undefined
  unfolding set_locations
  set_locations-no_node i q [] ag agents there bare named = cc
  set_locations-no_node i q ((id, p) ∷ rest) ag agents there bare named =
      elim (set_location-no_node i id p ag agents there bare) [
        | inl u ↦ rw u
        | inr (other, agents', e, there') ↦
            rw e (set_locations-no_node i q rest ag agents' there' bare (behind other))
      ]
    where
      behind : (i == id) ≡ false → last_location i rest ≡ some q
      behind other = ground (arith, named, other)

module _ (j : JsonLib) where
  open j use {Real}

  -- If every agent of the registry has a socket (and so a node), an "all_locations" message is
  -- handled without a fault. It moves an agent of the registry to its last location in the message,
  -- adds no agent, removes none, and leaves alone every agent that it does not name; ids that are
  -- not in the registry and null entries are passed over. No packet is sent, and all agents still
  -- have their sockets.
  pub handle_all_locations_lem :
      (m : AllLocationsMessage Real) (w : World Real)
      → AllSockets w.all_agents
      → (w' : World Real) × (handle_all_locations j m w ≡ returns w')
        × ((i : String)
            → find i w'.all_agents
              ≡ moved (last_location i m.agent_locations) (find i w.all_agents))
        × (w'.packets ≡ w.packets)
        × AllSockets w'.all_agents
  unfolding handle_all_locations
  handle_all_locations_lem m w sockets =
      let (agents, e, located, sockets') =
        set_locations_lem m.agent_locations w.all_agents sockets in
      (record w { all_agents = agents }, rw e, located, refl, sockets')

  -- An "all_locations" message that names an agent of the registry which has no node is undefined
  -- behaviour, whatever else it names.
  pub handle_all_locations-undefined :
      (i : String) (q : DPoint Real) (ag : Agent Real) (m : AllLocationsMessage Real)
      (w : World Real)
      → find i w.all_agents ≡ some (some ag)
      → has_socket ag ≡ false
      → last_location i m.agent_locations ≡ some q
      → handle_all_locations j m w ≡ undefined
  unfolding handle_all_locations
  handle_all_locations-undefined i q ag m w there bare named =
      rw (set_locations-no_node i q m.agent_locations ag w.all_agents there bare named)
