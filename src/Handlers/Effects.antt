-- ===== src/Handlers/Effects.antt =====
-- What a "new_agents" message does to the registry (model/message/handlers.cc).
use sm4ns.Base.{
  ◌≡◌, refl, ap, ◌∙◌, String, Bool, true, false, ◌||◌, if◌then◌else◌, List, [], ◌∷◌, none, some,
  returns, arith, ◌==◌, eq_iff,
}
use sm4ns.Base.Maps.{find}
use sm4ns.JsonLib.{JsonLib}
use sm4ns.Messages.{AgentsInfoMessage}
use sm4ns.Agents.{Agent, Registry, World, plain, create_agent, add_agent}
use sm4ns.Agents.Presence.{NoNull, add_agent-NoNull, remove_agent-NoNull}
use sm4ns.Handlers.{add_new_agents, remove_agents, handle_agents_info}

abbrev pub contains : String → List String → Bool
contains i [] = false
contains i (id ∷ ids) = i == id || contains i ids

module _ {R : Type 0} where
  -- The agent that the handler makes for an id.
  abbrev pub new_agent : String → Agent R
  new_agent id = record (create_agent id plain) { ready = true }

  add_new_agents-NoNull :
      (ids : List String) (agents : Registry R) → NoNull agents → NoNull (add_new_agents ids agents)
  unfolding add_new_agents
  add_new_agents-NoNull [] agents h = h
  add_new_agents-NoNull (id ∷ ids) agents h =
      add_new_agents-NoNull ids (add_agent id (new_agent id) agents)
        (λ k. (add_agent-NoNull k id (new_agent id) agents h).0)

  -- Who is there stays, and the new ids get new agents.
  add_new_agents_lem :
      (i : String) (ids : List String) (agents : Registry R)
      → NoNull agents
      → find i (add_new_agents ids agents) ≡ elim (find i agents) [
        | some old ↦ some old
        | none ↦ if contains i ids then some (some (new_agent i)) else none
      ]
  unfolding add_new_agents
  add_new_agents_lem i [] agents h = ground arith
  add_new_agents_lem i (id ∷ ids) agents h = ground (
    arith,
    add_new_agents_lem i ids (add_agent id (new_agent id) agents)
        (λ k. (add_agent-NoNull k id (new_agent id) agents h).0),
    (add_agent-NoNull i id (new_agent id) agents h).1,
    eq_iff i id,
  )

  remove_agents_lem :
      (i : String) (ids : List String) (agents : Registry R)
      → NoNull agents
      → (agents' : Registry R) × (remove_agents ids agents ≡ returns agents')
        × (find i agents' ≡ (if contains i ids then none else find i agents))
        × NoNull agents'
  unfolding remove_agents
  remove_agents_lem i [] agents h = (agents, refl, refl, h)
  remove_agents_lem i (id ∷ ids) agents h =
      let (agents1, e1, f1, h1) = remove_agent-NoNull i id agents h in
      let (agents2, e2, f2, h2) = remove_agents_lem i ids agents1 h1 in
      (agents2, rw e1 e2, f2 ∙ ground (arith, f1), h2)

module _ (j : JsonLib) where
  open j use {Value, Real}

  -- On a registry without null entries, a "new_agents" message is handled without a fault. Then
  -- every id of the remove list is gone, also one that was just added; any other id keeps its agent
  -- if it had one, and has a new, initialised agent if it is in the add list. There is still no null
  -- entry, and no packet is sent.
  pub handle_agents_info-NoNull :
      (i : String) (m : AgentsInfoMessage) (w : World Real)
      → NoNull w.all_agents
      → (w' : World Real) × (handle_agents_info j m w ≡ returns w')
        × (find i w'.all_agents ≡ (
            if contains i m.rem_agent_ids then none else elim (find i w.all_agents) [
              | some old ↦ some old
              | none ↦ if contains i m.add_agent_ids then some (some (new_agent i)) else none
            ]))
        × NoNull w'.all_agents
        × (w'.packets ≡ w.packets)
  unfolding handle_agents_info
  handle_agents_info-NoNull i m w h =
      let added = add_new_agents m.add_agent_ids w.all_agents in
      let (agents, e, f, n) =
        remove_agents_lem i m.rem_agent_ids added
          (add_new_agents-NoNull m.add_agent_ids w.all_agents h) in
      (
        record w { all_agents = agents },
        rw e,
        f
            ∙ ap (λ x. if contains i m.rem_agent_ids then none else x)
                (add_new_agents_lem i m.add_agent_ids w.all_agents h),
        n,
        refl,
      )
