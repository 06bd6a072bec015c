-- ===== src/Agents/Presence.antt =====
-- Which agents the registry holds (model/smb_agent.cc: AddAgent, getAgent, RemoveAgent).
use sm4ns.Base.{
  ◌≡◌, ◌≢◌, refl, ◌∙◌, String, if◌then◌else◌, Option, none, some, returns, undefined, arith, true,
  ◌==◌, eq_iff, eq_refl, Option-cases, inl, inr,
}
use sm4ns.Base.Maps.{find, erase, find-assign, find-insert, find-erase}
use sm4ns.Agents.{Agent, Registry, add_agent, get_agent, remove_agent, has_socket}

module _ {R : Type 0} where
  -- No entry of the registry is a null pointer.
  abbrev pub NoNull : Registry R → Type 0
  NoNull agents = (id : String) → find id agents ≢ some none

  abbrev pub held : Option (Option (Agent R)) → Option (Agent R)
  held none = none
  held (some ag) = ag

  -- The agent under an id, if there is an entry that is not null.
  abbrev pub known : String → Registry R → Option (Agent R)
  known id agents = held (find id agents)

  -- Every agent of the registry has a socket and an address.
  abbrev pub AllSockets : Registry R → Type 0
  AllSockets agents = (i : String) (ag : Agent R) → known i agents ≡ some ag → has_socket ag ≡ true

  -- A call of getAgent gives the agent under the id, and changes nobody's agent.
  pub get_agent-known :
      (i id : String) (agents : Registry R)
      → ((get_agent id agents).0 ≡ known id agents)
        × (known i (get_agent id agents).1 ≡ known i agents)
  unfolding get_agent
  get_agent-known i id agents = elim (Option-cases (find id agents)) [
    | inl e ↦ rw (e, get_agent) (refl, ground (arith, find-assign i id none agents, eq_iff i id))
    | inr (ag, e) ↦ rw (e, get_agent) (refl, refl)
  ]

  -- An id that is looked up before its agent is added never gets the agent: the null entry of the
  -- lookup stays, and RemoveAgent then goes through a null pointer.
  pub add_agent-get_agent :
      (id : String) (ag : Agent R) (agents : Registry R)
      → find id agents ≡ none
      → (find id (add_agent id ag (get_agent id agents).1) ≡ some none)
        × (remove_agent id (add_agent id ag (get_agent id agents).1) ≡ undefined)
  add_agent-get_agent id ag agents missing =
      (stays, unfold remove_agent in rw (stays, remove_agent))
    where
      entry : find id (get_agent id agents).1 ≡ some none
      entry =
          unfold get_agent in
          rw (missing, get_agent) (find-assign id id none agents ∙ rw (eq_refl id))

      stays : find id (add_agent id ag (get_agent id agents).1) ≡ some none
      stays =
          unfold add_agent in
          find-insert id id (some ag) (get_agent id agents).1 ∙ rw (eq_refl id, entry)

  -- Adding an agent keeps the registry free of null entries. It has no effect on an id that is
  -- there, and makes the agent known under an id that is not.
  pub add_agent-NoNull :
      (i id : String) (ag : Agent R) (agents : Registry R)
      → NoNull agents
      → (find i (add_agent id ag agents) ≢ some none)
        × (find i (add_agent id ag agents) ≡ elim (find i agents) [
          | some old ↦ some old
          | none ↦ if i == id then some (some ag) else none
        ])
  unfolding add_agent
  add_agent-NoNull i id ag agents no_null =
      ground (arith, find-insert i id (some ag) agents, eq_iff i id, no_null i)

  -- On a registry without null entries RemoveAgent returns, whether the id is there or not; after
  -- it the id is gone, every other id is as before, and there is still no null entry.
  pub remove_agent-NoNull :
      (i id : String) (agents : Registry R)
      → NoNull agents
      → (agents' : Registry R) × (remove_agent id agents ≡ returns agents')
        × (find i agents' ≡ (if i == id then none else find i agents))
        × NoNull agents'
  remove_agent-NoNull i id agents no_null = by_entry (find id agents) refl
    where
      by_entry :
          (entry : Option (Option (Agent R)))
          → find id agents ≡ entry
          → (agents' : Registry R) × (remove_agent id agents ≡ returns agents')
            × (find i agents' ≡ (if i == id then none else find i agents))
            × NoNull agents'
      by_entry none e = (
        agents,
        unfold remove_agent in rw (e, remove_agent),
        ground (arith, eq_iff i id),
        no_null,
      )
      by_entry (some none) e = absurd (no_null id e)
      by_entry (some (some ag)) e = (
        erase id agents,
        unfold remove_agent in rw (e, remove_agent),
        find-erase i id agents,
        λ k null. ground (arith, find-erase k id agents, no_null k),
      )
