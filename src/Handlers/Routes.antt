-- ===== src/Handlers/Routes.antt =====
-- The way of a packet: who sends it, and to whom (Agent::SendTo of model/smb_agent.cc).
use sm4ns.Base.{◌≡◌, refl, ap, ◌∙◌, String, List, [], ◌∷◌, ◌++◌, none, some}
use sm4ns.Messages.{OpaqueSendMessage}
use sm4ns.Agents.{Agent, Registry, Packet}
use sm4ns.Agents.Presence.{known}

-- Who sent each packet, and to whom.
abbrev pub routes : List Packet → List (String × String)
routes [] = []
routes (p ∷ ps) = (p.sender, p.recipient) ∷ routes ps

pub routes-append :
    (ps : List Packet) (p : Packet)
    → routes (ps ++ p ∷ []) ≡ routes ps ++ (p.sender, p.recipient) ∷ []
routes-append [] p = refl
routes-append (q ∷ ps) p = ap (λ r. (q.sender, q.recipient) ∷ r) (routes-append ps p)

module _ {R : Type 0} where
  -- The routes from a sender to the ids that have an agent, in order.
  abbrev pub routes_to : String → List String → Registry R → List (String × String)
  routes_to sender [] agents = []
  routes_to sender (id ∷ ids) agents =
      let rest = routes_to sender ids agents in
      elim (known id agents) [ none ↦ rest | some ag ↦ (sender, ag.agent_id) ∷ rest ]

  -- The routes of a message.
  abbrev pub message_routes : OpaqueSendMessage → Registry R → List (String × String)
  message_routes m agents = elim (known m.from_id agents) [
    | none ↦ []
    | some sender ↦ routes_to sender.agent_id m.to_ids agents
  ]

  pub routes_to-ext :
      (sender : String) (ids : List String) (a b : Registry R)
      → ((i : String) → known i a ≡ known i b)
      → routes_to sender ids a ≡ routes_to sender ids b
  routes_to-ext sender [] a b same = refl
  routes_to-ext sender (id ∷ ids) a b same =
      ap
        (λ k. elim k as (λ x. List (String × String)) [
          | none ↦ routes_to sender ids a
          | some ag ↦ (sender, ag.agent_id) ∷ routes_to sender ids a
        ])
        (same id)
      ∙ ap
          (λ r. elim (known id b) as (λ x. List (String × String)) [
            | none ↦ r
            | some ag ↦ (sender, ag.agent_id) ∷ r
          ])
          (routes_to-ext sender ids a b same)

  pub routes_to-unknown :
      (sender id : String) (ids : List String) (agents : Registry R)
      → known id agents ≡ none
      → routes_to sender (id ∷ ids) agents ≡ routes_to sender ids agents
  routes_to-unknown sender id ids agents e = rw (e, routes_to) refl

  pub routes_to-known :
      (sender id : String) (ids : List String) (agents : Registry R) (ag : Agent R)
      → known id agents ≡ some ag
      → routes_to sender (id ∷ ids) agents ≡ (sender, ag.agent_id) ∷ routes_to sender ids agents
  routes_to-known sender id ids agents ag e = rw (e, routes_to) refl
