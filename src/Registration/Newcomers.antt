-- ===== src/Registration/Newcomers.antt =====
-- The agents of a default registration (doAGENTS_INFO and doInitialization of
-- model/network/registration.cc).
use sm4ns.Base.{
  ◌≡◌, refl, ap, ◌∙◌, ◌||◌, String, List, [], ◌∷◌, if◌then◌else◌, none, some, returns, arith, ◌==◌,
  eq_iff, Option-cases, inl, inr,
}
use Prim.Native.Nat.{Ordering}
use Prim.Native.String.{compare}
use sm4ns.Base.Maps.{find, assign, insert}
use sm4ns.Agents.{Registry, plain, create_agent, add_agent}
use sm4ns.Agents.Groups.{WfdContainers, init}
use sm4ns.Registration.{add_application_agents, init_each}
use sm4ns.Handlers.Effects.{contains, new_agent}

module _ {R : Type 0} where
  -- Agents that CreateObject<Agent> has made, none of them initialised.
  abbrev pub fresh_of : List String → Registry R
  fresh_of [] = []
  fresh_of (id ∷ ids) = (id, some (create_agent id plain)) ∷ fresh_of ids

  -- The same agents after doInitialization.
  abbrev pub ready_of : List String → Registry R
  ready_of [] = []
  ready_of (id ∷ ids) = (id, some (new_agent id)) ∷ ready_of ids

  find-fresh_of :
      (i : String) (ids : List String)
      → find i (fresh_of ids)
        ≡ (if contains i ids then some (some (create_agent i plain)) else none)
  unfolding find
  find-fresh_of i [] = refl
  find-fresh_of i (id ∷ ids) = ground (arith, eq_iff i id, find-fresh_of i ids)

  -- The ids after one more.
  abbrev Joined : String → List String → Registry R → Type 0
  Joined id ids agents =
      (ids' : List String) × (agents ≡ fresh_of ids')
      × ((i : String) → contains i ids' ≡ (i == id || contains i ids))

  place :
      (o : Ordering) (id k : String) (ids : List String) (behind : Registry R)
      → (o ≡ Ordering.eq → id ≡ k)
      → Joined id ids behind
      → Joined id (k ∷ ids) (elim o as (λ x. Registry R) [
        | Ordering.lt ↦
            (id, some (create_agent id plain)) ∷ (k, some (create_agent k plain)) ∷ fresh_of ids
        | Ordering.eq ↦ (id, some (create_agent id plain)) ∷ fresh_of ids
        | Ordering.gt ↦ (k, some (create_agent k plain)) ∷ behind
      ])
  place Ordering.lt id k ids behind same (ids', e, c) = (id ∷ k ∷ ids, refl, λ i. refl)
  place Ordering.eq id k ids behind same (ids', e, c) =
      (id ∷ ids, refl, λ i. ground (arith, same refl))
  place Ordering.gt id k ids behind same (ids', e, c) =
      (k ∷ ids', ap (◌∷◌ (k, some (create_agent k plain))) e, λ i. ground (arith, c i))

  -- A new agent goes to its place in the order of the ids.
  assign-fresh_of :
      (id : String) (ids : List String)
      → Joined id ids (assign id (some (create_agent id plain)) (fresh_of ids))
  unfolding assign
  assign-fresh_of id [] = (id ∷ [], refl, λ i. refl)
  assign-fresh_of id (k ∷ ids) =
      place (compare id k) id k ids _ (λ e. (eq_iff id k).0 (rw e refl)) (assign-fresh_of id ids)

  add_agent-fresh_of :
      (id : String) (ids : List String)
      → Joined id ids (add_agent id (create_agent id plain) (fresh_of ids))
  add_agent-fresh_of id ids = elim (Option-cases (find id (fresh_of ids))) [
    | inl missing ↦ unfold add_agent insert in rw (missing, insert) (assign-fresh_of id ids)
    | inr (old, there) ↦ (
      ids,
      unfold add_agent insert in rw (there, insert) refl,
      λ i. ground (arith, eq_iff i id, find-fresh_of id ids, there),
    )
  ]

  pub add_application_agents-fresh :
      (ids old : List String)
      → (ids' : List String) × (add_application_agents "Default" ids (fresh_of old)
          ≡ returns (fresh_of ids'))
        × ((i : String) → contains i ids' ≡ (contains i old || contains i ids))
  unfolding add_application_agents
  add_application_agents-fresh [] old = (old, refl, λ i. ground arith)
  add_application_agents-fresh (id ∷ ids) old =
      let (ids1, e1, c1) = add_agent-fresh_of id old in
      let (ids2, e2, c2) = add_application_agents-fresh ids ids1 in
      (ids2, ap (add_application_agents "Default" ids) e1 ∙ e2, λ i. ground (arith, c1 i, c2 i))

  pub find-ready_of :
      (i : String) (ids : List String)
      → find i (ready_of ids) ≡ (if contains i ids then some (some (new_agent i)) else none)
  unfolding find
  find-ready_of i [] = refl
  find-ready_of i (id ∷ ids) = ground (arith, eq_iff i id, find-ready_of i ids)

  pub init_each-fresh :
      (all_agents : Registry R) (ids : List String) (c : WfdContainers)
      → init_each all_agents (fresh_of ids) c ≡ returns (ready_of ids, c)
  unfolding init_each init
  init_each-fresh all_agents [] c = refl
  init_each-fresh all_agents (id ∷ ids) c = rw (init_each-fresh all_agents ids c) refl
