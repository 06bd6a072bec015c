-- ===== src/Trace/Nodes.antt =====
-- When a trace can be started (start and createNodes of model/testing/rr_baseline.cc).
use sm4ns.Base.{
  ℕ, zero, suc, ◌<◌, ◌≤◌, ◌≡◌, refl, sym, ap, ◌∙◌, subst, Bool, true, ◌||◌, List, [], ◌∷◌, length,
  String, Option, returns, undefined, Returns, ◌==◌, arith,
}
use sm4ns.JsonLib.{JsonLib}
use sm4ns.Agents.{Registry}
use sm4ns.Profiler.{Clock}
use sm4ns.Trace.{Boost, TextSet, Trace, new_trace, parse}
use sm4ns.Trace.Parsed.{parse-Consistent}
use sm4ns.Trace.Playback.{RoadRunner, ids_of, create_agents, create_nodes, start}

length-ids_of : (ids : TextSet) → length (ids_of ids) ≡ length ids
length-ids_of [] = refl
length-ids_of (entry ∷ ids) = ap suc (length-ids_of ids)

abbrev pub known_protocol : String → Bool
known_protocol protocol = protocol == "80211b" || protocol == "80211p"

module _ (j : JsonLib) where
  open j use {Real}

  create_agents-Returns :
      (nodes : ℕ) (ids : List String) (agents : Registry Real)
      → nodes ≤ length ids
      → Returns (create_agents j nodes ids agents)
  unfolding create_agents
  create_agents-Returns zero ids agents h = (agents, refl)
  create_agents-Returns (suc nodes) [] agents h = absurd (omega arith)
  create_agents-Returns (suc nodes) (id ∷ ids) agents h =
      create_agents-Returns nodes ids _ (omega arith)

  create_agents-undefined :
      (nodes : ℕ) (ids : List String) (agents : Registry Real)
      → length ids < nodes
      → create_agents j nodes ids agents ≡ undefined
  unfolding create_agents
  create_agents-undefined zero ids agents h = absurd (omega arith)
  create_agents-undefined (suc nodes) [] agents h = refl
  create_agents-undefined (suc nodes) (id ∷ ids) agents h =
      create_agents-undefined nodes ids _ (omega arith)

  -- A broker for `n` agents and one of the two known protocols, whose trace file could be read: never
  -- more than `n` agents were taken. If they are exactly `n`, `start` returns; if they are fewer, it
  -- is undefined.
  pub start-agents :
      (boost : Boost Real) (file : Option (List String)) (now : Clock) (r : RoadRunner j) (n : ℕ)
      (comm loc : Bool) (t : Trace Real)
      → r.trace ≡ new_trace n comm loc
      → known_protocol r.protocol ≡ true
      → parse boost file r.trace ≡ returns t
      → (length t.agents_list ≤ n)
        × (length t.agents_list ≡ n → Returns (start j boost file now r))
        × (length t.agents_list < n → start j boost file now r ≡ undefined)
  unfolding start create_nodes
  start-agents boost file now r n comm loc t made known read =
      let h =
        (parse-Consistent boost n comm loc file).0 t (ap (parse boost file) (sym made) ∙ read) in
      let same = ap length h.same_agents in
      let count = length-ids_of t.agents_list in
      (
        subst (λ k. k ≤ n) (sym same) h.few_agents,
        (λ exact.
            let (agents, e) =
              create_agents-Returns t.max_nof_agents (ids_of t.agents_list)
                r.broker.world.all_agents (let m = h.max_kept in omega arith) in
            rw read (rw known (rw e (_, refl)))),
        (λ few.
            let e =
              create_agents-undefined t.max_nof_agents (ids_of t.agents_list)
                r.broker.world.all_agents (let m = h.max_kept in omega arith) in
            rw read (rw known (rw e refl))),
      )
