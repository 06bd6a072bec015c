-- ===== src/Handlers/Deliveries.antt =====
-- To whom an "opaque_send" message goes (class OpaqueSendHandler of model/message/handlers.cc).
use sm4ns.Base.{
  ◌+◌, ◌%◌, ◌^◌, ◌<◌, ◌≡◌, ◌≢◌, refl, sym, ap, ◌∙◌, String, [], ◌++◌, append-nil, length, Option,
  none, some, inl, inr, Outcome, returns, arith, eq_iff,
}
use sm4ns.JsonLib.{JsonLib, IsTree, BuildsObjects, object_value}
use sm4ns.Messages.{OpaqueSendMessage, string_member}
use sm4ns.Agents.{Agent, World, get_agent}
use sm4ns.Agents.Presence.{known, get_agent-known}
use sm4ns.Handlers.{send_to_each, handle_opaque_send}
use sm4ns.Handlers.Routes.{routes, routes_to, routes_to-ext, message_routes}
use sm4ns.Agents.Presence.{AllSockets}
use sm4ns.Handlers.Recipients.{string_member-set, send_to_each_lem}

module _ (j : JsonLib) (build : BuildsObjects j) (tree : IsTree j) where
  open j use {Value, Real}

  -- What is left to do once the sender's id was read from the message.
  abbrev sent_on : OpaqueSendMessage → Value → World Real → Outcome (World Real)
  sent_on m res w = elim (get_agent m.from_id w.all_agents).0 [
    | none ↦ returns (record w { all_agents = (get_agent m.from_id w.all_agents).1 })
    | some sender ↦
        send_to_each j sender res m.to_ids
          (record w { all_agents = (get_agent m.from_id w.all_agents).1 })
  ]

  handle_opaque_send-step :
      (m : OpaqueSendMessage) (w : World Real) (v1 v2 v3 : Value)
      → j.set j.null "msg_type" (j.of_string "opaque_receive") ≡ returns v1
      → j.set v1 "from_id" (j.of_string m.from_id) ≡ returns v2
      → j.set v2 "data" (j.of_string m.content) ≡ returns v3
      → string_member j v3 "from_id" ≡ returns m.from_id
      → handle_opaque_send j m w ≡ sent_on m v3 w
  unfolding handle_opaque_send
  handle_opaque_send-step m w v1 v2 v3 set1 set2 set3 read =
      rw set1 (rw set2 (rw set3 (rw read refl)))

  -- Over a JSON library that keeps to its documentation, on a registry whose agents all have a
  -- socket, and with a packet counter below 2 ^ 32: a message from an agent of the registry is
  -- sent on by exactly one packet to each recipient that has an agent, in the order of the
  -- message; recipients that are not known, or stand there as a null entry, are passed over
  -- without a fault. A message from an unknown sender sends nothing. In both cases the handler
  -- returns, the agent known under each id is as before, and the packet counter goes up by the
  -- number of packets, modulo 2 ^ 32.
  pub handle_opaque_send-Sent :
      (m : OpaqueSendMessage) (w : World Real)
      → w.global_pckt_cnt < 2 ^ 32
      → AllSockets w.all_agents
      → (w' : World Real) × (handle_opaque_send j m w ≡ returns w')
        × (routes w'.packets ≡ routes w.packets ++ message_routes m w.all_agents)
        × ((i : String) → known i w'.all_agents ≡ known i w.all_agents)
        × (w'.global_pckt_cnt
            ≡ (w.global_pckt_cnt + length (message_routes m w.all_agents)) % 2 ^ 32)
  handle_opaque_send-Sent m w small sockets =
      let (v1, set1, k1, _) =
        build.assigned j.null "msg_type" (j.of_string "opaque_receive") (inl build.fresh) in
      let (v2, set2, k2, got) = build.assigned v1 "from_id" (j.of_string m.from_id) (inr k1) in
      let (v3, set3, k3, _) = build.assigned v2 "data" (j.of_string m.content) (inr k2) in
      let read : string_member j v3 "from_id" ≡ returns m.from_id =
        string_member-set j build tree v3 "from_id" m.from_id
          (build.kept v2 v3 "data" "from_id" (j.of_string m.content) set3 k2 apart ∙ got) in
      let go = handle_opaque_send-step m w v1 v2 v3 set1 set2 set3 read in
      by_sender v3 go k3 (known m.from_id w.all_agents) refl
    where
      apart : ◌≢◌ {A = String} "from_id" "data"
      apart q = let e = (eq_iff "from_id" "data").1 q in cc

      by_sender :
          (v3 : Value)
          → handle_opaque_send j m w ≡ sent_on m v3 w
          → j.kind v3 ≡ object_value
          → (sender : Option (Agent Real)) → known m.from_id w.all_agents ≡ sender
          → (w' : World Real) × (handle_opaque_send j m w ≡ returns w')
            × (routes w'.packets ≡ routes w.packets ++ message_routes m w.all_agents)
            × ((i : String) → known i w'.all_agents ≡ known i w.all_agents)
            × (w'.global_pckt_cnt
                ≡ (w.global_pckt_cnt + length (message_routes m w.all_agents)) % 2 ^ 32)
      by_sender v3 go k3 none e =
          let found : (get_agent m.from_id w.all_agents).0 ≡ none =
            (get_agent-known m.from_id m.from_id w.all_agents).0 ∙ e in
          let nobody : message_routes m w.all_agents ≡ [] = rw (e, message_routes) refl in
          (
            record w { all_agents = (get_agent m.from_id w.all_agents).1 },
            go ∙ rw (found, sent_on) refl,
            sym (append-nil (routes w.packets)) ∙ ap (◌++◌ (routes w.packets)) (sym nobody),
            λ i. (get_agent-known i m.from_id w.all_agents).1,
            omega (arith, ap length nobody),
          )
      by_sender v3 go k3 (some sender) e =
          let found : (get_agent m.from_id w.all_agents).0 ≡ some sender =
            (get_agent-known m.from_id m.from_id w.all_agents).0 ∙ e in
          let agents = (get_agent m.from_id w.all_agents).1 in
          let same = λ (i : String). (get_agent-known i m.from_id w.all_agents).1 in
          let all : message_routes m w.all_agents
              ≡ routes_to sender.agent_id m.to_ids w.all_agents =
            rw (e, message_routes) refl in
          let who : routes_to sender.agent_id m.to_ids agents ≡ message_routes m w.all_agents =
            routes_to-ext sender.agent_id m.to_ids agents w.all_agents same ∙ sym all in
          let (w', went, (r, a, n)) =
            send_to_each_lem j build tree sender v3 m.to_ids (record w { all_agents = agents }) k3
              small (sockets m.from_id sender e) (λ i ag f. sockets i ag (sym (same i) ∙ f)) in
          (
            w',
            go ∙ rw (found, sent_on) went,
            r ∙ ap (◌++◌ (routes w.packets)) who,
            λ i. a i ∙ same i,
            n ∙ ap (λ l. (w.global_pckt_cnt + length l) % 2 ^ 32) who,
          )
