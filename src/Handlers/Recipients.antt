-- ===== src/Handlers/Recipients.antt =====
-- The loop over the recipients of an "opaque_send" message (model/message/handlers.cc).
use sm4ns.Base.{
  true, ◌+◌, ◌%◌, ◌^◌, ◌<◌, ◌≡◌, refl, sym, ap, ◌∙◌, not, String, List, [], ◌∷◌, ◌++◌, append-nil,
  append_assoc, Bytes, length, Option, none, some, inr, Outcome, returns, ◌>>=◌, arith,
}
use sm4ns.Header.{new_bundles}
use sm4ns.JsonLib.{JsonLib, IsTree, BuildsObjects, object_value}
use sm4ns.Writer.{single_line, write}
use sm4ns.Writer.Total.{write-Returns}
use sm4ns.Messages.{string_member}
use sm4ns.Agents.{Agent, World, get_agent, has_socket, hand_over, send_to}
use sm4ns.Agents.Presence.{AllSockets, known, get_agent-known}
use sm4ns.Handlers.{send_to_each}
use sm4ns.Handlers.Routes.{
  routes, routes-append, routes_to, routes_to-ext, routes_to-unknown, routes_to-known,
}

module _ (j : JsonLib) (build : BuildsObjects j) (tree : IsTree j) where
  open j use {Value, Real}

  -- What sending to a list of ids does: new routes, nobody's agent changed, the counter.
  abbrev pub Sent : String → List String → World Real → World Real → Type 0
  Sent sender ids w w' =
      (routes w'.packets ≡ routes w.packets ++ routes_to sender ids w.all_agents)
      × ((i : String) → known i w'.all_agents ≡ known i w.all_agents)
      × (w'.global_pckt_cnt
          ≡ (w.global_pckt_cnt + length (routes_to sender ids w.all_agents)) % 2 ^ 32)

  pub string_member-set :
      (v' : Value) (name s : String)
      → j.get v' name ≡ returns (j.of_string s)
      → string_member j v' name ≡ returns s
  unfolding string_member
  string_member-set v' name s e = rw e (build.read_back s)

  send_to-hand_over :
      (sender ag : Agent Real) (text : Bytes) (w : World Real)
      → has_socket sender ≡ true
      → has_socket ag ≡ true
      → send_to sender (some ag) text w ≡ returns (hand_over sender ag text w)
  unfolding send_to
  send_to-hand_over sender ag text w up up' = rw (up, up') refl

  send_to_each-step :
      (sender : Agent Real) (res res' : Value) (id : String) (ids : List String) (w : World Real)
      → j.set res "to_id" (j.of_string id) ≡ returns res'
      → string_member j res' "to_id" ≡ returns id
      → send_to_each j sender res (id ∷ ids) w
        ≡ (elim (get_agent id w.all_agents).0 as (λ x. Outcome (World Real)) [
          | none ↦
              send_to_each j sender res' ids
                (record w { all_agents = (get_agent id w.all_agents).1 })
          | some ag ↦
              (write j (single_line (not new_bundles)) res' >>= λ str.
              (send_to sender
                  (some ag)
                  str
                  (record w { all_agents = (get_agent id w.all_agents).1 })
                >>= λ w''. send_to_each j sender res' ids w''))
        ])
  unfolding send_to_each
  send_to_each-step sender res res' id ids w set read = rw set (rw read refl)

  pub send_to_each_lem :
      (sender : Agent Real) (res : Value) (ids : List String) (w : World Real)
      → j.kind res ≡ object_value
      → w.global_pckt_cnt < 2 ^ 32
      → has_socket sender ≡ true
      → AllSockets w.all_agents
      → (w' : World Real) × (send_to_each j sender res ids w ≡ returns w')
        × Sent sender.agent_id ids w w'
  send_to_each_lem sender res [] w k small up sockets = (
    w,
    unfold send_to_each in refl,
    (sym (append-nil (routes w.packets)), λ i. refl, omega arith),
  )
  send_to_each_lem sender res (id ∷ ids) w k small up sockets =
      let (res', set, k', got) = build.assigned res "to_id" (j.of_string id) (inr k) in
      let agents = (get_agent id w.all_agents).1 in
      let same = λ (i : String). (get_agent-known i id w.all_agents).1 in
      let sockets' : AllSockets agents = λ i ag e. sockets i ag (sym (same i) ∙ e) in
      by_receiver res' set (string_member-set res' "to_id" id got) (known id w.all_agents) refl k'
        (send_to_each_lem sender res' ids (record w { all_agents = agents }) k' small up sockets')
        (λ ag text.
          send_to_each_lem sender res' ids
            (hand_over sender ag text (record w { all_agents = agents })) k' (omega arith) up
            sockets')
        (λ i. (get_agent-known i id w.all_agents).1)
    where
      by_receiver :
          (res' : Value)
          → j.set res "to_id" (j.of_string id) ≡ returns res'
          → string_member j res' "to_id" ≡ returns id
          → (receiver : Option (Agent Real)) → known id w.all_agents ≡ receiver
          → j.kind res' ≡ object_value
          → ((w' : World Real) × (send_to_each j sender res' ids
                  (record w { all_agents = (get_agent id w.all_agents).1 })
                ≡ returns w')
              × Sent sender.agent_id ids
                  (record w { all_agents = (get_agent id w.all_agents).1 })
                  w')
          → ((ag : Agent Real) (text : Bytes)
              → (w' : World Real) × (send_to_each j sender res' ids (
                    hand_over sender ag text
                      (record w { all_agents = (get_agent id w.all_agents).1 }))
                  ≡ returns w')
                × Sent sender.agent_id ids
                    (hand_over sender ag text
                      (record w { all_agents = (get_agent id w.all_agents).1 }))
                    w')
          → ((i : String) → known i (get_agent id w.all_agents).1 ≡ known i w.all_agents)
          → (w' : World Real) × (send_to_each j sender res (id ∷ ids) w ≡ returns w')
            × Sent sender.agent_id (id ∷ ids) w w'
      by_receiver res' set read none e k' (w', went, (r, a, n)) sent same =
          let found : (get_agent id w.all_agents).0 ≡ none =
            (get_agent-known id id w.all_agents).0 ∙ e in
          let who : routes_to sender.agent_id ids (get_agent id w.all_agents).1
              ≡ routes_to sender.agent_id (id ∷ ids) w.all_agents =
            routes_to-ext sender.agent_id ids (get_agent id w.all_agents).1 w.all_agents same
            ∙ sym (routes_to-unknown sender.agent_id id ids w.all_agents e) in
          (
            w',
            send_to_each-step sender res res' id ids w set read ∙ rw found went,
            (
              r ∙ ap (◌++◌ (routes w.packets)) who,
              λ i. a i ∙ same i,
              n ∙ ap (λ l. (w.global_pckt_cnt + length l) % 2 ^ 32) who,
            ),
          )
      by_receiver res' set read (some ag) e k' rest sent same =
          let found : (get_agent id w.all_agents).0 ≡ some ag =
            (get_agent-known id id w.all_agents).0 ∙ e in
          let who : (sender.agent_id, ag.agent_id)
                ∷ routes_to sender.agent_id ids (get_agent id w.all_agents).1
              ≡ routes_to sender.agent_id (id ∷ ids) w.all_agents =
            ap (λ l. (sender.agent_id, ag.agent_id) ∷ l)
              (routes_to-ext sender.agent_id ids (get_agent id w.all_agents).1 w.all_agents same)
            ∙ sym (routes_to-known sender.agent_id id ids w.all_agents ag e) in
          let (text, written) = write-Returns j tree (single_line (not new_bundles)) res' in
          let (w', went, (r, a, n)) = sent ag text in
          (
            w',
            send_to_each-step sender res res' id ids w set read
                ∙ rw found (
                    rw written (rw (send_to-hand_over sender ag text _ up (sockets id ag e)) went)),
            (
              r ∙ more text ag _ ∙ ap (◌++◌ (routes w.packets)) who,
              λ i. a i ∙ (same i),
              n ∙ counted text ag _ ∙ ap (λ l. (w.global_pckt_cnt + length l) % 2 ^ 32) who,
            ),
          )
        where
          more :
              (text : Bytes) (ag : Agent Real) (l : List (String × String))
              → routes
                    (hand_over sender ag text
                      (record w { all_agents = (get_agent id w.all_agents).1 })).packets
                  ++ l
                ≡ routes w.packets ++ (sender.agent_id, ag.agent_id) ∷ l
          more text ag l =
              ap (◌++ l) (routes-append w.packets _) ∙ append_assoc (routes w.packets) _ l

          counted :
              (text : Bytes) (ag : Agent Real) (l : List (String × String))
              → ((hand_over sender ag text
                      (record w { all_agents = (get_agent id w.all_agents).1 })).global_pckt_cnt
                    + length l)
                  % 2 ^ 32
                ≡ (w.global_pckt_cnt + length ((sender.agent_id, ag.agent_id) ∷ l)) % 2 ^ 32
          counted text ag l = omega arith
