-- ===== src/Tests/Agency.antt =====
-- The registry of agents and the handlers on concrete data.
use sm4ns.Base.{
  ℕ, ◌+◌, ◌%◌, ◌^◌, ◌≡◌, refl, String, false, [], ◌∷◌, ◌++◌, length, none, some, returns, undefined,
  arith,
}
use sm4ns.Base.Maps.{find}
use sm4ns.Conglomerate.{MessageConglomerate, no_messages, get_base_message, get_json_message}
use sm4ns.Messages.{
  OpaqueSendMessage, AgentsInfoMessage, AllLocationsMessage, is_opaque_send, opaque_members,
  parse_opaque_send, parse_strings,
}
use sm4ns.Agents.{World, add_agent, get_agent, remove_agent}
use sm4ns.Agents.Sockets.{
  Heap, Inet, call_init, call_init_socket, call_bind, construct_on_node, init_agent, calls, destroy,
  destroy_wfd,
}
use sm4ns.Agents.Sockets.Leaks.{destroy-calls}
use sm4ns.Agents.Presence.{NoNull, AllSockets, known, add_agent-get_agent}
use sm4ns.Handlers.{handle_opaque_send, handle_agents_info, handle_all_locations}
use sm4ns.Handlers.Effects.{new_agent, handle_agents_info-NoNull}
use sm4ns.Handlers.Locations.{
  last_location, moved, handle_all_locations_lem, handle_all_locations-undefined,
}
use sm4ns.Handlers.Routes.{routes, message_routes}
use sm4ns.Handlers.Deliveries.{handle_opaque_send-Sent}
use sm4ns.Tests.SampleJson.{Tree, text, flag, member, item, no_members, no_items, sample}
use sm4ns.Tests.SampleLaws.{sample-IsTree, sample-BuildsObjects}
use sm4ns.Tests.Samples.{agent_1, two_agents, two_agents_world, wifi_agent_2, two_wifi_agents_world}

two_agents-NoNull : NoNull two_agents
unfolding find
two_agents-NoNull id null = ground arith

abbrev no_objects : Heap
no_objects = record { live = []; next = 0 }

add_agent-get_agent_example :
    (find "3" (add_agent "3" agent_1 (get_agent "3" two_agents).1) ≡ some none)
    × (remove_agent "3" (add_agent "3" agent_1 (get_agent "3" two_agents).1) ≡ undefined)
unfolding find
add_agent-get_agent_example = add_agent-get_agent "3" agent_1 two_agents refl

-- An agent of the trace program, which has a node and an address and gets a socket; then init, and it
-- is bound once more.
abbrev traced_agent : Inet
traced_agent = record construct_on_node { addresses = 1 }

destroy-calls_example :
    (used left : Inet × Heap) × (calls
        (call_init_socket ∷ call_init ∷ call_bind ∷ [])
        (traced_agent, no_objects)
      ≡ returns used)
    × (destroy used ≡ returns left)
    × (destroy_wfd used ≡ returns left)
    × (length left.1.live ≡ 1 + 0)
    × (init_agent none used ≡ undefined)
destroy-calls_example =
    destroy-calls call_init_socket (call_init ∷ call_bind ∷ []) traced_agent no_objects refl refl
      (refl, omega arith) (omega arith)

abbrev leave_and_join : AgentsInfoMessage
leave_and_join = record {
  base = record { msg_type = "new_agents" };
  add_agent_ids = "3" ∷ [];
  rem_agent_ids = "1" ∷ [];
}

handle_agents_info-NoNull_example :
    (w : World ℕ) × (handle_agents_info sample leave_and_join two_agents_world ≡ returns w)
    × (find "3" w.all_agents ≡ some (some (new_agent "3")))
    × NoNull w.all_agents
    × (w.packets ≡ [])
unfolding find
handle_agents_info-NoNull_example =
    handle_agents_info-NoNull sample "3" leave_and_join two_agents_world two_agents-NoNull

abbrev one_location : AllLocationsMessage ℕ
one_location = record {
  base = record { msg_type = "all_locations" };
  agent_locations = ("2", record { x = 3; y = 4 }) ∷ [];
}

two_agents-AllSockets : AllSockets two_agents
unfolding find
two_agents-AllSockets i ag e = ground arith

handle_all_locations_lem_example :
    (w : World ℕ) × (handle_all_locations sample one_location two_agents_world ≡ returns w)
    × ((i : String)
        → find i w.all_agents
          ≡ moved (last_location i one_location.agent_locations) (find i two_agents))
    × (w.packets ≡ [])
    × AllSockets w.all_agents
handle_all_locations_lem_example =
    handle_all_locations_lem sample one_location two_agents_world two_agents-AllSockets

-- The agent "2" of a Wi-Fi Direct simulation is moved.
handle_all_locations-undefined_example :
    handle_all_locations sample one_location two_wifi_agents_world ≡ undefined
unfolding find
handle_all_locations-undefined_example =
    handle_all_locations-undefined sample "2" (record { x = 3; y = 4 }) wifi_agent_2 one_location
      two_wifi_agents_world refl refl refl

abbrev to_two : OpaqueSendMessage
to_two = record {
  base = record { msg_type = "opaque_send" };
  from_id = "1";
  to_ids = "2" ∷ "7" ∷ [];
  broadcast = false;
  content = "hello";
  format = "base64";
  tech = "wifi";
}

handle_opaque_send-Sent_example :
    (w : World ℕ) × (handle_opaque_send sample to_two two_agents_world ≡ returns w)
    × (routes w.packets ≡ [] ++ message_routes to_two two_agents)
    × ((i : String) → known i w.all_agents ≡ known i two_agents)
    × (w.global_pckt_cnt ≡ (0 + length (message_routes to_two two_agents)) % 2 ^ 32)
handle_opaque_send-Sent_example =
    handle_opaque_send-Sent sample sample-BuildsObjects sample-IsTree to_two two_agents_world
      (omega arith) two_agents-AllSockets

-- The agent "7" is not there.
to_two-routes : message_routes to_two two_agents ≡ ("1", "2") ∷ []
unfolding find
to_two-routes = refl

abbrev to_two_value : Tree
to_two_value = member "from_id" (text "1") (
    member "to_ids" (item (text "2") (item (text "7") no_items)) (
      member "broadcast" (flag false) (
        member "data" (text "hello")
          (member "format" (text "base64") (member "tech" (text "wifi") no_members)))))

abbrev one_opaque : MessageConglomerate Tree
one_opaque = record no_messages {
  messages_json = to_two_value ∷ [];
  message_bases = record { msg_type = "opaque_send" } ∷ [];
}

one_opaque-parsed : parse_opaque_send sample one_opaque 0 ≡ returns to_two
unfolding parse_opaque_send is_opaque_send opaque_members get_base_message get_json_message
    parse_strings
one_opaque-parsed = refl
