-- ===== src/Tests/Enrolment.antt =====
-- Connecting and role assignment on concrete data.
use sm4ns.Base.{
  ℕ, zero, suc, ltb, ◌≡◌, refl, true, if◌then◌else◌, String, [], ◌∷◌, Option, none, some, Outcome,
  returns, ◌>>=◌, arith,
}
use sm4ns.Base.Maps.{Map, find, assign}
use sm4ns.Session.{Session}
use sm4ns.Agents.Groups.{WfdContainers, no_containers}
use sm4ns.Registration.{Registering, do_connect, do_role_assignment, do_initialization, ◌then_if◌}
use sm4ns.Registration.Connecting.{attempts, do_connect-attempts}
use sm4ns.Registration.Nodes.{Joined, do_initialization-do_role_assignment}
use sm4ns.Registration.Roles.{registry_of, with_roles}
use sm4ns.Registration.{begun, do_wfd_initialization}
use sm4ns.Registration.Answers.{counts, with_sent}
use sm4ns.Registration.Networks.{group_of, network_of, do_wfd_initialization-network}
use sm4ns.Serialize.{OngoingSerialization, new_serialization, serialize_begin}
use sm4ns.Make.{make_go_client}
use sm4ns.Session.Connect.{connect}
use sm4ns.Registration.Reached.{do_connect-reached}
use sm4ns.Tests.SampleJson.{sample}
use sm4ns.Tests.SampleLaws.{sample-IsTree, sample-BuildsObjects}
use sm4ns.Tests.SampleMembers.{sample-ReadsMembers, sample-BuildsArrays}
use sm4ns.Handlers.Effects.{contains}
use sm4ns.Tests.Samples.{wifi_agent_1, wifi_agent_2, open_session, two_wifi_agents_world}

-- The server answers the third attempt.
abbrev third_time : ℕ → Outcome (Option Session)
third_time zero = returns none
third_time (suc zero) = returns none
third_time (suc (suc n)) = returns (some open_session)

do_connect-attempts_example :
    do_connect third_time 5 ≡ (attempts third_time 0 5 >>= λ o. returns (some o))
do_connect-attempts_example = do_connect-attempts third_time 5 (omega arith) (omega arith)

third_time-attempts : attempts third_time 0 5 ≡ returns (some open_session)
third_time-attempts = refl

abbrev wifi_direct : Registering ℕ
wifi_direct = record {
  session = open_session;
  world = two_wifi_agents_world;
  application = "stk";
  wfd_groups = [];
  wfd_membership = [];
  wfd_containers = no_containers;
  networks = [];
}

do_initialization-do_role_assignment_example :
    (membership : Map String) × (c : WfdContainers) × ((do_role_assignment wifi_direct
        then_if do_initialization)
      ≡ returns (
        true,
        record wifi_direct {
          world = record two_wifi_agents_world {
            all_agents = registry_of (with_roles "1" (wifi_agent_1 ∷ wifi_agent_2 ∷ []));
          };
          wfd_groups =
              assign "1" (record { group_id = "1"; go = "1"; members = "1" ∷ "2" ∷ [] }) [];
          wfd_membership = membership;
          wfd_containers = c;
        },
      ))
    × ((i : String)
        → find i membership ≡ (if contains i ("1" ∷ "2" ∷ []) then some "1" else find i []))
    × Joined "1" ("1" ∷ "2" ∷ []) no_containers c
do_initialization-do_role_assignment_example =
    do_initialization-do_role_assignment wifi_direct wifi_agent_1 (wifi_agent_2 ∷ []) refl
      (refl, (refl, tt))

do_wfd_initialization-network_example :
    (answer : OngoingSerialization) × (r : Registering ℕ) × (make_go_client sample
        (("1", group_of wifi_agent_1 (wifi_agent_2 ∷ [])) ∷ [])
        (serialize_begin new_serialization)
      ≡ returns answer)
    × (do_wfd_initialization sample (begun open_session two_wifi_agents_world "stk")
        ≡ returns (counts answer, r))
    × (r.session ≡ with_sent answer open_session)
    × (r.world ≡ record two_wifi_agents_world {
      all_agents = registry_of (with_roles "1" (wifi_agent_1 ∷ wifi_agent_2 ∷ []));
    })
    × (r.networks ≡ (if counts answer then network_of "1" ("2" ∷ []) ∷ [] else []))
do_wfd_initialization-network_example =
    do_wfd_initialization-network sample sample-IsTree sample-BuildsObjects sample-ReadsMembers
      sample-BuildsArrays open_session two_wifi_agents_world "stk" wifi_agent_1 (wifi_agent_2 ∷ [])
      refl ((none, refl), ((none, refl), tt)) refl refl

-- The endpoint accepts the third connection.
do_connect-reached_example :
    do_connect
      (connect (λ n. some ("10.0.0.1" ∷ [])) (λ n e. if ltb n 2 then none else some open_session))
      200
    ≡ returns (some (some open_session))
do_connect-reached_example =
    do_connect-reached (λ n. some ("10.0.0.1" ∷ []))
      (λ n e. if ltb n 2 then none else some open_session) 200 2 "10.0.0.1" [] open_session
      (omega arith) (omega arith) (λ n. refl) (λ n few. ground arith) refl
