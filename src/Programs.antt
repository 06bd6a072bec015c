-- ===== src/Programs.antt =====
-- The programs of the repository (examples/simmobility-example.cc and
-- examples/simmobility-RR-baseline.cc). The parser of the command line, the network and the run of the
-- simulation are ns-3's: `given` maps an option to its value, `server` is what an attempt to connect
-- to a host and port gives, and `run` is Simulator::Run. The defaults that the programs set in ns-3
-- have no model.
pub mod Unreachable
use sm4ns.Base.{
  ℕ, Bool, true, false, if◌then◌else◌, String, List, Option, none, some, Outcome, returns, ◌>>=◌,
}
use sm4ns.Base.Maps.{Map, find}
use sm4ns.JsonLib.{JsonLib}
use sm4ns.Agents.{World}
use sm4ns.Session.{Session}
use sm4ns.Broker.{Broker, new_broker}
use sm4ns.Profiler.{Profiles, Clock}
use sm4ns.Trace.{Boost}
use sm4ns.Registration.Start.{start}
use sm4ns.Trace.Playback
use sm4ns.Trace.Playback.{RoadRunner, or_else, new_road_runner, delete_road_runner}

-- The global variables.
pub record Parameters : Type 0 where
  pub application : String
  pub host : String
  pub port : String

unfoldable pub parse_command_line : Map String → Parameters
unfolding find
parse_command_line given = record {
  application = or_else "stk" (find "application" given);
  host = or_else "127.0.0.1" (find "host" given);
  port = or_else "6745" (find "port" given);
}

module _ (j : JsonLib) where
  open j use {Real}

  -- The exit code and the broker; `none` if the start has no answer.
  unfoldable pub main :
      (String → String → ℕ → Outcome (Option Session))
      → (Broker j → Outcome (Broker j))
      → Session
      → World Real
      → Map String
      → Outcome (Option (ℕ × Broker j))
  main server run closed world given = do
    let p = parse_command_line given
    started ← start j (server p.host p.port) p.application (new_broker j closed world)
    elim started [
      | none ↦ returns none
      | some (ok, b) ↦ if ok then (do b' ← run b; returns (some (0, b'))) else returns (some (1, b))
    ]

-- The global variables of the program that plays a trace, without the names of the files.
pub record TraceParameters : Type 0 where
  pub protocol : String
  pub n_agent : ℕ
  pub disable_communication : Bool
  pub disable_location_update : Bool

abbrev pub trace_parameters : TraceParameters
trace_parameters = record {
  protocol = "80211b";
  n_agent = 10000;
  disable_communication = false;
  disable_location_update = false;
}

module _ (j : JsonLib) where
  open j use {Real}

  -- The main function of the program that plays a trace: `file` has the lines of the trace,
  -- `can_open` says whether the log can be opened. A start that fails is only reported.
  unfoldable pub trace_main :
      (RoadRunner j → Outcome (RoadRunner j))
      → Boost Real
      → Option (List String)
      → Bool
      → Clock
      → Session
      → World Real
      → Profiles
      → TraceParameters
      → Outcome (ℕ × Profiles)
  trace_main run boost file can_open now closed world profiles p = do
    broker ←
        new_road_runner j closed world profiles can_open p.protocol p.n_agent
          p.disable_communication p.disable_location_update
    (ok, started) ← Playback.start j boost file now broker
    ended ← run started
    profiles' ← delete_road_runner j ended
    returns (0, profiles')
