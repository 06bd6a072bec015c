-- ===== src/Trace/Playback.antt =====
-- How RoadRunnerBaseLine (model/testing/rr_baseline.cc) plays the trace that it has read: the nodes, and
-- one call of `pause` for each tick. Of ns-3 there is the registry of agents, the delay of the last
-- `pause` that was scheduled and whether the simulation was stopped.
use sm4ns.Base.{
  ℕ, zero, suc, ◌+◌, ◌-◌, ◌/◌, ◌%◌, ◌^◌, Bool, true, false, not, ◌||◌, ◌&&◌, ltb, ◌=ℕ◌,
  if◌then◌else◌, List, [], ◌∷◌, length, map, is_empty, codes, String, Option, none, some, Outcome,
  returns, undefined, undefined_if, throw_if, ◌>>=◌, ◌>>◌, unknown_protocol, ◌==◌,
}
use sm4ns.Base.Integers.{to_int, pos}
use sm4ns.JsonLib.{JsonLib}
use sm4ns.Header.{blank}
use sm4ns.Conglomerate.{no_messages}
use sm4ns.Serialize.{
  OngoingSerialization, new_serialization, serialize_begin, serialize_begin_ids, serialize_end,
  deserialize,
}
use sm4ns.Queue.{push}
use sm4ns.Make.{make_all_locations, make_opaque_send}
use sm4ns.Agents.{Registry, World, plain, create_agent, add_agent}
use sm4ns.Session.{Session}
use sm4ns.Broker.{Broker, new_broker, process_incoming}
use sm4ns.Profiler.{
  Profiles, ProfileBuilder, Clock, init_log_file, new_builder, delete_builder,
  log_si_mobility_begin, log_si_mobility_end, log_tick_begin, log_tick_end,
}
use sm4ns.Trace.{Boost, TextSet, Ticks, TimeTick, TickMulticast, Trace, new_trace, parse}

-- The object, with its base and with the profiler's static members. An iterator over the ticks is the
-- rest of the ticks from its place on; `[]` is the end.
pub record RoadRunner (j : JsonLib) : Type 0 where
  pub broker : Broker j
  pub profiles : Profiles
  pub profiler : ProfileBuilder
  pub protocol : String
  pub trace : Trace j.Real
  pub prev_tick : Ticks j.Real
  pub curr_tick : Ticks j.Real
  pub interval : ℕ
  pub next_pause : Option ℕ
  pub stopped : Bool

abbrev pub ids_of : TextSet → List String
ids_of ids = map (λ entry. entry.0) ids

-- What a variable holds after a call that may not have set it.
abbrev pub or_else {ℓ} : {A : Type ℓ} → A → Option A → A
or_else old none = old
or_else old (some new) = new

module _ (j : JsonLib) where
  open j use {Value, Real}

  -- The constructor; `can_open` says whether the log file can be opened.
  unfoldable pub new_road_runner :
      Session → World Real → Profiles → Bool → String → ℕ → Bool → Bool → Outcome (RoadRunner j)
  new_road_runner session world profiles can_open protocol nof_agents no_communication
        no_location_update =
      do
        opened ← init_log_file can_open profiles
        (profiler, profiles') ← new_builder opened
        returns (record {
          broker = new_broker j session world;
          profiles = profiles';
          profiler = profiler;
          protocol = protocol;
          trace = new_trace nof_agents no_communication no_location_update;
          prev_tick = [];
          curr_tick = [];
          interval = 0;
          next_pause = none;
          stopped = false;
        })

  -- The destructor.
  unfoldable pub delete_road_runner : RoadRunner j → Outcome Profiles
  delete_road_runner r = delete_builder r.profiler r.profiles

  -- sendOutgoing, which replaces the broker's.
  unfoldable pub send_outgoing : RoadRunner j → RoadRunner j
  send_outgoing r = record r {
    broker = record r.broker { m_outgoing = serialize_begin r.broker.m_outgoing };
  }

  -- The loop over the nodes; the agents' ids are read past their end if there are more nodes.
  -- The static container RRNC has no nodes before, since the program makes one such broker and starts
  -- it once.
  unfoldable pub create_agents : ℕ → List String → Registry Real → Outcome (Registry Real)
  create_agents zero ids agents = returns agents
  create_agents (suc nodes) [] agents = undefined
  create_agents (suc nodes) (id ∷ ids) agents =
      create_agents nodes ids
        (add_agent id (record (create_agent id plain) { ready = true }) agents)

  unfoldable pub create_nodes : RoadRunner j → Outcome (RoadRunner j)
  create_nodes r = do
    throw_if (not (r.protocol == "80211b" || r.protocol == "80211p")) unknown_protocol
    let world = r.broker.world
    agents ← create_agents r.trace.max_nof_agents (ids_of r.trace.agents_list) world.all_agents
    returns (record r { broker = record r.broker { world = record world { all_agents = agents } } })

  unfoldable pub start :
      Boost Real → Option (List String) → Clock → RoadRunner j → Outcome (Bool × RoadRunner j)
  start boost file now r = do
    trace ← parse boost file r.trace
    r' ← create_nodes (record r { trace = trace })
    returns (
      true,
      record r' {
        prev_tick = [];
        curr_tick = trace.trace_time_ticks;
        profiler = log_si_mobility_begin now r'.profiler;
        next_pause = some 0;
      },
    )

  -- The loop over the multicasts of a tick.
  unfoldable pub add_multicasts :
      List TickMulticast → OngoingSerialization → Outcome OngoingSerialization
  add_multicasts [] ongoing = returns ongoing
  add_multicasts (mc ∷ multicasts) ongoing = do
    ongoing' ←
        make_opaque_send j mc.send_ag_id mc.receive_ag_id mc.mc_data "base64escape" "dsrc" ongoing
    add_multicasts multicasts ongoing'

  -- What is serialized for one tick. If serialize_end or deserialize gives false, its results stay as
  -- they were.
  unfoldable pub tick_messages : TimeTick Real → Outcome OngoingSerialization
  tick_messages tick = do
    let ongoing = serialize_begin_ids (codes "0") (codes "987654321") new_serialization
    ongoing' ←
        if is_empty tick.update_agent
        then returns ongoing
        else make_all_locations j tick.update_agent ongoing
    add_multicasts tick.multicast ongoing'

  -- What pushToQueue does with the current tick.
  unfoldable pub push_tick : TimeTick Real → RoadRunner j → Outcome (RoadRunner j)
  push_tick tick r = do
    ongoing ← tick_messages tick
    ended ← serialize_end j ongoing
    let (m_head, m_str) = or_else (blank, []) ended
    parsed ← deserialize j m_head m_str no_messages
    let messages = or_else no_messages parsed
    returns
        (record r { broker = record r.broker { m_incoming = push messages r.broker.m_incoming } })

  -- At the end of the ticks there is no tick to read.
  unfoldable pub push_to_queue : RoadRunner j → Outcome (RoadRunner j)
  push_to_queue r = elim r.curr_tick [ [] ↦ undefined | (time, tick) ∷ later ↦ push_tick tick r ]

  -- `currTick->first - prevTick->first`, unless the end is reached.
  abbrev pub next_interval : ℕ → Ticks Real → ℕ → ℕ
  next_interval time [] interval = interval
  next_interval time ((t, tick) ∷ later) interval = (t + (2 ^ 32 - time)) % 2 ^ 32

  -- The next tick is scheduled, or the simulation is stopped.
  unfoldable pub plan_next : Clock → Ticks Real → RoadRunner j → RoadRunner j
  plan_next stopped_at [] r = record r {
    profiler = log_si_mobility_end stopped_at r.profiler;
    stopped = true;
    next_pause = none;
  }
  plan_next stopped_at (next ∷ later) r = record r { next_pause = some r.interval }

  unfoldable pub pause : Clock → Clock → Clock → RoadRunner j → Outcome (RoadRunner j)
  pause begun ended stopped_at r = elim r.curr_tick [
    | [] ↦ undefined
    | (abs_tick, tick) ∷ later ↦ (do
      let size = length r.trace.trace_time_ticks
      undefined_if (ltb 0 abs_tick && size / 10 =ℕ 0)
      pushed ← push_to_queue r
      let interval = next_interval abs_tick later r.interval
      undefined_if (interval =ℕ 0)
      let tick_id = abs_tick / interval
      let agents = to_int (length tick.update_agent)
      b ← process_incoming j pushed.broker
      let logged =
          log_tick_end (to_int tick_id) agents (pos 0) ended
            (log_tick_begin (to_int tick_id) agents (pos 0) begun r.profiler)
      let r' : RoadRunner j = record pushed {
        broker = b;
        prev_tick = r.curr_tick;
        curr_tick = later;
        interval = interval;
        profiler = logged;
      }
      returns (plan_next stopped_at later r'))
  ]
