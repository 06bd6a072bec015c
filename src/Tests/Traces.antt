-- ===== src/Tests/Traces.antt =====
-- Traces that are read and played, on concrete data.
use sm4ns.Base.{
  ℕ, zero, suc, ◌+◌, ◌≡◌, ◌≢◌, ◌<◌, ◌≤◌, refl, true, false, [], ◌∷◌, codes, length, none, some,
  returns, throws, undefined, Returns, unknown_trace_type, arith,
}
use sm4ns.Base.Maps.{find, assign, insert}
use sm4ns.Trace.{
  Trace, new_trace, parse, parse_lines, parse_line, Ticks, new_tick, change_tick, contains, type_of,
  token, add_line, update_line, typed_line,
}
use sm4ns.Trace.Text.{
  size_text, starts_with, find_from, find_text, take_text, drop_text, substr, time_text, id_text,
  coordinate_text,
}
use sm4ns.Trace.Invariant.{Consistent}
use sm4ns.Trace.Parsed.{parse-Consistent}
use sm4ns.Trace.Playback.{
  RoadRunner, new_road_runner, create_agents, create_nodes, start, tick_messages, add_multicasts,
  push_tick, push_to_queue, plan_next, pause,
}
use sm4ns.Trace.Nodes.{start-agents}
use sm4ns.Trace.Played.{started, Played-short}
use sm4ns.Trace.Schedule.{begun, paused, Timed-OnTime}
use sm4ns.Trace.Steps.{Advances, pause-Advances}
use sm4ns.Base.Integers.{pos, ◌+ℤ◌, add_int}
use sm4ns.Profiler.{
  no_profiles, open_file, init_log_file, ref_count_update, new_builder, log_si_mobility_begin,
  log_tick_begin, log_tick_end,
}
use sm4ns.Conglomerate.{MessageConglomerate, get_count, no_messages}
use sm4ns.Header.{BundleHeader}
use sm4ns.Serialize.{
  VaryHeader, serialize_begin_ids, serialize_end, vary_header_bytes, length_bytes, header_of,
  deserialize,
}
use sm4ns.Serialize.Layout.{serialize_end_v1_lem}
use sm4ns.Serialize.RoundTrip.{deserialize_v1_lem}
use sm4ns.Broker.Ticks.{process_incoming_lem}
use sm4ns.Queue.{empty, push}
use sm4ns.Agents.{create_agent, plain, add_agent}
use sm4ns.Broker.{new_broker, handle_messages, process_incoming}
use sm4ns.Tests.SampleJson.{Tree, sample}
use sm4ns.Tests.Samples.{open_session, two_agents, two_agents_world, awake_broker}
use sm4ns.Tests.Profiles.{fresh_profiles, no_text}
use sm4ns.Tests.SampleTraces.{sample_boost, short_trace}

parse-Consistent_example :
    ((t : Trace ℕ)
      → parse sample_boost (some short_trace) (new_trace 1 false false) ≡ returns t
      → Consistent ℕ 1 t)
    × (parse sample_boost (some short_trace) (new_trace 1 false false) ≢ throws unknown_trace_type)
parse-Consistent_example = parse-Consistent sample_boost 1 false false (some short_trace)

abbrev read_trace : Trace ℕ
read_trace = record (new_trace 1 false false) {
  trace_time_ticks =
      (0, record { add_agent = "7" ∷ []; update_agent = []; multicast = [] })
      ∷ (
        10,
        record {
          add_agent = [];
          update_agent = ("7", record { x = 3; y = 4 }) ∷ [];
          multicast = [];
        },
      )
      ∷ [];
  agent_limit = ("7", tt) ∷ [];
  agents_list = ("7", tt) ∷ [];
}

short_trace-read :
    parse sample_boost (some short_trace) (new_trace 1 false false) ≡ returns read_trace
unfolding parse parse_lines parse_line change_tick contains type_of token add_line update_line
    typed_line find assign insert size_text starts_with find_from find_text take_text drop_text
    substr time_text id_text coordinate_text new_trace
short_trace-read = refl

-- A broker for one agent that is not started.
abbrev new_player : RoadRunner sample
new_player = record {
  broker = new_broker sample open_session two_agents_world;
  profiles = record fresh_profiles { ref_count = pos 1 };
  profiler = no_text;
  protocol = "80211b";
  trace = new_trace 1 false false;
  prev_tick = [];
  curr_tick = [];
  interval = 0;
  next_pause = none;
  stopped = false;
}

new_player-made :
    new_road_runner sample open_session two_agents_world no_profiles true "80211b" 1 false false
    ≡ returns new_player
unfolding new_road_runner init_log_file open_file new_builder ref_count_update add_int ◌+ℤ◌
new_player-made = refl

start-agents_example :
    (length read_trace.agents_list ≤ 1)
    × (length read_trace.agents_list ≡ 1
        → Returns (start sample sample_boost (some short_trace) none new_player))
    × (length read_trace.agents_list < 1
        → start sample sample_boost (some short_trace) none new_player ≡ undefined)
start-agents_example =
    start-agents sample sample_boost (some short_trace) none new_player 1 false false read_trace
      refl refl short_trace-read

abbrev started_player : RoadRunner sample
started_player = record new_player {
  broker = record new_player.broker {
    world = record new_player.broker.world {
      all_agents = add_agent "7" (record (create_agent "7" plain) { ready = true }) two_agents;
    };
  };
  trace = read_trace;
  curr_tick = read_trace.trace_time_ticks;
  profiler = log_si_mobility_begin none no_text;
  next_pause = some 0;
}

player-started :
    start sample sample_boost (some short_trace) none new_player ≡ returns (true, started_player)
unfolding start create_nodes create_agents new_broker new_trace
player-started = rw short_trace-read refl

Played-short_example : started_player.stopped ≡ false
Played-short_example =
    Played-short sample sample_boost started_player
      (started open_session two_agents_world no_profiles true "80211b" 1 false false true
        (some short_trace) none new_player started_player new_player-made player-started)
      (omega arith)

abbrev empty_ticks : ℕ → ℕ → Ticks ℕ
empty_ticks zero time = []
empty_ticks (suc n) time = (time, new_tick) ∷ empty_ticks n (time + 10)

-- Ten ticks in which nothing happens, of which nine were played.
abbrev last_player : RoadRunner sample
last_player = record new_player {
  broker = awake_broker;
  trace = record read_trace { trace_time_ticks = empty_ticks 10 0 };
  curr_tick = empty_ticks 1 90;
  interval = 10;
}

abbrev spoofed : MessageConglomerate Tree
spoofed = record no_messages { sender_id = codes "0" }

abbrev pushed_player : RoadRunner sample
pushed_player = record last_player {
  broker = record awake_broker { m_incoming = push spoofed empty };
}

abbrev spoofed_ids : VaryHeader
spoofed_ids = record { send_id = codes "0"; dest_id = codes "987654321"; msg_lengths = [] }

abbrev spoofed_header : BundleHeader
spoofed_header = record { send_id_len = 1; dest_id_len = 9; message_count = 0; rem_len = 10 }

spoofed-ended :
    serialize_end sample (record { v_head = spoofed_ids; messages = [] })
    ≡ returns (some (spoofed_header, codes "0987654321"))
unfolding vary_header_bytes length_bytes header_of serialize_end
spoofed-ended = serialize_end_v1_lem (record { v_head = spoofed_ids; messages = [] })

spoofed-read :
    deserialize sample spoofed_header (codes "0987654321") no_messages ≡ returns (some spoofed)
unfolding deserialize vary_header_bytes length_bytes
spoofed-read =
    deserialize_v1_lem sample spoofed_ids [] [] (codes "0987654321") 10 tt refl refl (omega arith)

tick-pushed : push_to_queue sample last_player ≡ returns pushed_player
unfolding push_to_queue push_tick tick_messages add_multicasts serialize_begin_ids
tick-pushed = rw spoofed-ended (rw spoofed-read refl)

tick-handled :
    process_incoming sample pushed_player.broker
    ≡ returns (record awake_broker { m_incoming = empty })
unfolding handle_messages get_count push
tick-handled = process_incoming_lem sample pushed_player.broker

pause-Advances_example :
    Advances sample
      (pause sample none none none)
      (record awake_broker { m_incoming = empty })
      10
      []
      last_player
pause-Advances_example =
    pause-Advances sample none none none last_player pushed_player
      (record awake_broker { m_incoming = empty }) 90 10 new_tick [] refl (omega arith) refl
      (omega arith) tick-pushed tick-handled

-- The player of the short trace when its first tick was played.
abbrev pushed_first : RoadRunner sample
pushed_first = record started_player {
  broker = record started_player.broker { m_incoming = push spoofed empty };
}

first-pushed : push_to_queue sample started_player ≡ returns pushed_first
unfolding push_to_queue push_tick tick_messages add_multicasts serialize_begin_ids new_broker
first-pushed = rw spoofed-ended (rw spoofed-read refl)

first-handled : process_incoming sample pushed_first.broker ≡ returns started_player.broker
unfolding handle_messages get_count push new_broker
first-handled = process_incoming_lem sample pushed_first.broker

abbrev second_player : RoadRunner sample
second_player = record started_player {
  prev_tick = read_trace.trace_time_ticks;
  curr_tick =
      (
        10,
        record {
          add_agent = [];
          update_agent = ("7", record { x = 3; y = 4 }) ∷ [];
          multicast = [];
        },
      )
      ∷ [];
  interval = 10;
  profiler =
      log_tick_end (pos 0) (pos 0) (pos 0) none
        (log_tick_begin (pos 0) (pos 0) (pos 0) none started_player.profiler);
  next_pause = some 10;
}

first-paused : pause sample none none none started_player ≡ returns second_player
unfolding pause plan_next
first-paused = rw first-pushed (rw first-handled refl)

-- After the first tick, at the time 0, the second one is scheduled.
Timed-OnTime_example : (delay : ℕ) × (some 10 ≡ some delay) × (0 + (0 + 0 + delay) ≡ 10)
Timed-OnTime_example =
    Timed-OnTime sample sample_boost (0 + 0) second_player 0
      (record { add_agent = "7" ∷ []; update_agent = []; multicast = [] }) second_player.curr_tick
      (paused 0 0 started_player second_player none none none
        (begun open_session two_agents_world no_profiles true "80211b" 1 false false true
          (some short_trace) none new_player started_player new_player-made player-started)
        refl first-paused)
      refl (omega arith, (omega arith, tt))
