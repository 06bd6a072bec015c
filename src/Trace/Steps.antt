-- ===== src/Trace/Steps.antt =====
-- One call of pause (model/testing/rr_baseline.cc): what it has done when it returns, and when it does.
use sm4ns.Base.{
  ℕ, ◌+◌, ◌^◌, ◌/◌, ◌<◌, ◌≤◌, ◌≡◌, refl, sym, ap, ◌∙◌, subst, true, false, ◌&&◌, ltb, ◌=ℕ◌,
  if◌then◌else◌, [], ◌∷◌, length, is_empty, none, some, Outcome, returns, undefined, undefined_if,
  Ensures, Ensures-bind, Ensures-any, undefined_if-Ensures, arith,
}
use sm4ns.JsonLib.{JsonLib}
use sm4ns.Conglomerate.{no_messages}
use sm4ns.Serialize.{serialize_end, deserialize}
use sm4ns.Broker.{Broker, process_incoming}
use sm4ns.Profiler.{Clock, log_tick_begin, log_tick_end}
use sm4ns.Base.Integers.{to_int, pos}
use sm4ns.Trace.{Ticks, TimeTick}
use sm4ns.Trace.Playback.{
  RoadRunner, tick_messages, push_tick, push_to_queue, next_interval, plan_next, pause,
}

module _ (j : JsonLib) where
  open j use {Real}

  -- pushToQueue changes the broker only.
  push_tick-keeps :
      (tick : TimeTick Real) (r : RoadRunner j)
      → Ensures (λ r'. record r { broker = r'.broker } ≡ r') (push_tick j tick r)
  unfolding push_tick
  push_tick-keeps tick r =
      let Keeps : RoadRunner j → Type 0 = λ r'. record r { broker = r'.broker } ≡ r' in
      Ensures-bind (λ a. Unit {0}) Keeps (tick_messages j tick) _ (Ensures-any _)
        (λ ongoing _.
          Ensures-bind (λ a. Unit {0}) Keeps (serialize_end j ongoing) _ (Ensures-any _)
            (λ ended _.
              Ensures-bind (λ a. Unit {0}) Keeps (deserialize j _ _ no_messages) _ (Ensures-any _)
                (λ parsed _. refl)))

  -- What a call of `pause` at a tick has done when it returns, and what must have held before.
  pub record Advanced (r : RoadRunner j) (abs_tick : ℕ) (later : Ticks Real) (r' : RoadRunner j)
      : Type 0 where
    pub many : (ltb 0 abs_tick && length r.trace.trace_time_ticks / 10 =ℕ 0) ≡ false
    pub distance : (next_interval j abs_tick later r.interval =ℕ 0) ≡ false
    pub at : r'.curr_tick ≡ later
    pub trace : r'.trace ≡ r.trace
    pub step : r'.interval ≡ next_interval j abs_tick later r.interval
    pub ending : r'.stopped ≡ (if is_empty later then true else r.stopped)
    pub next : r'.next_pause ≡ (if is_empty later then none else some r'.interval)

  plan_next-at :
      (stopped_at : Clock) (later : Ticks Real) (r : RoadRunner j)
      → ((plan_next j stopped_at later r).curr_tick ≡ r.curr_tick)
        × ((plan_next j stopped_at later r).trace ≡ r.trace)
        × ((plan_next j stopped_at later r).interval ≡ r.interval)
        × ((plan_next j stopped_at later r).stopped ≡ (if is_empty later then true else r.stopped))
        × ((plan_next j stopped_at later r).next_pause
            ≡ (if is_empty later then none else some (plan_next j stopped_at later r).interval))
  unfolding plan_next
  plan_next-at stopped_at [] r = (refl, refl, refl, refl, refl)
  plan_next-at stopped_at (next ∷ later) r = (refl, refl, refl, refl, refl)

  plan_next-next :
      (stopped_at : Clock) (later : Ticks Real) (r : RoadRunner j)
      → ((plan_next j stopped_at later r).broker ≡ r.broker)
        × (let r' = plan_next j stopped_at later r in
            if is_empty later then r'.stopped ≡ true else r'.next_pause ≡ some r'.interval)
  unfolding plan_next
  plan_next-next stopped_at [] r = (refl, refl)
  plan_next-next stopped_at (next ∷ later) r = (refl, refl)

  pause-tick :
      (begun ended stopped_at : Clock) (r : RoadRunner j) (abs_tick : ℕ) (tick : TimeTick Real)
      (later : Ticks Real)
      → Ensures
          (Advanced r abs_tick later)
          (pause j begun ended stopped_at (record r { curr_tick = (abs_tick, tick) ∷ later }))
  unfolding pause push_to_queue
  pause-tick begun ended stopped_at r abs_tick tick later =
      let r0 : RoadRunner j = record r { curr_tick = (abs_tick, tick) ∷ later } in
      let many_ticks = ltb 0 abs_tick && length r.trace.trace_time_ticks / 10 =ℕ 0 in
      let no_distance = next_interval j abs_tick later r.interval =ℕ 0 in
      let Goal = Advanced r abs_tick later in
      Ensures-bind (λ t. many_ticks ≡ false) Goal (undefined_if many_ticks) _
        (undefined_if-Ensures many_ticks)
        (λ _ many.
          Ensures-bind (λ r'. record r0 { broker = r'.broker } ≡ r') Goal (push_tick j tick r0) _
            (push_tick-keeps tick r0)
            (λ pushed kept.
              Ensures-bind (λ t. no_distance ≡ false) Goal (undefined_if no_distance) _
                (undefined_if-Ensures no_distance)
                (λ _ distance.
                  Ensures-bind (λ b. Unit {0}) Goal (process_incoming j pushed.broker) _
                    (Ensures-any _)
                    (λ b _.
                      let (at, trace, step, ending, next) = plan_next-at stopped_at later _ in
                      record {
                        many = many;
                        distance = distance;
                        at = at;
                        trace = trace ∙ sym (ap (λ s. s.trace) kept);
                        step = step;
                        ending =
                            ending
                            ∙ ap (λ b. if is_empty later then true else b)
                                (sym (ap (λ s. s.stopped) kept));
                        next = next;
                      }))))

  -- `pause` returns at a tick only.
  pub pause-Advanced :
      (begun ended stopped_at : Clock) (r r' : RoadRunner j) (ticks : Ticks Real)
      → r.curr_tick ≡ ticks
      → pause j begun ended stopped_at r ≡ returns r'
      → (abs_tick : ℕ) × (tick : TimeTick Real) × (later : Ticks Real) × (r.curr_tick
          ≡ (abs_tick, tick) ∷ later)
        × Advanced r abs_tick later r'
  pause-Advanced begun ended stopped_at r r' [] q e =
      let at_end : pause j begun ended stopped_at (record r { curr_tick = [] }) ≡ undefined =
        unfold pause in refl in
      let same = ap (λ c. pause j begun ended stopped_at (record r { curr_tick = c })) q in
      absurd cc
  pause-Advanced begun ended stopped_at r r' ((abs_tick, tick) ∷ later) q e =
      let same = ap (λ c. pause j begun ended stopped_at (record r { curr_tick = c })) q in
      let done = pause-tick begun ended stopped_at r abs_tick tick later in
      (abs_tick, tick, later, q, subst (Ensures (Advanced r abs_tick later)) (sym same ∙ e) done)

  -- What a call of `pause` at a tick comes to.
  abbrev pub Advances :
      (RoadRunner j → Outcome (RoadRunner j)) → Broker j → ℕ → Ticks Real → RoadRunner j → Type 0
  Advances call b interval later r =
      (r' : RoadRunner j) × (call r ≡ returns r')
      × (r'.broker ≡ b)
      × (r'.curr_tick ≡ later)
      × (r'.interval ≡ interval)
      × (if is_empty later then r'.stopped ≡ true else r'.next_pause ≡ some r'.interval)

  pause-at_tick :
      (begun ended stopped_at : Clock) (r pushed : RoadRunner j) (b : Broker j) (abs_tick : ℕ)
      (tick : TimeTick Real) (later : Ticks Real)
      → (ltb 0 abs_tick && length r.trace.trace_time_ticks / 10 =ℕ 0) ≡ false
      → (next_interval j abs_tick later r.interval =ℕ 0) ≡ false
      → push_to_queue j (record r { curr_tick = (abs_tick, tick) ∷ later }) ≡ returns pushed
      → process_incoming j pushed.broker ≡ returns b
      → Advances
          (pause j begun ended stopped_at)
          b
          (next_interval j abs_tick later r.interval)
          later
          (record r { curr_tick = (abs_tick, tick) ∷ later })
  unfolding pause
  pause-at_tick begun ended stopped_at r pushed b abs_tick tick later enough apart made handled =
      let interval = next_interval j abs_tick later r.interval in
      let agents = to_int (length tick.update_agent) in
      let played : RoadRunner j = record pushed {
        broker = b;
        prev_tick = (abs_tick, tick) ∷ later;
        curr_tick = later;
        interval = interval;
        profiler =
            log_tick_end (to_int (abs_tick / interval)) agents (pos 0) ended
              (log_tick_begin (to_int (abs_tick / interval)) agents (pos 0) begun r.profiler);
      } in
      let (same_broker, next) = plan_next-next stopped_at later played in
      let (at, _, step_kept, _, _) = plan_next-at stopped_at later played in
      (
        plan_next j stopped_at later played,
        rw enough (rw made (rw apart (rw handled refl))),
        same_broker,
        at,
        step_kept,
        next,
      )

  -- How long it is from a tick to the next one; at the last tick the old interval stays.
  abbrev pub IsInterval : ℕ → Ticks Real → ℕ → ℕ → Type 0
  IsInterval abs_tick [] old interval = old ≡ interval
  IsInterval abs_tick ((t, tick) ∷ later) old interval = (abs_tick + interval ≡ t) × (t < 2 ^ 32)

  pub next_interval-IsInterval :
      (abs_tick : ℕ) (later : Ticks Real) (old interval : ℕ)
      → IsInterval abs_tick later old interval
      → next_interval j abs_tick later old ≡ interval
  next_interval-IsInterval abs_tick [] old interval h = h
  next_interval-IsInterval abs_tick ((t, tick) ∷ later) old interval (ahead, fits) = omega arith

  -- In a trace of at least ten ticks, at a tick whose distance to the next one is `interval`, not 0 (or
  -- at the last tick, where `interval` is the one before), with times of 32 bits: if the tick's messages
  -- are made and handled without a fault, `pause` returns, with that interval, the broker as the messages
  -- left it, and the iterator at the next tick. That one is scheduled after the interval; after the
  -- last tick the simulation is stopped instead.
  pub pause-Advances :
      (begun ended stopped_at : Clock) (r pushed : RoadRunner j) (b : Broker j)
      (abs_tick interval : ℕ) (tick : TimeTick Real) (later : Ticks Real)
      → r.curr_tick ≡ (abs_tick, tick) ∷ later
      → 10 ≤ length r.trace.trace_time_ticks
      → IsInterval abs_tick later r.interval interval
      → 0 < interval
      → push_to_queue j r ≡ returns pushed
      → process_incoming j pushed.broker ≡ returns b
      → Advances (pause j begun ended stopped_at) b interval later r
  pause-Advances begun ended stopped_at r pushed b abs_tick interval tick later q many apart step
        made handled =
      let r0 : RoadRunner j = record r { curr_tick = (abs_tick, tick) ∷ later } in
      let same : r ≡ r0 = ap (λ c. record r { curr_tick = c }) q in
      let distance = next_interval-IsInterval abs_tick later r.interval interval apart in
      subst (λ n. Advances (pause j begun ended stopped_at) b n later r) distance
        (subst
          (Advances (pause j begun ended stopped_at) b (next_interval j abs_tick later r.interval)
            later)
          (sym same)
          (pause-at_tick begun ended stopped_at r pushed b abs_tick tick later (ground arith)
            (ground (arith, distance, step)) (ap (push_to_queue j) (sym same) ∙ made) handled))
