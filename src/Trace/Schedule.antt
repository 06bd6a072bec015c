-- ===== src/Trace/Schedule.antt =====
-- When the ticks of a trace are played (start and pause of model/testing/rr_baseline.cc).
use sm4ns.Base.{
  ℕ, suc, ◌+◌, ◌-◌, ◌^◌, ◌<◌, ◌≡◌, refl, sym, ap, ◌∙◌, subst, Bool, true, [], ◌∷◌, All, String,
  List, Option, none, some, returns, Ensures, arith,
}
use sm4ns.JsonLib.{JsonLib}
use sm4ns.Agents.{World}
use sm4ns.Session.{Session}
use sm4ns.Profiler.{Clock, Profiles}
use sm4ns.Trace.{Boost, Ticks, TimeTick}
use sm4ns.Trace.Invariant.{Ascending}
use sm4ns.Trace.Playback.{RoadRunner, new_road_runner, start, pause}
use sm4ns.Trace.Steps.{Advanced, pause-Advanced, next_interval-IsInterval}
use sm4ns.Trace.Played.{new_road_runner-fresh, start-fresh}

-- A trace that is played by the simulator, with the time of the simulation: the broker was made and
-- started at the time 0, and then `pause` was called some times, each time when the delay of the
-- `pause` that was scheduled last had gone by.
pub data Timed (j : JsonLib) (boost : Boost j.Real) : ℕ → RoadRunner j → Type 0 where
  begun :
      (session : Session) (world : World j.Real) (profiles : Profiles) (can_open : Bool)
      (protocol : String) (n : ℕ) (comm loc ok : Bool) (file : Option (List String)) (now : Clock)
      (r r' : RoadRunner j)
      → new_road_runner j session world profiles can_open protocol n comm loc ≡ returns r
      → start j boost file now r ≡ returns (ok, r')
      → Timed j boost 0 r'
  paused :
      (time delay : ℕ) (r r' : RoadRunner j) (began ended stopped_at : Clock)
      → Timed j boost time r
      → r.next_pause ≡ some delay
      → pause j began ended stopped_at r ≡ returns r'
      → Timed j boost (time + delay) r'

-- The tick that the iterator is at is scheduled at its own time, counted from the first tick's. At
-- the end no tick is scheduled, and the simulation is stopped.
abbrev pub OnTime : (j : JsonLib) → ℕ → ℕ → RoadRunner j → Ticks j.Real → Type 0
OnTime j first time r [] = (r.next_pause ≡ none) × (r.stopped ≡ true)
OnTime j first time r ((t, tick) ∷ later) =
    (delay : ℕ) × (r.next_pause ≡ some delay) × (first + (time + delay) ≡ t)

module _ (j : JsonLib) (boost : Boost j.Real) where
  open j use {Real}

  abbrev Fit : Ticks Real → Type 0
  Fit ticks = All (λ entry. entry.0 < 2 ^ 32) ticks

  -- The ticks to come are in order, of 32 bits, and on time.
  record Scheduled (first time : ℕ) (r : RoadRunner j) : Type 0 where
    ascending : Ascending 0 r.curr_tick
    fit : Fit r.curr_tick
    on_time : OnTime j first time r r.curr_tick

  weaken : (ticks : Ticks Real) (least : ℕ) → Ascending least ticks → Ascending 0 ticks
  weaken [] least h = tt
  weaken ((t, tick) ∷ ticks) least (_, later) = (omega arith, later)

  next-OnTime :
      (first time delay abs_tick : ℕ) (tick : TimeTick Real) (later : Ticks Real)
      (r r' : RoadRunner j)
      → Ascending 0 ((abs_tick, tick) ∷ later)
      → Fit later
      → first + (time + delay) ≡ abs_tick
      → Advanced j r abs_tick later r'
      → OnTime j first (time + delay) r' later
  next-OnTime first time delay abs_tick tick [] r r' asc fit now a = (a.next, a.ending)
  next-OnTime first time delay abs_tick tick ((t, next) ∷ later) r r' (_, (ahead, _)) (fits, _) now
        a =
      let gap =
        next_interval-IsInterval j abs_tick ((t, next) ∷ later) r.interval (t - abs_tick)
          (omega arith, fits) in
      (r'.interval, a.next, let e = a.step ∙ gap in omega arith)

  started-Scheduled :
      (r : RoadRunner j) (ticks : Ticks Real) (first : ℕ) (tick : TimeTick Real) (rest : Ticks Real)
      → r.curr_tick ≡ ticks
      → r.next_pause ≡ some 0
      → Ascending 0 ticks
      → ticks ≡ (first, tick) ∷ rest
      → Fit ticks
      → Scheduled first 0 r
  started-Scheduled r ticks first tick rest at begins ascending q fit = record {
    ascending = subst (Ascending 0) (sym at) ascending;
    fit = subst Fit (sym at) fit;
    on_time = subst (OnTime j first 0 r) (sym (at ∙ q)) (0, begins, omega arith);
  }

  paused-Scheduled :
      (first time delay abs_tick : ℕ) (tick : TimeTick Real) (later : Ticks Real)
      (r r' : RoadRunner j)
      → Scheduled first time r
      → r.next_pause ≡ some delay
      → r.curr_tick ≡ (abs_tick, tick) ∷ later
      → Advanced j r abs_tick later r'
      → Scheduled first (time + delay) r'
  paused-Scheduled first time delay abs_tick tick later r r' h planned q a =
      let ascending = subst (Ascending 0) q h.ascending in
      let fit = (subst Fit q h.fit).1 in
      let (d, next, now) = subst (OnTime j first time r) q h.on_time in
      let same : d ≡ delay = let e = sym next ∙ planned in cc in
      let due : first + (time + delay) ≡ abs_tick = omega arith in
      record {
        ascending = subst (Ascending 0) (sym a.at) (weaken later (suc abs_tick) ascending.1);
        fit = subst Fit (sym a.at) fit;
        on_time =
            subst (OnTime j first (time + delay) r') (sym a.at)
              (next-OnTime first time delay abs_tick tick later r r' ascending fit due a);
      }

  Timed-Scheduled :
      (time : ℕ) (r : RoadRunner j) (first : ℕ) (tick : TimeTick Real) (rest : Ticks Real)
      → Timed j boost time r
      → r.trace.trace_time_ticks ≡ (first, tick) ∷ rest
      → Fit r.trace.trace_time_ticks
      → Scheduled first time r
  Timed-Scheduled _ _ first tick rest
        (begun session world profiles can_open protocol n comm loc ok file now r r' made running) q
        fit =
      let (trace, _, _) =
        subst (Ensures _) made
          (new_road_runner-fresh j session world profiles can_open protocol n comm loc) in
      let (at, _, _, begins, ascending) =
        subst (Ensures _) running (start-fresh j boost file now r n comm loc trace) in
      started-Scheduled r' _ first tick rest at begins ascending q fit
  Timed-Scheduled _ _ first tick rest (paused time delay r r' began ended stopped_at p planned e) q
        fit =
      let (abs_tick, this, later, at, a) =
        pause-Advanced j began ended stopped_at r r' r.curr_tick refl e in
      let ticks = ap (λ t. t.trace_time_ticks) a.trace in
      let h = Timed-Scheduled time r first tick rest p (sym ticks ∙ q) (subst Fit ticks fit) in
      paused-Scheduled first time delay abs_tick this later r r' h planned at a

-- In every run of a played trace in which `pause` was called only when its delay had gone by, and
-- whose trace has a first tick and times of 32 bits: a `pause` is scheduled for the next tick so that,
-- in the time of the simulation, it is played as long after the start as its own time lies behind that
-- of the first tick. If no tick is left, nothing is scheduled and the simulation was stopped.
pub Timed-OnTime :
    (j : JsonLib) (boost : Boost j.Real) (time : ℕ) (r : RoadRunner j) (first : ℕ)
    (tick : TimeTick j.Real) (rest : Ticks j.Real)
    → Timed j boost time r
    → r.trace.trace_time_ticks ≡ (first, tick) ∷ rest
    → All (λ entry. entry.0 < 2 ^ 32) r.trace.trace_time_ticks
    → OnTime j first time r r.curr_tick
Timed-OnTime j boost time r first tick rest p q fit =
    (Timed-Scheduled j boost time r first tick rest p q fit).on_time
