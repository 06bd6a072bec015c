-- ===== src/Trace/Played.antt =====
-- How far a trace is played (pause of model/testing/rr_baseline.cc).
use sm4ns.Base.{
  ℕ, zero, suc, ◌/◌, ◌<◌, ◌≡◌, ◌⊎◌, inl, inr, refl, sym, ap, ◌∙◌, subst, Bool, true, false, not,
  ◌||◌, ◌==◌, ltb, ◌=ℕ◌, List, [], ◌∷◌, length, String, Option, some, returns, throw_if,
  unknown_protocol, Ensures, Ensures-bind, Ensures-any, arith,
}
use sm4ns.JsonLib.{JsonLib}
use sm4ns.Agents.{World}
use sm4ns.Session.{Session}
use sm4ns.Profiler.{Clock, Profiles, init_log_file, new_builder}
use sm4ns.Trace.{Boost, Ticks, TimeTick, new_trace, parse}
use sm4ns.Trace.Invariant.{Ascending, Consistent}
use sm4ns.Trace.Parsed.{parsed-Consistent}
use sm4ns.Trace.Playback.{
  RoadRunner, ids_of, new_road_runner, create_agents, create_nodes, start, pause,
}
use sm4ns.Trace.Steps.{Advanced, pause-Advanced}

few_tenths : (n : ℕ) → n < 10 → (n / 10 =ℕ 0) ≡ true
few_tenths n h = ground arith

module _ (j : JsonLib) where
  open j use {Real}

  pub new_road_runner-fresh :
      (session : Session) (world : World Real) (profiles : Profiles) (can_open : Bool)
      (protocol : String) (n : ℕ) (comm loc : Bool)
      → Ensures
          (λ r. (r.trace ≡ new_trace n comm loc) × (r.interval ≡ 0) × (r.stopped ≡ false))
          (new_road_runner j session world profiles can_open protocol n comm loc)
  unfolding new_road_runner
  new_road_runner-fresh session world profiles can_open protocol n comm loc =
      let Fresh : RoadRunner j → Type 0 =
        λ r. (r.trace ≡ new_trace n comm loc) × (r.interval ≡ 0) × (r.stopped ≡ false) in
      Ensures-bind (λ a. Unit {0}) Fresh (init_log_file can_open profiles) _ (Ensures-any _)
        (λ opened _.
          Ensures-bind (λ a. Unit {0}) Fresh (new_builder opened) _ (Ensures-any _)
            (λ builder _. (refl, refl, refl)))

  -- createNodes changes the broker only.
  create_nodes-keeps :
      (r : RoadRunner j) → Ensures (λ r'. record r { broker = r'.broker } ≡ r') (create_nodes j r)
  unfolding create_nodes
  create_nodes-keeps r =
      let Keeps : RoadRunner j → Type 0 = λ r'. record r { broker = r'.broker } ≡ r' in
      Ensures-bind (λ a. Unit {0}) Keeps
        (throw_if (not (r.protocol == "80211b" || r.protocol == "80211p")) unknown_protocol) _
        (Ensures-any (throw_if _ _))
        (λ _ _.
          Ensures-bind (λ a. Unit {0}) Keeps
            (create_agents j r.trace.max_nof_agents (ids_of r.trace.agents_list)
              r.broker.world.all_agents)
            _ (Ensures-any (create_agents j _ _ _)) (λ agents _. refl))

  pub start-fresh :
      (boost : Boost Real) (file : Option (List String)) (now : Clock) (r : RoadRunner j) (n : ℕ)
      (comm loc : Bool)
      → r.trace ≡ new_trace n comm loc
      → Ensures
          (λ result.
            (result.1.curr_tick ≡ result.1.trace.trace_time_ticks)
            × (result.1.interval ≡ r.interval)
            × (result.1.stopped ≡ r.stopped)
            × (result.1.next_pause ≡ some 0)
            × Ascending 0 result.1.trace.trace_time_ticks)
          (start j boost file now r)
  unfolding start
  start-fresh boost file now r n comm loc made =
      let Fresh : Bool × RoadRunner j → Type 0 = λ result.
        (result.1.curr_tick ≡ result.1.trace.trace_time_ticks)
        × (result.1.interval ≡ r.interval)
        × (result.1.stopped ≡ r.stopped)
        × (result.1.next_pause ≡ some 0)
        × Ascending 0 result.1.trace.trace_time_ticks in
      Ensures-bind (Consistent Real n) Fresh (parse boost file r.trace) _
        (parsed-Consistent boost file n comm loc r.trace made)
        (λ trace h.
          Ensures-bind (λ r'. record (record r { trace = trace }) { broker = r'.broker } ≡ r') Fresh
            (create_nodes j (record r { trace = trace })) _ (create_nodes-keeps _)
            (λ r' kept. (
              sym (ap (λ s. s.trace.trace_time_ticks) (sym kept)),
              sym (ap (λ s. s.interval) kept),
              sym (ap (λ s. s.stopped) kept),
              refl,
              subst (λ s. Ascending 0 s.trace.trace_time_ticks) kept h.ascending,
            )))

-- A trace that is played: the broker was made, it was started, and then `pause` was called some times.
pub data Played (j : JsonLib) (boost : Boost j.Real) : RoadRunner j → Type 0 where
  started :
      (session : Session) (world : World j.Real) (profiles : Profiles) (can_open : Bool)
      (protocol : String) (n : ℕ) (comm loc ok : Bool) (file : Option (List String)) (now : Clock)
      (r r' : RoadRunner j)
      → new_road_runner j session world profiles can_open protocol n comm loc ≡ returns r
      → start j boost file now r ≡ returns (ok, r')
      → Played j boost r'
  paused :
      (r r' : RoadRunner j) (begun ended stopped_at : Clock)
      → Played j boost r
      → pause j begun ended stopped_at r ≡ returns r'
      → Played j boost r'

module _ (j : JsonLib) (boost : Boost j.Real) where
  open j use {Real}

  -- The first tick is next and there is no interval yet, or every tick to come is later than time 0.
  record Early (r : RoadRunner j) : Type 0 where
    ascending : Ascending 0 r.trace.trace_time_ticks
    running : r.stopped ≡ false
    place : ((r.curr_tick ≡ r.trace.trace_time_ticks) × (r.interval ≡ 0)) ⊎ Ascending 1 r.curr_tick

  later_tick :
      (r r' : RoadRunner j) (abs_tick : ℕ) (tick : TimeTick Real) (later : Ticks Real)
      → length r.trace.trace_time_ticks < 10
      → Early r
      → r.curr_tick ≡ (abs_tick, tick) ∷ later
      → Advanced j r abs_tick later r'
      → Early r'
  later_tick r r' (suc time) tick later short h q a = absurd (
      let m = a.many in
      let f = few_tenths _ short in let l : ltb 0 (suc time) ≡ true = ground arith in cc)
  later_tick r r' zero tick [] short h q a = elim h.place [
    | inl (same, first) ↦
        absurd (let d = a.distance in let z : (r.interval =ℕ 0) ≡ true = rw first refl in cc)
    | inr asc ↦ absurd (let (one, _) = subst (Ascending 1) q asc in omega arith)
  ]
  later_tick r r' zero tick (next ∷ later) short h q a =
      let begins : Ascending 0 ((zero, tick) ∷ next ∷ later) = elim h.place [
        | inl (same, first) ↦ subst (Ascending 0) (sym same ∙ q) h.ascending
        | inr asc ↦ absurd (let (one, _) = subst (Ascending 1) q asc in omega arith)
      ] in
      record {
        ascending = subst (λ t. Ascending 0 t.trace_time_ticks) (sym a.trace) h.ascending;
        running = a.ending ∙ h.running;
        place = inr (subst (Ascending 1) (sym a.at) begins.1);
      }

  Played-Early :
      (r : RoadRunner j) → Played j boost r → length r.trace.trace_time_ticks < 10 → Early r
  Played-Early _
        (started session world profiles can_open protocol n comm loc ok file now r r' made begun)
        short =
      let (trace, first, running) =
        subst (Ensures _) made
          (new_road_runner-fresh j session world profiles can_open protocol n comm loc) in
      let (at, interval, stopped, _, ascending) =
        subst (Ensures _) begun (start-fresh j boost file now r n comm loc trace) in
      record {
        ascending = ascending;
        running = stopped ∙ running;
        place = inl (at, interval ∙ first);
      }
  Played-Early _ (paused r r' begun ended stopped_at p e) short =
      let (abs_tick, tick, later, q, a) =
        pause-Advanced j begun ended stopped_at r r' r.curr_tick refl e in
      let short' = subst (λ t. length t.trace_time_ticks < 10) a.trace short in
      later_tick r r' abs_tick tick later short' (Played-Early r p short') q a

-- A trace with fewer than ten ticks is never played to its end: however often `pause` returned, the
-- simulation was not stopped.
pub Played-short :
    (j : JsonLib) (boost : Boost j.Real) (r : RoadRunner j)
    → Played j boost r
    → length r.trace.trace_time_ticks < 10
    → r.stopped ≡ false
Played-short j boost r p short = (Played-Early j boost r p short).running
