-- ===== src/Trace/Parsed.antt =====
-- What holds of a trace while it is read (parseLine and parse of model/testing/rr_baseline.cc).
use sm4ns.Base.{
  ℕ, zero, suc, ◌<◌, ◌≤◌, ◌≡◌, ◌≢◌, refl, sym, ap, ◌∙◌, subst, Bool, true, false, not, ltb, ◌=ℕ◌,
  if◌then◌else◌, List, [], ◌∷◌, ◌++◌, length, String, Option, none, some, returns, throws,
  Safe-bind, Ensures, Safe-Ensures, arith, unknown_trace_type,
}
use sm4ns.Base.Maps.{find, assign, insert, find-assign}
use sm4ns.Trace.Text.{time_text, id_text, coordinate_text}
use sm4ns.Trace.{
  Boost, TextSet, Trace, change_tick, contains, new_trace, add_line, update_line, multicast_line,
  typed_line, parse_line, parse_lines, parse, add_type, update_type, multicast_type,
}
use sm4ns.Trace.Invariant.{
  type_of-known, Consistent, insert-known, if-Fine, Fine, substr-Quiet, length-insert, cast-Quiet,
  contains-insert, if-Consistent, ticks_changed, then-Fine, token-Quiet,
}

module _ {R : Type 0} (n : ℕ) (boost : Boost R) where
  add_line-Consistent :
      (time : ℕ) (id : String) (t : Trace R)
      → Consistent R n t
      → Consistent R n (add_line boost time id t)
  unfolding add_line
  add_line-Consistent time id t h = by_room (ltb (length t.agent_limit) t.max_nof_agents) refl
    where
      added : TextSet → Trace R
      added limit = record t {
        agent_limit = limit;
        trace_time_ticks =
            change_tick time (λ tick. record tick { add_agent = tick.add_agent ++ id ∷ [] })
              t.trace_time_ticks;
        agents_list = insert id tt t.agents_list;
      }

      added-Consistent :
          (limit : TextSet)
          → length limit ≤ n
          → insert id tt t.agent_limit ≡ limit
          → Consistent R n (added limit)
      added-Consistent limit few same =
          let ticks =
            ticks_changed t h time
              (λ tick. record tick { add_agent = tick.add_agent ++ id ∷ [] }) in
          record {
            same_agents = ap (insert id tt) h.same_agents ∙ same;
            few_agents = few;
            max_kept = h.max_kept;
            ascending = ticks.ascending;
            known_types = h.known_types;
          }

      by_room :
          (b : Bool)
          → ltb (length t.agent_limit) t.max_nof_agents ≡ b
          → (let limit = if b then insert id tt t.agent_limit else t.agent_limit in
              Consistent R n
                (if not (contains id limit) then record t { agent_limit = limit } else added limit))
      by_room true room =
          let limit = insert id tt t.agent_limit in
          let few : length limit ≤ n =
            let l = length-insert id tt t.agent_limit in let m = h.max_kept in ground arith in
          if-Consistent (not (contains id limit)) _ _
            (λ e. absurd (let k = contains-insert id t.agent_limit in cc))
            (λ e. added-Consistent limit few refl)
      by_room false full =
          if-Consistent (not (contains id t.agent_limit)) _ _ (λ e. h)
            (λ e.
              added-Consistent t.agent_limit h.few_agents
                (insert-known id t.agent_limit (ground arith)))

  update_line-Fine :
      (tokens : List String) (time : ℕ) (id : String) (t : Trace R)
      → Consistent R n t
      → Fine R n (update_line boost tokens time id t)
  unfolding update_line coordinate_text
  update_line-Fine tokens time id t h = if-Fine n t.disable_location_update _ _ h (
      if-Fine n (not (contains id t.agent_limit)) _ _ h (
        then-Fine n _ _ (token-Quiet tokens 3) (λ x_token.
          then-Fine n _ _ (substr-Quiet x_token _ _) (λ x_str.
            then-Fine n _ _ (token-Quiet tokens 4) (λ y_token.
              then-Fine n _ _ (substr-Quiet y_token _ _) (λ y_str.
                then-Fine n _ _ (cast-Quiet (boost.to_double x_str)) (λ x_pos.
                  then-Fine n _ _ (cast-Quiet (boost.to_double y_str))
                    (λ y_pos. ticks_changed t h time _))))))))

  multicast_line-Fine :
      (tokens : List String) (time : ℕ) (id : String) (t : Trace R)
      → Consistent R n t
      → Fine R n (multicast_line boost tokens time id t)
  unfolding multicast_line coordinate_text
  multicast_line-Fine tokens time id t h = if-Fine n t.disable_communication _ _ h (
      if-Fine n (not (contains id t.agent_limit)) _ _ h (
        then-Fine n _ _ (token-Quiet tokens 3) (λ recipients_token.
          then-Fine n _ _ (substr-Quiet recipients_token _ _) (λ recipients_str.
            then-Fine n _ _ (token-Quiet tokens 4) (λ mc_data. ticks_changed t h time _)))))

  typed_line-Fine :
      (type : ℕ) (tokens : List String) (time : ℕ) (id : String) (t : Trace R)
      → type < 3
      → Consistent R n t
      → Fine R n (typed_line boost type tokens time id t)
  unfolding typed_line
  typed_line-Fine zero tokens time id t few h = multicast_line-Fine tokens time id t h
  typed_line-Fine (suc zero) tokens time id t few h = add_line-Consistent time id t h
  typed_line-Fine (suc (suc zero)) tokens time id t few h = update_line-Fine tokens time id t h
  typed_line-Fine (suc (suc (suc k))) tokens time id t few h = absurd (omega arith)

  parse_line-Fine :
      (line : String) (t : Trace R) → Consistent R n t → Fine R n (parse_line boost line t)
  unfolding parse_line time_text id_text
  parse_line-Fine line t h =
      let tokens = boost.split line ";" in
      if-Fine n (length tokens =ℕ 1) _ _
        (then-Fine n _ _ (token-Quiet tokens 0) (λ text.
          then-Fine n _ _ (cast-Quiet (boost.to_unsigned text))
            (λ next_time. ticks_changed t h next_time _)))
        (then-Fine n _ _ (token-Quiet tokens 0) (λ type_text.
          then-Fine n _ _ (token-Quiet tokens 1) (λ time_token.
            then-Fine n _ _ (substr-Quiet time_token _ _) (λ time_str.
              then-Fine n _ _ (cast-Quiet (boost.to_unsigned time_str)) (λ curr_time.
                then-Fine n _ _ (token-Quiet tokens 2) (λ agent_token.
                  then-Fine n _ _ (substr-Quiet agent_token _ _) (λ ag_id.
                    let (few, known) = type_of-known type_text t.message_map h.known_types in
                    typed_line-Fine _ tokens curr_time ag_id _ few (record {
                      same_agents = h.same_agents;
                      few_agents = h.few_agents;
                      max_kept = h.max_kept;
                      ascending = h.ascending;
                      known_types = known;
                    }))))))))

  parse_lines-Fine :
      (lines : List String) (t : Trace R) → Consistent R n t → Fine R n (parse_lines boost lines t)
  unfolding parse_lines
  parse_lines-Fine [] t h = h
  parse_lines-Fine (line ∷ lines) t h =
      Safe-bind unknown_trace_type (Consistent R n) (Consistent R n) (parse_line boost line t)
        (parse_lines boost lines) (parse_line-Fine line t h) (parse_lines-Fine lines)

  new_trace-Consistent : (comm loc : Bool) → Consistent R n (new_trace n comm loc)
  unfolding new_trace
  new_trace-Consistent comm loc = record {
    same_agents = refl;
    few_agents = omega arith;
    max_kept = refl;
    ascending = tt;
    known_types = λ text type e.
        let a =
          find-assign text "update_agent" update_type
            (assign "add_agent" add_type (assign "multicast" multicast_type [])) in
        let b = find-assign text "add_agent" add_type (assign "multicast" multicast_type []) in
        let c = find-assign text "multicast" multicast_type [] in unfold find in ground arith;
  }

  parse-Fine :
      (file : Option (List String)) (comm loc : Bool)
      → Fine R n (parse boost file (new_trace n comm loc))
  unfolding parse
  parse-Fine none comm loc = λ e. cc
  parse-Fine (some lines) comm loc =
      let h = new_trace-Consistent comm loc in
      parse_lines-Fine lines (record (new_trace n comm loc) { trace_time_ticks = [] })
        (record {
          same_agents = h.same_agents;
          few_agents = h.few_agents;
          max_kept = h.max_kept;
          ascending = tt;
          known_types = h.known_types;
        })

-- Reading a trace file for `n` agents, whatever its lines are: if it returns, the agents for whom nodes
-- will be created are exactly those whose lines are taken, they are at most `n`, and the ticks are in
-- strictly ascending order of their times; and it never throws "Unknown message type".
pub parse-Consistent :
    {R : Type 0} (boost : Boost R) (n : ℕ) (comm loc : Bool) (file : Option (List String))
    → ((t : Trace R) → parse boost file (new_trace n comm loc) ≡ returns t → Consistent R n t)
      × (parse boost file (new_trace n comm loc) ≢ throws unknown_trace_type)
parse-Consistent {R} boost n comm loc file =
    let fine = parse-Fine n boost file comm loc in
    (λ t e. subst (Fine R n) e fine, λ e. (subst (Fine R n) e fine) refl)

pub parsed-Consistent :
    {R : Type 0} (boost : Boost R) (file : Option (List String)) (n : ℕ) (comm loc : Bool)
    (t : Trace R)
    → t ≡ new_trace n comm loc
    → Ensures (Consistent R n) (parse boost file t)
parsed-Consistent {R} boost file n comm loc t made =
    Safe-Ensures unknown_trace_type (Consistent R n) (parse boost file t)
      (subst (λ u. Fine R n (parse boost file u)) (sym made) (parse-Fine n boost file comm loc))
