-- ===== src/Trace.antt =====
-- RoadRunnerBaseLine (model/testing/rr_baseline.h and rr_baseline.cc), a broker that plays a recorded
-- trace: how a trace file is read. A line is a String of one Char for each byte, and sizes and positions
-- are of 64 bits.
pub mod Text
pub mod Invariant
pub mod Parsed
pub mod Playback
pub mod Nodes
pub mod Schedule
pub mod Steps
pub mod Played
use sm4ns.Base.{
  ℕ, zero, suc, ◌+◌, ◌-◌, ◌%◌, ◌^◌, Bool, true, false, not, ltb, ◌=ℕ◌, if◌then◌else◌, List, [], ◌∷◌,
  ◌++◌, length, get_elem?, String, Option, none, some, Outcome, returns, throws, undefined, ◌>>=◌,
  bad_lexical_cast, unknown_trace_type, input_not_found, ◌==◌,
}
use sm4ns.Base.Maps.{Map, find, assign, insert}
use sm4ns.Messages.{DPoint}
use sm4ns.Trace.Text.{time_text, id_text, coordinate_text}
use Prim.Native.Nat.{Ordering, compare}

-- What the code calls of boost: split(tokens, text, is_any_of(separators)), and lexical_cast to an
-- unsigned int and to a double, where `none` is the exception bad_lexical_cast.
pub record Boost (R : Type 0) : Type 0 where
  pub split : String → String → List String
  pub to_unsigned : String → Option ℕ
  pub to_double : String → Option R

pub record TickMulticast : Type 0 where
  pub send_ag_id : String
  pub receive_ag_id : List String
  pub mc_data : String

pub record TimeTick (R : Type 0) : Type 0 where
  pub add_agent : List String
  pub update_agent : Map (DPoint R)
  pub multicast : List TickMulticast

-- std::map from unsigned ints, in ascending order.
abbrev pub Ticks : Type 0 → Type 0
Ticks R = List (ℕ × TimeTick R)

-- std::set of texts
abbrev pub TextSet : Type 0
TextSet = Map (Unit {0})

-- The enum messageType.
abbrev pub multicast_type : ℕ
multicast_type = 0

abbrev pub add_type : ℕ
add_type = 1

abbrev pub update_type : ℕ
update_type = 2

-- The members that reading a trace uses.
pub record Trace (R : Type 0) : Type 0 where
  pub message_map : Map ℕ
  pub trace_time_ticks : Ticks R
  pub agent_limit : TextSet
  pub agents_list : TextSet
  pub max_nof_agents : ℕ
  pub disable_communication : Bool
  pub disable_location_update : Bool

abbrev pub new_tick : {R : Type 0} → TimeTick R
new_tick = record { add_agent = []; update_agent = []; multicast = [] }

-- A change of `ticks[time]`, which is made if it is not there.
unfoldable pub change_tick : {R : Type 0} → ℕ → (TimeTick R → TimeTick R) → Ticks R → Ticks R
change_tick time change [] = (time, change new_tick) ∷ []
change_tick time change ((t, tick) ∷ ticks) = elim (compare time t) [
  | Ordering.lt ↦ (time, change new_tick) ∷ (t, tick) ∷ ticks
  | Ordering.eq ↦ (time, change tick) ∷ ticks
  | Ordering.gt ↦ (t, tick) ∷ change_tick time change ticks
]

unfoldable pub contains : String → TextSet → Bool
contains id ids = elim (find id ids) [ none ↦ false | some here ↦ true ]

-- `MessageMap[text]`: a text that is not there is put in with the enum's value 0.
unfoldable pub type_of : String → Map ℕ → ℕ × Map ℕ
type_of text types = elim (find text types) [
  | some value ↦ (value, types)
  | none ↦ (0, assign text 0 types)
]

-- `tokens[i]`: past the end it is undefined.
unfoldable pub token : List String → ℕ → Outcome String
token tokens i = elim (get_elem? tokens i) [ some text ↦ returns text | none ↦ undefined ]

abbrev pub cast {ℓ} : {A : Type ℓ} → Option A → Outcome A
cast none = throws bad_lexical_cast
cast (some a) = returns a

unfoldable pub keep_not_empty : List String → List String
keep_not_empty [] = []
keep_not_empty (id ∷ ids) = let rest = keep_not_empty ids in if id == "" then rest else id ∷ rest

-- The constructor's part.
unfoldable pub new_trace : {R : Type 0} → ℕ → Bool → Bool → Trace R
new_trace nof_agents disable_communication disable_location_update = record {
  message_map =
      assign "update_agent" update_type
        (assign "add_agent" add_type (assign "multicast" multicast_type []));
  trace_time_ticks = [];
  agent_limit = [];
  agents_list = [];
  max_nof_agents = nof_agents;
  disable_communication = disable_communication;
  disable_location_update = disable_location_update;
}

module _ {R : Type 0} (boost : Boost R) where
  -- `case ADD`
  unfoldable pub add_line : ℕ → String → Trace R → Trace R
  add_line curr_time ag_id t =
      let limit =
        if ltb (length t.agent_limit) t.max_nof_agents
        then insert ag_id tt t.agent_limit
        else t.agent_limit in
      let t' = record t { agent_limit = limit } in
      if not (contains ag_id limit) then t' else record t' {
        trace_time_ticks =
            change_tick curr_time (λ tick. record tick { add_agent = tick.add_agent ++ ag_id ∷ [] })
              t.trace_time_ticks;
        agents_list = insert ag_id tt t.agents_list;
      }

  -- `case UPDATE`
  unfoldable pub update_line : List String → ℕ → String → Trace R → Outcome (Trace R)
  update_line tokens curr_time ag_id t =
      if t.disable_location_update
      then returns t
      else if not (contains ag_id t.agent_limit)
      then returns t
      else do
        x_token ← token tokens 3
        x_str ← coordinate_text x_token
        y_token ← token tokens 4
        y_str ← coordinate_text y_token
        x_pos ← cast (boost.to_double x_str)
        y_pos ← cast (boost.to_double y_str)
        returns (record t {
          trace_time_ticks =
              change_tick curr_time
                (λ tick. record tick {
                  update_agent = assign ag_id (record { x = x_pos; y = y_pos }) tick.update_agent;
                })
                t.trace_time_ticks;
        })

  -- `case MULTICAST`
  unfoldable pub multicast_line : List String → ℕ → String → Trace R → Outcome (Trace R)
  multicast_line tokens curr_time ag_id t =
      if t.disable_communication
      then returns t
      else if not (contains ag_id t.agent_limit)
      then returns t
      else do
        recipients_token ← token tokens 3
        recipients_str ← coordinate_text recipients_token
        let receive_ag_id = keep_not_empty (boost.split recipients_str ",")
        mc_data ← token tokens 4
        let res : TickMulticast = record {
          send_ag_id = ag_id;
          receive_ag_id = receive_ag_id;
          mc_data = mc_data;
        }
        returns (record t {
          trace_time_ticks =
              change_tick curr_time (λ tick. record tick { multicast = tick.multicast ++ res ∷ [] })
                t.trace_time_ticks;
        })

  -- What comes after the time and the agent.
  unfoldable pub typed_line : ℕ → List String → ℕ → String → Trace R → Outcome (Trace R)
  typed_line type tokens curr_time ag_id t =
      if type =ℕ add_type
      then returns (add_line curr_time ag_id t)
      else if type =ℕ update_type
      then update_line tokens curr_time ag_id t
      else if type =ℕ multicast_type
      then multicast_line tokens curr_time ag_id t
      else throws unknown_trace_type

  unfoldable pub parse_line : String → Trace R → Outcome (Trace R)
  parse_line line t = do
    let tokens = boost.split line ";"
    if length tokens =ℕ 1
        then (do
          text ← token tokens 0
          next_time ← cast (boost.to_unsigned text)
          returns (record t {
            trace_time_ticks = change_tick next_time (λ tick. new_tick) t.trace_time_ticks;
          }))
        else (do
          message_type_str ← token tokens 0
          time_token ← token tokens 1
          time_str ← time_text time_token
          curr_time ← cast (boost.to_unsigned time_str)
          agent_token ← token tokens 2
          ag_id ← id_text agent_token
          let (type, types) = type_of message_type_str t.message_map
          typed_line type tokens curr_time ag_id (record t { message_map = types }))

  unfoldable pub parse_lines : List String → Trace R → Outcome (Trace R)
  parse_lines [] t = returns t
  parse_lines (line ∷ lines) t = do t' ← parse_line line t; parse_lines lines t'

  -- `none` is a file that cannot be opened.
  unfoldable pub parse : Option (List String) → Trace R → Outcome (Trace R)
  parse none t = throws input_not_found
  parse (some lines) t = parse_lines lines (record t { trace_time_ticks = [] })
