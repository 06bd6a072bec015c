-- ===== src/Messages.antt =====
-- The messages that are received (model/message/messages.h) and the functions of JsonParser that
-- take one out of a conglomerate (model/message/serialize.cc).
pub mod Parsed
use sm4ns.Base.{
  ℕ, zero, suc, Bool, true, false, not, ◌&&◌, if◌then◌else◌, String, List, [], ◌∷◌, is_empty,
  Outcome, returns, throws, throw_if, ◌>>=◌, ◌>>◌, binary_message_unsupported, bad_agents_info,
  bad_all_locations, bad_opaque_send, broadcast_with_recipients,
}
use sm4ns.Base.Maps.{Map, assign}
use sm4ns.JsonLib.{JsonLib}
use sm4ns.Conglomerate.{MessageBase, MessageConglomerate, get_base_message, get_json_message}

pub record DPoint (R : Type 0) : Type 0 where
  pub x : R
  pub y : R

pub record OpaqueSendMessage : Type 0 where
  pub base : MessageBase
  pub from_id : String
  pub to_ids : List String
  pub broadcast : Bool
  pub content : String
  pub format : String
  pub tech : String

pub record AgentsInfoMessage : Type 0 where
  pub base : MessageBase
  pub add_agent_ids : List String
  pub rem_agent_ids : List String

pub record AllLocationsMessage (R : Type 0) : Type 0 where
  pub base : MessageBase
  pub agent_locations : Map (DPoint R)

-- `a && b`, where `b` is computed only if `a` holds.
abbrev pub and_then : Outcome Bool → Outcome Bool → Outcome Bool
and_then a b = a >>= λ x. if x then b else returns false

module _ (j : JsonLib) where
  open j use {Value, Real}

  -- The texts of an array from `index`, `count` items before its end.
  unfoldable pub parse_strings : Value → ℕ → ℕ → Outcome (List String)
  parse_strings items index zero = returns []
  parse_strings items index (suc count) = do
    item ← j.at items index
    text ← j.as_string item
    rest ← parse_strings items (suc index) count
    returns (text ∷ rest)

  -- `v[key].asString()`
  unfoldable pub string_member : Value → String → Outcome String
  string_member v key = do item ← j.get v key; j.as_string item

  -- The ids under "add" or "rem", if there are any.
  unfoldable pub parse_agent_ids : Value → String → Outcome (List String)
  parse_agent_ids js_msg key = do
    found ← j.is_member js_msg key
    if not found then returns [] else do
      agents ← j.get js_msg key
      throw_if (not (j.is_array agents)) bad_agents_info
      parse_strings agents 0 (j.size agents)

  unfoldable pub parse_new_agents : MessageConglomerate Value → ℕ → Outcome AgentsInfoMessage
  parse_new_agents msg msg_number = do
    base ← get_base_message j msg msg_number
    js_msg ← get_json_message j msg msg_number
    throw_if (j.is_null js_msg) binary_message_unsupported
    added ← parse_agent_ids js_msg "add"
    removed ← parse_agent_ids js_msg "rem"
    returns (record { base = base; add_agent_ids = added; rem_agent_ids = removed })

  -- One entry of "locations".
  unfoldable pub parse_location : Value → Map (DPoint Real) → Outcome (Map (DPoint Real))
  unfolding string_member
  parse_location ag_inf locations = do
    complete ←
        and_then (j.is_member ag_inf "id")
          (and_then (j.is_member ag_inf "x") (j.is_member ag_inf "y"))
    throw_if (not complete) bad_all_locations
    ag_id ← string_member ag_inf "id"
    x_value ← j.get ag_inf "x"
    x ← j.as_double x_value
    y_value ← j.get ag_inf "y"
    y ← j.as_double y_value
    returns (assign ag_id (record { x = x; y = y }) locations)

  unfoldable pub parse_locations : Value → ℕ → ℕ → Map (DPoint Real) → Outcome (Map (DPoint Real))
  parse_locations locs index zero locations = returns locations
  parse_locations locs index (suc count) locations = do
    ag_inf ← j.at locs index
    locations' ← parse_location ag_inf locations
    parse_locations locs (suc index) count locations'

  unfoldable pub parse_all_locations :
      MessageConglomerate Value → ℕ → Outcome (AllLocationsMessage Real)
  parse_all_locations msg msg_number = do
    base ← get_base_message j msg msg_number
    js_msg ← get_json_message j msg msg_number
    throw_if (j.is_null js_msg) binary_message_unsupported
    has_array ←
        and_then (j.is_member js_msg "locations")
          (do locs ← j.get js_msg "locations"; returns (j.is_array locs))
    throw_if (not has_array) bad_all_locations
    locs ← j.get js_msg "locations"
    locations ← parse_locations locs 0 (j.size locs) []
    returns (record { base = base; agent_locations = locations })

  -- The seven conditions on an OPAQUE_SEND message, in their order.
  unfoldable pub is_opaque_send : Value → Outcome Bool
  is_opaque_send js_msg = and_then (j.is_member js_msg "from_id") (
      and_then (j.is_member js_msg "to_ids") (
        and_then (j.is_member js_msg "broadcast") (
          and_then (j.is_member js_msg "data") (
            and_then (j.is_member js_msg "format") (
              and_then (j.is_member js_msg "tech")
                (do to_ids ← j.get js_msg "to_ids"; returns (j.is_array to_ids)))))))

  -- The members of an OPAQUE_SEND message, before the last check.
  unfoldable pub opaque_members : MessageBase → Value → Outcome OpaqueSendMessage
  unfolding string_member
  opaque_members base js_msg = do
    from_id ← string_member js_msg "from_id"
    broadcast_value ← j.get js_msg "broadcast"
    broadcast ← j.as_bool broadcast_value
    content ← string_member js_msg "data"
    format ← string_member js_msg "format"
    tech ← string_member js_msg "tech"
    to_ids_value ← j.get js_msg "to_ids"
    to_ids ← parse_strings to_ids_value 0 (j.size to_ids_value)
    returns (record {
      base = base;
      from_id = from_id;
      to_ids = to_ids;
      broadcast = broadcast;
      content = content;
      format = format;
      tech = tech;
    })

  unfoldable pub parse_opaque_send : MessageConglomerate Value → ℕ → Outcome OpaqueSendMessage
  parse_opaque_send msg msg_number = do
    base ← get_base_message j msg msg_number
    js_msg ← get_json_message j msg msg_number
    throw_if (j.is_null js_msg) binary_message_unsupported
    complete ← is_opaque_send js_msg
    throw_if (not complete) bad_opaque_send
    res ← opaque_members base js_msg
    throw_if (res.broadcast && not (is_empty res.to_ids)) broadcast_with_recipients
    returns res
