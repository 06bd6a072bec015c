-- ===== src/Make.antt =====
-- The functions of JsonParser that serialize one message (model/message/serialize.cc).
pub mod OpaqueSend
pub mod Locations
use sm4ns.Base.{
  Bool, false, not, String, List, [], ◌∷◌, is_empty, Outcome, returns, throw_if, ◌>>=◌, ◌>>◌,
  binary_message_unsupported,
}
use sm4ns.Base.Maps.{Map}
use sm4ns.Header.{new_bundles}
use sm4ns.JsonLib.{JsonLib}
use sm4ns.Writer.{single_line, write}
use sm4ns.Messages.{DPoint}
use sm4ns.Serialize.{OngoingSerialization, add_generic}

-- model/bundle_version.h
abbrev pub prefer_binary_messages : Bool
prefer_binary_messages = false

-- WFD_Group (model/network/registration.h)
pub record WfdGroup : Type 0 where
  pub group_id : String
  pub go : String
  pub members : List String

module _ (j : JsonLib) where
  open j use {Value, Real}

  -- `v[key] = text`
  abbrev pub set_string : Value → String → String → Outcome Value
  set_string v key text = j.set v key (j.of_string text)

  -- `v[key].append(item)`
  abbrev pub append_member : Value → String → Value → Outcome Value
  append_member v key item = do
    items ← j.get v key
    items' ← j.append items item
    j.set v key items'

  -- A loop of such calls over texts.
  unfoldable pub append_strings : Value → String → List String → Outcome Value
  append_strings v key [] = returns v
  append_strings v key (text ∷ rest) = do
    v' ← append_member v key (j.of_string text)
    append_strings v' key rest

  -- Writing a message and adding it.
  unfoldable pub make_unknown_json : Value → OngoingSerialization → Outcome OngoingSerialization
  make_unknown_json json ongoing = do
    throw_if prefer_binary_messages binary_message_unsupported
    next_msg ← write j (single_line (not new_bundles)) json
    returns (add_generic next_msg ongoing)

  unfoldable pub id_response : String → Outcome Value
  id_response token = do
    res ← set_string j.null "msg_type" "id_response"
    res ← set_string res "id" "987654321"
    res ← set_string res "token" token
    res ← set_string res "type" "ns-3"
    append_member res "services" (j.of_string "srv_all_locations")

  unfoldable pub make_id_response : String → OngoingSerialization → Outcome OngoingSerialization
  make_id_response token ongoing = do
    throw_if prefer_binary_messages binary_message_unsupported
    res ← id_response token
    next_msg ← write j (single_line (not new_bundles)) res
    returns (add_generic next_msg ongoing)

  unfoldable pub make_ticked_client : OngoingSerialization → Outcome OngoingSerialization
  make_ticked_client ongoing = do
    throw_if prefer_binary_messages binary_message_unsupported
    res ← set_string j.null "msg_type" "ticked_client"
    next_msg ← write j (single_line (not new_bundles)) res
    returns (add_generic next_msg ongoing)

  -- The loop over the locations; `single_agent` is the one value that every round fills again.
  unfoldable pub append_locations : Value → Value → Map (DPoint Real) → Outcome Value
  append_locations res single_agent [] = returns res
  append_locations res single_agent ((id, p) ∷ rest) = do
    with_id ← set_string single_agent "id" id
    with_x ← j.set with_id "x" (j.of_real p.x)
    with_y ← j.set with_x "y" (j.of_real p.y)
    res' ← append_member res "locations" with_y
    append_locations res' with_y rest

  -- The JSON value of an all_locations message.
  unfoldable pub all_locations_value : Map (DPoint Real) → Outcome Value
  all_locations_value all_locations = do
    res ← set_string j.null "msg_type" "all_locations"
    append_locations res j.null all_locations

  unfoldable pub make_all_locations :
      Map (DPoint Real) → OngoingSerialization → Outcome OngoingSerialization
  make_all_locations all_locations ongoing = do
    throw_if prefer_binary_messages binary_message_unsupported
    res ← all_locations_value all_locations
    next_msg ← write j (single_line (not new_bundles)) res
    returns (add_generic next_msg ongoing)

  -- The JSON value of an OPAQUE_SEND message; the sender's id is a constant.
  unfoldable pub opaque_send_value : String → List String → String → String → String → Outcome Value
  opaque_send_value send_agent_id receive_agent_ids content format tech = do
    res ← set_string j.null "msg_type" "opaque_send"
    res ← set_string res "from_id" "987654321"
    res ← set_string res "format" format
    res ← set_string res "tech" tech
    res ← set_string res "data" content
    res ← append_strings res "to_ids" receive_agent_ids
    j.set res "broadcast" (j.of_bool (is_empty receive_agent_ids))

  unfoldable pub make_opaque_send :
      String
      → List String
      → String
      → String
      → String
      → OngoingSerialization
      → Outcome OngoingSerialization
  make_opaque_send send_agent_id receive_agent_ids content format tech ongoing = do
    throw_if prefer_binary_messages binary_message_unsupported
    res ← opaque_send_value send_agent_id receive_agent_ids content format tech
    next_msg ← write j (single_line (not new_bundles)) res
    returns (add_generic next_msg ongoing)

  -- The loop over the groups.
  unfoldable pub append_groups : Value → Map WfdGroup → Outcome Value
  append_groups res [] = returns res
  append_groups res ((id, group) ∷ rest) = do
    client_msg ← set_string j.null "go" group.go
    client_msg ← append_strings client_msg "clients" group.members
    res' ← append_member res "groups" client_msg
    append_groups res' rest

  unfoldable pub make_go_client : Map WfdGroup → OngoingSerialization → Outcome OngoingSerialization
  make_go_client wfd_groups ongoing = do
    throw_if prefer_binary_messages binary_message_unsupported
    res ← set_string j.null "msg_type" "go_client"
    res ← append_groups res wfd_groups
    next_msg ← write j (single_line (not new_bundles)) res
    returns (add_generic next_msg ongoing)
