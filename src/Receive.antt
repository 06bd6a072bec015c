-- ===== src/Receive.antt =====
-- Agent::ReceivePacket (model/smb_agent.cc): the packets that ns-3 delivers to an agent's socket are
-- forwarded to Sim Mobility as JSON messages. `socket->Recv()` gives the packets that are there, in
-- order, and then a null pointer.
pub mod Forwarded
use sm4ns.Base.{
  String, List, [], ◌∷◌, Bytes, is_empty, if◌then◌else◌, Option, none, some, Outcome, returns,
  ◌>>=◌, ◌==◌,
}
use sm4ns.JsonLib.{JsonLib}
use sm4ns.Serialize.{OngoingSerialization}
use sm4ns.Make.{set_string, make_unknown_json}

-- The members that are taken over from the packet.
abbrev pub copied_names : List String
copied_names =
    "MESSAGE_TYPE" ∷ "MESSAGE_CAT" ∷ "SENDING_AGENT" ∷ "MULTICAST_DATA" ∷ "RECEIVING_AGENT_ID"
    ∷ "GLOBAL_PACKET_COUNT" ∷ "TICK_SENT" ∷ []

-- GetPacketSource, which nothing calls: the source of the first IPv4 header among the named items of
-- the packet, or the address as it was made.
pub get_packet_source : {Address : Type 0} → Address → List (String × Address) → Address
get_packet_source src_ip [] = src_ip
get_packet_source src_ip ((name, source) ∷ items) =
    let later = get_packet_source src_ip items in
    if name == "ns3::Ipv4Header" then source else later

module _ (j : JsonLib) where
  open j use {Value}

  -- `outgoing[name] = j_msg[name]`, for one name after another.
  unfoldable pub copy_members : List String → Value → Value → Outcome Value
  copy_members [] j_msg outgoing = returns outgoing
  copy_members (name ∷ names) j_msg outgoing = do
    item ← j.get j_msg name
    outgoing' ← j.set outgoing name item
    copy_members names j_msg outgoing'

  -- The message that is made of one packet.
  unfoldable pub forward : Value → Outcome Value
  unfolding copy_members
  forward j_msg = do
    outgoing ← copy_members copied_names j_msg j.null
    outgoing ← set_string j outgoing "SENDER" "0"
    set_string j outgoing "SENDER_TYPE" "NS3_SIMULATOR"

  -- The loop: an empty packet and one that is no JSON text are passed over.
  unfoldable pub receive_packets : List Bytes → OngoingSerialization → Outcome OngoingSerialization
  receive_packets [] ongoing = returns ongoing
  receive_packets (str ∷ packets) ongoing =
      if is_empty str then receive_packets packets ongoing else elim (j.parse str) [
        | none ↦ receive_packets packets ongoing
        | some j_msg ↦ (do
          outgoing ← forward j_msg
          ongoing' ← make_unknown_json j outgoing ongoing
          receive_packets packets ongoing')
      ]
