-- ===== src/Receive/Forwarded.antt =====
-- Which messages come of the packets that an agent receives (model/smb_agent.cc).
use sm4ns.Base.{
  ◌≡◌, refl, sym, ap, ◌∙◌, not, false, Option-cases, inl, inr, String, List, [], ◌∷◌, Bytes,
  is_empty, All, Option, none, some, returns, throws, missing_msg_type,
}
use sm4ns.Header.{new_bundles}
use sm4ns.JsonLib.{JsonLib, BuildsObjects, ReadsMembers, IsTree}
use sm4ns.JsonLib.Objects.{with_member, or_null, Represents, null-Represents, set-Represents}
use sm4ns.Writer.{single_line, write}
use sm4ns.Writer.Total.{write-Returns}
use sm4ns.Conglomerate.{parse_json_message_base}
use sm4ns.Serialize.{OngoingSerialization, add_generic}
use sm4ns.Serialize.Items.{add_all}
use sm4ns.Make.{make_unknown_json}
use sm4ns.Receive.{copied_names, copy_members, forward, receive_packets}

-- The object has the packet's own seven members, null where it has none, and a new sender.
abbrev pub HasMembersOf : (j : JsonLib) → j.Value → j.Value → Type 0
HasMembersOf j v out =
    All (λ name. j.get out name ≡ j.get v name)
      ("MESSAGE_TYPE" ∷ "MESSAGE_CAT" ∷ "SENDING_AGENT" ∷ "MULTICAST_DATA" ∷ "RECEIVING_AGENT_ID"
        ∷ "GLOBAL_PACKET_COUNT" ∷ "TICK_SENT" ∷ [])
    × (j.get out "SENDER" ≡ returns (j.of_string "0"))
    × (j.get out "SENDER_TYPE" ≡ returns (j.of_string "NS3_SIMULATOR"))

module _ (j : JsonLib) (build : BuildsObjects j) (members : ReadsMembers j) where
  open j use {Value}

  -- The members after copying.
  abbrev copied :
      List String → (String → Option Value) → (String → Option Value) → String → Option Value
  copied [] f g = g
  copied (name ∷ names) f g = copied names f (with_member name (or_null j (f name)) g)

  copy_members_lem :
      (names : List String) (v out : Value) (f g : String → Option Value)
      → Represents j v f
      → Represents j out g
      → (out' : Value) × (copy_members j names v out ≡ returns out')
        × Represents j out' (copied names f g)
  unfolding copy_members
  copy_members_lem [] v out f g r s = (out, refl, s)
  copy_members_lem (name ∷ names) v out f g r s =
      let (out1, set, s1, _) = set-Represents j build members out g name (or_null j (f name)) s in
      let (out2, e, s2) =
        copy_members_lem names v out1 f (with_member name (or_null j (f name)) g) r s1 in
      (out2, rw (r.found name, set) e, s2)

  forward-HasMembersOf :
      (v : Value) (f : String → Option Value)
      → Represents j v f
      → (out : Value) × (forward j v ≡ returns out)
        × HasMembersOf j v out
        × (parse_json_message_base j out ≡ throws missing_msg_type)
  unfolding forward parse_json_message_base
  forward-HasMembersOf v f r =
      let (out1, e1, r1) =
        copy_members_lem copied_names v j.null f (λ name. none) r
          (null-Represents j build members) in
      let (out2, e2, r2, _) = set-Represents j build members out1 _ "SENDER" (j.of_string "0") r1 in
      let (out3, e3, r3, _) =
        set-Represents j build members out2 _ "SENDER_TYPE" (j.of_string "NS3_SIMULATOR") r2 in
      let same = λ (name : String) (e : or_null j (final f name) ≡ or_null j (f name)).
        r3.found name ∙ ap returns e ∙ sym (r.found name) in
      (
        out3,
        rw e1 (rw e2 e3),
        (
          (
            same "MESSAGE_TYPE" refl,
            (
              same "MESSAGE_CAT" refl,
              (
                same "SENDING_AGENT" refl,
                (
                  same "MULTICAST_DATA" refl,
                  (
                    same "RECEIVING_AGENT_ID" refl,
                    (same "GLOBAL_PACKET_COUNT" refl, (same "TICK_SENT" refl, tt)),
                  ),
                ),
              ),
            ),
          ),
          r3.found "SENDER",
          r3.found "SENDER_TYPE",
        ),
        rw (r3.named "msg_type") refl,
      )
    where
      final : (String → Option Value) → String → Option Value
      final f =
          with_member "SENDER_TYPE" (j.of_string "NS3_SIMULATOR")
            (with_member "SENDER" (j.of_string "0") (copied copied_names f (λ name. none)))

  -- Over a JSON library that keeps to its documentation, a packet whose value is an object or null is
  -- forwarded as an object with the packet's own seven members, null where it has none. That object
  -- has no "msg_type", so the reader of this plugin refuses it as a message.
  pub forward-missing_msg_type :
      (v : Value) (f : String → Option Value)
      → Represents j v f
      → (outgoing : Value) × (forward j v ≡ returns outgoing)
        × All (λ name. j.get outgoing name ≡ j.get v name) copied_names
        × (parse_json_message_base j outgoing ≡ throws missing_msg_type)
  forward-missing_msg_type v f r =
      let (out, forwarded, has, missing) = forward-HasMembersOf v f r in
      (out, forwarded, has.0, missing)

-- The texts that come of the packets, in order: none of an empty packet or of one that is no JSON
-- text, and of any other the text of an object that has its members.
pub data Forwards (j : JsonLib) : List Bytes → List Bytes → Type 0 where
  no_packets : Forwards j [] []
  empty_packet :
      (packets texts : List Bytes) → Forwards j packets texts → Forwards j ([] ∷ packets) texts
  other_text :
      (str : Bytes) (packets texts : List Bytes)
      → j.parse str ≡ none
      → Forwards j packets texts
      → Forwards j (str ∷ packets) texts
  json_text :
      (str text : Bytes) (packets texts : List Bytes) (v out : j.Value)
      → is_empty str ≡ false
      → j.parse str ≡ some v
      → HasMembersOf j v out
      → write j (single_line (not new_bundles)) out ≡ returns text
      → Forwards j packets texts
      → Forwards j (str ∷ packets) (text ∷ texts)

-- Every packet that is a JSON text is an object, or null.
abbrev pub AllObjects : JsonLib → List Bytes → Type 0
AllObjects j =
    All (λ str.
      (v : j.Value) → j.parse str ≡ some v → (f : String → Option j.Value) × Represents j v f)

module _ (j : JsonLib) (build : BuildsObjects j) (members : ReadsMembers j) (tree : IsTree j) where
  open j use {Value}

  make_unknown_json_lem :
      (v : Value) (o : OngoingSerialization)
      → (text : Bytes) × (write j (single_line (not new_bundles)) v ≡ returns text)
        × (make_unknown_json j v o ≡ returns (add_generic text o))
  unfolding make_unknown_json
  make_unknown_json_lem v o =
      let (text, written) = write-Returns j tree (single_line (not new_bundles)) v in
      (text, written, rw written refl)

  -- Over a JSON library that keeps to its documentation, if every packet that is a JSON text is an
  -- object or null: ReceivePacket returns, and has added one message for each packet that is a JSON
  -- text, in order, behind what was collected before. The message is the text of an object that has
  -- the seven members of its packet, null where it has none, the sender "0" and the sender's type
  -- "NS3_SIMULATOR". Empty packets and other texts add nothing.
  pub receive_packets-add_all :
      (packets : List Bytes) (o : OngoingSerialization)
      → AllObjects j packets
      → (texts : List Bytes) × (receive_packets j packets o ≡ returns (add_all texts o))
        × Forwards j packets texts
  unfolding receive_packets
  receive_packets-add_all [] o objects = ([], refl, no_packets)
  receive_packets-add_all ([] ∷ packets) o (here, objects) =
      let (texts, e, forwards) = receive_packets-add_all packets o objects in
      (texts, e, empty_packet packets texts forwards)
  receive_packets-add_all ((x ∷ xs) ∷ packets) o (here, objects) =
      elim (Option-cases (j.parse (x ∷ xs))) [
        | inl no_json ↦
            let (texts, e, forwards) = receive_packets-add_all packets o objects in
            (texts, rw no_json e, other_text (x ∷ xs) packets texts no_json forwards)
        | inr (v, json) ↦
            let (f, r) = here v json in
            let (out, forwarded, has, _) = forward-HasMembersOf j build members v f r in
            let (text, written, made) = make_unknown_json_lem out o in
            let (texts, e, forwards) =
              receive_packets-add_all packets (add_generic text o) objects in
            (
              text ∷ texts,
              rw json (rw forwarded (rw made e)),
              json_text (x ∷ xs) text packets texts v out refl json has written forwards,
            )
      ]
