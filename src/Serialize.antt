-- ===== src/Serialize.antt =====
-- Bundles of messages (class JsonParser of model/message/serialize.h and serialize.cc): the
-- functions that begin, extend and end a serialization, and the ones that read a bundle back.
pub mod Layout
pub mod Items
pub mod RoundTrip
pub mod Safety
use sm4ns.Base.{
  ℕ, zero, suc, ◌+◌, ◌*◌, ◌/◌, ◌%◌, ◌^◌, Bool, true, false, not, ◌&&◌, ◌||◌, ◌=ℕ◌, if◌then◌else◌,
  String, List, [], ◌∷◌, ◌++◌, Bytes, codes, length, is_empty, Option, none, some, Outcome, returns,
  undefined, throw_if, ◌>>=◌, ◌>>◌, ◌==◌, bit_or, vary_header_size,
}
use sm4ns.Header.{BundleHeader, new_bundles, char_at, to_byte}
use sm4ns.JsonLib.{JsonLib}
use sm4ns.Writer.{single_line, write}
use sm4ns.Conglomerate.{
  MessageBase, MessageConglomerate, add_message, add_json_message, get_count, get_base_message,
  set_sender_id, no_messages,
}

pub record VaryHeader : Type 0 where
  pub send_id : Bytes
  pub dest_id : Bytes
  pub msg_lengths : List ℕ

-- `messages` is the content of the string stream.
pub record OngoingSerialization : Type 0 where
  pub v_head : VaryHeader
  pub messages : Bytes

-- A new object.
abbrev pub new_serialization : OngoingSerialization
new_serialization = record {
  v_head = record { send_id = []; dest_id = []; msg_lengths = [] };
  messages = [];
}

-- serialize_begin with the ids; the stream is not touched.
unfoldable pub serialize_begin_ids : Bytes → Bytes → OngoingSerialization → OngoingSerialization
serialize_begin_ids send_id dest_id ongoing = record ongoing {
  v_head = record { send_id = send_id; dest_id = dest_id; msg_lengths = [] };
}

unfoldable pub serialize_begin : OngoingSerialization → OngoingSerialization
unfolding serialize_begin_ids
serialize_begin ongoing = serialize_begin_ids (codes "987654321") (codes "0") ongoing

-- addGeneric; a message's size is kept as an unsigned int.
unfoldable pub add_generic : Bytes → OngoingSerialization → OngoingSerialization
add_generic msg ongoing = record {
  v_head = record ongoing.v_head {
    msg_lengths = ongoing.v_head.msg_lengths ++ (length msg % 2 ^ 32) ∷ [];
  };
  messages =
      if new_bundles
      then ongoing.messages ++ msg
      else ongoing.messages ++ ((if is_empty ongoing.messages then [] else codes ",") ++ msg);
}

-- Three bytes for each message length.
unfoldable pub length_bytes : List ℕ → Bytes
length_bytes [] = []
length_bytes (n ∷ ns) = to_byte (n / 2 ^ 16) ∷ to_byte (n / 2 ^ 8) ∷ to_byte n ∷ length_bytes ns

-- The buffer `vHead` after the three loops; `v_off` is its length.
unfoldable pub vary_header_bytes : VaryHeader → Bytes
vary_header_bytes v = v.send_id ++ (v.dest_id ++ length_bytes v.msg_lengths)

-- The bundle header that describes `body`: sizes stored as int and unsigned int.
unfoldable pub header_of : VaryHeader → Bytes → BundleHeader
header_of v body = record {
  send_id_len = length v.send_id;
  dest_id_len = length v.dest_id;
  message_count = length v.msg_lengths;
  rem_len = length body % 2 ^ 32;
}

unfoldable pub serialize_end_v1 : OngoingSerialization → Outcome (Option (BundleHeader × Bytes))
serialize_end_v1 ongoing = do
  let v = ongoing.v_head
  let var_head_size = length v.msg_lengths * 3 + length v.send_id + length v.dest_id
  let v_head = vary_header_bytes v
  throw_if (not (length v_head =ℕ var_head_size)) vary_header_size
  let res = v_head ++ ongoing.messages
  returns (some (header_of v res, res))

-- `n` characters from index `i` on: the loops over `msgStr[i++]`.
unfoldable pub read_string : ℕ → Bytes → ℕ → Outcome Bytes
read_string zero s i = returns []
read_string (suc n) s i = do c ← char_at s i; rest ← read_string n s (i + 1); returns (c ∷ rest)

-- `count` lengths of three bytes from index `i` on.
unfoldable pub read_lengths : ℕ → Bytes → ℕ → Outcome (List ℕ)
read_lengths zero s i = returns []
read_lengths (suc count) s i = do
  b0 ← char_at s i
  b1 ← char_at s (i + 1)
  b2 ← char_at s (i + 2)
  rest ← read_lengths count s (i + 3)
  returns (bit_or (bit_or (b0 * 2 ^ 16) (b1 * 2 ^ 8)) b2 ∷ rest)

module _ (j : JsonLib) where
  open j use {Value}

  -- The text format: an object with the ids and the array of the messages.
  unfoldable pub serialize_end_v0 : OngoingSerialization → Outcome (Option (BundleHeader × Bytes))
  serialize_end_v0 ongoing = do
    let v = ongoing.v_head
    with_sender ← j.set j.null "send_client" (j.of_bytes v.send_id)
    pkt_header ← j.set with_sender "dest_client" (j.of_bytes v.dest_id)
    elim (j.parse (codes "[" ++ (ongoing.messages ++ codes "]"))) [
      | none ↦ returns none
      | some data_arr ↦ if not (j.is_array data_arr) then returns none else do
        with_header ← j.set j.null "header" pkt_header
        root ← j.set with_header "messages" data_arr
        res ← write j (single_line (not new_bundles)) root
        returns (some (header_of v res, res))
    ]

  unfoldable pub serialize_end : OngoingSerialization → Outcome (Option (BundleHeader × Bytes))
  unfolding serialize_end_v1 serialize_end_v0
  serialize_end ongoing = if new_bundles then serialize_end_v1 ongoing else serialize_end_v0 ongoing

  -- The loop over the lengths: `msgStr` goes along with the first message only.
  unfoldable pub add_messages :
      Bytes → List ℕ → ℕ → MessageConglomerate Value → Outcome (MessageConglomerate Value)
  add_messages msg_str [] i res = returns res
  add_messages msg_str (len ∷ lens) i res = do
    res' ← add_message j i len msg_str res
    add_messages [] lens (i + len) res'

  unfoldable pub deserialize_v1 :
      BundleHeader
      → Bytes
      → MessageConglomerate Value
      → Outcome (Option (MessageConglomerate Value))
  deserialize_v1 header msg_str res = do
    send_id ← read_string header.send_id_len msg_str 0
    dest_id ← read_string header.dest_id_len msg_str header.send_id_len
    let i = header.send_id_len + header.dest_id_len
    lens ← read_lengths header.message_count msg_str i
    res' ← add_messages msg_str lens (i + header.message_count * 3) (set_sender_id j send_id res)
    returns (some res')

  -- The loop over the array of messages from `index`, `count` items before its end.
  pub add_json_messages :
      Value → ℕ → ℕ → MessageConglomerate Value → Outcome (MessageConglomerate Value)
  add_json_messages messages index zero res = returns res
  add_json_messages messages index (suc count) res = do
    msg ← j.at messages index
    res' ← add_json_message j msg res
    add_json_messages messages (suc index) count res'

  pub deserialize_v0 :
      Bytes → MessageConglomerate Value → Outcome (Option (MessageConglomerate Value))
  deserialize_v0 msg_str res = elim (j.parse msg_str) [
    | none ↦ returns none
    | some root ↦ (do
      has_header ← j.is_member root "header"
      bad_header ←
          if has_header
          then returns false
          else do header ← j.get root "header"; j.is_member header "send_client"
      if bad_header then returns none else do
        header ← j.get root "header"
        sender ← j.get header "send_client"
        sender_id ← j.as_bytes sender
        has_messages ← j.is_member root "messages"
        bad_messages ←
            if has_messages
            then returns false
            else do messages ← j.get root "messages"; returns (j.is_array messages)
        if bad_messages then returns none else do
          messages ← j.get root "messages"
          res' ← add_json_messages messages 0 (j.size messages) (set_sender_id j sender_id res)
          returns (some res'))
  ]

  unfoldable pub deserialize :
      BundleHeader
      → Bytes
      → MessageConglomerate Value
      → Outcome (Option (MessageConglomerate Value))
  deserialize header msg_str res =
      if new_bundles then deserialize_v1 header msg_str res else deserialize_v0 msg_str res

  -- `none` is the result false.
  unfoldable pub deserialize_single :
      BundleHeader
      → Bytes
      → String
      → MessageConglomerate Value
      → Outcome (Option (MessageBase × MessageConglomerate Value))
  deserialize_single header msg_str expected_type rem_conglom = do
    parsed ← deserialize header msg_str rem_conglom
    elim parsed [
      | none ↦ returns none
      | some conglom ↦ if not (get_count j conglom =ℕ 1) then returns none else do
        base ← get_base_message j conglom 0
        returns (if not (base.msg_type == expected_type) then none else some (base, conglom))
    ]
