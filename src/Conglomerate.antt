-- ===== src/Conglomerate.antt =====
-- MessageConglomerate (model/message/serialize.h and serialize.cc) and MessageBase
-- (model/message/message_base.h): the messages of one bundle.
-- `offset` and `length` are ints that their only caller keeps non-negative, so the guard
-- `offset<0` cannot fire; sums and casts of ints are checked against 31 bits.
pub mod Added
use sm4ns.Base.{
  ℕ, ◌+◌, ◌%◌, ◌^◌, Bool, true, not, ◌&&◌, ltb, leb, ◌=ℕ◌, if◌then◌else◌, String, List, [], ◌∷◌,
  ◌++◌, Bytes, length, is_empty, take, drop, get_elem?, Option, none, some, Outcome, returns,
  throws, undefined, throw_if, undefined_if, ◌>>=◌, ◌>>◌, missing_first_string, message_string_set,
  total_length_exceeded, binary_base_unsupported, json_base_failed, unknown_format,
  missing_msg_type, out_of_range, v0_conglomerate, v1_conglomerate,
}
use sm4ns.Header.{new_bundles, char_at}
use sm4ns.JsonLib.{JsonLib}

pub record MessageBase : Type 0 where
  pub msg_type : String

pub record MessageConglomerate (V : Type 0) : Type 0 where
  pub sender_id : Bytes
  pub messages_json : List V
  pub messages_v1 : Bytes
  pub offsets_v1 : List (ℕ × ℕ)
  pub message_bases : List MessageBase

abbrev pub no_messages : {V : Type 0} → MessageConglomerate V
no_messages = record {
  sender_id = [];
  messages_json = [];
  messages_v1 = [];
  offsets_v1 = [];
  message_bases = [];
}

-- `total > static_cast<int>(len)`, where the cast wraps.
abbrev pub exceeds : ℕ → ℕ → Bool
exceeds total len = let n = len % 2 ^ 32 in if ltb n (2 ^ 31) then ltb n total else true

-- `vector::at`
abbrev pub at_index {ℓ} : {A : Type ℓ} → List A → ℕ → Outcome A
at_index xs i = elim (get_elem? xs i) [ some x ↦ returns x | none ↦ throws out_of_range ]

-- Saving the message string, once.
unfoldable pub save_string : Bytes → Bytes → Outcome Bytes
save_string msg_str saved =
    if is_empty msg_str
    then returns saved
    else do throw_if (not (is_empty saved)) message_string_set; returns msg_str

module _ (j : JsonLib) where
  open j use {Value}

  unfoldable pub parse_json_message_base : Value → Outcome MessageBase
  parse_json_message_base root = do
    found ← j.is_member root "msg_type"
    throw_if (not found) missing_msg_type
    value ← j.get root "msg_type"
    msg_type ← j.as_string value
    returns (record { msg_type = msg_type })

  -- The first character decides between binary (0xBB) and JSON.
  unfoldable pub parse_base : Bytes → ℕ → Outcome (Value × MessageBase)
  parse_base raw first =
      if first =ℕ 0xbb
      then throws binary_base_unsupported
      else if first =ℕ b'{'
      then elim (j.parse raw) [
        | none ↦ throws json_base_failed
        | some root ↦ (do base ← parse_json_message_base root; returns (root, base))
      ]
      else throws unknown_format

  -- addMessage(const Json::Value&)
  unfoldable pub add_json_message :
      Value → MessageConglomerate Value → Outcome (MessageConglomerate Value)
  add_json_message msg c = do
    throw_if new_bundles v0_conglomerate
    base ← parse_json_message_base msg
    returns (record c {
      messages_json = c.messages_json ++ msg ∷ [];
      message_bases = c.message_bases ++ base ∷ [];
    })

  -- addMessage(int, int, const std::string&)
  unfoldable pub add_message :
      ℕ → ℕ → Bytes → MessageConglomerate Value → Outcome (MessageConglomerate Value)
  add_message offset len msg_str c = do
    throw_if (not new_bundles) v1_conglomerate
    throw_if (is_empty c.offsets_v1 && is_empty msg_str) missing_first_string
    text ← save_string msg_str c.messages_v1
    undefined_if (leb (2 ^ 31) (offset + len))
    throw_if (exceeds (offset + len) (length text)) total_length_exceeded
    first ← char_at text offset
    (root, base) ← parse_base (take len (drop offset text)) first
    returns (record c {
      messages_json = c.messages_json ++ root ∷ [];
      messages_v1 = text;
      offsets_v1 = c.offsets_v1 ++ (offset, len) ∷ [];
      message_bases = c.message_bases ++ base ∷ [];
    })

  unfoldable pub get_count : MessageConglomerate Value → ℕ
  get_count c = if new_bundles then length c.offsets_v1 else length c.messages_json

  unfoldable pub get_base_message : MessageConglomerate Value → ℕ → Outcome MessageBase
  get_base_message c n = at_index c.message_bases n

  unfoldable pub get_json_message : MessageConglomerate Value → ℕ → Outcome Value
  get_json_message c n = at_index c.messages_json n

  unfoldable pub get_raw_message : MessageConglomerate Value → ℕ → Outcome (ℕ × ℕ)
  get_raw_message c n = do throw_if (not new_bundles) v1_conglomerate; at_index c.offsets_v1 n

  unfoldable pub get_underlying_string : MessageConglomerate Value → Outcome Bytes
  get_underlying_string c = do throw_if (not new_bundles) v1_conglomerate; returns c.messages_v1

  abbrev pub set_sender_id : Bytes → MessageConglomerate Value → MessageConglomerate Value
  set_sender_id id c = record c { sender_id = id }
