-- ===== src/Writer.antt =====
-- JsonSingleLineWriter (model/message/serialize.h and serialize.cc): a JSON value on one line.
-- The recursion of writeValue takes fuel; `write` gives it one step more than the value is deep.
pub mod Total
use sm4ns.Base.{
  ℕ, zero, suc, Bool, true, false, ◌=ℕ◌, if◌then◌else◌, String, List, [], ◌∷◌, ◌++◌, Bytes, codes,
  Outcome, returns, undefined, ◌>>=◌,
}
use sm4ns.JsonLib.{
  JsonLib, null_value, int_value, uint_value, real_value, string_value, boolean_value, array_value,
  object_value,
}

-- The writer's two flags.
pub record JsonSingleLineWriter : Type 0 where
  pub yaml_compatibility_enabled : Bool
  pub append_newline : Bool

-- The constructor `JsonSingleLineWriter(appendNewline)`.
abbrev pub single_line : Bool → JsonSingleLineWriter
single_line append_newline = record {
  yaml_compatibility_enabled = false;
  append_newline = append_newline;
}

pub enable_yaml_compatibility : JsonSingleLineWriter → JsonSingleLineWriter
enable_yaml_compatibility w = record w { yaml_compatibility_enabled = true }

module _ (j : JsonLib) where
  open j use {Value}

  -- The loop over an array from `index`, `count` items before its end.
  unfoldable pub write_items : (Value → Outcome Bytes) → Value → ℕ → ℕ → Outcome Bytes
  write_items write_one v index zero = returns []
  write_items write_one v index (suc count) = do
    item ← j.at v index
    text ← write_one item
    rest ← write_items write_one v (suc index) count
    returns ((if index =ℕ 0 then [] else codes ",") ++ (text ++ rest))

  -- The loop over the member names; the flag says that the iterator is at the beginning.
  unfoldable pub write_members :
      Bool → (Value → Outcome Bytes) → Value → Bool → List String → Outcome Bytes
  write_members yaml write_one v first [] = returns []
  write_members yaml write_one v first (name ∷ names) = do
    member ← j.get v name
    text ← write_one member
    rest ← write_members yaml write_one v false names
    returns (
        (if first then [] else codes ",")
        ++ (j.quoted name ++ ((if yaml then codes ": " else codes ":") ++ (text ++ rest))))

  unfoldable pub write_value : Bool → ℕ → Value → Outcome Bytes
  write_value yaml zero v = undefined
  write_value yaml (suc fuel) v = elim (j.kind v) [
    | null_value ↦ returns (codes "null")
    | int_value ↦ returns (j.int_text v)
    | uint_value ↦ returns (j.uint_text v)
    | real_value ↦ returns (j.real_text v)
    | string_value ↦ (do s ← j.as_c_string v; returns (j.quoted s))
    | boolean_value ↦ returns (j.bool_text v)
    | array_value ↦ (do
      items ← write_items (write_value yaml fuel) v 0 (j.size v)
      returns (codes "[" ++ (items ++ codes "]")))
    | object_value ↦ (do
      members ← write_members yaml (write_value yaml fuel) v true (j.member_names v)
      returns (codes "{" ++ (members ++ codes "}")))
  ]

  unfoldable pub write : JsonSingleLineWriter → Value → Outcome Bytes
  write w root = do
    text ← write_value w.yaml_compatibility_enabled (suc (j.depth root)) root
    returns (text ++ (if w.append_newline then codes "\n" else []))
