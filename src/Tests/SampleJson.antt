-- ===== src/Tests/SampleJson.antt =====
-- A JSON library for the tests: values as trees, of which an object or an array is a chain. Its
-- parser knows a fixed list of texts.
use sm4ns.Base.{
  ℕ, zero, suc, ◌+◌, Bool, true, false, ◌&&◌, ◌=ℕ◌, if◌then◌else◌, String, List, [], ◌∷◌, ◌++◌,
  Bytes, codes, Option, none, some, Outcome, returns, throws, json_misuse, ◌==◌,
}
use sm4ns.JsonLib.{
  JsonLib, Kind, null_value, string_value, boolean_value, real_value, array_value, object_value,
}

pub data Tree : Type 0 where
  nothing no_members no_items : Tree
  text : String → Tree
  characters : Bytes → Tree
  flag : Bool → Tree
  number : ℕ → Tree
  member : String → Tree → Tree → Tree
  item : Tree → Tree → Tree

abbrev pub kind_of : Tree → Kind
kind_of nothing = null_value
kind_of no_members = object_value
kind_of no_items = array_value
kind_of (text s) = string_value
kind_of (characters s) = string_value
kind_of (flag b) = boolean_value
kind_of (number n) = real_value
kind_of (member name x rest) = object_value
kind_of (item x rest) = array_value

abbrev pub depth_of : Tree → ℕ
depth_of (member name x rest) = suc (depth_of x + depth_of rest)
depth_of (item x rest) = suc (depth_of x + depth_of rest)
depth_of nothing = 0
depth_of no_members = 0
depth_of no_items = 0
depth_of (text s) = 0
depth_of (characters s) = 0
depth_of (flag b) = 0
depth_of (number n) = 0

abbrev pub names_of : Tree → List String
names_of (member name x rest) = name ∷ names_of rest
names_of _ = []

-- The member of a chain, null where there is none.
abbrev pub lookup : Tree → String → Tree
lookup (member n x rest) name = let found = lookup rest name in if name == n then x else found
lookup _ name = nothing

abbrev pub has_name : Tree → String → Bool
has_name (member n x rest) name =
    let found = has_name rest name in if name == n then true else found
has_name _ name = false

abbrev pub update : Tree → String → Tree → Tree
update (member n y rest) name x =
    let changed = update rest name x in if name == n then member n x rest else member n y changed
update _ name x = member name x no_members

abbrev pub size_of : Tree → ℕ
size_of (item x rest) = suc (size_of rest)
size_of _ = 0

abbrev pub item_at : Tree → ℕ → Outcome Tree
item_at (item x rest) zero = returns x
item_at (item x rest) (suc i) = item_at rest i
item_at _ i = throws json_misuse

abbrev pub add_item : Tree → Tree → Tree
add_item (item y rest) x = item y (add_item rest x)
add_item _ x = item x no_items

abbrev same_bytes : Bytes → Bytes → Bool
same_bytes [] [] = true
same_bytes (x ∷ xs) (y ∷ ys) = x =ℕ y && same_bytes xs ys
same_bytes _ _ = false

abbrev pub message_of : String → Tree
message_of type_name = member "msg_type" (text type_name) no_members

abbrev pub request_value : Tree
request_value = member "msg_type" (text "id_request") (member "token" (text "42") no_members)

abbrev pub agents_value : Tree
agents_value =
    member "msg_type" (text "new_agents")
      (member "add" (item (text "7") (item (text "3") no_items)) no_members)

abbrev known_texts : List (Bytes × Tree)
known_texts =
    (codes "{\"msg_type\":\"a\"}", message_of "a")
    ∷ (codes "{\"msg_type\":\"b\"}", message_of "b")
    ∷ (codes "{\"msg_type\":\"ticked_simmob\"}", message_of "ticked_simmob")
    ∷ (codes "{\"msg_type\":\"id_request\",\"token\":\"42\"}", request_value)
    ∷ (codes "{\"msg_type\":\"new_agents\",\"add\":[\"7\",\"3\"]}", agents_value)
    ∷ (codes "{\"msg_type\":\"id_ack\"}", message_of "id_ack")
    ∷ []

abbrev look_up_text : Bytes → List (Bytes × Tree) → Option Tree
look_up_text s [] = none
look_up_text s ((t, v) ∷ known) = if same_bytes s t then some v else look_up_text s known

abbrev pub sample : JsonLib
sample = record {
  Value = Tree;
  Real = ℕ;
  null = nothing;
  kind = kind_of;
  is_null = λ v. elim v [ nothing ↦ true | _ ↦ false ];
  is_array = λ v. elim (kind_of v) [ array_value ↦ true | _ ↦ false ];
  is_member = λ v name. elim (kind_of v) [
    | object_value ↦ returns (has_name v name)
    | null_value ↦ returns false
    | _ ↦ throws json_misuse
  ];
  get = λ v name. elim (kind_of v) [
    | object_value ↦ returns (lookup v name)
    | null_value ↦ returns nothing
    | _ ↦ throws json_misuse
  ];
  size = size_of;
  at = item_at;
  member_names = names_of;
  as_string = λ v. elim v [ text s ↦ returns s | nothing ↦ returns "" | _ ↦ throws json_misuse ];
  as_bytes = λ v. elim v [
    | text s ↦ returns (codes s)
    | characters s ↦ returns s
    | nothing ↦ returns []
    | _ ↦ throws json_misuse
  ];
  as_c_string =
      λ v. elim v [ text s ↦ returns s | characters s ↦ returns "" | _ ↦ throws json_misuse ];
  as_bool = λ v. elim v [ flag b ↦ returns b | _ ↦ throws json_misuse ];
  as_double = λ v. elim v [ number n ↦ returns n | _ ↦ throws json_misuse ];
  of_string = text;
  of_bytes = characters;
  of_bool = flag;
  of_real = number;
  set = λ v name x. elim (kind_of v) [
    | object_value ↦ returns (update v name x)
    | null_value ↦ returns (update v name x)
    | _ ↦ throws json_misuse
  ];
  append = λ v x. elim (kind_of v) [
    | array_value ↦ returns (add_item v x)
    | null_value ↦ returns (add_item v x)
    | _ ↦ throws json_misuse
  ];
  parse = λ s. look_up_text s known_texts;
  int_text = λ v. [];
  uint_text = λ v. [];
  real_text = λ v. [];
  bool_text = λ v. elim v [ flag true ↦ codes "true" | _ ↦ codes "false" ];
  quoted = λ s. codes "\"" ++ (codes s ++ codes "\"");
  depth = depth_of;
}
