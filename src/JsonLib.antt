-- ===== src/JsonLib.antt =====
-- What the code uses of jsoncpp, as a parameter: the class Json::Value, Json::Reader::parse and the
-- text helpers. A call that the library answers by an exception is an outcome like any other.
-- A JSON text is a std::string that jsoncpp hands out or takes; it is a String here.
pub mod Objects
use sm4ns.Base.{
  true, false, suc, ℕ, ◌<◌, ◌≡◌, ◌≢◌, ◌⊎◌, Bool, String, List, Bytes, All, Option, Outcome, returns,
}

-- Json::ValueType
pub data Kind : Type 0 where
  null_value int_value uint_value real_value string_value boolean_value : Kind
  array_value object_value : Kind

pub record JsonLib : Type 1 where
  pub Value : Type 0
  pub Real : Type 0
  -- Json::Value(), type(), isNull(), isArray(), isMember(), operator[], size(), getMemberNames()
  pub null : Value
  pub kind : Value → Kind
  pub is_null : Value → Bool
  pub is_array : Value → Bool
  pub is_member : Value → String → Outcome Bool
  pub get : Value → String → Outcome Value
  pub size : Value → ℕ
  pub at : Value → ℕ → Outcome Value
  pub member_names : Value → List String
  -- asString() as a text and as bytes of a bundle, asCString(), asBool(), asDouble()
  pub as_string : Value → Outcome String
  pub as_bytes : Value → Outcome Bytes
  pub as_c_string : Value → Outcome String
  pub as_bool : Value → Outcome Bool
  pub as_double : Value → Outcome Real
  -- the converting constructors, `v[name] = x` and `v.append(x)`
  pub of_string : String → Value
  pub of_bytes : Bytes → Value
  pub of_bool : Bool → Value
  pub of_real : Real → Value
  pub set : Value → String → Value → Outcome Value
  pub append : Value → Value → Outcome Value
  -- Json::Reader::parse, without comments
  pub parse : Bytes → Option Value
  -- valueToString(v.asInt()), of asUInt(), asDouble(), asBool(), and valueToQuotedString(s)
  pub int_text : Value → Bytes
  pub uint_text : Value → Bytes
  pub real_text : Value → Bytes
  pub bool_text : Value → Bytes
  pub quoted : String → Bytes
  -- How deep a value is nested; a value is a finite tree.
  pub depth : Value → ℕ

-- The documented shape of values: the parts of an array and of an object are there and are less
-- deep than the whole, and a string value has its characters.
pub record IsTree (j : JsonLib) : Type 0 where
  pub items :
      (v : j.Value) (i : ℕ)
      → j.kind v ≡ array_value
      → i < j.size v
      → (x : j.Value) × (j.at v i ≡ returns x) × (j.depth x < j.depth v)
  pub members :
      (v : j.Value)
      → j.kind v ≡ object_value
      → All
          (λ name. (x : j.Value) × (j.get v name ≡ returns x) × (j.depth x < j.depth v))
          (j.member_names v)
  pub characters :
      (v : j.Value) → j.kind v ≡ string_value → (s : String) × (j.as_c_string v ≡ returns s)

-- The documented behaviour of `v[name] = x` and of a text value. An assignment to a null value makes
-- an object of it.
pub record BuildsObjects (j : JsonLib) : Type 0 where
  pub fresh : j.kind j.null ≡ null_value
  pub assigned :
      (v : j.Value) (name : String) (x : j.Value)
      → (j.kind v ≡ null_value) ⊎ (j.kind v ≡ object_value)
      → (v' : j.Value) × (j.set v name x ≡ returns v')
        × (j.kind v' ≡ object_value)
        × (j.get v' name ≡ returns x)
  pub kept :
      (v v' : j.Value) (name other : String) (x : j.Value)
      → j.set v name x ≡ returns v'
      → j.kind v ≡ object_value
      → other ≢ name
      → j.get v' other ≡ j.get v other
  pub read_back : (s : String) → j.as_string (j.of_string s) ≡ returns s

-- The documented behaviour of isMember and of operator[] on a null value and after an assignment.
pub record ReadsMembers (j : JsonLib) : Type 0 where
  pub unset :
      (name : String)
      → (j.is_member j.null name ≡ returns false) × (j.get j.null name ≡ returns j.null)
  pub there :
      (v v' : j.Value) (name : String) (x : j.Value)
      → j.set v name x ≡ returns v'
      → j.is_member v' name ≡ returns true
  pub others :
      (v v' : j.Value) (name other : String) (x : j.Value)
      → j.set v name x ≡ returns v'
      → other ≢ name
      → (j.is_member v' other ≡ j.is_member v other) × (j.get v' other ≡ j.get v other)
  pub not_null : (v : j.Value) → j.kind v ≡ object_value → j.is_null v ≡ false
  pub read_back_bool : (b : Bool) → j.as_bool (j.of_bool b) ≡ returns b

-- The documented behaviour of `v.append(x)`: an array, which a null value becomes first, gets one
-- more item at its end.
pub record BuildsArrays (j : JsonLib) : Type 0 where
  pub no_items : j.size j.null ≡ 0
  pub appended :
      (v x : j.Value)
      → (j.kind v ≡ null_value) ⊎ (j.kind v ≡ array_value)
      → (v' : j.Value) × (j.append v x ≡ returns v')
        × (j.kind v' ≡ array_value)
        × (j.size v' ≡ suc (j.size v))
        × (j.at v' (j.size v) ≡ returns x)
        × ((i : ℕ) → i < j.size v → j.at v' i ≡ j.at v i)
  pub tells_arrays : (v : j.Value) → j.kind v ≡ array_value → j.is_array v ≡ true

-- The documented behaviour of asDouble on a value that was made of a double.
pub record ReadsReals (j : JsonLib) : Type 0 where
  pub read_back_real : (x : j.Real) → j.as_double (j.of_real x) ≡ returns x
