-- ===== src/Writer/Total.antt =====
-- The writer returns on every value, and an object is written between braces.
use sm4ns.Base.{
  ℕ, zero, suc, ◌+◌, ◌≤◌, ◌<◌, ◌≡◌, refl, Bool, true, false, String, List, [], ◌∷◌, ◌++◌, Bytes,
  codes, All, Outcome, returns, Returns, Returns-bind, arith, if◌then◌else◌,
}
use sm4ns.JsonLib.{
  JsonLib, IsTree, Kind, null_value, int_value, uint_value, real_value, string_value, boolean_value,
  array_value, object_value,
}
use sm4ns.Writer.{JsonSingleLineWriter, write_items, write_members, write_value, write}

module _ (j : JsonLib) (tree : IsTree j) where
  open j use {Value}

  write_items-Returns :
      (w : Value → Outcome Bytes) (v : Value) (index count : ℕ)
      → j.kind v ≡ array_value
      → ((x : Value) → j.depth x < j.depth v → Returns (w x))
      → index + count ≤ j.size v
      → Returns (write_items j w v index count)
  unfolding write_items
  write_items-Returns w v index zero k each h = ([], refl)
  write_items-Returns w v index (suc count) k each h =
      let (x, found, less) = tree.items v index k (omega arith) in
      let rest = write_items-Returns w v (suc index) count k each (omega arith) in
      rw found (Returns-bind (w x) _ (each x less) λ text _. Returns-bind _ _ rest λ t _. (_, refl))

  write_members-Returns :
      (yaml : Bool) (w : Value → Outcome Bytes) (v : Value) (first : Bool) (names : List String)
      → All (λ name. (x : Value) × (j.get v name ≡ returns x) × (j.depth x < j.depth v)) names
      → ((x : Value) → j.depth x < j.depth v → Returns (w x))
      → Returns (write_members j yaml w v first names)
  unfolding write_members
  write_members-Returns yaml w v first [] there each = ([], refl)
  write_members-Returns yaml w v first (name ∷ names) there each =
      let (x, found, less) = there.0 in
      let rest = write_members-Returns yaml w v false names there.1 each in
      rw found (Returns-bind (w x) _ (each x less) λ text _. Returns-bind _ _ rest λ t _. (_, refl))

  write_value-Returns :
      (yaml : Bool) (fuel : ℕ) (v : Value) → j.depth v < fuel → Returns (write_value j yaml fuel v)
  unfolding write_value
  write_value-Returns yaml zero v h = absurd (omega arith)
  write_value-Returns yaml (suc fuel) v h =
      by_kind (j.kind v) refl (λ x less. write_value-Returns yaml fuel x (omega arith))
    where
      by_kind :
          (k : Kind)
          → j.kind v ≡ k
          → ((x : Value) → j.depth x < j.depth v → Returns (write_value j yaml fuel x))
          → Returns (write_value j yaml (suc fuel) v)
      by_kind null_value e each = rw (e, write_value) (_, refl)
      by_kind int_value e each = rw (e, write_value) (_, refl)
      by_kind uint_value e each = rw (e, write_value) (_, refl)
      by_kind real_value e each = rw (e, write_value) (_, refl)
      by_kind string_value e each =
          let (s, got) = tree.characters v e in rw (e, write_value) (rw got (_, refl))
      by_kind boolean_value e each = rw (e, write_value) (_, refl)
      by_kind array_value e each =
          rw (e, write_value)
            (Returns-bind _ _
              (write_items-Returns (write_value j yaml fuel) v 0 (j.size v) e each (omega arith))
              λ t _. (_, refl))
      by_kind object_value e each =
          rw (e, write_value)
            (Returns-bind _ _
              (write_members-Returns yaml (write_value j yaml fuel) v true (j.member_names v)
                (tree.members v e) each)
              λ t _. (_, refl))

  -- Every value of a JSON library whose values are finite trees is written, whatever its kind and
  -- however deep it is.
  pub write-Returns : (w : JsonSingleLineWriter) (v : Value) → Returns (write j w v)
  unfolding write write_value
  write-Returns w v =
      Returns-bind _ _
        (write_value-Returns w.yaml_compatibility_enabled (suc (j.depth v)) v (omega arith))
        λ t _. (_, refl)

  -- An object is written between braces, with the newline that the writer was asked for.
  pub write-object :
      (w : JsonSingleLineWriter) (v : Value)
      → j.kind v ≡ object_value
      → (text : Bytes) × (write j w v
          ≡ returns
              ((codes "{" ++ (text ++ codes "}")) ++ (if w.append_newline then codes "\n" else [])))
  unfolding write write_value
  write-object w v e =
      let (text, done) =
        write_members-Returns w.yaml_compatibility_enabled
          (write_value j w.yaml_compatibility_enabled (j.depth v)) v true (j.member_names v)
          (tree.members v e) (λ x less. write_value-Returns _ _ x less) in
      (text, rw (e, write_value) (rw done))
