-- ===== src/JsonLib/Objects.antt =====
-- Objects and arrays of the JSON library as plain functions and lists: what is left of a value once
-- one knows its members, or its items.
use sm4ns.Base.{
  ℕ, zero, suc, ◌<◌, ◌≡◌, ◌≢◌, ◌⊎◌, inl, inr, refl, sym, ap, ◌∙◌, Bool, true, false, if◌then◌else◌,
  Bool-cases, String, List, [], ◌∷◌, ◌++◌, length, length-append, get_elem?, Option, none, some,
  returns, ◌==◌, eq_iff, arith,
}
use sm4ns.JsonLib.{
  JsonLib, BuildsObjects, ReadsMembers, BuildsArrays, null_value, object_value, array_value,
}

-- The member under `name` after an assignment.
abbrev pub with_member {ℓ} : {V : Type ℓ} → String → V → (String → Option V) → String → Option V
with_member name x f other = if other == name then some x else f other

pub with_member-here {ℓ} :
    {V : Type ℓ} (name : String) (x : V) (f : String → Option V)
    → with_member name x f name ≡ some x
with_member-here name x f = rw ((eq_iff name name).1 refl) refl

pub with_member-twice {ℓ} :
    {V : Type ℓ} (name : String) (x y : V) (f : String → Option V) (other : String)
    → with_member name x (with_member name y f) other ≡ with_member name x f other
with_member-twice name x y f other = elim (Bool-cases (other == name)) [
  | inl same ↦ rw same refl
  | inr apart ↦ rw apart refl
]

abbrev pub is_there {ℓ} : {V : Type ℓ} → Option V → Bool
is_there none = false
is_there (some x) = true

get_elem?-lt {ℓ} :
    {A : Type ℓ} (xs : List A) (i : ℕ) (y : A) → get_elem? xs i ≡ some y → i < length xs
get_elem?-lt [] i y e = cc
get_elem?-lt (x ∷ xs) zero y e = omega arith
get_elem?-lt (x ∷ xs) (suc i) y e = omega (arith, get_elem?-lt xs i y e)

get_elem?-snoc {ℓ} :
    {A : Type ℓ} (xs : List A) (x : A) (i : ℕ) (y : A)
    → get_elem? (xs ++ x ∷ []) i ≡ some y
    → (get_elem? xs i ≡ some y) ⊎ ((i ≡ length xs) × (x ≡ y))
get_elem?-snoc [] x zero y e = inr (refl, cc)
get_elem?-snoc [] x (suc i) y e = cc
get_elem?-snoc (z ∷ xs) x zero y e = inl e
get_elem?-snoc (z ∷ xs) x (suc i) y e = elim (get_elem?-snoc xs x i y e) [
  | inl h ↦ inl h
  | inr (q, s) ↦ inr (ap suc q, s)
]

module _ (j : JsonLib) where
  open j use {Value}

  abbrev pub or_null : Option Value → Value
  or_null none = j.null
  or_null (some x) = x

  -- A null value or an object whose members are given by a function.
  pub record Represents (v : Value) (f : String → Option Value) : Type 0 where
    pub can_set : (j.kind v ≡ null_value) ⊎ (j.kind v ≡ object_value)
    pub named : (name : String) → j.is_member v name ≡ returns (is_there (f name))
    pub found : (name : String) → j.get v name ≡ returns (or_null (f name))

  pub Represents-ext :
      (v : Value) (f g : String → Option Value)
      → ((name : String) → f name ≡ g name)
      → Represents v f
      → Represents v g
  Represents-ext v f g same r = record {
    can_set = r.can_set;
    named = λ name. r.named name ∙ ap (λ o. returns (is_there o)) (same name);
    found = λ name. r.found name ∙ ap (λ o. returns (or_null o)) (same name);
  }

  -- A null value or an array with these items.
  pub record Lists (v : Value) (xs : List Value) : Type 0 where
    pub can_append : (j.kind v ≡ null_value) ⊎ (j.kind v ≡ array_value)
    pub counted : j.size v ≡ length xs
    pub item : (i : ℕ) (x : Value) → get_elem? xs i ≡ some x → j.at v i ≡ returns x

module _ (j : JsonLib) (build : BuildsObjects j) (members : ReadsMembers j) where
  open j use {Value}

  pub null-Represents : Represents j j.null (λ name. none)
  null-Represents = record {
    can_set = inl build.fresh;
    named = λ name. (members.unset name).0;
    found = λ name. (members.unset name).1;
  }

  -- An assignment changes the one member.
  pub set-Represents :
      (v : Value) (f : String → Option Value) (name : String) (x : Value)
      → Represents j v f
      → (v' : Value) × (j.set v name x ≡ returns v')
        × Represents j v' (with_member name x f)
        × (j.kind v' ≡ object_value)
  set-Represents v f name x r =
      let (v', set, is_object, got) = build.assigned v name x r.can_set in
      (
        v',
        set,
        record {
          can_set = inr is_object;
          named = λ other. elim (Bool-cases (other == name)) [
            | inl same ↦ rw ((eq_iff other name).0 same) (named_here v' set)
            | inr apart ↦
                (members.others v v' name other x set (λ q. clash other apart q)).0
                ∙ r.named other
                ∙ rw apart refl
          ];
          found = λ other. elim (Bool-cases (other == name)) [
            | inl same ↦ rw ((eq_iff other name).0 same) (found_here v' got)
            | inr apart ↦
                (members.others v v' name other x set (λ q. clash other apart q)).1
                ∙ r.found other
                ∙ rw apart refl
          ];
        },
        is_object,
      )
    where
      clash : (other : String) → (other == name) ≡ false → other ≢ name
      clash other apart q = let e = (eq_iff other name).1 q in cc

      named_here :
          (v' : Value)
          → j.set v name x ≡ returns v'
          → j.is_member v' name ≡ returns (is_there (with_member name x f name))
      named_here v' set = members.there v v' name x set ∙ rw ((eq_iff name name).1 refl) refl

      found_here :
          (v' : Value)
          → j.get v' name ≡ returns x
          → j.get v' name ≡ returns (or_null j (with_member name x f name))
      found_here v' got = got ∙ rw ((eq_iff name name).1 refl) refl

module _ (j : JsonLib) (build : BuildsObjects j) (arrays : BuildsArrays j) where
  open j use {Value}

  pub null-Lists : Lists j j.null []
  null-Lists = record {
    can_append = inl build.fresh;
    counted = arrays.no_items;
    item = λ i x e. cc;
  }

  -- An item goes behind the others.
  pub append-Lists :
      (v : Value) (xs : List Value) (x : Value)
      → Lists j v xs
      → (v' : Value) × (j.append v x ≡ returns v')
        × Lists j v' (xs ++ x ∷ [])
        × (j.kind v' ≡ array_value)
  append-Lists v xs x l =
      let (v', done, is_arr, more, last, kept) = arrays.appended v x l.can_append in
      (
        v',
        done,
        record {
          can_append = inr is_arr;
          counted = omega (arith, l.counted, length-append xs (x ∷ []));
          item = λ i y e. at_place v' i y (get_elem?-snoc xs x i y e) last kept;
        },
        is_arr,
      )
    where
      at_place :
          (v' : Value) (i : ℕ) (y : Value)
          → (get_elem? xs i ≡ some y) ⊎ ((i ≡ length xs) × (x ≡ y))
          → j.at v' (j.size v) ≡ returns x
          → ((i : ℕ) → i < j.size v → j.at v' i ≡ j.at v i)
          → j.at v' i ≡ returns y
      at_place v' i y (inl e) last kept =
          kept i (omega (arith, l.counted, get_elem?-lt xs i y e)) ∙ l.item i y e
      at_place v' i y (inr (q, s)) last kept =
          ap (j.at v') (q ∙ sym l.counted) ∙ last ∙ ap returns s
