-- ===== src/Make/Locations.antt =====
-- What becomes of an "all_locations" message that makeAllLocations made when parseAllLocations takes
-- it out of a bundle again (model/message/serialize.cc); a trace is played this way.
use sm4ns.Base.{
  ℕ, suc, ◌+◌, ◌≡◌, refl, sym, ap, subst, ◌∙◌, String, List, [], ◌∷◌, ◌++◌, append_assoc, length,
  get_elem?, Option, none, some, returns, arith,
}
use sm4ns.Base.Maps.{Map, find, assign, find-assign}
use sm4ns.JsonLib.{
  JsonLib, BuildsObjects, ReadsMembers, BuildsArrays, ReadsReals, object_value, array_value,
}
use sm4ns.JsonLib.Objects.{
  with_member, or_null, Represents, Lists, null-Represents, set-Represents, null-Lists,
  Represents-ext, with_member-here, with_member-twice,
}
use sm4ns.Conglomerate.{MessageBase, get_base_message, get_json_message}
use sm4ns.Messages.{DPoint, string_member, parse_location, parse_locations, parse_all_locations}
use sm4ns.Make.{append_locations, all_locations_value}
use sm4ns.Make.OpaqueSend.{one_message, append_member_lem}
use sm4ns.Handlers.Locations.{last_location}

-- The map after these entries, one after another.
abbrev pub assign_all : {V : Type 0} → Map V → Map V → Map V
assign_all [] m = m
assign_all ((id, p) ∷ rest) m = assign_all rest (assign id p m)

-- The last entry of an id counts.
find-assign_all :
    {R : Type 0} (i : String) (ls m : Map (DPoint R))
    → find i (assign_all ls m) ≡ elim (last_location i ls) [ some p ↦ some p | none ↦ find i m ]
find-assign_all i [] m = refl
find-assign_all i ((id, p) ∷ rest) m =
    find-assign_all i rest (assign id p m) ∙ ground (arith, find-assign i id p m)

find-assign_all-nothing :
    {R : Type 0} (i : String) (ls : Map (DPoint R)) → find i (assign_all ls []) ≡ last_location i ls
find-assign_all-nothing {R} i ls = find-assign_all i ls [] ∙ at_start (last_location i ls)
  where
    at_start :
        (o : Option (DPoint R))
        → elim o as (λ x. Option (DPoint R)) [ some p ↦ some p | none ↦ find {V = DPoint R} i [] ]
          ≡ o
    at_start (some p) = refl
    at_start none = unfold find in refl

module _ (j : JsonLib) (build : BuildsObjects j) (members : ReadsMembers j)
    (arrays : BuildsArrays j) (reals : ReadsReals j) where
  open j use {Value, Real}

  -- The members of one entry.
  abbrev entry_members : String → DPoint Real → (String → Option Value) → String → Option Value
  entry_members id p g =
      with_member "y" (j.of_real p.y)
        (with_member "x" (j.of_real p.x) (with_member "id" (j.of_string id) g))

  -- A value for each entry.
  abbrev Entries : List Value → Map (DPoint Real) → Type 0
  Entries [] [] = Unit {0}
  Entries (v ∷ vs) ((id, p) ∷ rest) =
      ((g : String → Option Value) × Represents j v (entry_members id p g)) × Entries vs rest
  Entries vs rest = ⊥

  parse_location-entry :
      (v : Value) (id : String) (p : DPoint Real) (g : String → Option Value)
      (m : Map (DPoint Real))
      → Represents j v (entry_members id p g)
      → parse_location j v m ≡ returns (assign id p m)
  unfolding parse_location string_member
  parse_location-entry v id p g m r = rw (r.named "id") (
      rw (r.named "x") (
        rw (r.named "y") (
          rw (r.found "id") (
            rw (build.read_back id) (
              rw (r.found "x") (
                rw (reals.read_back_real p.x)
                  (rw (r.found "y") (rw (reals.read_back_real p.y) refl))))))))

  parse_locations-Entries :
      (arr : Value) (vs : List Value) (ls m : Map (DPoint Real)) (i : ℕ)
      → Entries vs ls
      → ((k : ℕ) (x : Value) → get_elem? vs k ≡ some x → j.at arr (i + k) ≡ returns x)
      → parse_locations j arr i (length vs) m ≡ returns (assign_all ls m)
  unfolding parse_locations
  parse_locations-Entries arr [] [] m i es at = refl
  parse_locations-Entries arr [] (l ∷ ls) m i es at = absurd es
  parse_locations-Entries arr (v ∷ vs) [] m i es at = absurd es
  parse_locations-Entries arr (v ∷ vs) ((id, p) ∷ rest) m i ((g, r), es) at =
      let here : j.at arr i ≡ returns v = ap (j.at arr) (omega arith) ∙ at 0 v refl in
      let later =
        parse_locations-Entries arr vs rest (assign id p m) (suc i) es
          (λ k x e. ap (j.at arr) (omega arith) ∙ at (suc k) x e) in
      rw here (rw (parse_location-entry v id p g m r) later)

  Entries-append :
      (vs ws : List Value) (ls ks : Map (DPoint Real))
      → Entries vs ls
      → Entries ws ks
      → Entries (vs ++ ws) (ls ++ ks)
  Entries-append [] ws [] ks es fs = fs
  Entries-append [] ws (l ∷ ls) ks es fs = absurd es
  Entries-append (v ∷ vs) ws [] ks es fs = absurd es
  Entries-append (v ∷ vs) ws ((id, p) ∷ ls) ks es fs = (es.0, Entries-append vs ws ls ks es.1 fs)

  -- The loop over the entries, behind those that are there.
  append_locations_lem :
      (id : String) (p : DPoint Real) (rest : Map (DPoint Real)) (res single : Value)
      (f g : String → Option Value) (xs : List Value)
      → Represents j res f
      → Represents j single g
      → Lists j (or_null j (f "locations")) xs
      → (v arr : Value) × (ys : List Value) × (append_locations j res single ((id, p) ∷ rest)
          ≡ returns v)
        × Represents j v (with_member "locations" arr f)
        × Lists j arr (xs ++ ys)
        × Entries ys ((id, p) ∷ rest)
        × (j.kind arr ≡ array_value)
        × (j.kind v ≡ object_value)
  unfolding append_locations
  append_locations_lem id p [] res single f g xs r s l =
      let put = set-Represents j build members in
      let (v1, s1, r1, _) = put single g "id" (j.of_string id) s in
      let (v2, s2, r2, _) = put v1 _ "x" (j.of_real p.x) r1 in
      let (v3, s3, r3, _) = put v2 _ "y" (j.of_real p.y) r2 in
      let (v4, arr, s4, r4, l4, is_arr, is_obj) =
        append_member_lem j build members arrays res f "locations" xs v3 r l in
      (v4, arr, v3 ∷ [], rw s1 (rw s2 (rw s3 (rw s4 refl))), r4, l4, ((g, r3), tt), is_arr, is_obj)
  append_locations_lem id p ((id2, p2) ∷ rest) res single f g xs r s l =
      let put = set-Represents j build members in
      let (v1, s1, r1, _) = put single g "id" (j.of_string id) s in
      let (v2, s2, r2, _) = put v1 _ "x" (j.of_real p.x) r1 in
      let (v3, s3, r3, _) = put v2 _ "y" (j.of_real p.y) r2 in
      let (v4, arr4, s4, r4, l4, _, _) =
        append_member_lem j build members arrays res f "locations" xs v3 r l in
      let l4' =
        subst (λ o. Lists j (or_null j o) (xs ++ v3 ∷ []))
          (sym (with_member-here "locations" arr4 f)) l4 in
      let (v, arr, ys, done, r5, l5, es, is_arr, is_obj) =
        append_locations_lem id2 p2 rest v4 v3 (with_member "locations" arr4 f)
          (entry_members id p g) (xs ++ v3 ∷ []) r4 r3 l4' in
      (
        v,
        arr,
        v3 ∷ ys,
        rw s1 (rw s2 (rw s3 (rw s4 done))),
        Represents-ext j v _ _ (with_member-twice "locations" arr arr4 f) r5,
        subst (Lists j arr) (append_assoc xs (v3 ∷ []) ys) l5,
        ((g, r3), es),
        is_arr,
        is_obj,
      )

  -- Over a JSON library that keeps to its documentation: a message made for at least one location
  -- is accepted by parseAllLocations, and each id has the last location that it was given.
  pub parse_all_locations-make :
      (id : String) (p : DPoint Real) (rest : Map (DPoint Real)) (base : MessageBase)
      → (v : Value) × (locations : Map (DPoint Real)) × (all_locations_value j ((id, p) ∷ rest)
          ≡ returns v)
        × (parse_all_locations j (one_message v base) 0
            ≡ returns (record { base = base; agent_locations = locations }))
        × ((i : String) → find i locations ≡ last_location i ((id, p) ∷ rest))
  unfolding all_locations_value parse_all_locations get_base_message get_json_message
  parse_all_locations-make id p rest base =
      let (v0, s0, r0, _) =
        set-Represents j build members j.null (λ name. none) "msg_type"
          (j.of_string "all_locations") (null-Represents j build members) in
      let (v, arr, ys, s, r, l, es, is_arr, is_obj) =
        append_locations_lem id p rest v0 j.null _ (λ name. none) [] r0
          (null-Represents j build members) (null-Lists j build arrays) in
      let found : parse_locations j arr 0 (j.size arr) []
          ≡ returns (assign_all ((id, p) ∷ rest) []) =
        ap (λ n. parse_locations j arr 0 n []) l.counted
        ∙ parse_locations-Entries arr ys ((id, p) ∷ rest) [] 0 es
            (λ k x e. ap (j.at arr) (omega arith) ∙ l.item k x e) in
      (
        v,
        assign_all ((id, p) ∷ rest) [],
        rw s0 s,
        rw (members.not_null v is_obj) (
            rw (r.named "locations")
              (rw (r.found "locations") (rw (arrays.tells_arrays arr is_arr) (rw found refl)))),
        λ i. find-assign_all-nothing i ((id, p) ∷ rest),
      )
