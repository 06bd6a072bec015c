-- ===== src/Base/Maps.antt =====
-- std::map from texts: an association list in ascending order of the keys.
use Prim.Native.Nat.{Ordering}
use Prim.Native.String.{String, compare}
use mathlib.Core.Path.{◌≡◌, refl}
use mathlib.Core.Option.{Option, none, some}
use mathlib.Core.List.{List, [], ◌∷◌}
use native.Mathlib.Omega.{arith}
use text.Mathlib.Text.{◌==◌}
use text.Mathlib.TextEquality.{eq_iff}
use sm4ns.Base.Tests.{if◌then◌else◌}

abbrev pub Map : Type 0 → Type 0
Map V = List (String × V)

module _ {V : Type 0} where
  -- find(), as the value found
  unfoldable pub find : String → Map V → Option V
  find k [] = none
  find k ((j, v) ∷ m) = if k == j then some v else find k m

  -- m[k] = v
  unfoldable pub assign : String → V → Map V → Map V
  assign k v [] = (k, v) ∷ []
  assign k v ((j, w) ∷ m) = elim (compare k j) [
    | Ordering.lt ↦ (k, v) ∷ (j, w) ∷ m
    | Ordering.eq ↦ (k, v) ∷ m
    | Ordering.gt ↦ (j, w) ∷ assign k v m
  ]

  -- insert(): a key that is there keeps its value
  unfoldable pub insert : String → V → Map V → Map V
  insert k v m = elim (find k m) [ some w ↦ m | none ↦ assign k v m ]

  unfoldable pub erase : String → Map V → Map V
  erase k [] = []
  erase k ((j, w) ∷ m) = let rest = erase k m in if k == j then rest else (j, w) ∷ rest

  pub find-assign :
      (i k : String) (v : V) (m : Map V)
      → find i (assign k v m) ≡ (if i == k then some v else find i m)
  unfolding find assign
  find-assign i k v [] = refl
  find-assign i k v ((j, w) ∷ m) =
      ground (arith, eq_iff i k, eq_iff k j, eq_iff i j, find-assign i k v m)

  pub find-insert :
      (i k : String) (v : V) (m : Map V)
      → find i (insert k v m)
        ≡ (if i == k then elim (find k m) [ some w ↦ some w | none ↦ some v ] else find i m)
  unfolding insert
  find-insert i k v m = ground (arith, find-assign i k v m, eq_iff i k)

  pub find-erase :
      (i k : String) (m : Map V) → find i (erase k m) ≡ (if i == k then none else find i m)
  unfolding find erase
  find-erase i k [] = ground arith
  find-erase i k ((j, w) ∷ m) = ground (arith, eq_iff i k, eq_iff k j, eq_iff i j, find-erase i k m)
