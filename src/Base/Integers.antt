-- ===== src/Base/Integers.antt =====
-- Signed integers over the native numbers, as a C++ int holds them and a stream prints them.
use Prim.Native.Nat.{ℕ, zero, suc, ◌+◌, ◌-◌, ◌/◌, ◌%◌, ◌^◌, ◌<◌}
use mathlib.Core.Path.{◌≡◌}
use mathlib.Core.Bool.{Bool, true, false}
use mathlib.Core.List.{[], ◌∷◌, ◌++◌}
use native.Mathlib.Omega.{arith}
use sm4ns.Base.Tests.{ltb, leb, if◌then◌else◌}
use sm4ns.Base.Lists.{Bytes}
use sm4ns.Base.Outcomes.{Outcome, returns, undefined}

-- `negsuc n` is -(n + 1).
pub data ℤ : Type 0 where
  pos negsuc : ℕ → ℤ

infixl 60 ◌+ℤ◌
unfoldable pub ◌+ℤ◌ : ℤ → ℤ → ℤ
pos m +ℤ pos n = pos (m + n)
negsuc m +ℤ negsuc n = negsuc (suc (m + n))
pos m +ℤ negsuc n = if leb (suc n) m then pos (m - suc n) else negsuc (n - m)
negsuc m +ℤ pos n = if leb (suc m) n then pos (n - suc m) else negsuc (m - n)

abbrev pub is_negative : ℤ → Bool
is_negative (pos n) = false
is_negative (negsuc n) = true

-- A sum of ints: an overflow is undefined.
unfoldable pub add_int : ℤ → ℤ → Outcome ℤ
add_int a b = elim (a +ℤ b) [
  | pos n ↦ if ltb n (2 ^ 31) then returns (pos n) else undefined
  | negsuc n ↦ if ltb n (2 ^ 31) then returns (negsuc n) else undefined
]

-- The int that an unsigned int is converted to.
abbrev pub to_int : ℕ → ℤ
to_int n =
    let word = n % 2 ^ 32 in if ltb word (2 ^ 31) then pos word else negsuc ((2 ^ 32 - 1) - word)

-- The digits of `n`, most significant first; `fuel` digits at most.
unfoldable pub decimal_text : ℕ → ℕ → Bytes
decimal_text zero n = []
decimal_text (suc fuel) n =
    let front = decimal_text fuel (n / 10) in
    if ltb n 10 then (48 + n) ∷ [] else front ++ (48 + n % 10) ∷ []

-- `<< n`; no integer of 64 bits has more than 20 digits.
unfoldable pub print_nat : ℕ → Bytes
print_nat n = decimal_text 20 n

unfoldable pub print_int : ℤ → Bytes
print_int (pos n) = print_nat n
print_int (negsuc n) = 45 ∷ print_nat (suc n)

-- One up and one down again.
pub add_int-up : (n : ℕ) → suc n < 2 ^ 31 → add_int (pos n) (pos 1) ≡ returns (pos (suc n))
unfolding add_int ◌+ℤ◌
add_int-up n h = ground arith

pub add_int-down : (n : ℕ) → suc n < 2 ^ 31 → add_int (pos (suc n)) (negsuc 0) ≡ returns (pos n)
unfolding add_int ◌+ℤ◌
add_int-down n h = ground arith

pub add_int-returns :
    (n : ℕ) (m : ℤ) → add_int (pos n) (pos 1) ≡ returns m → (suc n < 2 ^ 31) × (m ≡ pos (suc n))
unfolding add_int ◌+ℤ◌
add_int-returns n m h = (ground arith, ground arith)
