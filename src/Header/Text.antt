-- ===== src/Header/Text.antt =====
-- What bundle_version.cc uses of the standard streams: an unsigned int printed in hexadecimal
-- into a field of a given width, and `>> std::hex` into an unsigned int.
use sm4ns.Base.{
  ℕ, zero, suc, ◌+◌, ◌-◌, ◌*◌, ◌/◌, ◌%◌, ◌^◌, Bool, true, false, ◌&&◌, ◌||◌, ltb, leb, ◌=ℕ◌,
  if◌then◌else◌, [], ◌∷◌, ◌++◌, Bytes, length, Option, none, some,
}

unfoldable pub hex_digit : ℕ → ℕ
hex_digit d = if ltb d 10 then 48 + d else 87 + d

-- The digits of `n`, most significant first; `fuel` digits at most.
unfoldable pub hex_text : ℕ → ℕ → Bytes
hex_text zero n = []
hex_text (suc fuel) n =
    let front = hex_text fuel (n / 16) in
    if ltb n 16 then hex_digit n ∷ [] else front ++ hex_digit (n % 16) ∷ []

-- The fill character of a stream is the blank.
unfoldable pub blanks : ℕ → Bytes
blanks zero = []
blanks (suc k) = 32 ∷ blanks k

-- Eight digits are all that an unsigned int of 32 bits has.
unfoldable pub print_hex : ℕ → ℕ → Bytes
print_hex width n = let digits = hex_text 8 (n % 2 ^ 32) in blanks (width - length digits) ++ digits

unfoldable pub hex_value : ℕ → Option ℕ
hex_value c =
    if leb 48 c && leb c 57
    then some (c - 48)
    else if leb 97 c && leb c 102
    then some (c - 87)
    else if leb 65 c && leb c 70
    then some (c - 55)
    else none

abbrev pub is_space : ℕ → Bool
is_space c = c =ℕ 32 || (leb 9 c && leb c 13)

unfoldable pub skip_spaces : Bytes → Bytes
skip_spaces [] = []
skip_spaces (c ∷ s) = let rest = skip_spaces s in if is_space c then rest else c ∷ s

-- "0x" or "0X" before the digits.
unfoldable pub skip_prefix : Bytes → Bytes
skip_prefix (c ∷ d ∷ s) = if c =ℕ 48 && (d =ℕ 120 || d =ℕ 88) then s else c ∷ d ∷ s
skip_prefix s = s

-- The sign, if there is one, and the rest.
unfoldable pub take_sign : Bytes → Bool × Bytes
take_sign [] = (false, [])
take_sign (c ∷ s) = if c =ℕ 45 then (true, s) else if c =ℕ 43 then (false, s) else (false, c ∷ s)

abbrev pub with_digit : Option ℕ → ℕ → ℕ
with_digit none d = d
with_digit (some n) d = n * 16 + d

-- Digits up to the first character that is none; `none` if there was no digit.
unfoldable pub scan_hex : Bytes → Option ℕ → Option ℕ
scan_hex [] acc = acc
scan_hex (c ∷ s) acc = elim (hex_value c) [
  | none ↦ acc
  | some d ↦ scan_hex s (some (with_digit acc d))
]

-- A value above 32 bits fails; a minus sign negates modulo 2 ^ 32.
abbrev pub to_unsigned : Bool → Option ℕ → Option ℕ
to_unsigned negative none = none
to_unsigned negative (some n) =
    if ltb n (2 ^ 32) then some (if negative then (2 ^ 32 - n) % 2 ^ 32 else n) else none

unfoldable pub read_hex : Bytes → Option ℕ
read_hex s =
    let (negative, rest) = take_sign (skip_spaces s) in
    to_unsigned negative (scan_hex (skip_prefix rest) none)
