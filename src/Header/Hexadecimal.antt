-- ===== src/Header/Hexadecimal.antt =====
-- Writing and reading the hexadecimal header of bundle_version.cc.
use sm4ns.Base.{
  ℕ, zero, suc, ◌-◌, ◌/◌, ◌%◌, ◌^◌, ◌≤◌, ◌<◌, ◌≡◌, refl, ap, ◌∙◌, ◌⊎◌, false, [], ◌∷◌, ◌++◌,
  append_assoc, append-nil, Bytes, length, length-append, All, All-append, Option, none, some,
  arith, inl, inr,
}
use native.Mathlib.Nat.{pow-suc}
use sm4ns.Header.{BundleHeader, blank, header_length, make_bundle_header_v0, read_bundle_header_v0}
use sm4ns.Header.Text.{
  hex_digit, hex_text, blanks, print_hex, hex_value, skip_spaces, skip_prefix, take_sign,
  with_digit, scan_hex, read_hex,
}

abbrev IsHex : ℕ → Type 0
IsHex c = ((48 ≤ c) × (c ≤ 57)) ⊎ ((97 ≤ c) × (c ≤ 102))

hex_digit-IsHex : (d : ℕ) → d < 16 → IsHex (hex_digit d)
unfolding hex_digit
hex_digit-IsHex d h = ground arith

hex_value-hex_digit : (d : ℕ) → d < 16 → hex_value (hex_digit d) ≡ some d
unfolding hex_digit hex_value
hex_value-hex_digit d h = ground arith

scan_hex-digit :
    (d : ℕ) (s : Bytes) (acc : Option ℕ)
    → d < 16
    → scan_hex (hex_digit d ∷ s) acc ≡ scan_hex s (some (with_digit acc d))
unfolding scan_hex
scan_hex-digit d s acc h = rw (hex_value-hex_digit d h, scan_hex)

scan_hex-nil : (acc : Option ℕ) → scan_hex [] acc ≡ acc
unfolding scan_hex
scan_hex-nil acc = refl

-- One digit, or the digits of the quotient and one more.
hex_text_cases :
    (fuel n : ℕ)
    → ((n < 16) × (hex_text (suc fuel) n ≡ hex_digit n ∷ []))
      ⊎ ((16 ≤ n) × (hex_text (suc fuel) n ≡ hex_text fuel (n / 16) ++ hex_digit (n % 16) ∷ []))
unfolding hex_text
hex_text_cases fuel n = ground arith

-- The digits of a number in front of a text are read as the number.
scan_hex-hex_text :
    (fuel n : ℕ) (s : Bytes)
    → n < 16 ^ suc fuel
    → scan_hex (hex_text (suc fuel) n ++ s) none ≡ scan_hex s (some n)
scan_hex-hex_text zero n s h = elim (hex_text_cases zero n) [
  | inl (small, e) ↦ rw e (scan_hex-digit n s none small)
  | inr (big, e) ↦ absurd (omega arith)
]
scan_hex-hex_text (suc f) n s h = elim (hex_text_cases (suc f) n) [
  | inl (small, e) ↦ rw e (scan_hex-digit n s none small)
  | inr (big, e) ↦
      rw (e, append_assoc)
        (scan_hex-hex_text f (n / 16) (hex_digit (n % 16) ∷ s) (omega (arith, pow-suc 16 (suc f)))
          ∙ scan_hex-digit (n % 16) s (some (n / 16)) (omega arith)
          ∙ ap (λ k. scan_hex s (some k)) (omega arith))
]

hex_text-IsHex : (fuel n : ℕ) → All IsHex (hex_text fuel n)
hex_text-IsHex zero n = unfold hex_text in tt
hex_text-IsHex (suc f) n = elim (hex_text_cases f n) [
  | inl (small, e) ↦ rw e (hex_digit-IsHex n small, tt)
  | inr (big, e) ↦
      rw e (All-append IsHex _ _ (hex_text-IsHex f (n / 16)) (hex_digit-IsHex _ (omega arith), tt))
]

length-hex_text : (fuel n : ℕ) → length (hex_text fuel n) ≤ fuel
unfolding hex_text
length-hex_text zero n = omega arith
length-hex_text (suc f) n = ground (
  arith,
  length-hex_text f (n / 16),
  length-append (hex_text f (n / 16)) (hex_digit (n % 16) ∷ []),
)

-- A text of digits has no blank, no sign and no prefix to skip.
skip_spaces-blanks : (k : ℕ) (s : Bytes) → All IsHex s → skip_spaces (blanks k ++ s) ≡ s
unfolding skip_spaces blanks
skip_spaces-blanks zero [] h = refl
skip_spaces-blanks zero (c ∷ s) h = ground arith
skip_spaces-blanks (suc k) s h = skip_spaces-blanks k s h

take_sign-IsHex : (s : Bytes) → All IsHex s → take_sign s ≡ (false, s)
unfolding take_sign
take_sign-IsHex [] h = refl
take_sign-IsHex (c ∷ s) h = ground arith

skip_prefix-IsHex : (s : Bytes) → All IsHex s → skip_prefix s ≡ s
unfolding skip_prefix
skip_prefix-IsHex [] h = refl
skip_prefix-IsHex (c ∷ []) h = refl
skip_prefix-IsHex (c ∷ d ∷ s) h = ground arith

length-blanks : (k : ℕ) → length (blanks k) ≡ k
unfolding blanks
length-blanks zero = refl
length-blanks (suc k) = ap suc (length-blanks k)

length-print_hex : (n : ℕ) → length (print_hex 8 n) ≡ 8
unfolding print_hex
length-print_hex n = omega (
  arith,
  length-append (blanks (8 - length (hex_text 8 (n % 2 ^ 32)))) (hex_text 8 (n % 2 ^ 32)),
  length-blanks (8 - length (hex_text 8 (n % 2 ^ 32))),
  length-hex_text 8 (n % 2 ^ 32),
)

-- What is printed is read back, up to the 32 bits of an unsigned int.
read-print_hex : (n : ℕ) → read_hex (print_hex 8 n) ≡ some (n % 2 ^ 32)
unfolding read_hex print_hex
read-print_hex n =
    let digits = hex_text 8 (n % 2 ^ 32) in
    let are_hex : All IsHex digits = hex_text-IsHex 8 (n % 2 ^ 32) in
    rw
      (
        skip_spaces-blanks (8 - length digits) digits are_hex,
        take_sign-IsHex digits are_hex,
        skip_prefix-IsHex digits are_hex,
        ← append-nil digits,
        scan_hex-hex_text 7 (n % 2 ^ 32) [] (omega arith),
        scan_hex-nil,
      )
      (ground arith)

-- The hexadecimal header always has exactly eight characters, so writing it never fails.
pub length-make_bundle_header_v0 :
    (h : BundleHeader) → length (make_bundle_header_v0 h) ≡ header_length
unfolding make_bundle_header_v0
length-make_bundle_header_v0 h = rw length-print_hex (length-print_hex h.rem_len)

-- The hexadecimal header gives the remaining length back, modulo 2 ^ 32, and nothing else.
pub read-make_v0 :
    (h : BundleHeader)
    → read_bundle_header_v0 (make_bundle_header_v0 h)
      ≡ record blank { rem_len = h.rem_len % 2 ^ 32 }
unfolding make_bundle_header_v0 read_bundle_header_v0
read-make_v0 h = rw length-print_hex (rw (read-print_hex h.rem_len, read_bundle_header_v0))
