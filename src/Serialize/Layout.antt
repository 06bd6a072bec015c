-- ===== src/Serialize/Layout.antt =====
-- The varying header of a bundle (model/message/serialize.cc): its size, and reading its fields back.
use sm4ns.Base.{
  ℕ, ◌+◌, ◌*◌, ◌/◌, ◌^◌, ◌<◌, ◌≡◌, refl, sym, ap, ◌∙◌, true, ◌=ℕ◌, List, [], ◌∷◌, ◌++◌,
  append_assoc, Bytes, length, length-append, All, some, returns, arith, bit_or,
}
use sm4ns.Base.Bits.{bit_or_shifted}
use sm4ns.Header.{to_byte, char_at}
use sm4ns.Conglomerate.Added.{char_at-append}
use sm4ns.Serialize.{
  VaryHeader, OngoingSerialization, length_bytes, vary_header_bytes, header_of, serialize_end_v1,
  read_string, read_lengths,
}

length-length_bytes : (ns : List ℕ) → length (length_bytes ns) ≡ length ns * 3
unfolding length_bytes
length-length_bytes [] = refl
length-length_bytes (n ∷ ns) = omega (arith, length-length_bytes ns)

pub length-vary_header_bytes :
    (v : VaryHeader)
    → length (vary_header_bytes v) ≡ length v.msg_lengths * 3 + length v.send_id + length v.dest_id
unfolding vary_header_bytes
length-vary_header_bytes v = omega (
  arith,
  length-append v.send_id (v.dest_id ++ length_bytes v.msg_lengths),
  length-append v.dest_id (length_bytes v.msg_lengths),
  length-length_bytes v.msg_lengths,
)

eq_test_refl : (n : ℕ) → (n =ℕ n) ≡ true
eq_test_refl n = ground arith

-- Ending a serialization never fails: the buffer for the varying header is exactly filled, and the
-- result is the varying header in front of the messages, described by its header.
pub serialize_end_v1_lem :
    (o : OngoingSerialization)
    → serialize_end_v1 o
      ≡ returns (
          some (
            header_of o.v_head (vary_header_bytes o.v_head ++ o.messages),
            vary_header_bytes o.v_head ++ o.messages,
          ))
unfolding serialize_end_v1
serialize_end_v1_lem o = rw (length-vary_header_bytes o.v_head, eq_test_refl)

-- A character whose place in a text is known.
char_at-place :
    (pre : Bytes) (y : ℕ) (post s : Bytes) (i : ℕ)
    → s ≡ pre ++ y ∷ post
    → i ≡ length pre
    → char_at s i ≡ returns y
char_at-place pre y post s i e p = rw (e, p) (char_at-append pre y post)

-- The place behind one more character.
next_place : (pre : Bytes) (x : ℕ) (i : ℕ) → i ≡ length pre → i + 1 ≡ length (pre ++ x ∷ [])
next_place pre x i p = omega (arith, length-append pre (x ∷ []))

-- Reading as many characters as a text has, from where it stands, gives the text.
pub read_string-place :
    (pre xs post s : Bytes) (i : ℕ)
    → s ≡ pre ++ (xs ++ post)
    → i ≡ length pre
    → read_string (length xs) s i ≡ returns xs
unfolding read_string
read_string-place pre [] post s i e p = refl
read_string-place pre (x ∷ xs) post s i e p = rw (
  char_at-place pre x (xs ++ post) s i e p,
  read_string-place (pre ++ x ∷ []) xs post s (i + 1)
      (e ∙ sym (append_assoc pre (x ∷ []) (xs ++ post))) (next_place pre x i p),
)

-- The two bytes above the lowest, joined as the code joins them.
join_three :
    (n : ℕ)
    → n < 2 ^ 24
    → bit_or (bit_or (to_byte (n / 2 ^ 16) * 2 ^ 16) (to_byte (n / 2 ^ 8) * 2 ^ 8)) (to_byte n) ≡ n
join_three n h =
    ap (λ t. bit_or t (to_byte n))
      (bit_or_shifted 16 (to_byte (n / 2 ^ 16)) (to_byte (n / 2 ^ 8) * 2 ^ 8) (omega arith)
        ∙ (let e : to_byte (n / 2 ^ 16) * 2 ^ 16 + to_byte (n / 2 ^ 8) * 2 ^ 8
                ≡ (to_byte (n / 2 ^ 16) * 256 + to_byte (n / 2 ^ 8)) * 2 ^ 8 =
              omega arith in
            e))
    ∙ bit_or_shifted 8 (to_byte (n / 2 ^ 16) * 256 + to_byte (n / 2 ^ 8)) (to_byte n) (omega arith)
    ∙ omega arith

-- The table of lengths is read back, if each length fits three bytes.
pub read_lengths-place :
    (pre : Bytes) (ns : List ℕ) (post s : Bytes) (i : ℕ)
    → All (λ n. n < 2 ^ 24) ns
    → s ≡ pre ++ (length_bytes ns ++ post)
    → i ≡ length pre
    → read_lengths (length ns) s i ≡ returns ns
unfolding read_lengths length_bytes
read_lengths-place pre [] post s i h e p = refl
read_lengths-place pre (n ∷ ns) post s i h e p =
    let b0 = to_byte (n / 2 ^ 16) in
    let b1 = to_byte (n / 2 ^ 8) in
    let b2 = to_byte n in
    let rest = length_bytes ns ++ post in
    let three : Bytes = b0 ∷ b1 ∷ b2 ∷ [] in
    let e1 : s ≡ (pre ++ b0 ∷ []) ++ b1 ∷ b2 ∷ rest =
      e ∙ sym (append_assoc pre (b0 ∷ []) (b1 ∷ b2 ∷ rest)) in
    let e2 : s ≡ (pre ++ b0 ∷ b1 ∷ []) ++ b2 ∷ rest =
      e ∙ sym (append_assoc pre (b0 ∷ b1 ∷ []) (b2 ∷ rest)) in
    rw (
      char_at-place pre b0 (b1 ∷ b2 ∷ rest) s i e p,
      char_at-place (pre ++ b0 ∷ []) b1 (b2 ∷ rest) s (i + 1) e1 (next_place pre b0 i p),
      char_at-place (pre ++ b0 ∷ b1 ∷ []) b2 rest s (i + 2) e2
          (omega (arith, length-append pre (b0 ∷ b1 ∷ []))),
      read_lengths-place (pre ++ three) ns post s (i + 3) h.1
          (e ∙ sym (append_assoc pre three rest)) (omega (arith, length-append pre three)),
      join_three n h.0,
    )
