-- ===== src/Serialize/Safety.antt =====
-- Which headers make the binary reader read behind the end of the body (deserialize_v1 of
-- model/message/serialize.cc, which does not compare them with the body's length).
use sm4ns.Base.{
  ℕ, zero, suc, ◌+◌, ◌*◌, ◌≤◌, ◌<◌, ◌≡◌, refl, Bytes, [], ◌∷◌, length, get_elem?, none, some,
  Option-cases, inl, inr, undefined, Returns, arith, ◌=ℕ◌, true, false, ◌⊎◌,
}
use sm4ns.Header.{BundleHeader, char_at}
use sm4ns.JsonLib.{JsonLib}
use sm4ns.Conglomerate.{MessageConglomerate}
use sm4ns.Serialize.{read_string, read_lengths, deserialize_v1}

get_elem?-inside : (s : Bytes) (i : ℕ) → i < length s → (c : ℕ) × (get_elem? s i ≡ some c)
get_elem?-inside [] i h = absurd (omega arith)
get_elem?-inside (x ∷ s) zero h = (x, refl)
get_elem?-inside (x ∷ s) (suc i) h = get_elem?-inside s i (omega arith)

get_elem?-behind : (s : Bytes) (i : ℕ) → length s ≤ i → get_elem? s i ≡ none
get_elem?-behind [] i h = refl
get_elem?-behind (x ∷ s) zero h = absurd (omega arith)
get_elem?-behind (x ∷ s) (suc i) h = get_elem?-behind s i (omega arith)

-- The terminator can be read, what lies behind it cannot.
pub char_at-Returns : (s : Bytes) (i : ℕ) → i ≤ length s → Returns (char_at s i)
char_at-Returns s i h = elim (Option-cases (get_elem? s i)) [
  | inl e ↦ unfold char_at in rw (e, char_at) (0, rw (at_end e))
  | inr (c, e) ↦ unfold char_at in rw (e, char_at) (c, refl)
]
  where
    at_end : get_elem? s i ≡ none → (i =ℕ length s) ≡ true
    at_end e = elim (order) [
      | inl q ↦ ground arith
      | inr less ↦ absurd (let (c, f) = get_elem?-inside s i less in cc)
    ]
      where
        order : (i ≡ length s) ⊎ (i < length s)
        order = omega arith

pub char_at-undefined : (s : Bytes) (i : ℕ) → length s < i → char_at s i ≡ undefined
char_at-undefined s i h =
    unfold char_at in rw (get_elem?-behind s i (omega arith), char_at) (rw not_end)
  where
    not_end : (i =ℕ length s) ≡ false
    not_end = ground arith

-- `n` characters that end inside, and `n` characters that go too far.
read_string-Returns :
    (n : ℕ) (s : Bytes) (i : ℕ) → i + n ≤ suc (length s) → Returns (read_string n s i)
unfolding read_string
read_string-Returns zero s i h = ([], refl)
read_string-Returns (suc n) s i h =
    let (c, e) = char_at-Returns s i (omega arith) in
    let (rest, f) = read_string-Returns n s (i + 1) (omega arith) in (c ∷ rest, rw e (rw f))

read_string-undefined :
    (n : ℕ) (s : Bytes) (i : ℕ)
    → i ≤ suc (length s)
    → suc (length s) < i + n
    → read_string n s i ≡ undefined
unfolding read_string
read_string-undefined zero s i h k = absurd (omega arith)
read_string-undefined (suc n) s i h k = elim (order) [
  | inl inside ↦
      let (c, e) = char_at-Returns s i inside in
      rw e (rw (read_string-undefined n s (i + 1) (omega arith) (omega arith)))
  | inr behind ↦ rw (char_at-undefined s i behind)
]
  where
    order : (i ≤ length s) ⊎ (length s < i)
    order = omega arith

read_lengths-undefined :
    (count : ℕ) (s : Bytes) (i : ℕ)
    → i ≤ suc (length s)
    → suc (length s) < i + count * 3
    → read_lengths count s i ≡ undefined
unfolding read_lengths
read_lengths-undefined zero s i h k = absurd (omega arith)
read_lengths-undefined (suc count) s i h k = elim (order i) [
  | inr behind ↦ rw (char_at-undefined s i behind)
  | inl in0 ↦
      (let (c0, e0) = char_at-Returns s i in0 in
        rw e0 (elim (order (i + 1)) [
          | inr behind ↦ rw (char_at-undefined s (i + 1) behind)
          | inl in1 ↦
              (let (c1, e1) = char_at-Returns s (i + 1) in1 in
                rw e1 (elim (order (i + 2)) [
                  | inr behind ↦ rw (char_at-undefined s (i + 2) behind)
                  | inl in2 ↦
                      let (c2, e2) = char_at-Returns s (i + 2) in2 in
                      rw e2
                        (rw (read_lengths-undefined count s (i + 3) (omega arith) (omega arith)))
                ]))
        ]))
]
  where
    order : (k : ℕ) → (k ≤ length s) ⊎ (length s < k)
    order k = omega arith

module _ (j : JsonLib) where
  open j use {Value}

  -- A header whose id lengths and message count need more than the body and its terminator makes
  -- the reader run behind the end of the string, whatever the bytes are: nothing checks it.
  pub deserialize_v1-undefined :
      (header : BundleHeader) (msg_str : Bytes) (res : MessageConglomerate Value)
      → suc (length msg_str) < header.send_id_len + header.dest_id_len + header.message_count * 3
      → deserialize_v1 j header msg_str res ≡ undefined
  unfolding deserialize_v1
  deserialize_v1-undefined header msg_str res h = elim (order header.send_id_len) [
    | inr over ↦ rw (read_string-undefined header.send_id_len msg_str 0 (omega arith) (omega arith))
    | inl in1 ↦
        (let (send_id, e1) = read_string-Returns header.send_id_len msg_str 0 (omega arith) in
          rw e1 (elim (order (header.send_id_len + header.dest_id_len)) [
            | inr over ↦ rw (
                read_string-undefined header.dest_id_len msg_str header.send_id_len in1
                  (omega arith))
            | inl in2 ↦
                let (dest_id, e2) =
                  read_string-Returns header.dest_id_len msg_str header.send_id_len (omega arith) in
                rw e2 (
                  rw (
                    read_lengths-undefined header.message_count msg_str
                      (header.send_id_len + header.dest_id_len) in2 (omega arith)))
          ]))
  ]
    where
      order : (k : ℕ) → (k ≤ suc (length msg_str)) ⊎ (suc (length msg_str) < k)
      order k = omega arith
