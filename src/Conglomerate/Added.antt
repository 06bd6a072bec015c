-- ===== src/Conglomerate/Added.antt =====
-- Adding a message to a MessageConglomerate (model/message/serialize.cc): what is stored.
use sm4ns.Base.{
  ℕ, ◌+◌, ◌^◌, ◌≤◌, ◌<◌, ◌≡◌, false, ◌&&◌, leb, [], ◌∷◌, ◌++◌, Bytes, length, length-append, take,
  drop, take-append, drop-append, is_empty, get_elem?-append_middle, some, returns, arith, ap,
}
use sm4ns.Header.{char_at}
use sm4ns.JsonLib.{JsonLib}
use sm4ns.Conglomerate.{
  MessageBase, MessageConglomerate, exceeds, save_string, parse_json_message_base, parse_base,
  add_message,
}

exceeds-within : (total n : ℕ) → total ≤ n → n < 2 ^ 31 → exceeds total n ≡ false
exceeds-within total n h k = ground arith

sum-within : (total : ℕ) → total < 2 ^ 31 → leb (2 ^ 31) total ≡ false
sum-within total h = ground arith

pub char_at-append :
    (xs : Bytes) (y : ℕ) (ys : Bytes) → char_at (xs ++ y ∷ ys) (length xs) ≡ returns y
unfolding char_at
char_at-append xs y ys = rw (get_elem?-append_middle xs y ys, char_at)

module _ (j : JsonLib) where
  open j use {Value}

  -- A message that the library can read: a JSON object text with its type, of fewer than 2 ^ 24
  -- characters.
  pub record Readable (text : Bytes) (root : Value) (base : MessageBase) : Type 0 where
    pub tail : Bytes
    pub opens : text ≡ b'{' ∷ tail
    pub parsed : j.parse text ≡ some root
    pub typed : parse_json_message_base j root ≡ returns base
    pub short : length text < 2 ^ 24

  first_char-Readable :
      (pre text post : Bytes) (root : Value) (base : MessageBase)
      → Readable text root base
      → char_at (pre ++ (text ++ post)) (length pre) ≡ returns b'{'
  first_char-Readable pre text post root base r =
      rw r.opens (char_at-append pre b'{' (r.tail ++ post))

  parse_base-Readable :
      (text : Bytes) (root : Value) (base : MessageBase)
      → Readable text root base
      → parse_base j text b'{' ≡ returns (root, base)
  unfolding parse_base
  parse_base-Readable text root base r = rw (r.parsed, r.typed)

  slice_place :
      (pre text post whole : Bytes) (i : ℕ)
      → whole ≡ pre ++ (text ++ post)
      → i ≡ length pre
      → take (length text) (drop i whole) ≡ text
  slice_place pre text post whole i e p =
      rw (e, p, drop-append pre (text ++ post)) (take-append text post)

  -- A readable message inside the message string is stored with its place, its JSON value and its
  -- type, if the string is shorter than 2 ^ 31 characters, is given for the first message at the
  -- latest, and is given only once.
  pub add_message-Readable :
      (c : MessageConglomerate Value) (msg_str pre text post whole : Bytes) (i : ℕ) (root : Value)
      (base : MessageBase)
      → Readable text root base
      → (is_empty c.offsets_v1 && is_empty msg_str) ≡ false
      → save_string msg_str c.messages_v1 ≡ returns whole
      → whole ≡ pre ++ (text ++ post)
      → i ≡ length pre
      → length whole < 2 ^ 31
      → add_message j i (length text) msg_str c
        ≡ returns (record c {
          messages_json = c.messages_json ++ root ∷ [];
          messages_v1 = whole;
          offsets_v1 = c.offsets_v1 ++ (i, length text) ∷ [];
          message_bases = c.message_bases ++ base ∷ [];
        })
  unfolding add_message
  add_message-Readable c msg_str pre text post whole i root base r first saved e p short =
      let inside : i + length text ≤ length whole =
        omega (arith, ap length e, length-append pre (text ++ post), length-append text post) in
      let opening : char_at whole i ≡ returns b'{' =
        rw (e, p) (first_char-Readable pre text post root base r) in
      rw (
        first,
        saved,
        sum-within (i + length text) (omega arith),
        exceeds-within (i + length text) (length whole) inside short,
        opening,
        slice_place pre text post whole i e p,
        parse_base-Readable text root base r,
      )
