-- ===== src/Header.antt =====
-- The fixed header of a bundle (model/bundle_version.h and model/bundle_version.cc).
-- A byte is a number below 256; the `int` and `unsigned int` fields are numbers, cut to a byte or
-- to 32 bits where the code casts or shifts. Ids and counts are sizes, so they are never negative.
pub mod Text
pub mod Binary
pub mod RoundTrip
pub mod Hexadecimal
use sm4ns.Base.{
  ℕ, ◌+◌, ◌*◌, ◌/◌, ◌%◌, ◌^◌, Bool, true, not, ◌=ℕ◌, if◌then◌else◌, [], ◌∷◌, Bytes, length, bit_or,
  get_elem?, Option, none, some, Outcome, returns, undefined, throw_if, ◌>>=◌, ◌>>◌, IsByte, ◌<◌,
  invalid_header_version,
}
use Text.{print_hex, read_hex}

-- `NEW_BUNDLES` and `PREFER_BINARY_MESSAGES` are compile-time constants of the code.
abbrev pub new_bundles : Bool
new_bundles = true

abbrev pub header_length : ℕ
header_length = 8

pub record BundleHeader : Type 0 where
  pub send_id_len : ℕ
  pub dest_id_len : ℕ
  pub message_count : ℕ
  pub rem_len : ℕ

-- The constructor `BundleHeader()`.
abbrev pub blank : BundleHeader
blank = record { send_id_len = 0; dest_id_len = 0; message_count = 0; rem_len = 0 }

-- `(unsigned char)n`; for a shifted value, `(unsigned char)((n >> k) & 0xFF)`.
abbrev pub to_byte : ℕ → ℕ
to_byte n = n % 256

unfoldable pub make_bundle_header_v1 : BundleHeader → Bytes
make_bundle_header_v1 h =
    1
    ∷ to_byte h.send_id_len
    ∷ to_byte h.dest_id_len
    ∷ to_byte h.message_count
    ∷ to_byte (h.rem_len / 2 ^ 24)
    ∷ to_byte (h.rem_len / 2 ^ 16)
    ∷ to_byte (h.rem_len / 2 ^ 8)
    ∷ to_byte h.rem_len
    ∷ []

-- `s[i]` of a const std::string: the terminator at its end, undefined behind that.
unfoldable pub char_at : Bytes → ℕ → Outcome ℕ
char_at s i = elim (get_elem? s i) [
  | some c ↦ returns c
  | none ↦ if i =ℕ length s then returns 0 else undefined
]

-- `(b0<<24) | (b1<<16) | (b2<<8) | b3`; the bits of `b0<<24`, read as unsigned.
abbrev pub join32 : ℕ → ℕ → ℕ → ℕ → ℕ
join32 b0 b1 b2 b3 = bit_or (bit_or (bit_or (b0 * 2 ^ 24) (b1 * 2 ^ 16)) (b2 * 2 ^ 8)) b3

unfoldable pub read_bundle_header_v1 : Bytes → Outcome BundleHeader
unfolding char_at
read_bundle_header_v1 header = do
  version ← char_at header 0
  throw_if (not (version =ℕ 1)) invalid_header_version
  send_id_len ← char_at header 1
  dest_id_len ← char_at header 2
  message_count ← char_at header 3
  b0 ← char_at header 4
  b1 ← char_at header 5
  b2 ← char_at header 6
  b3 ← char_at header 7
  returns (record {
    send_id_len = send_id_len;
    dest_id_len = dest_id_len;
    message_count = message_count;
    rem_len = join32 b0 b1 b2 b3;
  })

-- `std::setw(8) << std::hex`, and the check on the stream's size.
unfoldable pub make_bundle_header_v0 : BundleHeader → Bytes
make_bundle_header_v0 h =
    let text = print_hex header_length h.rem_len in
    if length text =ℕ header_length then text else []

-- A failed extraction leaves 0.
unfoldable pub read_bundle_header_v0 : Bytes → BundleHeader
read_bundle_header_v0 header = elim (read_hex header) [
  | none ↦ blank
  | some n ↦ record blank { rem_len = n }
]

unfoldable pub make_bundle_header : BundleHeader → Bytes
unfolding make_bundle_header_v1 make_bundle_header_v0
make_bundle_header h = if new_bundles then make_bundle_header_v1 h else make_bundle_header_v0 h

unfoldable pub read_bundle_header : Bytes → Outcome BundleHeader
unfolding read_bundle_header_v1 read_bundle_header_v0
read_bundle_header s =
    if new_bundles then read_bundle_header_v1 s else returns (read_bundle_header_v0 s)

-- The values for which the header has room.
pub record Fits (h : BundleHeader) : Type 0 where
  pub send_id : h.send_id_len < 256
  pub dest_id : h.dest_id_len < 256
  pub count : h.message_count < 256
  pub rem : h.rem_len < 2 ^ 32
