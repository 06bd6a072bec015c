-- ===== src/Header/RoundTrip.antt =====
-- Writing and reading the binary header of bundle_version.cc.
use sm4ns.Base.{
  ℕ, ◌+◌, ◌*◌, ◌/◌, ◌%◌, ◌^◌, ◌≡◌, ap, ◌∙◌, not, ◌=ℕ◌, [], ◌∷◌, All, IsByte, arith, returns, throws,
  invalid_header_version, Bool-cases, inl, inr, if◌then◌else◌,
}
use sm4ns.Header.{BundleHeader, Fits, to_byte, join32, make_bundle_header, read_bundle_header}
use sm4ns.Header.Binary.{join32_lem}

-- What the eight bytes say.
abbrev pub decoded : BundleHeader → BundleHeader
decoded h = record {
  send_id_len = h.send_id_len % 256;
  dest_id_len = h.dest_id_len % 256;
  message_count = h.message_count % 256;
  rem_len = h.rem_len % 2 ^ 32;
}

join-split :
    (n : ℕ)
    → join32 (to_byte (n / 2 ^ 24)) (to_byte (n / 2 ^ 16)) (to_byte (n / 2 ^ 8)) (to_byte n)
      ≡ n % 2 ^ 32
join-split n = join32_lem _ _ _ _ (omega arith) (omega arith) (omega arith) ∙ omega arith

-- Reading back a written header never fails, and gives each id length and the count modulo 256
-- and the remaining length modulo 2 ^ 32.
pub read-make : (h : BundleHeader) → read_bundle_header (make_bundle_header h) ≡ returns (decoded h)
unfolding read_bundle_header make_bundle_header
read-make h = ap (λ n. returns (record (decoded h) { rem_len = n })) (join-split h.rem_len)

-- A header whose fields fit their bytes is read back unchanged.
pub read-make-Fits :
    (h : BundleHeader) → Fits h → read_bundle_header (make_bundle_header h) ≡ returns h
read-make-Fits h f = read-make h ∙ ground arith

-- What reading eight bytes gives, once the join of the last four is known.
read_eight :
    (v b1 b2 b3 b4 b5 b6 b7 n : ℕ)
    → join32 b4 b5 b6 b7 ≡ n
    → read_bundle_header (v ∷ b1 ∷ b2 ∷ b3 ∷ b4 ∷ b5 ∷ b6 ∷ b7 ∷ []) ≡ (
        if not (v =ℕ 1)
        then throws invalid_header_version
        else returns
            (record { send_id_len = b1; dest_id_len = b2; message_count = b3; rem_len = n }))
unfolding read_bundle_header
read_eight v b1 b2 b3 b4 b5 b6 b7 n e = elim (Bool-cases (v =ℕ 1)) [
  | inl one ↦ rw (one, e)
  | inr other ↦ rw other
]

-- If eight bytes are accepted as a header, they are the header that is written for what was read,
-- and the fields that were read fit.
pub make-read :
    (v b1 b2 b3 b4 b5 b6 b7 : ℕ) (h : BundleHeader)
    → All IsByte (v ∷ b1 ∷ b2 ∷ b3 ∷ b4 ∷ b5 ∷ b6 ∷ b7 ∷ [])
    → read_bundle_header (v ∷ b1 ∷ b2 ∷ b3 ∷ b4 ∷ b5 ∷ b6 ∷ b7 ∷ []) ≡ returns h
    → (make_bundle_header h ≡ v ∷ b1 ∷ b2 ∷ b3 ∷ b4 ∷ b5 ∷ b6 ∷ b7 ∷ []) × Fits h
unfolding make_bundle_header
make-read v b1 b2 b3 b4 b5 b6 b7 h bytes e = ground (
  arith,
  read_eight v b1 b2 b3 b4 b5 b6 b7 (b4 * 16777216 + b5 * 65536 + b6 * 256 + b7)
      (join32_lem b4 b5 b6 b7 (omega arith) (omega arith) (omega arith)),
)
