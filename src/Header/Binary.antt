-- ===== src/Header/Binary.antt =====
-- Joining the four bytes of a length, and reading a header that is eight bytes long.
use sm4ns.Base.{ℕ, ◌+◌, ◌*◌, ◌^◌, ◌<◌, ◌≡◌, ap, ◌∙◌, arith, bit_or}
use sm4ns.Base.Bits.{bit_or_shifted}

join24 :
    (b0 b1 b2 : ℕ)
    → b1 < 256
    → b2 < 256
    → bit_or (bit_or (b0 * 2 ^ 24) (b1 * 2 ^ 16)) (b2 * 2 ^ 8)
      ≡ (b0 * 65536 + b1 * 256 + b2) * 2 ^ 8
join24 b0 b1 b2 h1 h2 =
    ap (λ t. bit_or t (b2 * 2 ^ 8))
      (bit_or_shifted 24 b0 (b1 * 2 ^ 16) (omega arith)
        ∙ (let e : b0 * 2 ^ 24 + b1 * 2 ^ 16 ≡ (b0 * 256 + b1) * 2 ^ 16 = omega arith in e))
    ∙ bit_or_shifted 16 (b0 * 256 + b1) (b2 * 2 ^ 8) (omega arith)
    ∙ omega arith

pub join32_lem :
    (b0 b1 b2 b3 : ℕ)
    → b1 < 256
    → b2 < 256
    → b3 < 256
    → bit_or (bit_or (bit_or (b0 * 2 ^ 24) (b1 * 2 ^ 16)) (b2 * 2 ^ 8)) b3
      ≡ b0 * 16777216 + b1 * 65536 + b2 * 256 + b3
join32_lem b0 b1 b2 b3 h1 h2 h3 =
    ap (λ t. bit_or t b3) (join24 b0 b1 b2 h1 h2)
    ∙ bit_or_shifted 8 (b0 * 65536 + b1 * 256 + b2) b3 (omega arith)
    ∙ omega arith
