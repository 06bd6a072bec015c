-- ===== src/Session/Stream.antt =====
-- Bundles through a byte stream (model/network/smb_session.cc): what one side writes, the other
-- side reads.
use sm4ns.Base.{
  ℕ, zero, suc, ◌%◌, ◌^◌, ◌<◌, ◌≡◌, refl, sym, ap, ◌∙◌, true, false, not, leb, ◌=ℕ◌, List, [], ◌∷◌,
  ◌++◌, append_assoc, append-nil, Bytes, length, length-append, is_empty, take-append, drop-append,
  All, Option, some, Outcome, returns, arith, ◌>>=◌,
}
use sm4ns.Header.{BundleHeader, Fits, header_length, make_bundle_header}
use sm4ns.Header.RoundTrip.{read-make-Fits}
use sm4ns.Session.{Session, write, read, read_exactly}

length-make_bundle_header : (h : BundleHeader) → length (make_bundle_header h) ≡ 8
unfolding make_bundle_header
length-make_bundle_header h = refl

leb-append : (n : ℕ) (xs ys : Bytes) → length xs ≡ n → leb n (length (xs ++ ys)) ≡ true
leb-append n xs ys e = let k = length-append xs ys in ground arith

read_exactly-append :
    (n : ℕ) (xs ys : Bytes) → length xs ≡ n → read_exactly n (xs ++ ys) ≡ some (xs, ys)
unfolding read_exactly
read_exactly-append n xs ys e =
    rw (leb-append n xs ys e) (rw (← e) (rw (take-append xs ys, drop-append xs ys)))

-- A bundle as `write` is given it: the header fits its fields and says how long the data is.
pub record IsBundle (h : BundleHeader) (t : Bytes) : Type 0 where
  pub fits : Fits h
  pub rem : h.rem_len ≡ length t
  pub some_data : 0 < length t

not_zero : (n : ℕ) → 0 < n → (n =ℕ 0) ≡ false
not_zero n h = ground arith

-- Reading takes exactly one bundle off the stream.
pub read-make_bundle :
    (h : BundleHeader) (t rest : Bytes) (s : Session)
    → IsBundle h t
    → s.inbound ≡ make_bundle_header h ++ (t ++ rest)
    → read s ≡ returns (some (h, t), record s { inbound = rest })
unfolding read
read-make_bundle h t rest s b e =
    let head : read_exactly header_length s.inbound ≡ some (make_bundle_header h, t ++ rest) =
      ap (read_exactly 8) e
      ∙ read_exactly-append 8 (make_bundle_header h) (t ++ rest) (length-make_bundle_header h) in
    let body : read_exactly h.rem_len (t ++ rest) ≡ some (t, rest) =
      read_exactly-append h.rem_len t rest (sym b.rem) in
    rw (head, read) (rw (read-make-Fits h b.fits, not_zero h.rem_len (omega arith), body, read))

abbrev pub Bundles : Type 0
Bundles = List (BundleHeader × Bytes)

-- One call of `write` after another, while the socket stays open.
pub write_all : Bundles → Session → Outcome Session
write_all [] s = returns s
write_all ((h, t) ∷ bs) s = do (ok, s') ← write h t s; write_all bs s'

-- One call of `read` for each of `n` bundles.
pub read_all : ℕ → Session → Outcome (List (Option (BundleHeader × Bytes)) × Session)
read_all zero s = returns ([], s)
read_all (suc n) s = do (b, s') ← read s; (bs, s'') ← read_all n s'; returns (b ∷ bs, s'')

abbrev pub received : Bundles → List (Option (BundleHeader × Bytes))
received [] = []
received (b ∷ bs) = some b ∷ received bs

abbrev pub frames : Bundles → Bytes
frames [] = []
frames ((h, t) ∷ bs) = make_bundle_header h ++ (t ++ frames bs)

make_not_empty : (h : BundleHeader) → is_empty (make_bundle_header h) ≡ false
unfolding make_bundle_header
make_not_empty h = refl

-- Writing to an open socket appends the header and the data.
pub write-open :
    (h : BundleHeader) (t : Bytes) (s : Session)
    → s.socket_open ≡ true
    → write h t s
      ≡ returns (
        not (length (make_bundle_header h ++ t) % 2 ^ 32 =ℕ 0),
        record s { outbound = s.outbound ++ (make_bundle_header h ++ t) },
      )
unfolding write
write-open h t s o = rw (make_not_empty h, o)

write_all_lem :
    (bs : Bundles) (s : Session)
    → s.socket_open ≡ true
    → write_all bs s ≡ returns (record s { outbound = s.outbound ++ frames bs })
unfolding write_all
write_all_lem [] s o = simp append-nil
write_all_lem ((h, t) ∷ bs) s o = rw (write-open h t s o) (
    write_all_lem bs (record s { outbound = s.outbound ++ (make_bundle_header h ++ t) }) o
    ∙ simp append_assoc)

pub read_all-frames :
    (bs : Bundles) (rest : Bytes) (s : Session)
    → All (λ b. IsBundle b.0 b.1) bs
    → s.inbound ≡ frames bs ++ rest
    → read_all (length bs) s ≡ returns (received bs, record s { inbound = rest })
unfolding read_all
read_all-frames [] rest s h e = ap (λ i. returns ([], record s { inbound = i })) e
read_all-frames ((h, t) ∷ bs) rest s (b, hs) e =
    let next : s.inbound ≡ make_bundle_header h ++ (t ++ (frames bs ++ rest)) =
      e ∙ simp append_assoc in
    rw (
      read-make_bundle h t (frames bs ++ rest) s b next,
      read_all-frames bs rest (record s { inbound = frames bs ++ rest }) hs refl,
    )

-- Whatever bundles (not empty, with a header that fits and has their length) one side writes to
-- an open socket on which nothing was written yet, all calls return, and the other side reads
-- from these bytes the same bundles in the same order; what follows them on the stream is left
-- for later reads.
pub read_all-write_all :
    (bs : Bundles) (rest : Bytes) (sender receiver : Session)
    → All (λ b. IsBundle b.0 b.1) bs
    → sender.socket_open ≡ true
    → sender.outbound ≡ []
    → (sent : Session) × (write_all bs sender ≡ returns sent)
      × (read_all (length bs) (record receiver { inbound = sent.outbound ++ rest })
          ≡ returns (received bs, record receiver { inbound = rest }))
read_all-write_all bs rest sender receiver h o e = (
  record sender { outbound = sender.outbound ++ frames bs },
  write_all_lem bs sender o,
  read_all-frames bs rest (record receiver { inbound = (sender.outbound ++ frames bs) ++ rest }) h
      (ap (λ (w : Bytes). (w ++ frames bs) ++ rest) e),
)
