-- ===== src/Session/Async.antt =====
-- The asynchronous read and the synchronous one (model/network/smb_session.h, smb_session.cc) take
-- the same bundles off the same bytes.
use sm4ns.Base.{
  ◌≡◌, Bool, Bytes, Option, none, some, Outcome, returns, arith, ◌>>=◌, Bool-cases, inl, inr,
}
use sm4ns.Header.{BundleHeader}
use sm4ns.Session.{
  Session, read, success, end_of_file, other_error, Completion, async_read_exactly,
  handle_read_data, handle_read_header, async_read,
}

-- What the caller may use of a completed read.
abbrev pub delivered : Completion → Option (BundleHeader × Bytes)
delivered c = elim c.code [
  | success ↦ some (c.header, c.content)
  | end_of_file ↦ none
  | other_error ↦ none
]

abbrev pub as_read : Completion → Outcome (Option (BundleHeader × Bytes) × Session)
as_read c = returns (delivered c, c.session)

-- Whatever has arrived, however the stream ends, and whatever `h` and `t` were before: an asynchronous
-- read hands over the bundle that the synchronous read gives, an error code where that gives false,
-- and throws where that throws; it leaves the same bytes unread.
pub async_read-read :
    (at_end : Bool) (h : BundleHeader) (t : Bytes) (s : Session)
    → (async_read at_end h t s >>= as_read) ≡ read s
unfolding async_read read handle_read_header handle_read_data async_read_exactly
async_read-read at_end h t s = elim (Bool-cases at_end) [
  | inl q ↦ ground arith
  | inr q ↦ ground arith
]
