-- ===== src/Session.antt =====
-- Session (model/network/smb_session.h and smb_session.cc): bundles on top of a TCP socket. The
-- socket is boost's; here it is whether it is open, the bytes that have arrived and are not read,
-- and the bytes that were written. A read that asks for more bytes than ever arrive fails.
pub mod Stream
pub mod Async
pub mod Connect
use sm4ns.Base.{
  ℕ, ◌+◌, ◌%◌, ◌^◌, Bool, true, false, not, leb, ◌=ℕ◌, if◌then◌else◌, List, [], ◌∷◌, ◌++◌, Bytes,
  length, is_empty, take, drop, Option, none, some, Outcome, returns, throws, throw_if, ◌>>=◌, ◌>>◌,
  socket_error,
}
use sm4ns.Header.{BundleHeader, header_length, make_bundle_header, read_bundle_header}

pub record Session : Type 0 where
  pub socket_open : Bool
  pub inbound : Bytes
  pub outbound : Bytes

abbrev pub is_open : Session → Bool
is_open s = s.socket_open

abbrev pub close_socket : Session → Session
close_socket s = record s { socket_open = false }

-- Gather-write of the header and the data; boost throws if the socket fails. The result is the
-- number of bytes written, as an int that is read as a bool.
unfoldable pub write : BundleHeader → Bytes → Session → Outcome (Bool × Session)
write header t s = do
  let outbound_header = make_bundle_header header
  if is_empty outbound_header then returns (false, s) else do
    throw_if (not s.socket_open) socket_error
    let buffers = outbound_header ++ t
    returns (not (length buffers % 2 ^ 32 =ℕ 0), record s { outbound = s.outbound ++ buffers })

-- boost::asio::read of exactly `n` bytes.
unfoldable pub read_exactly : ℕ → Bytes → Option (Bytes × Bytes)
read_exactly n s = if leb n (length s) then some (take n s, drop n s) else none

-- The header and the data, or `none` for the result false.
unfoldable pub read : Session → Outcome (Option (BundleHeader × Bytes) × Session)
read s = elim (read_exactly header_length s.inbound) [
  | none ↦ returns (none, record s { inbound = [] })
  | some (inbound_header, rest) ↦ (do
    h ← read_bundle_header inbound_header
    if h.rem_len =ℕ 0
        then returns (none, record s { inbound = rest })
        else elim (read_exactly h.rem_len rest) [
          | none ↦ returns (none, record s { inbound = [] })
          | some (t, after) ↦ returns (some (h, t), record s { inbound = after })
        ])
]

-- The error codes that a read handler tells apart.
pub data ReadError : Type 0 where
  success end_of_file other_error : ReadError

-- boost::asio::async_read of exactly `n` bytes: the code and the bytes. If they never arrive, the
-- stream has ended or failed, as `at_end` says.
unfoldable pub async_read_exactly : Bool → ℕ → Session → ReadError × Bytes × Session
async_read_exactly at_end n s = elim (read_exactly n s.inbound) [
  | none ↦ (if at_end then end_of_file else other_error, [], record s { inbound = [] })
  | some (bytes, rest) ↦ (success, bytes, record s { inbound = rest })
]

-- What the handler of async_read is called with, what `h` and `t` hold then, and the session.
pub record Completion : Type 0 where
  pub code : ReadError
  pub header : BundleHeader
  pub content : Bytes
  pub session : Session

unfoldable pub handle_read_data : ReadError → Bytes → BundleHeader → Bytes → Session → Completion
handle_read_data success inbound_data h t s = record {
  code = success;
  header = h;
  content = inbound_data;
  session = s;
}
handle_read_data end_of_file inbound_data h t s = record {
  code = end_of_file;
  header = h;
  content = t;
  session = s;
}
handle_read_data other_error inbound_data h t s = record {
  code = other_error;
  header = h;
  content = t;
  session = s;
}

-- A length of 0 is boost's invalid_argument.
unfoldable pub handle_read_header :
    ReadError → Bool → Bytes → BundleHeader → Bytes → Session → Outcome Completion
handle_read_header success at_end inbound_header h t s = do
  h' ← read_bundle_header inbound_header
  if h'.rem_len =ℕ 0
      then returns (record { code = other_error; header = h'; content = t; session = s })
      else do
        let (e, inbound_data, s') = async_read_exactly at_end h'.rem_len s
        returns (handle_read_data e inbound_data h' t s')
handle_read_header end_of_file at_end inbound_header h t s =
    returns (record { code = end_of_file; header = h; content = t; session = s })
handle_read_header other_error at_end inbound_header h t s =
    returns (record { code = other_error; header = h; content = t; session = s })

unfoldable pub async_read : Bool → BundleHeader → Bytes → Session → Outcome Completion
async_read at_end h t s = do
  let (e, inbound_header, s') = async_read_exactly at_end header_length s
  handle_read_header e at_end inbound_header h t s'
