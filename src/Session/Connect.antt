-- ===== src/Session/Connect.antt =====
-- Session::connect and Connection::connect (model/network/smb_session.cc, smb_connection.cc). The
-- resolver and the network are boost's: `resolve n` is what the n-th query gives, the endpoints or
-- `none` for an error, and `reach n endpoint` is what connecting for the n-th time gives.
use sm4ns.Base.{
  ℕ, ◌+◌, ◌*◌, Bool, true, false, not, String, List, [], ◌∷◌, Option, none, some, Outcome, returns,
  undefined, throw_if, ◌>>◌, null_broker, unresolved_server,
}
use sm4ns.Session.{Session}

-- The constructor of Connection, given whether there is a broker.
unfoldable pub new_connection : Bool → Outcome (Option Session)
new_connection has_broker = do throw_if (not has_broker) null_broker; returns none

-- The session of a connection that has not come about: `connect` made it, and connecting has opened its
-- socket, which boost leaves open when it fails.
abbrev pub unconnected : Session
unconnected = record { socket_open = true; inbound = []; outbound = [] }

-- Session::connect tries the first endpoint only; without one the iterator is at the end.
unfoldable pub session_connect :
    (String → Option Session) → Option (List String) → Outcome (Option Session)
session_connect reach none = undefined
session_connect reach (some []) = undefined
session_connect reach (some (endpoint ∷ later)) = returns (reach endpoint)

-- Connection::connect resolves twice. The second error code replaces the first, and the first
-- iterator is used.
unfoldable pub connect :
    (ℕ → Option (List String)) → (ℕ → String → Option Session) → ℕ → Outcome (Option Session)
connect resolve reach attempt = do
  let it = resolve (2 * attempt)
  throw_if (elim (resolve (2 * attempt + 1)) [ none ↦ true | some endpoints ↦ false ])
      unresolved_server
  session_connect (reach attempt) it
