-- ===== src/Broker/ReadErrors.antt =====
-- What a failed read does to a broker (readHandler of model/network/smb_connection.cc).
use sm4ns.Base.{
  ◌≡◌, ◌≢◌, refl, ap, false, Bytes, [], returns, throws, >>=-eq-returns, connection_down,
}
use sm4ns.Header.{BundleHeader}
use sm4ns.JsonLib.{JsonLib}
use sm4ns.Session.{close_socket}
use sm4ns.Broker.{Broker, parse_packet, on_message_received, async_receive, deliver, read_handler}
use sm4ns.Session.{end_of_file}
use sm4ns.Broker.Reachable.{parse_packet-keeps, async_receive_lem}

module _ (j : JsonLib) where
  on_message_received-session :
      (header : BundleHeader) (input : Bytes) (b b' : Broker j)
      → on_message_received j header input b ≡ returns b'
      → b'.session ≡ b.session
  unfolding on_message_received
  on_message_received-session header input b b' e =
      let ((notify, b1), parsed, made_b) =
        >>=-eq-returns (parse_packet j header input b)
          (λ r. returns (record r.1 { m_pause = false })) e in
      let (_, same) = parse_packet-keeps j header input b b1 notify parsed in cc

  -- After the end of the stream the handler never returns, whatever was read before it: the socket
  -- is closed first, and then the next read is asked for on it. If nothing was read, what comes of
  -- it is the exception for a connection that is down.
  pub read_handler-end_of_file :
      (b : Broker j)
      → ((b' : Broker j) → read_handler j end_of_file b ≢ returns b')
        × (read_handler j end_of_file (record b { incoming_message = [] }) ≡ throws connection_down)
  unfolding read_handler deliver on_message_received parse_packet async_receive
  read_handler-end_of_file b = (never, refl)
    where
      never : (b' : Broker j) → read_handler j end_of_file b ≢ returns b'
      never b' e =
          let closed : Broker j = record b { reading = false; session = close_socket b.session } in
          let (b1, got, received) =
            >>=-eq-returns
              (on_message_received j closed.incoming_header closed.incoming_message closed)
              (async_receive j) e in
          let same =
            on_message_received-session closed.incoming_header closed.incoming_message closed b1
              got in
          let (_, up) = async_receive_lem j b1 b' received in
          let down : b1.session.socket_open ≡ false = ap (λ s. s.socket_open) same in cc
