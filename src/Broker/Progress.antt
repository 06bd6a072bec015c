-- ===== src/Broker/Progress.antt =====
-- What becomes of a bundle that arrives over the connection (readHandler of
-- model/network/smb_connection.cc, then pause of model/smb_broker.cc).
use sm4ns.Base.{
  ◌+◌, ◌%◌, ◌^◌, ◌≡◌, refl, ap, ◌∙◌, Bool, true, false, [], ◌∷◌, ◌++◌, Bytes, length, is_empty,
  some, returns, ◌>>=◌, >>=-eq-returns, arith, ◌<◌,
}
use sm4ns.Header.{BundleHeader, make_bundle_header}
use sm4ns.JsonLib.{JsonLib, IsTree, BuildsObjects}
use sm4ns.Conglomerate.{MessageConglomerate, no_messages}
use sm4ns.Serialize.{deserialize}
use sm4ns.Queue.{empty, push}
use sm4ns.Agents.{World}
use sm4ns.Session.{Session, Completion, ReadError, success, end_of_file, other_error, async_read}
use sm4ns.Session.Async.{as_read, async_read-read}
use sm4ns.Session.Stream.{IsBundle, read-make_bundle}
use sm4ns.Broker.{Broker, async_receive, deliver, read_handler, io_round, pause}
use sm4ns.Broker.Outgoing.{begun_again}
use sm4ns.Broker.Ticks.{
  handle_all, ticked_session, IsTickedClient, on_message_received-deserialize, pause-open,
}

-- A read that hands over something has succeeded.
delivered-some :
    (code : ReadError) (h h' : BundleHeader) (t t' : Bytes) (s s' : Session)
    → as_read (record { code = code; header = h'; content = t'; session = s' })
      ≡ returns (some (h, t), s)
    → ◌≡◌ {A = Completion}
        (record { code = code; header = h'; content = t'; session = s' })
        (record { code = success; header = h; content = t; session = s })
delivered-some success h h' t t' s s' e = cc
delivered-some end_of_file h h' t t' s s' e = absurd cc
delivered-some other_error h h' t t' s s' e = absurd cc

some_data-is_empty : (t : Bytes) → 0 < length t → is_empty t ≡ false
some_data-is_empty [] h = absurd (omega arith)
some_data-is_empty (x ∷ t) h = refl

async_read-bundle :
    (at_end : Bool) (h0 : BundleHeader) (t0 : Bytes) (h : BundleHeader) (t rest : Bytes)
    (s : Session)
    → IsBundle h t
    → s.inbound ≡ make_bundle_header h ++ (t ++ rest)
    → async_read at_end h0 t0 s
      ≡ returns (record {
        code = success;
        header = h;
        content = t;
        session = record s { inbound = rest };
      })
async_read-bundle at_end h0 t0 h t rest s b e =
    let (done, got, handed) =
      >>=-eq-returns (async_read at_end h0 t0 s) as_read
        (async_read-read at_end h0 t0 s ∙ read-make_bundle h t rest s b e) in
    got ∙ ap returns (delivered-some done.code h done.header t done.content _ done.session handed)

module _ (j : JsonLib) (build : BuildsObjects j) (tree : IsTree j) where
  open j use {Value, Real}

  async_receive-open :
      (b : Broker j)
      → b.session.socket_open ≡ true
      → async_receive j b ≡ returns (record b { incoming_message = []; reading = true })
  unfolding async_receive
  async_receive-open b up = rw (up, async_receive) refl

  -- A bundle stands next on the open connection, and can be read into a conglomerate with as many
  -- places as types; the bundles queued before it, and then it, are handled without a fault. Then, over
  -- a JSON library that keeps to its documentation, the pending read ends and wakes the broker, and the
  -- next call of `pause` returns with all of them handled, this one last: the queue is empty, the answers
  -- and then an object of the type "ticked_client" are written, a new read is pending on what follows on the connection and the next tick is scheduled.
  pub io_round-pause :
      (at_end : Bool) (b : Broker j) (h : BundleHeader) (t rest : Bytes)
      (c : MessageConglomerate Value) (w : World Real)
      → b.session.socket_open ≡ true
      → b.session.inbound ≡ make_bundle_header h ++ (t ++ rest)
      → IsBundle h t
      → deserialize j h t no_messages ≡ returns (some c)
      → length c.offsets_v1 ≡ length c.message_bases
      → handle_all j (b.m_incoming.message_list ++ c ∷ []) b.world ≡ returns w
      → (text : Bytes) × IsTickedClient j text
        × ((io_round j at_end b >>= pause j)
            ≡ returns (
              record b {
                session = record (ticked_session j b text) { inbound = rest };
                incoming_header = h;
                incoming_message = [];
                reading = true;
                m_pause = true;
                m_incoming = empty;
                m_outgoing = begun_again b.m_outgoing;
                m_global_tick = (b.m_global_tick + 1) % 2 ^ 32;
                scheduled = b.scheduled + 1;
                world = w;
              },
              true,
            ))
  unfolding push
  io_round-pause at_end b h t rest c w up arrived bundle readable aligned handled =
      let arrived_b : Broker j = record b {
        session = record b.session { inbound = rest };
        incoming_header = h;
        incoming_message = t;
        reading = false;
      } in
      let waiting : Broker j = record arrived_b {
        m_incoming = push c b.m_incoming;
        m_pause = false;
        incoming_message = [];
        reading = true;
      } in
      let (text, ticked_client, ticked) = pause-open j waiting w build tree up refl handled in
      let got =
        async_read-bundle at_end b.incoming_header b.incoming_message h t rest b.session bundle
          arrived in
      let queued =
        on_message_received-deserialize j h t arrived_b c (some_data-is_empty t bundle.some_data)
          readable aligned in
      let arrival : io_round j at_end b ≡ returns waiting =
        unfold io_round in
        unfold read_handler in unfold deliver in rw got (rw queued (async_receive-open _ up)) in
      (text, ticked_client, ap (λ m. m >>= pause j) arrival ∙ ticked)
