-- ===== src/Broker/Ticks.antt =====
-- The io thread and the ns-3 thread of a broker (model/smb_broker.cc, smb_connection.cc): arrival of
-- a bundle, one tick, and what goes on after a read error.
use sm4ns.Base.{
  ℕ, zero, suc, ◌+◌, ◌%◌, ◌^◌, ◌≤◌, ◌<◌, ◌≡◌, refl, ap, ◌∙◌, Bool, true, false, not, List, [], ◌∷◌,
  ◌++◌, Bytes, length, is_empty, some, Outcome, returns, throws, undefined, arith, ◌>>=◌, ◌==◌,
  Bool-cases, if-false, inl, inr,
}
use sm4ns.Header.{BundleHeader, new_bundles}
use sm4ns.JsonLib.{JsonLib, IsTree, BuildsObjects}
use sm4ns.Conglomerate.{MessageConglomerate, at_index, get_count, get_base_message, no_messages}
use sm4ns.Serialize.{new_serialization, serialize_begin, serialize_end, add_generic, deserialize}
use sm4ns.Queue.{empty, push, pop}
use sm4ns.Agents.{World}
use sm4ns.Session.{Session}
use sm4ns.Writer.{single_line, write}
use sm4ns.Writer.Total.{write-Returns}
use sm4ns.Make.{make_ticked_client}
use sm4ns.Serialize.Layout.{serialize_end_v1_lem}
use sm4ns.Broker.{
  Broker, has_ticked, parse_packet, on_message_received, handle_messages, process_rounds,
  process_incoming, send_ticked, pause,
}
use sm4ns.Broker.Outgoing.{frame, begun_again, send-open, send_outgoing-open}

at_index-lt {ℓ} :
    {A : Type ℓ} (xs : List A) (i : ℕ) → i < length xs → (x : A) × (at_index xs i ≡ returns x)
at_index-lt [] i h = absurd (omega arith)
at_index-lt (x ∷ xs) zero h = (x, refl)
at_index-lt (x ∷ xs) (suc i) h = at_index-lt xs i (omega arith)

module _ (j : JsonLib) where
  open j use {Value, Real}

  has_ticked-within :
      (c : MessageConglomerate Value) (i count : ℕ)
      → i + count ≤ length c.message_bases
      → (res : Bool) × (has_ticked j c i count ≡ returns res)
  unfolding has_ticked get_base_message
  has_ticked-within c i zero h = (false, refl)
  has_ticked-within c i (suc count) h =
      let (base, e) = at_index-lt c.message_bases i (omega arith) in
      let (res, rest) = has_ticked-within c (suc i) count (omega arith) in
      elim (Bool-cases (base.msg_type == "ticked_simmob")) [
        | inl yes_it_is ↦ (true, rw e (rw yes_it_is))
        | inr not_it ↦ (res, rw e (rw not_it rest))
      ]

  -- A bundle that is not empty and can be read into a conglomerate with as many places as types
  -- is queued behind the others, and the broker is not paused then, whether or not there is a
  -- "ticked_simmob" among its messages. Nothing else changes.
  pub on_message_received-deserialize :
      (header : BundleHeader) (input : Bytes) (b : Broker j) (c : MessageConglomerate Value)
      → is_empty input ≡ false
      → deserialize j header input no_messages ≡ returns (some c)
      → length c.offsets_v1 ≡ length c.message_bases
      → on_message_received j header input b
        ≡ returns (record b { m_incoming = push c b.m_incoming; m_pause = false })
  unfolding on_message_received parse_packet get_count
  on_message_received-deserialize header input b c some_input e aligned =
      let (res, t) = has_ticked-within c 0 (length c.offsets_v1) (omega arith) in
      rw (some_input, e) (rw t)

  -- All queued conglomerates, the oldest first.
  abbrev pub handle_all : List (MessageConglomerate Value) → World Real → Outcome (World Real)
  handle_all [] w = returns w
  handle_all (c ∷ cs) w = handle_messages j c 0 (get_count j c) w >>= handle_all cs

  process_rounds_lem :
      (cs : List (MessageConglomerate Value)) (b : Broker j)
      → b.m_incoming.message_list ≡ cs
      → process_rounds j (length cs) b
        ≡ (handle_all cs b.world >>= λ w. returns (record b { m_incoming = empty; world = w }))
  unfolding process_rounds
  process_rounds_lem [] b e =
      ap (λ q. returns (record b { m_incoming = record { message_list = q } })) e
  process_rounds_lem (c ∷ cs) b e =
      rw (front, process_rounds)
        (each (handle_messages j c 0 (get_count j c) b.world) (λ w.
          process_rounds_lem cs (record b { m_incoming = record { message_list = cs }; world = w })
            refl))
    where
      front : pop b.m_incoming ≡ some (c, record { message_list = cs })
      front = unfold pop in rw (e, pop)

      each :
          (m : Outcome (World Real))
          → ((w : World Real)
              → process_rounds j
                  (length cs)
                  (record b { m_incoming = record { message_list = cs }; world = w })
                ≡ (handle_all cs w >>= λ w'. returns (record b { m_incoming = empty; world = w' })))
          → (m >>= λ w.
              process_rounds j
                (length cs)
                (record b { m_incoming = record { message_list = cs }; world = w }))
            ≡ ((m >>= handle_all cs) >>= λ w'.
                returns (record b { m_incoming = empty; world = w' }))
      each (returns w) ih = ih w
      each (throws x) ih = refl
      each undefined ih = refl

  -- processIncoming handles every queued bundle, oldest first, and leaves the queue empty; a fault
  -- of a handler is its fault.
  pub process_incoming_lem :
      (b : Broker j)
      → process_incoming j b ≡ (
          handle_all b.m_incoming.message_list b.world >>= λ w.
          returns (record b { m_incoming = empty; world = w }))
  process_incoming_lem b =
      unfold process_incoming in process_rounds_lem b.m_incoming.message_list b refl

  -- The text of an object that is made of null by giving it the type "ticked_client".
  abbrev pub IsTickedClient : Bytes → Type 0
  IsTickedClient text =
      (v : Value) × (j.set j.null "msg_type" (j.of_string "ticked_client") ≡ returns v)
      × (j.get v "msg_type" ≡ returns (j.of_string "ticked_client"))
      × (write j (single_line (not new_bundles)) v ≡ returns text)

  -- The message that ends a tick can always be written.
  send_ticked-open :
      (b : Broker j)
      → BuildsObjects j
      → IsTree j
      → b.session.socket_open ≡ true
      → (text : Bytes) × IsTickedClient text
        × (send_ticked j b
            ≡ returns (record b {
              session = record b.session {
                outbound =
                    b.session.outbound
                    ++ frame (add_generic text (serialize_begin new_serialization));
              };
            }))
  unfolding send_ticked serialize_end make_ticked_client
  send_ticked-open b build tree o =
      let (v, set_type, _, got) =
        build.assigned j.null "msg_type" (j.of_string "ticked_client") (inl build.fresh) in
      let (text, written) = write-Returns j tree (single_line false) v in
      let ended = add_generic text (serialize_begin new_serialization) in
      (
        text,
        (v, set_type, got, written),
        rw (set_type, written, serialize_end_v1_lem ended, send-open j _ _ b o),
      )

  -- The socket after a tick: what the agents sent since the last one, and the end of the tick.
  abbrev pub ticked_session : Broker j → Bytes → Session
  ticked_session b text = record b.session {
    outbound =
        (b.session.outbound ++ frame b.m_outgoing)
        ++ frame (add_generic text (serialize_begin new_serialization));
  }

  -- One tick of a broker that is not paused, on an open socket, over a JSON library that keeps to
  -- its documentation, and where the queued bundles are handled without a fault: `pause` returns,
  -- the queue is empty, the broker is paused again, two bundles were written (the collected
  -- messages, and an object of the type "ticked_client"), the next tick is scheduled and this one counted.
  pub pause-open :
      (b : Broker j) (w : World Real)
      → BuildsObjects j
      → IsTree j
      → b.session.socket_open ≡ true
      → b.m_pause ≡ false
      → handle_all b.m_incoming.message_list b.world ≡ returns w
      → (text : Bytes) × IsTickedClient text
        × (pause j b
            ≡ returns (
              record b {
                session = ticked_session b text;
                m_pause = true;
                m_incoming = empty;
                m_outgoing = begun_again b.m_outgoing;
                m_global_tick = (b.m_global_tick + 1) % 2 ^ 32;
                scheduled = b.scheduled + 1;
                world = w;
              },
              true,
            ))
  unfolding pause
  pause-open b w build tree open_socket awake handled =
      let b1 : Broker j = record b { m_pause = true } in
      let b2 : Broker j = record b1 { m_incoming = empty; world = w } in
      let work : process_incoming j b1 ≡ returns b2 = process_incoming_lem b1 ∙ rw handled in
      let (text, ticked_client, last) =
        send_ticked-open
          (record b2 {
            session = record b.session { outbound = b.session.outbound ++ frame b.m_outgoing };
            m_outgoing = begun_again b.m_outgoing;
          })
          build tree open_socket in
      (
        text,
        ticked_client,
        if-false _ _ _ awake
            ∙ if-false _ _ _ (ap not open_socket)
            ∙ rw work (rw (send_outgoing-open j b2 open_socket) (rw last)),
      )
