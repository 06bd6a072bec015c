-- ===== src/Broker/Reachable.antt =====
-- The states that a broker can come to, whatever arrives and whenever ns-3 ticks
-- (model/smb_broker.cc and model/network/smb_connection.cc).
use sm4ns.Base.{
  ◌+◌, ◌%◌, ◌^◌, ◌<◌, ◌≡◌, ◌⊎◌, refl, sym, ap, ◌∙◌, subst, Bool, true, false, not, List, [], Bytes,
  if-false, Bool-cases, inl, inr, Outcome, returns, throws, undefined, >>=-eq-returns, arith,
  connection_down,
}
use sm4ns.Header.{BundleHeader}
use sm4ns.JsonLib.{JsonLib, IsTree, BuildsObjects}
use sm4ns.Serialize.{OngoingSerialization}
use sm4ns.Receive.{receive_packets}
use sm4ns.Queue.{empty}
use sm4ns.Agents.{World}
use sm4ns.Broker.{
  Broker, new_broker, parse_packet, process_incoming, on_message_received, pause, async_receive,
  deliver, read_handler,
}
use sm4ns.Session.{Session, close_socket, ReadError, success, end_of_file, other_error}
use sm4ns.Broker.Outgoing.{begun_again}
use sm4ns.Broker.Ticks.{handle_all, ticked_session, pause-open, process_incoming_lem}

-- A run of a broker: it is made, begins to receive, its pending read ends with some code after some
-- data, ns-3 delivers packets to an agent, which forwards them into the outgoing messages
-- (Agent::ReceivePacket), or `pause` is called. A step that throws or is undefined
-- ends the run.
pub data Reachable (j : JsonLib) : Broker j → Type 0 where
  made : (session : Session) (world : World j.Real) → Reachable j (new_broker j session world)
  receives : (b b' : Broker j) → Reachable j b → async_receive j b ≡ returns b' → Reachable j b'
  arrives :
      (b b' : Broker j) (code : ReadError) (header : BundleHeader) (data_read : Bytes)
      → Reachable j b
      → b.reading ≡ true
      → read_handler j code (record b { incoming_header = header; incoming_message = data_read })
        ≡ returns b'
      → Reachable j b'
  collects :
      (b : Broker j) (packets : List Bytes) (outgoing : OngoingSerialization)
      → Reachable j b
      → receive_packets j packets b.m_outgoing ≡ returns outgoing
      → Reachable j (record b { m_outgoing = outgoing })
  ticks :
      (b b' : Broker j) (left : Bool)
      → Reachable j b
      → pause j b ≡ returns (b', left)
      → Reachable j b'

module _ (j : JsonLib) where
  -- What holds between steps.
  pub record Waiting (b : Broker j) : Type 0 where
    pub idle : b.session.socket_open ≡ true → b.m_pause ≡ true → b.m_incoming.message_list ≡ []
    pub tick_bound : b.m_global_tick < 2 ^ 32

  pub async_receive_lem :
      (b b' : Broker j)
      → async_receive j b ≡ returns b'
      → (b' ≡ record b { incoming_message = []; reading = true }) × (b.session.socket_open ≡ true)
  async_receive_lem b b' e = elim (Bool-cases b.session.socket_open) [
    | inl up ↦ (
      (let f : async_receive j b ≡ returns (record b { incoming_message = []; reading = true }) =
            unfold async_receive in rw (up, async_receive) refl in
          cc),
      up,
    )
    | inr down ↦ absurd (
        let f : async_receive j b ≡ throws connection_down =
          unfold async_receive in rw (down, async_receive) refl in
        cc)
  ]

  pub parse_packet-keeps :
      (header : BundleHeader) (input : Bytes) (b b' : Broker j) (notify : Bool)
      → parse_packet j header input b ≡ returns (notify, b')
      → (b'.m_global_tick ≡ b.m_global_tick) × (b'.session ≡ b.session)
  unfolding parse_packet
  parse_packet-keeps header input b b' notify e = ground arith

  on_message_received-awake :
      (header : BundleHeader) (input : Bytes) (b b' : Broker j)
      → on_message_received j header input b ≡ returns b'
      → (b'.m_pause ≡ false) × (b'.m_global_tick ≡ b.m_global_tick)
  unfolding on_message_received
  on_message_received-awake header input b b' e =
      let ((notify, b1), parsed, made_b) =
        >>=-eq-returns (parse_packet j header input b)
          (λ r. returns (record r.1 { m_pause = false })) e in
      let (tick, _) = parse_packet-keeps header input b b1 notify parsed in (cc, cc)

  deliver-Waiting : (b b' : Broker j) → Waiting b → deliver j b ≡ returns b' → Waiting b'
  unfolding deliver
  deliver-Waiting b b' h e =
      let (b1, got, received) =
        >>=-eq-returns (on_message_received j b.incoming_header b.incoming_message b)
          (async_receive j) e in
      let (awake, tick) = on_message_received-awake b.incoming_header b.incoming_message b b1 got in
      let (same, _) = async_receive_lem b1 b' received in
      let awake' : b'.m_pause ≡ false = ap (λ x. x.m_pause) same ∙ awake in
      let tick' : b'.m_global_tick ≡ b.m_global_tick = ap (λ x. x.m_global_tick) same ∙ tick in
      record {
        idle = λ up paused. absurd cc;
        tick_bound = subst (λ n. n < 2 ^ 32) (sym tick') h.tick_bound;
      }

  read_handler-Waiting :
      (code : ReadError) (b b' : Broker j)
      → Waiting b
      → read_handler j code b ≡ returns b'
      → Waiting b'
  unfolding read_handler
  read_handler-Waiting success b b' h e =
      deliver-Waiting (record b { reading = false }) b'
        (record { idle = h.idle; tick_bound = h.tick_bound }) e
  read_handler-Waiting end_of_file b b' h e =
      deliver-Waiting (record b { reading = false; session = close_socket b.session }) b'
        (record { idle = λ up. absurd cc; tick_bound = h.tick_bound }) e
  read_handler-Waiting other_error b b' h e =
      let same : record b { reading = false } ≡ b' = cc in
      subst Waiting same (record { idle = h.idle; tick_bound = h.tick_bound })

module _ (j : JsonLib) (build : BuildsObjects j) (tree : IsTree j) where
  open j use {Real}

  abbrev after_tick : Broker j → World Real → Bytes → Broker j
  after_tick b w text = record b {
    session = ticked_session j b text;
    m_pause = true;
    m_incoming = empty;
    m_outgoing = begun_again b.m_outgoing;
    m_global_tick = (b.m_global_tick + 1) % 2 ^ 32;
    scheduled = b.scheduled + 1;
    world = w;
  }

  -- What a call of `pause` leaves, if it comes back: the queue and the world as they were and a
  -- broker that waits for a bundle or has lost its socket, or everything handled.
  abbrev Idled : Broker j → Broker j → Type 0
  Idled b b' =
      (b'.m_incoming ≡ b.m_incoming)
      × (b'.world ≡ b.world)
      × (b'.session ≡ b.session)
      × (b'.m_global_tick ≡ b.m_global_tick)
      × ((b'.m_pause ≡ b.m_pause) ⊎ (b.session.socket_open ≡ false))

  abbrev Worked : Broker j → Broker j → Type 0
  Worked b b' =
      (b'.m_incoming ≡ empty)
      × (handle_all j b.m_incoming.message_list b.world ≡ returns b'.world)
      × (b'.m_global_tick < 2 ^ 32)

  pub pause-cases :
      (b b' : Broker j) (left : Bool) → pause j b ≡ returns (b', left) → Idled b b' ⊎ Worked b b'
  pause-cases b b' left e = elim (Bool-cases b.m_pause) [
    | inl paused ↦
        let same : pause j b ≡ returns (b, false) = unfold pause in rw (paused, pause) refl in
        let q : b ≡ b' = cc in
        inl (
          ap (λ x. x.m_incoming) (sym q),
          ap (λ x. x.world) (sym q),
          ap (λ x. x.session) (sym q),
          ap (λ x. x.m_global_tick) (sym q),
          inl (ap (λ x. x.m_pause) (sym q)),
        )
    | inr awake ↦ elim (Bool-cases b.session.socket_open) [
      | inr down ↦
          let stopped : pause j b ≡ returns (record b { m_pause = true }, true) =
            unfold pause in if-false _ _ _ awake ∙ rw down refl in
          let q : record b { m_pause = true } ≡ b' = cc in
          inl (
            ap (λ x. x.m_incoming) (sym q),
            ap (λ x. x.world) (sym q),
            ap (λ x. x.session) (sym q),
            ap (λ x. x.m_global_tick) (sym q),
            inr down,
          )
      | inl up ↦ inr (by_work up awake (handle_all j b.m_incoming.message_list b.world) refl)
    ]
  ]
    where
      by_work :
          b.session.socket_open ≡ true
          → b.m_pause ≡ false
          → (m : Outcome (World Real)) → handle_all j b.m_incoming.message_list b.world ≡ m
          → Worked b b'
      by_work up awake (returns w) handled =
          let (text, _, done) = pause-open j b w build tree up awake handled in
          let q : after_tick b w text ≡ b' = cc in
          (
            ap (λ x. x.m_incoming) (sym q),
            handled ∙ ap (λ x. returns x.world) q,
            subst (λ x. x.m_global_tick < 2 ^ 32) q (omega arith),
          )
      by_work up awake (throws x) handled = absurd (
          let b1 : Broker j = record b { m_pause = true } in
          let work : process_incoming j b1 ≡ throws x =
            process_incoming_lem j b1 ∙ rw handled refl in
          let f : pause j b ≡ throws x =
            unfold pause in if-false _ _ _ awake ∙ if-false _ _ _ (ap not up) ∙ rw work refl in
          cc)
      by_work up awake undefined handled = absurd (
          let b1 : Broker j = record b { m_pause = true } in
          let work : process_incoming j b1 ≡ undefined =
            process_incoming_lem j b1 ∙ rw handled refl in
          let f : pause j b ≡ undefined =
            unfold pause in if-false _ _ _ awake ∙ if-false _ _ _ (ap not up) ∙ rw work refl in
          cc)

  pause-Waiting :
      (b b' : Broker j) (left : Bool) → Waiting j b → pause j b ≡ returns (b', left) → Waiting j b'
  pause-Waiting b b' left h e = elim (pause-cases b b' left e) [
    | inl (queue, _, session, tick, inl paused) ↦ record {
      idle = λ up still.
          ap (λ q. q.message_list) queue
          ∙ h.idle (ap (λ s. s.socket_open) (sym session) ∙ up) (sym paused ∙ still);
      tick_bound = subst (λ n. n < 2 ^ 32) (sym tick) h.tick_bound;
    }
    | inl (_, _, session, tick, inr down) ↦ record {
      idle = λ up still. absurd (let q = ap (λ s. s.socket_open) (sym session) ∙ up in cc);
      tick_bound = subst (λ n. n < 2 ^ 32) (sym tick) h.tick_bound;
    }
    | inr (queue, _, bound) ↦ record {
      idle = λ _ _. ap (λ q. q.message_list) queue;
      tick_bound = bound;
    }
  ]

  -- Over a JSON library that keeps to its documentation, in every state that a run comes to: if
  -- the socket is open and the broker is paused, no bundle is waiting in its queue; and the tick
  -- counter stays below 2 ^ 32.
  pub Reachable-Waiting : (b : Broker j) → Reachable j b → Waiting j b
  Reachable-Waiting _ (made session world) =
      unfold new_broker in record { idle = λ _ _. refl; tick_bound = omega arith }
  Reachable-Waiting _ (receives b b' r e) =
      let h = Reachable-Waiting b r in
      let (same, up) = async_receive_lem j b b' e in
      subst (Waiting j) (sym same) (record { idle = h.idle; tick_bound = h.tick_bound })
  Reachable-Waiting _ (arrives b b' code header data_read r pending e) =
      let h = Reachable-Waiting b r in
      read_handler-Waiting j code
        (record b { incoming_header = header; incoming_message = data_read }) b'
        (record { idle = h.idle; tick_bound = h.tick_bound }) e
  Reachable-Waiting _ (collects b packets outgoing r e) =
      let h = Reachable-Waiting b r in record { idle = h.idle; tick_bound = h.tick_bound }
  Reachable-Waiting _ (ticks b b' left r e) = pause-Waiting b b' left (Reachable-Waiting b r) e
