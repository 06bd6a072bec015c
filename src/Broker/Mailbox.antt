-- ===== src/Broker/Mailbox.antt =====
-- A broker as a mailbox (model/smb_broker.cc and model/network/smb_connection.cc): what has become of
-- the bundles that arrived in a run.
use sm4ns.Base.{
  ◌≡◌, refl, sym, ap, ◌∙◌, Bool, true, false, List, [], ◌∷◌, ◌++◌, append-nil, append_assoc, Bytes,
  is_empty, if◌then◌else◌, inl, inr, Option, none, some, Outcome, returns, throws, undefined, ◌>>=◌,
  >>=-eq-returns,
}
use sm4ns.Header.{BundleHeader}
use sm4ns.JsonLib.{JsonLib, IsTree, BuildsObjects}
use sm4ns.Conglomerate.{MessageConglomerate, no_messages, get_count}
use sm4ns.Serialize.{deserialize}
use sm4ns.Queue.{empty, push}
use sm4ns.Agents.{World}
use sm4ns.Broker.{
  Broker, new_broker, handle_messages, has_ticked, parse_packet, on_message_received, pause,
  async_receive, deliver, read_handler,
}
use sm4ns.Session.{ReadError, success, end_of_file, other_error, close_socket}
use sm4ns.Broker.Ticks.{handle_all}
use sm4ns.Broker.Reachable.{
  Reachable, made, receives, arrives, collects, ticks, async_receive_lem, pause-cases,
}

module _ (j : JsonLib) where
  open j use {Value, Real}

  -- What is made of the data of a bundle.
  abbrev pub readable :
      Outcome (Option (MessageConglomerate Value)) → List (MessageConglomerate Value)
  readable (returns (some c)) = c ∷ []
  readable (returns none) = []
  readable (throws x) = []
  readable undefined = []

  abbrev pub queued_by : BundleHeader → Bytes → List (MessageConglomerate Value)
  queued_by header input =
      if is_empty input then [] else readable (deserialize j header input no_messages)

  abbrev pub taken : ReadError → BundleHeader → Bytes → List (MessageConglomerate Value)
  taken success header input = queued_by header input
  taken end_of_file header input = queued_by header input
  taken other_error header input = []

  -- The readable bundles of a run, in the order in which they arrived.
  abbrev pub arrived_in : (b : Broker j) → Reachable j b → List (MessageConglomerate Value)
  arrived_in _ (made session world) = []
  arrived_in _ (receives b b' r e) = arrived_in b r
  arrived_in _ (arrives b b' code header data_read r pending e) =
      arrived_in b r ++ taken code header data_read
  arrived_in _ (collects b packets outgoing r e) = arrived_in b r
  arrived_in _ (ticks b b' left r e) = arrived_in b r

  -- The world in which the run began.
  abbrev pub first_world : (b : Broker j) → Reachable j b → World Real
  first_world _ (made session world) = record world { global_pckt_cnt = 0 }
  first_world _ (receives b b' r e) = first_world b r
  first_world _ (arrives b b' code header data_read r pending e) = first_world b r
  first_world _ (collects b packets outgoing r e) = first_world b r
  first_world _ (ticks b b' left r e) = first_world b r

  bind-more :
      (m : Outcome (World Real)) (f g k : World Real → Outcome (World Real))
      → ((w : World Real) → k w ≡ (f w >>= g))
      → (m >>= k) ≡ ((m >>= f) >>= g)
  bind-more (returns w) f g k same = same w
  bind-more (throws x) f g k same = refl
  bind-more undefined f g k same = refl

  handle_all-append :
      (cs ds : List (MessageConglomerate Value)) (w : World Real)
      → handle_all j (cs ++ ds) w ≡ (handle_all j cs w >>= handle_all j ds)
  handle_all-append [] ds w = refl
  handle_all-append (c ∷ cs) ds w =
      bind-more (handle_messages j c 0 (get_count j c) w) (handle_all j cs) (handle_all j ds) _
        (handle_all-append cs ds)

  -- A step that only puts something behind the queue.
  abbrev Queued : List (MessageConglomerate Value) → Broker j → Broker j → Type 0
  Queued cs b b' =
      (b'.m_incoming.message_list ≡ b.m_incoming.message_list ++ cs) × (b'.world ≡ b.world)

  parse_packet-Queued :
      (header : BundleHeader) (input : Bytes) (b b' : Broker j) (notify : Bool)
      → parse_packet j header input b ≡ returns (notify, b')
      → Queued (queued_by header input) b b'
  unfolding parse_packet push
  parse_packet-Queued header input b b' notify e =
      by_data (is_empty input) (deserialize j header input no_messages) e
    where
      unchanged : b ≡ b' → Queued [] b b'
      unchanged q = (
        ap (λ x. x.m_incoming.message_list) (sym q) ∙ sym (append-nil b.m_incoming.message_list),
        ap (λ x. x.world) (sym q),
      )

      by_data :
          (no_data : Bool) (m : Outcome (Option (MessageConglomerate Value)))
          → if◌then◌else◌ {A = Outcome (Bool × Broker j)} no_data (returns (true, b)) (
              m >>= λ parsed. elim parsed as (λ x. Outcome (Bool × Broker j)) [
                | none ↦ returns (false, b)
                | some temp ↦
                    (has_ticked j temp 0 (get_count j temp) >>= λ res.
                    returns (res, record b { m_incoming = push temp b.m_incoming }))
              ])
            ≡ returns (notify, b')
          → Queued (if no_data then [] else readable m) b b'
      by_data true m q = unchanged cc
      by_data false (returns none) q = unchanged cc
      by_data false (returns (some c)) q =
          let (res, _, made_b) =
            >>=-eq-returns (has_ticked j c 0 (get_count j c))
              (λ res. returns (res, record b { m_incoming = push c b.m_incoming })) q in
          let same : record b { m_incoming = push c b.m_incoming } ≡ b' = cc in
          (ap (λ x. x.m_incoming.message_list) (sym same), ap (λ x. x.world) (sym same))
      by_data false (throws x) q = cc
      by_data false undefined q = cc

  deliver-Queued :
      (b b' : Broker j)
      → deliver j b ≡ returns b'
      → Queued (queued_by b.incoming_header b.incoming_message) b b'
  unfolding deliver on_message_received
  deliver-Queued b b' e =
      let (b1, got, received) =
        >>=-eq-returns (on_message_received j b.incoming_header b.incoming_message b)
          (async_receive j) e in
      let ((notify, b2), parsed, made_b) =
        >>=-eq-returns (parse_packet j b.incoming_header b.incoming_message b)
          (λ r. returns (record r.1 { m_pause = false })) got in
      let (list, world) =
        parse_packet-Queued b.incoming_header b.incoming_message b b2 notify parsed in
      let (same, _) = async_receive_lem j b1 b' received in
      let same1 : record b2 { m_pause = false } ≡ b1 = cc in
      (
        ap (λ x. x.m_incoming.message_list) same
            ∙ ap (λ x. x.m_incoming.message_list) (sym same1)
            ∙ list,
        ap (λ x. x.world) same ∙ ap (λ x. x.world) (sym same1) ∙ world,
      )

  read_handler-Queued :
      (code : ReadError) (b b' : Broker j)
      → read_handler j code b ≡ returns b'
      → Queued (taken code b.incoming_header b.incoming_message) b b'
  unfolding read_handler
  read_handler-Queued success b b' e = deliver-Queued (record b { reading = false }) b' e
  read_handler-Queued end_of_file b b' e =
      deliver-Queued (record b { reading = false; session = close_socket b.session }) b' e
  read_handler-Queued other_error b b' e =
      let same : record b { reading = false } ≡ b' = cc in
      (
        ap (λ x. x.m_incoming.message_list) (sym same) ∙ sym (append-nil b.m_incoming.message_list),
        ap (λ x. x.world) (sym same),
      )

  -- All that arrived has been handled in this world, or is waiting.
  pub record Delivered (arrived : List (MessageConglomerate Value)) (w0 : World Real) (b : Broker j)
      : Type 0 where
    pub handled : List (MessageConglomerate Value)
    pub in_order : arrived ≡ handled ++ b.m_incoming.message_list
    pub effect : handle_all j handled w0 ≡ returns b.world

  Delivered-Queued :
      (arrived cs : List (MessageConglomerate Value)) (w0 : World Real) (b b' : Broker j)
      → Queued cs b b'
      → Delivered arrived w0 b
      → Delivered (arrived ++ cs) w0 b'
  Delivered-Queued arrived cs w0 b b' (list, world) d = record {
    handled = d.handled;
    in_order =
        ap (λ l. l ++ cs) d.in_order
        ∙ append_assoc d.handled b.m_incoming.message_list cs
        ∙ ap (λ l. d.handled ++ l) (sym list);
    effect = d.effect ∙ ap returns (sym world);
  }

  Delivered-same :
      (arrived : List (MessageConglomerate Value)) (w0 : World Real) (b b' : Broker j)
      → b'.m_incoming ≡ b.m_incoming
      → b'.world ≡ b.world
      → Delivered arrived w0 b
      → Delivered arrived w0 b'
  Delivered-same arrived w0 b b' queue world d = record {
    handled = d.handled;
    in_order = d.in_order ∙ ap (λ q. d.handled ++ q.message_list) (sym queue);
    effect = d.effect ∙ ap returns (sym world);
  }

  Delivered-emptied :
      (arrived : List (MessageConglomerate Value)) (w0 : World Real) (b b' : Broker j)
      → b'.m_incoming ≡ empty
      → handle_all j b.m_incoming.message_list b.world ≡ returns b'.world
      → Delivered arrived w0 b
      → Delivered arrived w0 b'
  Delivered-emptied arrived w0 b b' queue worked d = record {
    handled = arrived;
    in_order = sym (append-nil arrived) ∙ ap (λ q. arrived ++ q.message_list) (sym queue);
    effect =
        ap (λ l. handle_all j l w0) d.in_order
        ∙ handle_all-append d.handled b.m_incoming.message_list w0
        ∙ rw d.effect worked;
  }

module _ (j : JsonLib) (build : BuildsObjects j) (tree : IsTree j) where
  open j use {Value, Real}

  pause-Delivered :
      (arrived : List (MessageConglomerate Value)) (w0 : World Real) (b b' : Broker j) (left : Bool)
      → pause j b ≡ returns (b', left)
      → Delivered j arrived w0 b
      → Delivered j arrived w0 b'
  pause-Delivered arrived w0 b b' left e d = elim (pause-cases j build tree b b' left e) [
    | inl (queue, world, _, _, _) ↦ Delivered-same j arrived w0 b b' queue world d
    | inr (queue, worked, _) ↦ Delivered-emptied j arrived w0 b b' queue worked d
  ]

  -- Over a JSON library that keeps to its documentation, in every state that a run comes to: of the
  -- readable bundles that have arrived, in the order of their arrival, the first ones have been
  -- handled and the others are waiting in the queue, in this order. So none is lost, handled twice
  -- or overtaken: the world of the broker is what handling the first ones, one after another, makes
  -- of the world in which the run began.
  pub Reachable-Delivered :
      (b : Broker j) (r : Reachable j b) → Delivered j (arrived_in j b r) (first_world j b r) b
  Reachable-Delivered _ (made session world) =
      unfold new_broker in record { handled = []; in_order = refl; effect = refl }
  Reachable-Delivered _ (receives b b' r e) =
      let (same, _) = async_receive_lem j b b' e in
      Delivered-same j (arrived_in j b r) (first_world j b r) b b' (ap (λ x. x.m_incoming) same)
        (ap (λ x. x.world) same) (Reachable-Delivered b r)
  Reachable-Delivered _ (arrives b b' code header data_read r pending e) =
      let b1 = record b { incoming_header = header; incoming_message = data_read } in
      Delivered-Queued j (arrived_in j b r) (taken j code header data_read) (first_world j b r) b b'
        (read_handler-Queued j code b1 b' e) (Reachable-Delivered b r)
  Reachable-Delivered _ (collects b packets outgoing r e) =
      Delivered-same j (arrived_in j b r) (first_world j b r) b (record b { m_outgoing = outgoing })
        refl refl (Reachable-Delivered b r)
  Reachable-Delivered _ (ticks b b' left r e) =
      pause-Delivered (arrived_in j b r) (first_world j b r) b b' left e (Reachable-Delivered b r)
