-- ===== src/Broker.antt =====
-- Broker and Connection (model/smb_broker.h, smb_broker.cc and model/network/smb_connection.h,
-- smb_connection.cc): the io thread hands arriving bundles over by `on_message_received`, and the
-- ns-3 thread works them off in `pause`. Both hold `mutex_pause` meanwhile, so a run is a sequence
-- of whole calls. ns-3's scheduler is the number of `pause` events that were scheduled.
pub mod Ticks
pub mod Outgoing
pub mod Mailbox
pub mod Reachable
pub mod ReadErrors
pub mod Progress
use sm4ns.Base.{
  ℕ, zero, suc, ◌+◌, ◌%◌, ◌^◌, Bool, true, false, not, if◌then◌else◌, List, [], ◌∷◌, Bytes,
  is_empty, length, Option, none, some, Outcome, returns, throws, throw_if, ◌>>=◌, ◌>>◌, ◌==◌,
  connection_down,
}
use sm4ns.Header.{BundleHeader, blank}
use sm4ns.JsonLib.{JsonLib}
use sm4ns.Conglomerate.{MessageConglomerate, get_count, get_base_message, no_messages}
use sm4ns.Serialize.{
  OngoingSerialization, new_serialization, serialize_begin, serialize_end, deserialize,
}
use sm4ns.Queue.{ThreadSafeQueue, empty, push, pop}
use sm4ns.Make.{make_ticked_client}
use sm4ns.Agents.{World}
use sm4ns.Handlers.{get_handler, handle}
use sm4ns.Session.{
  Session, ReadError, success, end_of_file, other_error, is_open, close_socket, async_read,
}
use sm4ns.Session

pub record Broker (j : JsonLib) : Type 0 where
  pub session : Session
  pub incoming_header : BundleHeader
  pub incoming_message : Bytes
  pub reading : Bool
  pub m_pause : Bool
  pub m_incoming : ThreadSafeQueue (MessageConglomerate j.Value)
  pub m_outgoing : OngoingSerialization
  pub m_global_tick : ℕ
  pub scheduled : ℕ
  pub world : World j.Real

module _ (j : JsonLib) where
  open j use {Value, Real}

  -- The constructor, with the socket and the world around it.
  unfoldable pub new_broker : Session → World Real → Broker j
  new_broker session world = record {
    session = session;
    incoming_header = blank;
    incoming_message = [];
    reading = false;
    m_pause = true;
    m_incoming = empty;
    m_outgoing = serialize_begin new_serialization;
    m_global_tick = 0;
    scheduled = 0;
    world = record world { global_pckt_cnt = 0 };
  }

  -- The loop that looks for a "ticked_simmob" message.
  unfoldable pub has_ticked : MessageConglomerate Value → ℕ → ℕ → Outcome Bool
  has_ticked temp i zero = returns false
  has_ticked temp i (suc count) = do
    base ← get_base_message j temp i
    let rest = has_ticked temp (suc i) count
    if base.msg_type == "ticked_simmob" then returns true else rest

  unfoldable pub parse_packet : BundleHeader → Bytes → Broker j → Outcome (Bool × Broker j)
  parse_packet header input b = if is_empty input then returns (true, b) else do
    parsed ← deserialize j header input no_messages
    elim parsed [
      | none ↦ returns (false, b)
      | some temp ↦ (do
        res ← has_ticked temp 0 (get_count j temp)
        returns (res, record b { m_incoming = push temp b.m_incoming }))
    ]

  unfoldable pub on_message_received : BundleHeader → Bytes → Broker j → Outcome (Broker j)
  on_message_received header input b = do
    (notify, b') ← parse_packet header input b
    returns (record b' { m_pause = false })

  -- The loop over the messages of one conglomerate.
  unfoldable pub handle_messages :
      MessageConglomerate Value → ℕ → ℕ → World Real → Outcome (World Real)
  handle_messages conglom i zero w = returns w
  handle_messages conglom i (suc count) w = do
    base ← get_base_message j conglom i
    handler ← get_handler base.msg_type
    w' ← handle j handler conglom i w
    handle_messages conglom (suc i) count w'

  -- `while (m_incoming.pop(conglom))`, for `rounds` rounds at most.
  unfoldable pub process_rounds : ℕ → Broker j → Outcome (Broker j)
  process_rounds zero b = returns b
  process_rounds (suc rounds) b = elim (pop b.m_incoming) [
    | none ↦ returns b
    | some (conglom, rest) ↦ (do
      w ← handle_messages conglom 0 (get_count j conglom) b.world
      process_rounds rounds (record b { m_incoming = rest; world = w }))
  ]

  -- A round takes one conglomerate out, so the length of the queue is enough.
  unfoldable pub process_incoming : Broker j → Outcome (Broker j)
  unfolding process_rounds
  process_incoming b = process_rounds (length b.m_incoming.message_list) b

  -- Connection::send
  unfoldable pub send : BundleHeader → Bytes → Broker j → Outcome (Broker j)
  send head msg b = do
    (ok, session) ← Session.write head msg b.session
    returns (record b { session = session })

  unfoldable pub send_outgoing : Broker j → Outcome (Broker j)
  send_outgoing b = do
    ended ← serialize_end j b.m_outgoing
    elim ended [
      | none ↦ returns b
      | some (head, msg) ↦ (do
        b' ← send head msg b
        returns (record b' { m_outgoing = serialize_begin b'.m_outgoing }))
    ]

  -- The "ticked_client" message that ends a tick.
  unfoldable pub send_ticked : Broker j → Outcome (Broker j)
  send_ticked b = do
    res ← make_ticked_client j (serialize_begin new_serialization)
    ended ← serialize_end j res
    elim ended [ none ↦ send blank [] b | some (head, msg) ↦ send head msg b ]

  -- One round of the loop in `pause`: the flag says that the loop is left.
  unfoldable pub pause : Broker j → Outcome (Broker j × Bool)
  pause b = if b.m_pause then returns (b, false) else do
    let b1 = record b { m_pause = true }
    if not (is_open b1.session) then returns (b1, true) else do
      b2 ← process_incoming b1
      b3 ← send_outgoing b2
      b4 ← send_ticked b3
      returns (
        record b4 { scheduled = b4.scheduled + 1; m_global_tick = (b4.m_global_tick + 1) % 2 ^ 32 },
        true,
      )

  -- Connection::async_receive: a read is pending from now on.
  unfoldable pub async_receive : Broker j → Outcome (Broker j)
  async_receive b = do
    throw_if (not (is_open b.session)) connection_down
    returns (record b { incoming_message = []; reading = true })

  -- What Connection::readHandler does after it has looked at the error.
  unfoldable pub deliver : Broker j → Outcome (Broker j)
  deliver b = do b' ← on_message_received b.incoming_header b.incoming_message b; async_receive b'

  -- Connection::readHandler; boost calls it when the pending read has ended.
  unfoldable pub read_handler : ReadError → Broker j → Outcome (Broker j)
  unfolding deliver
  read_handler success b = deliver (record b { reading = false })
  read_handler end_of_file b =
      deliver (record b { reading = false; session = close_socket b.session })
  read_handler other_error b = returns (record b { reading = false })

  -- The pending read ends: asio runs the completion handlers of async_read on what has arrived, and
  -- they call readHandler.
  unfoldable pub io_round : Bool → Broker j → Outcome (Broker j)
  io_round at_end b = do
    done ← async_read at_end b.incoming_header b.incoming_message b.session
    read_handler done.code (record b {
      session = done.session;
      incoming_header = done.header;
      incoming_message = done.content;
    })
