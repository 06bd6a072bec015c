-- ===== src/Broker/Outgoing.antt =====
-- What a broker sends at the end of a tick (model/smb_broker.cc, with serialize_begin of
-- model/message/serialize.cc).
use sm4ns.Base.{
  ◌%◌, ◌^◌, ◌<◌, ◌≡◌, refl, ap, ◌∙◌, true, [], ◌∷◌, ◌++◌, append-nil, Bytes, codes, length,
  length-append, some, returns, arith,
}
use sm4ns.Header.{BundleHeader, make_bundle_header}
use sm4ns.JsonLib.{JsonLib}
use sm4ns.Conglomerate.{MessageConglomerate}
use sm4ns.Conglomerate.Added.{Readable}
use sm4ns.Serialize.{
  OngoingSerialization, serialize_begin, serialize_begin_ids, add_generic, vary_header_bytes,
  header_of, serialize_end,
}
use sm4ns.Serialize.Layout.{serialize_end_v1_lem, length-vary_header_bytes}
use sm4ns.Serialize.Items.{Item, texts, joined}
use sm4ns.Serialize.RoundTrip.{transmit, serialized, vary_header, transmit-Readable}
use sm4ns.Session.Stream.{write-open}
use sm4ns.Broker.{Broker, send, send_outgoing}

-- A serialization under its bundle header.
abbrev pub frame : OngoingSerialization → Bytes
frame o =
    let body = vary_header_bytes o.v_head ++ o.messages in
    make_bundle_header (header_of o.v_head body) ++ body

-- What serialize_begin makes of a serialization: the text of its messages is still there.
abbrev pub begun_again : OngoingSerialization → OngoingSerialization
begun_again o = record {
  v_head = record { send_id = codes "987654321"; dest_id = codes "0"; msg_lengths = [] };
  messages = o.messages;
}

module _ (j : JsonLib) where
  open j use {Value}

  pub send-open :
      (head : BundleHeader) (msg : Bytes) (b : Broker j)
      → b.session.socket_open ≡ true
      → send j head msg b
        ≡ returns (record b {
          session = record b.session {
            outbound = b.session.outbound ++ (make_bundle_header head ++ msg);
          };
        })
  unfolding send
  send-open head msg b o = rw (write-open head msg b.session o)

  -- On an open socket sendOutgoing always returns, and has written exactly one bundle: the frame
  -- of the messages collected so far. It clears the lengths and keeps the text of the messages.
  pub send_outgoing-open :
      (b : Broker j)
      → b.session.socket_open ≡ true
      → send_outgoing j b
        ≡ returns (record b {
          session = record b.session { outbound = b.session.outbound ++ frame b.m_outgoing };
          m_outgoing = begun_again b.m_outgoing;
        })
  unfolding send_outgoing serialize_end serialize_begin
  send_outgoing-open b o = rw (
    serialize_end_v1_lem b.m_outgoing,
    send-open
        (header_of b.m_outgoing.v_head
          (vary_header_bytes b.m_outgoing.v_head ++ b.m_outgoing.messages))
        (vary_header_bytes b.m_outgoing.v_head ++ b.m_outgoing.messages) b o,
  )

  -- The second bundle of a serialization that is begun again.
  abbrev pub second_bundle : Bytes → Bytes → Item Value → Item Value → OngoingSerialization
  second_bundle send_id dest_id first second =
      add_generic second.text
        (serialize_begin_ids send_id dest_id (serialized j send_id dest_id (first ∷ [])))

  second_bundle_lem :
      (send_id dest_id : Bytes) (first second : Item Value)
      → length first.text < 2 ^ 24
      → length second.text ≡ length first.text
      → second_bundle send_id dest_id first second ≡ record {
        v_head = vary_header j send_id dest_id (first ∷ []);
        messages = joined (texts (first ∷ [])) ++ second.text;
      }
  unfolding add_generic serialize_begin_ids
  second_bundle_lem send_id dest_id first second short same =
      let size : length second.text % 2 ^ 32 ≡ length first.text = omega arith in
      rw (size, append-nil)

  -- Begin again after a readable message and add another of the same length, with ids of fewer
  -- than 256 characters: the bundle that is then written delivers the first message once more,
  -- and not the second.
  pub second_bundle-repeats :
      (send_id dest_id : Bytes) (first second : Item Value)
      → Readable j first.text first.root first.base
      → length second.text ≡ length first.text
      → length send_id < 256
      → length dest_id < 256
      → (c : MessageConglomerate Value) × (transmit j (second_bundle send_id dest_id first second)
          ≡ returns (some c))
        × (c.messages_json ≡ first.root ∷ [])
        × (c.message_bases ≡ first.base ∷ [])
  second_bundle-repeats send_id dest_id first second r same short_send short_dest =
      let v = vary_header j send_id dest_id (first ∷ []) in
      let short : length (vary_header_bytes v ++ (joined (texts (first ∷ [])) ++ second.text))
          < 2 ^ 31 =
        omega (
          arith,
          length-vary_header_bytes v,
          length-append (vary_header_bytes v) (joined (texts (first ∷ [])) ++ second.text),
          length-append (joined (texts (first ∷ []))) second.text,
          length-append first.text [],
          r.short,
        ) in
      (
        _,
        ap (transmit j) (second_bundle_lem send_id dest_id first second r.short same)
            ∙ transmit-Readable j v (first ∷ []) second.text (r, tt) refl short_send short_dest
                (omega arith) short,
        refl,
        refl,
      )
