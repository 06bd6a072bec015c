-- ===== src/Serialize/RoundTrip.antt =====
-- A bundle that is written is read back (model/message/serialize.cc): serialize_begin, any number of
-- messages, serialize_end, the bundle header, and deserialize.
use sm4ns.Base.{
  ℕ, ◌+◌, ◌*◌, ◌^◌, ◌<◌, ◌≡◌, refl, sym, ap, ◌∙◌, List, ◌++◌, append_assoc, append-nil, [], Bytes,
  length, length-append, All, Option, none, some, Outcome, returns, arith, ◌>>=◌,
}
use sm4ns.Header.{BundleHeader, make_bundle_header, read_bundle_header}
use sm4ns.Header.RoundTrip.{read-make-Fits}
use sm4ns.JsonLib.{JsonLib}
use sm4ns.Conglomerate.{MessageConglomerate, no_messages}
use sm4ns.Serialize.{
  VaryHeader, OngoingSerialization, new_serialization, serialize_begin_ids, length_bytes,
  vary_header_bytes, header_of, serialize_end, add_messages, deserialize, deserialize_v1,
}
use sm4ns.Serialize.Layout.{
  serialize_end_v1_lem, length-vary_header_bytes, read_string-place, read_lengths-place,
}
use sm4ns.Serialize.Items.{
  Item, texts, roots, bases, joined, sizes, places, kept, add_all, add_all_lem, sizes_fit,
  AllReadable, AllReadable-short, stored, add_messages-all,
}

module _ (j : JsonLib) where
  open j use {Value}

  -- Reading a bundle body whose header says how long its fields are.
  pub deserialize_v1_lem :
      (v : VaryHeader) (items : List (Item Value)) (post body : Bytes) (rem : ℕ)
      → AllReadable j items
      → v.msg_lengths ≡ sizes (texts items)
      → body ≡ vary_header_bytes v ++ (joined (texts items) ++ post)
      → length body < 2 ^ 31
      → deserialize_v1 j
          (record {
            send_id_len = length v.send_id;
            dest_id_len = length v.dest_id;
            message_count = length v.msg_lengths;
            rem_len = rem;
          })
          body
          no_messages
        ≡ returns (
            some (
              stored j v.send_id
                (roots items)
                (kept j items body)
                (places (length (vary_header_bytes v)) (texts items))
                (bases items)))
  unfolding deserialize_v1
  deserialize_v1_lem v items post body rem r lens e short =
      let ns = length_bytes v.msg_lengths in
      let ms = joined (texts items) ++ post in
      let e0 : body ≡ v.send_id ++ (v.dest_id ++ (ns ++ ms)) =
        unfold vary_header_bytes in
        e
        ∙ append_assoc v.send_id (v.dest_id ++ ns) ms
        ∙ ap (◌++◌ v.send_id) (append_assoc v.dest_id ns ms) in
      let e1 : body ≡ (v.send_id ++ v.dest_id) ++ (ns ++ ms) =
        e0 ∙ sym (append_assoc v.send_id v.dest_id (ns ++ ms)) in
      let small : All (λ n. n < 2 ^ 24) v.msg_lengths =
        rw lens (sizes_fit items (AllReadable-short j items r)).1 in
      let i = length v.send_id + length v.dest_id + length v.msg_lengths * 3 in
      let start : i ≡ length (vary_header_bytes v) = omega (arith, length-vary_header_bytes v) in
      let outcome = λ (k : ℕ).
        stored j v.send_id (roots items) (kept j items body) (places k (texts items))
          (bases items) in
      let loop : add_messages j body v.msg_lengths i (stored j v.send_id [] [] [] [])
          ≡ returns (outcome (length (vary_header_bytes v))) =
        ap (λ lens'. add_messages j body lens' i (stored j v.send_id [] [] [] [])) lens
        ∙ add_messages-all j v.send_id items (vary_header_bytes v) post body i r e start short
        ∙ ap (λ k. returns (outcome k)) start in
      rw (
        read_string-place [] v.send_id (v.dest_id ++ (ns ++ ms)) body 0 e0 refl,
        read_string-place v.send_id v.dest_id (ns ++ ms) body (length v.send_id) e0 refl,
        read_lengths-place (v.send_id ++ v.dest_id) v.msg_lengths ms body
            (length v.send_id + length v.dest_id) small e1
            (sym (length-append v.send_id v.dest_id)),
        loop,
      )

  -- The way of a bundle: what was serialized is ended, its header is written and read, and the body
  -- is read by what that header says.
  abbrev pub transmit : OngoingSerialization → Outcome (Option (MessageConglomerate Value))
  transmit o = do
    ended ← serialize_end j o
    elim ended [
      | none ↦ returns none
      | some (head, body) ↦ (do
        head' ← read_bundle_header (make_bundle_header head)
        deserialize j head' body no_messages)
    ]

  -- The serialization of the messages of `items` under two ids.
  abbrev pub serialized : Bytes → Bytes → List (Item Value) → OngoingSerialization
  serialized send_id dest_id items =
      add_all (texts items) (serialize_begin_ids send_id dest_id new_serialization)

  abbrev pub vary_header : Bytes → Bytes → List (Item Value) → VaryHeader
  vary_header send_id dest_id items = record {
    send_id = send_id;
    dest_id = dest_id;
    msg_lengths = sizes (texts items);
  }

  abbrev pub body_of : Bytes → Bytes → List (Item Value) → Bytes
  body_of send_id dest_id items =
      vary_header_bytes (vary_header send_id dest_id items) ++ joined (texts items)

  serialized_lem :
      (send_id dest_id : Bytes) (items : List (Item Value))
      → AllReadable j items
      → serialized send_id dest_id items
        ≡ record { v_head = vary_header send_id dest_id items; messages = joined (texts items) }
  unfolding serialize_begin_ids
  serialized_lem send_id dest_id items r =
      add_all_lem (texts items) _
      ∙ ap
          (λ ns. record {
            v_head = record { send_id = send_id; dest_id = dest_id; msg_lengths = ns };
            messages = joined (texts items);
          })
          (sizes_fit items (AllReadable-short j items r)).0

  -- A serialization whose lengths are those of readable messages, whatever text follows these.
  pub transmit-Readable :
      (v : VaryHeader) (items : List (Item Value)) (post : Bytes)
      → AllReadable j items
      → v.msg_lengths ≡ sizes (texts items)
      → length v.send_id < 256
      → length v.dest_id < 256
      → length v.msg_lengths < 256
      → length (vary_header_bytes v ++ (joined (texts items) ++ post)) < 2 ^ 31
      → transmit (record { v_head = v; messages = joined (texts items) ++ post })
        ≡ returns (
            some (
              stored j v.send_id
                (roots items)
                (kept j items (vary_header_bytes v ++ (joined (texts items) ++ post)))
                (places (length (vary_header_bytes v)) (texts items))
                (bases items)))
  unfolding serialize_end deserialize
  transmit-Readable v items post r lens short_send short_dest few short =
      let body = vary_header_bytes v ++ (joined (texts items) ++ post) in
      let plain : BundleHeader = record {
        send_id_len = length v.send_id;
        dest_id_len = length v.dest_id;
        message_count = length v.msg_lengths;
        rem_len = length body;
      } in
      let head : header_of v body ≡ plain =
        unfold header_of in ap (λ n. record plain { rem_len = n }) (omega arith) in
      rw (
        serialize_end_v1_lem (record { v_head = v; messages = joined (texts items) ++ post }),
        head,
        read-make-Fits plain
            (record { send_id = short_send; dest_id = short_dest; count = few; rem = omega arith }),
        deserialize_v1_lem v items post body (length body) r lens refl short,
      )

  -- Every bundle of fewer than 256 readable messages, with ids of fewer than 256 characters and a
  -- body of fewer than 2 ^ 31, arrives: the receiver has the sender's id, and for each message in
  -- order its value, its type and the place where its text stands in the body.
  pub transmit-serialized :
      (send_id dest_id : Bytes) (items : List (Item Value))
      → AllReadable j items
      → length send_id < 256
      → length dest_id < 256
      → length (sizes (texts items)) < 256
      → length (body_of send_id dest_id items) < 2 ^ 31
      → transmit (serialized send_id dest_id items)
        ≡ returns (
            some (
              stored j send_id
                (roots items)
                (kept j items (body_of send_id dest_id items))
                (places
                  (length (vary_header_bytes (vary_header send_id dest_id items)))
                  (texts items))
                (bases items)))
  transmit-serialized send_id dest_id items r short_send short_dest few short =
      let v = vary_header send_id dest_id items in
      let none_behind = append-nil (joined (texts items)) in
      ap transmit (
        serialized_lem send_id dest_id items r
        ∙ ap (λ t. record { v_head = v; messages = t }) (sym none_behind))
      ∙ transmit-Readable v items [] r refl short_send short_dest few (rw none_behind short)
      ∙ rw none_behind
