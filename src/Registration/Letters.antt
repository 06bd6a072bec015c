-- ===== src/Registration/Letters.antt =====
-- Bundles of one message, and how a registration receives them (receive and deserialize_single in
-- model/network/registration.cc).
use sm4ns.Base.{
  ◌^◌, ◌<◌, ◌≡◌, refl, sym, ap, ◌∙◌, true, String, [], ◌∷◌, ◌++◌, append-nil, Bytes, length,
  length-append, some, returns, arith, ◌==◌, eq_refl,
}
use sm4ns.Header.{BundleHeader, make_bundle_header}
use sm4ns.JsonLib.{JsonLib}
use sm4ns.Conglomerate.{
  MessageConglomerate, no_messages, get_count, get_base_message, get_json_message,
}
use sm4ns.Conglomerate.Added.{Readable}
use sm4ns.Serialize.{VaryHeader, vary_header_bytes, deserialize, deserialize_single}
use sm4ns.Serialize.Layout.{length-vary_header_bytes}
use sm4ns.Serialize.Items.{Item, texts, joined, places, stored}
use sm4ns.Serialize.RoundTrip.{deserialize_v1_lem}
use sm4ns.Session.Stream.{IsBundle, read-make_bundle}
use sm4ns.Registration.{Registering, receive_single}

-- A message, and the ids of its bundle.
pub record Letter (V : Type 0) : Type 0 where
  pub send_id : Bytes
  pub dest_id : Bytes
  pub item : Item V

module _ {V : Type 0} where
  abbrev pub vary_of : Letter V → VaryHeader
  vary_of l = record {
    send_id = l.send_id;
    dest_id = l.dest_id;
    msg_lengths = length l.item.text ∷ [];
  }

  abbrev pub letter_body : Letter V → Bytes
  letter_body l = vary_header_bytes (vary_of l) ++ l.item.text

  abbrev pub letter_header : Letter V → BundleHeader
  letter_header l = record {
    send_id_len = length l.send_id;
    dest_id_len = length l.dest_id;
    message_count = 1;
    rem_len = length (letter_body l);
  }

  -- The bytes of the bundle, in front of others.
  abbrev pub letter_before : Letter V → Bytes → Bytes
  letter_before l rest = make_bundle_header (letter_header l) ++ (letter_body l ++ rest)

module _ (j : JsonLib) where
  open j use {Value, Real}

  -- A readable message of a type in a bundle that fits.
  pub record IsLetter (l : Letter Value) (msg_type : String) : Type 0 where
    pub readable : Readable j l.item.text l.item.root l.item.base
    pub typed : l.item.base.msg_type ≡ msg_type
    pub short_send : length l.send_id < 256
    pub short_dest : length l.dest_id < 256
    pub short : length (letter_body l) < 2 ^ 31

  -- What is received.
  abbrev pub received_letter : Letter Value → MessageConglomerate Value
  received_letter l =
      stored j l.send_id (l.item.root ∷ []) (letter_body l)
        (places (length (vary_header_bytes (vary_of l))) (l.item.text ∷ [])) (l.item.base ∷ [])

  letter-IsBundle :
      (l : Letter Value) (msg_type : String)
      → IsLetter l msg_type
      → IsBundle (letter_header l) (letter_body l)
  letter-IsBundle l msg_type ok = record {
    fits = record {
      send_id = ok.short_send;
      dest_id = ok.short_dest;
      count = omega arith;
      rem = omega (arith, ok.short);
    };
    rem = refl;
    some_data = omega (
      arith,
      length-append (vary_header_bytes (vary_of l)) l.item.text,
      length-vary_header_bytes (vary_of l),
    );
  }

  deserialize_single-letter :
      (l : Letter Value) (msg_type : String)
      → IsLetter l msg_type
      → deserialize_single j (letter_header l) (letter_body l) msg_type no_messages
        ≡ returns (some (l.item.base, received_letter l))
  unfolding deserialize_single deserialize get_count get_base_message
  deserialize_single-letter l msg_type ok =
      let body : letter_body l
          ≡ vary_header_bytes (vary_of l) ++ (joined (texts (l.item ∷ [])) ++ []) =
        ap (λ t. vary_header_bytes (vary_of l) ++ t)
          (sym (append-nil l.item.text) ∙ sym (append-nil (l.item.text ++ []))) in
      let same : (l.item.base.msg_type == msg_type) ≡ true =
        ap (λ t. t == msg_type) ok.typed ∙ eq_refl msg_type in
      rw
        (deserialize_v1_lem j (vary_of l) (l.item ∷ []) [] (letter_body l) (length (letter_body l))
          (ok.readable, tt) refl body ok.short)
        (rw same refl)

  -- The letter is taken off the stream.
  pub receive_single-letter :
      (l : Letter Value) (msg_type : String) (rest : Bytes) (r : Registering Real)
      → IsLetter l msg_type
      → r.session.inbound ≡ letter_before l rest
      → receive_single j msg_type r
        ≡ returns (
          some (letter_header l, received_letter l),
          record r { session = record r.session { inbound = rest } },
        )
  unfolding receive_single
  receive_single-letter l msg_type rest r ok e =
      rw
        (read-make_bundle (letter_header l) (letter_body l) rest r.session
          (letter-IsBundle l msg_type ok) e)
        (rw (deserialize_single-letter l msg_type ok) refl)

  pub get_json_message-letter :
      (l : Letter Value) → get_json_message j (received_letter l) 0 ≡ returns l.item.root
  unfolding get_json_message
  get_json_message-letter l = refl
