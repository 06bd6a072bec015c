-- ===== src/Serialize/Items.antt =====
-- The messages of a bundle, what adding them to a serialization does, and the loop that reads them
-- back (model/message/serialize.cc).
use sm4ns.Base.{
  ℕ, ◌+◌, ◌%◌, ◌^◌, ◌<◌, ◌≡◌, refl, sym, ap, ◌∙◌, false, List, [], ◌∷◌, ◌++◌, append_assoc,
  append-nil, Bytes, length, length-append, is_empty, All, returns, arith, ◌&&◌,
}
use sm4ns.JsonLib.{JsonLib}
use sm4ns.Conglomerate.{MessageBase, MessageConglomerate, save_string}
use sm4ns.Conglomerate.Added.{Readable, add_message-Readable}
use sm4ns.Serialize.{OngoingSerialization, add_generic, add_messages}

-- A message: its text, the value that the text stands for, and its type.
pub record Item (V : Type 0) : Type 0 where
  pub text : Bytes
  pub root : V
  pub base : MessageBase

abbrev pub texts : {V : Type 0} → List (Item V) → List Bytes
texts [] = []
texts (it ∷ items) = it.text ∷ texts items

abbrev pub roots : {V : Type 0} → List (Item V) → List V
roots [] = []
roots (it ∷ items) = it.root ∷ roots items

abbrev pub bases : {V : Type 0} → List (Item V) → List MessageBase
bases [] = []
bases (it ∷ items) = it.base ∷ bases items

-- The messages one after another.
abbrev pub joined : List Bytes → Bytes
joined [] = []
joined (m ∷ ms) = m ++ joined ms

abbrev pub sizes : List Bytes → List ℕ
sizes [] = []
sizes (m ∷ ms) = length m ∷ sizes ms

-- Where each message stands, if the first one stands at `i`.
abbrev pub places : ℕ → List Bytes → List (ℕ × ℕ)
places i [] = []
places i (m ∷ ms) = (i, length m) ∷ places (i + length m) ms

-- Calls of a make function, one for each message.
abbrev pub add_all : List Bytes → OngoingSerialization → OngoingSerialization
add_all [] o = o
add_all (m ∷ ms) o = add_all ms (add_generic m o)

abbrev pub small_sizes : List Bytes → List ℕ
small_sizes [] = []
small_sizes (m ∷ ms) = (length m % 2 ^ 32) ∷ small_sizes ms

-- What adding messages does to a serialization.
pub add_all_lem :
    (ms : List Bytes) (o : OngoingSerialization)
    → add_all ms o ≡ record {
      v_head = record o.v_head { msg_lengths = o.v_head.msg_lengths ++ small_sizes ms };
      messages = o.messages ++ joined ms;
    }
unfolding add_generic
add_all_lem [] o = simp append-nil
add_all_lem (m ∷ ms) o = add_all_lem ms (add_generic m o) ∙ simp append_assoc

pub sizes_fit :
    {V : Type 0} (items : List (Item V))
    → All (λ it. length it.text < 2 ^ 24) items
    → (small_sizes (texts items) ≡ sizes (texts items))
      × All (λ n. n < 2 ^ 24) (sizes (texts items))
sizes_fit [] h = (refl, tt)
sizes_fit (it ∷ items) h =
    let (e, a) = sizes_fit items h.1 in
    (rw e (ap (λ n. n ∷ sizes (texts items)) (omega arith)), (h.0, a))

not_empty_end : (offs : List (ℕ × ℕ)) (x : ℕ × ℕ) → is_empty (offs ++ x ∷ []) ≡ false
not_empty_end [] x = refl
not_empty_end (y ∷ offs) x = refl

module _ (j : JsonLib) where
  open j use {Value}

  abbrev pub AllReadable : List (Item Value) → Type 0
  AllReadable = All (λ it. Readable j it.text it.root it.base)

  pub AllReadable-short :
      (items : List (Item Value)) → AllReadable items → All (λ it. length it.text < 2 ^ 24) items
  AllReadable-short [] r = tt
  AllReadable-short (it ∷ items) r = (r.0.short, AllReadable-short items r.1)

  abbrev pub stored :
      Bytes → List Value → Bytes → List (ℕ × ℕ) → List MessageBase → MessageConglomerate Value
  stored sender jsons whole offs bs = record {
    sender_id = sender;
    messages_json = jsons;
    messages_v1 = whole;
    offsets_v1 = offs;
    message_bases = bs;
  }

  -- One round of the loop.
  add_messages-one :
      (sender : Bytes) (jsons : List Value) (saved : Bytes) (offs : List (ℕ × ℕ))
      (bs : List MessageBase) (it : Item Value) (items : List (Item Value))
      (msg_str pre post whole : Bytes) (i : ℕ)
      → Readable j it.text it.root it.base
      → (is_empty offs && is_empty msg_str) ≡ false
      → save_string msg_str saved ≡ returns whole
      → whole ≡ pre ++ (it.text ++ post)
      → i ≡ length pre
      → length whole < 2 ^ 31
      → add_messages j msg_str (sizes (texts (it ∷ items))) i (stored sender jsons saved offs bs)
        ≡ add_messages j [] (sizes (texts items)) (i + length it.text) (
            stored sender
              (jsons ++ it.root ∷ [])
              whole
              (offs ++ (i, length it.text) ∷ [])
              (bs ++ it.base ∷ []))
  unfolding add_messages
  add_messages-one sender jsons saved offs bs it items msg_str pre post whole i r first save e p
        short =
      rw (
        add_message-Readable j (stored sender jsons saved offs bs) msg_str pre it.text post whole i
          it.root it.base r first save e p short)

  not_first :
      (offs : List (ℕ × ℕ)) (b : Bytes)
      → is_empty offs ≡ false
      → (is_empty offs && is_empty b) ≡ false
  not_first offs b h = rw h

  save_nothing : (whole : Bytes) → save_string [] whole ≡ returns whole
  unfolding save_string
  save_nothing whole = refl

  behind :
      (it : Item Value) (items : List (Item Value)) (pre post whole : Bytes)
      → whole ≡ pre ++ (joined (texts (it ∷ items)) ++ post)
      → whole ≡ (pre ++ it.text) ++ (joined (texts items) ++ post)
  behind it items pre post whole e =
      e
      ∙ ap (◌++◌ pre) (append_assoc it.text (joined (texts items)) post)
      ∙ sym (append_assoc pre it.text (joined (texts items) ++ post))

  -- The messages behind the first.
  add_messages-rest :
      (sender : Bytes) (jsons : List Value) (offs : List (ℕ × ℕ)) (bs : List MessageBase)
      (items : List (Item Value)) (pre post whole : Bytes) (i : ℕ)
      → AllReadable items
      → is_empty offs ≡ false
      → whole ≡ pre ++ (joined (texts items) ++ post)
      → i ≡ length pre
      → length whole < 2 ^ 31
      → add_messages j [] (sizes (texts items)) i (stored sender jsons whole offs bs)
        ≡ returns (
            stored sender
              (jsons ++ roots items)
              whole
              (offs ++ places i (texts items))
              (bs ++ bases items))
  add_messages-rest sender jsons offs bs [] pre post whole i r seen e p short =
      unfold add_messages in simp append-nil
  add_messages-rest sender jsons offs bs (it ∷ items) pre post whole i r seen e p short =
      add_messages-one sender jsons whole offs bs it items [] pre (joined (texts items) ++ post)
        whole i r.0 (not_first offs [] seen) (save_nothing whole)
        (e ∙ ap (◌++◌ pre) (append_assoc it.text (joined (texts items)) post)) p short
      ∙ add_messages-rest sender (jsons ++ it.root ∷ []) (offs ++ (i, length it.text) ∷ [])
          (bs ++ it.base ∷ []) items (pre ++ it.text) post whole (i + length it.text) r.1
          (not_empty_end offs (i, length it.text)) (behind it items pre post whole e)
          (omega (arith, length-append pre it.text)) short
      ∙ simp append_assoc

  -- The message string as it is kept: not at all if there is no message.
  abbrev pub kept : List (Item Value) → Bytes → Bytes
  kept [] whole = []
  kept (it ∷ items) whole = whole

  save_first :
      (pre t : Bytes) (whole : Bytes) (c : ℕ)
      → whole ≡ pre ++ c ∷ t
      → (save_string whole [] ≡ returns whole) × (is_empty whole ≡ false)
  unfolding save_string
  save_first [] t whole c e = rw e (refl, refl)
  save_first (x ∷ pre) t whole c e = rw e (refl, refl)

  -- The whole loop.
  pub add_messages-all :
      (sender : Bytes) (items : List (Item Value)) (pre post whole : Bytes) (i : ℕ)
      → AllReadable items
      → whole ≡ pre ++ (joined (texts items) ++ post)
      → i ≡ length pre
      → length whole < 2 ^ 31
      → add_messages j whole (sizes (texts items)) i (stored sender [] [] [] [])
        ≡ returns
            (stored sender (roots items) (kept items whole) (places i (texts items)) (bases items))
  add_messages-all sender [] pre post whole i r e p short = unfold add_messages in refl
  add_messages-all sender (it ∷ items) pre post whole i r e p short =
      let rest = joined (texts items) ++ post in
      let here : whole ≡ pre ++ (it.text ++ rest) =
        e ∙ ap (◌++◌ pre) (append_assoc it.text (joined (texts items)) post) in
      let (save, some_text) =
        save_first pre (r.0.tail ++ rest) whole b'{'
          (here ∙ ap (λ t. pre ++ (t ++ rest)) r.0.opens) in
      add_messages-one sender [] [] [] [] it items whole pre rest whole i r.0 some_text save here p
        short
      ∙ add_messages-rest sender (it.root ∷ []) ((i, length it.text) ∷ []) (it.base ∷ []) items
          (pre ++ it.text) post whole (i + length it.text) r.1 refl
          (behind it items pre post whole e) (omega (arith, length-append pre it.text)) short
