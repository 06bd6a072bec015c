-- ===== src/Messages/Parsed.antt =====
-- What is known of an "opaque_send" message that was accepted (parseOpaqueSend of
-- model/message/serialize.cc).
use sm4ns.Base.{
  ◌≡◌, refl, ℕ, Bool, true, false, not, ◌&&◌, is_empty, returns, throw_if, >>=-eq-returns, subst,
  ap, ◌∙◌, throw_if-returns,
}
use sm4ns.JsonLib.{JsonLib}
use sm4ns.Conglomerate.{MessageConglomerate, MessageBase, get_base_message, get_json_message}
use sm4ns.Messages.{OpaqueSendMessage, parse_opaque_send, is_opaque_send, opaque_members}

module _ (j : JsonLib) where
  open j use {Value}

  -- A message that parseOpaqueSend accepts is not a broadcast with recipients. It was taken from
  -- a stored value that is not null and passes the check of its members, and it has the base that
  -- is stored with that value.
  pub parse_opaque_send-broadcast :
      (c : MessageConglomerate Value) (n : ℕ) (m : OpaqueSendMessage)
      → parse_opaque_send j c n ≡ returns m
      → ((m.broadcast && not (is_empty m.to_ids)) ≡ false)
        × ((base : MessageBase) × (js_msg : Value) × (get_base_message j c n ≡ returns base)
            × (get_json_message j c n ≡ returns js_msg)
            × (j.is_null js_msg ≡ false)
            × (is_opaque_send j js_msg ≡ returns true)
            × (opaque_members j base js_msg ≡ returns m))
  unfolding parse_opaque_send
  parse_opaque_send-broadcast c n m e =
      let (base, e1, r1) = >>=-eq-returns (get_base_message j c n) _ e in
      let (js_msg, e2, r2) = >>=-eq-returns (get_json_message j c n) _ r1 in
      let (t1, e3, r3) = >>=-eq-returns (throw_if (j.is_null js_msg) _) _ r2 in
      let (complete, e4, r4) = >>=-eq-returns (is_opaque_send j js_msg) _ r3 in
      let (t2, e5, r5) = >>=-eq-returns (throw_if (not complete) _) _ r4 in
      let (res, e6, r6) = >>=-eq-returns (opaque_members j base js_msg) _ r5 in
      let (t3, e7, r7) =
        >>=-eq-returns (throw_if (res.broadcast && not (is_empty res.to_ids)) _) _ r6 in
      let q : res ≡ m = cc in
      let fine : (res.broadcast && not (is_empty res.to_ids)) ≡ false = throw_if-returns _ _ e7 in
      (
        subst (λ x. (x.broadcast && not (is_empty x.to_ids)) ≡ false) q fine,
        (
          base,
          js_msg,
          e1,
          e2,
          throw_if-returns _ _ e3,
          e4 ∙ ap returns (not-false complete (throw_if-returns _ _ e5)),
          e6 ∙ ap returns q,
        ),
      )
    where
      not-false : (b : Bool) → not b ≡ false → b ≡ true
      not-false true h = refl
      not-false false h = cc
