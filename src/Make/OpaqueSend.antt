-- ===== src/Make/OpaqueSend.antt =====
-- What becomes of an "opaque_send" message that makeOpaqueSend made when parseOpaqueSend takes it
-- out of a bundle again (model/message/serialize.cc).
use sm4ns.Base.{
  ℕ, zero, suc, ◌+◌, ◌≡◌, refl, sym, ap, subst, ◌∙◌, true, false, String, List, [], ◌∷◌, ◌++◌, map,
  append_assoc, length, get_elem?, Option, none, some, returns, throws, arith, bad_opaque_send,
}
use sm4ns.JsonLib.{JsonLib, BuildsObjects, ReadsMembers, BuildsArrays, object_value, array_value}
use sm4ns.JsonLib.Objects.{
  with_member, or_null, Represents, Lists, null-Represents, set-Represents, null-Lists,
  append-Lists, Represents-ext, with_member-here, with_member-twice,
}
use sm4ns.Conglomerate.{
  MessageBase, MessageConglomerate, no_messages, get_base_message, get_json_message,
}
use sm4ns.Messages.{parse_strings, string_member, is_opaque_send, opaque_members, parse_opaque_send}
use sm4ns.Make.{append_member, append_strings, opaque_send_value}

-- The one message of a bundle.
abbrev pub one_message : {V : Type 0} → V → MessageBase → MessageConglomerate V
one_message v base = record no_messages { messages_json = v ∷ []; message_bases = base ∷ [] }

module _ (j : JsonLib) (build : BuildsObjects j) (members : ReadsMembers j)
    (arrays : BuildsArrays j) where
  open j use {Value}

  -- The member `key` of the object `g` is an array, or null, of the items `xs`.
  pub append_member_lem :
      (v : Value) (f : String → Option Value) (key : String) (xs : List Value) (x : Value)
      → Represents j v f
      → Lists j (or_null j (f key)) xs
      → (v' arr : Value) × (append_member j v key x ≡ returns v')
        × Represents j v' (with_member key arr f)
        × Lists j arr (xs ++ x ∷ [])
        × (j.kind arr ≡ array_value)
        × (j.kind v' ≡ object_value)
  append_member_lem v f key xs x r l =
      let (arr, appended, l', is_arr) = append-Lists j build arrays (or_null j (f key)) xs x l in
      let (v', set, r', is_obj) = set-Represents j build members v f key arr r in
      (v', arr, rw (r.found key) (rw appended set), r', l', is_arr, is_obj)

  pub append_strings_lem :
      (key s : String) (ids : List String) (v : Value) (f : String → Option Value) (xs : List Value)
      → Represents j v f
      → Lists j (or_null j (f key)) xs
      → (v' arr : Value) × (append_strings j v key (s ∷ ids) ≡ returns v')
        × Represents j v' (with_member key arr f)
        × Lists j arr (xs ++ map j.of_string (s ∷ ids))
        × (j.kind arr ≡ array_value)
        × (j.kind v' ≡ object_value)
  unfolding append_strings
  append_strings_lem key s [] v f xs r l =
      let (v1, arr, e, r', l', is_arr, is_obj) = append_member_lem v f key xs (j.of_string s) r l in
      (v1, arr, rw e refl, r', l', is_arr, is_obj)
  append_strings_lem key s (id ∷ ids) v f xs r l =
      let (v1, arr1, e1, r1, l1, _, _) = append_member_lem v f key xs (j.of_string s) r l in
      let l1' =
        subst (λ o. Lists j (or_null j o) (xs ++ j.of_string s ∷ []))
          (sym (with_member-here key arr1 f)) l1 in
      let (v2, arr2, e2, r2, l2, is_arr, is_obj) =
        append_strings_lem key id ids v1 (with_member key arr1 f) (xs ++ j.of_string s ∷ []) r1
          l1' in
      (
        v2,
        arr2,
        rw e1 e2,
        Represents-ext j v2 _ _ (with_member-twice key arr2 arr1 f) r2,
        subst (Lists j arr2) (append_assoc xs (j.of_string s ∷ []) (map j.of_string (id ∷ ids))) l2,
        is_arr,
        is_obj,
      )

  -- The texts of an array are read back.
  parse_strings_lem :
      (arr : Value) (ids : List String) (i : ℕ)
      → ((k : ℕ) (s : String)
          → get_elem? ids k ≡ some s
          → j.at arr (i + k) ≡ returns (j.of_string s))
      → parse_strings j arr i (length ids) ≡ returns ids
  unfolding parse_strings
  parse_strings_lem arr [] i at = refl
  parse_strings_lem arr (s ∷ ids) i at =
      let here : j.at arr i ≡ returns (j.of_string s) = ap (j.at arr) (omega arith) ∙ at 0 s refl in
      let rest =
        parse_strings_lem arr ids (suc i) (λ k t e. ap (j.at arr) (omega arith) ∙ at (suc k) t e) in
      rw (here, build.read_back s, rest) refl

  get_elem?-map :
      (ids : List String) (k : ℕ) (s : String)
      → get_elem? ids k ≡ some s
      → get_elem? (map j.of_string ids) k ≡ some (j.of_string s)
  get_elem?-map [] k s e = cc
  get_elem?-map (t ∷ ids) zero s e = cc
  get_elem?-map (t ∷ ids) (suc k) s e = get_elem?-map ids k s e

  length-map : (ids : List String) → length (map j.of_string ids) ≡ length ids
  length-map [] = refl
  length-map (s ∷ ids) = ap suc (length-map ids)

  parse_strings-Lists :
      (arr : Value) (ids : List String)
      → Lists j arr (map j.of_string ids)
      → parse_strings j arr 0 (j.size arr) ≡ returns ids
  parse_strings-Lists arr ids l =
      ap (parse_strings j arr 0) (l.counted ∙ length-map ids)
      ∙ parse_strings_lem arr ids 0 (λ k s e.
        ap (j.at arr) (omega arith) ∙ l.item k (j.of_string s) (get_elem?-map ids k s e))

  string_member-found :
      (v : Value) (f : String → Option Value) (key s : String)
      → Represents j v f
      → f key ≡ some (j.of_string s)
      → string_member j v key ≡ returns s
  unfolding string_member
  string_member-found v f key s r e = rw (r.found key, e) (build.read_back s)

  -- The object before the recipients are added.
  abbrev plain_members : String → String → String → String → Option Value
  plain_members content format tech = with_member "data" (j.of_string content) (
      with_member "tech" (j.of_string tech) (
        with_member "format" (j.of_string format) (
          with_member "from_id" (j.of_string "987654321")
            (with_member "msg_type" (j.of_string "opaque_send") (λ name. none)))))

  plain_part :
      (content format tech : String)
      → (v1 v2 v3 v4 v5 : Value) × (j.set j.null "msg_type" (j.of_string "opaque_send")
          ≡ returns v1)
        × (j.set v1 "from_id" (j.of_string "987654321") ≡ returns v2)
        × (j.set v2 "format" (j.of_string format) ≡ returns v3)
        × (j.set v3 "tech" (j.of_string tech) ≡ returns v4)
        × (j.set v4 "data" (j.of_string content) ≡ returns v5)
        × Represents j v5 (plain_members content format tech)
  plain_part content format tech =
      let put = set-Represents j build members in
      let (v1, s1, r1, _) =
        put j.null (λ name. none) "msg_type" (j.of_string "opaque_send")
          (null-Represents j build members) in
      let (v2, s2, r2, _) = put v1 _ "from_id" (j.of_string "987654321") r1 in
      let (v3, s3, r3, _) = put v2 _ "format" (j.of_string format) r2 in
      let (v4, s4, r4, _) = put v3 _ "tech" (j.of_string tech) r3 in
      let (v5, s5, r5, _) = put v4 _ "data" (j.of_string content) r4 in
      (v1, v2, v3, v4, v5, s1, s2, s3, s4, s5, r5)

  -- Over a JSON library that keeps to its documentation: a message made for at least one recipient
  -- is accepted by parseOpaqueSend, with the same recipients in the same order, the same content,
  -- format and tech, and no broadcast. Its sender is always "987654321", whatever agent sent it.
  pub parse_opaque_send-make :
      (sender id : String) (ids : List String) (content format tech : String) (base : MessageBase)
      → (v : Value) × (opaque_send_value j sender (id ∷ ids) content format tech ≡ returns v)
        × (parse_opaque_send j (one_message v base) 0
            ≡ returns (record {
              base = base;
              from_id = "987654321";
              to_ids = id ∷ ids;
              broadcast = false;
              content = content;
              format = format;
              tech = tech;
            }))
  unfolding opaque_send_value parse_opaque_send is_opaque_send opaque_members get_base_message
      get_json_message
  parse_opaque_send-make sender id ids content format tech base =
      let (v1, v2, v3, v4, v5, s1, s2, s3, s4, s5, r5) = plain_part content format tech in
      let (v6, arr, s6, r6, l6, is_arr, _) =
        append_strings_lem "to_ids" id ids v5 (plain_members content format tech) [] r5
          (null-Lists j build arrays) in
      let (v7, s7, r7, is_obj) =
        set-Represents j build members v6 _ "broadcast" (j.of_bool false) r6 in
      let text = λ (key s : String). string_member-found v7 _ key s r7 in
      let complete : is_opaque_send j v7 ≡ returns true = rw (r7.named "from_id") (
        rw (r7.named "to_ids") (
          rw (r7.named "broadcast") (
            rw (r7.named "data") (
              rw (r7.named "format") (
                rw (r7.named "tech")
                  (rw (r7.found "to_ids") (ap returns (arrays.tells_arrays arr is_arr)))))))) in
      let got : opaque_members j base v7
          ≡ returns (record {
            base = base;
            from_id = "987654321";
            to_ids = id ∷ ids;
            broadcast = false;
            content = content;
            format = format;
            tech = tech;
          }) =
        rw (text "from_id" "987654321" refl) (
          rw (r7.found "broadcast") (
            rw (members.read_back_bool false) (
              rw (text "data" content refl) (
                rw (text "format" format refl) (
                  rw (text "tech" tech refl) (
                    rw (r7.found "to_ids")
                      (rw (parse_strings-Lists arr (id ∷ ids) l6) refl))))))) in
      (
        v7,
        rw s1 (rw s2 (rw s3 (rw s4 (rw s5 (rw s6 s7))))),
        rw (members.not_null v7 is_obj, complete, got) refl,
      )

  -- Over a JSON library that keeps to its documentation: a message made for no recipient, which
  -- makeOpaqueSend marks as a broadcast, is refused by parseOpaqueSend as badly formatted.
  pub parse_opaque_send-make_broadcast :
      (sender : String) (content format tech : String) (base : MessageBase)
      → (v : Value) × (opaque_send_value j sender [] content format tech ≡ returns v)
        × (j.get v "broadcast" ≡ returns (j.of_bool true))
        × (parse_opaque_send j (one_message v base) 0 ≡ throws bad_opaque_send)
  unfolding opaque_send_value append_strings parse_opaque_send is_opaque_send get_base_message
      get_json_message
  parse_opaque_send-make_broadcast sender content format tech base =
      let (v1, v2, v3, v4, v5, s1, s2, s3, s4, s5, r5) = plain_part content format tech in
      let (v6, s6, r6, is_obj) =
        set-Represents j build members v5 (plain_members content format tech) "broadcast"
          (j.of_bool true) r5 in
      let refused : is_opaque_send j v6 ≡ returns false =
        rw (r6.named "from_id") (rw (r6.named "to_ids") refl) in
      (
        v6,
        rw s1 (rw s2 (rw s3 (rw s4 (rw s5 s6)))),
        r6.found "broadcast",
        rw (members.not_null v6 is_obj, refused) refl,
      )
