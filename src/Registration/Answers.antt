-- ===== src/Registration/Answers.antt =====
-- What a registration sends (model/network/registration.cc): the answers that go out as one bundle,
-- and the message about the groups.
use sm4ns.Base.{
  ◌%◌, ◌^◌, ◌<◌, ◌≡◌, refl, Bool, true, not, ◌=ℕ◌, String, List, [], ◌∷◌, ◌++◌, length, none,
  returns, Returns, arith,
}
use sm4ns.Header.{BundleHeader, make_bundle_header, new_bundles}
use sm4ns.JsonLib.{JsonLib, IsTree, BuildsObjects, ReadsMembers, BuildsArrays}
use sm4ns.JsonLib.Objects.{with_member, null-Represents, set-Represents, null-Lists}
use sm4ns.Writer.{single_line}
use sm4ns.Writer.Total.{write-Returns}
use sm4ns.Serialize.{OngoingSerialization, vary_header_bytes, header_of, serialize_end, add_generic}
use sm4ns.Serialize.Layout.{serialize_end_v1_lem}
use sm4ns.Make.{WfdGroup, make_go_client, append_groups, make_id_response, id_response}
use sm4ns.Make.OpaqueSend.{append_member_lem, append_strings_lem}
use sm4ns.Session.{Session}
use sm4ns.Session.Stream.{write-open}
use sm4ns.Broker.Outgoing.{frame}
use sm4ns.Registration.{Registering, end_and_send}

-- Whether the number of bytes written is not 0 as an int.
abbrev pub counts : OngoingSerialization → Bool
counts o = not (length (frame o) % 2 ^ 32 =ℕ 0)

abbrev pub with_sent : OngoingSerialization → Session → Session
with_sent o s = record s { outbound = s.outbound ++ frame o }

pub counts-small : (o : OngoingSerialization) → length (frame o) < 2 ^ 32 → counts o ≡ true
unfolding make_bundle_header
counts-small o small = ground arith

module _ (j : JsonLib) where
  open j use {Real}

  -- On an open socket an answer goes out as one bundle.
  pub end_and_send-open :
      (head : BundleHeader) (o : OngoingSerialization) (r : Registering Real)
      → r.session.socket_open ≡ true
      → end_and_send j head o r ≡ returns (counts o, record r { session = with_sent o r.session })
  unfolding end_and_send serialize_end
  end_and_send-open head o r up = rw (serialize_end_v1_lem o) (
      rw
        (write-open (header_of o.v_head (vary_header_bytes o.v_head ++ o.messages))
          (vary_header_bytes o.v_head ++ o.messages) r.session up)
        refl)

module _ (j : JsonLib) (tree : IsTree j) (build : BuildsObjects j) (members : ReadsMembers j)
    (arrays : BuildsArrays j) where
  open j use {Value}

  -- The message about one group, which has members, is made.
  pub make_go_client-Returns :
      (key id : String) (ids : List String) (group : WfdGroup) (ongoing : OngoingSerialization)
      → group.members ≡ id ∷ ids
      → Returns (make_go_client j ((key, group) ∷ []) ongoing)
  unfolding make_go_client append_groups
  make_go_client-Returns key id ids group ongoing some_members =
      let (res, e0, r0, _) =
        set-Represents j build members j.null (λ name. none) "msg_type" (j.of_string "go_client")
          (null-Represents j build members) in
      let (client, e1, r1, _) =
        set-Represents j build members j.null (λ name. none) "go" (j.of_string group.go)
          (null-Represents j build members) in
      let (client', _, e2, _, _, _, _) =
        append_strings_lem j build members arrays "clients" id ids client
          (with_member "go" (j.of_string group.go) (λ name. none)) [] r1
          (null-Lists j build arrays) in
      let (res', _, e3, _, _, _, _) =
        append_member_lem j build members arrays res
          (with_member "msg_type" (j.of_string "go_client") (λ name. none)) "groups" [] client' r0
          (null-Lists j build arrays) in
      let (text, e4) = write-Returns j tree (single_line (not new_bundles)) res' in
      (add_generic text ongoing, rw (e0, e1, some_members) (rw (e2, e3, e4) refl))

  -- The answer to an "id_request" is made, whatever the token.
  pub make_id_response-Returns :
      (token : String) (ongoing : OngoingSerialization) → Returns (make_id_response j token ongoing)
  unfolding make_id_response id_response
  make_id_response-Returns token ongoing =
      let (v1, e1, r1, _) =
        set-Represents j build members j.null (λ name. none) "msg_type" (j.of_string "id_response")
          (null-Represents j build members) in
      let (v2, e2, r2, _) = set-Represents j build members v1 _ "id" (j.of_string "987654321") r1 in
      let (v3, e3, r3, _) = set-Represents j build members v2 _ "token" (j.of_string token) r2 in
      let (v4, e4, r4, _) = set-Represents j build members v3 _ "type" (j.of_string "ns-3") r3 in
      let (v5, _, e5, _, _, _, _) =
        append_member_lem j build members arrays v4 _ "services" []
          (j.of_string "srv_all_locations") r4 (null-Lists j build arrays) in
      let (text, e6) = write-Returns j tree (single_line (not new_bundles)) v5 in
      (add_generic text ongoing, rw e1 (rw e2 (rw e3 (rw e4 (rw e5 (rw e6 refl))))))
