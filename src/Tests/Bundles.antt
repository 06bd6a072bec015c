-- ===== src/Tests/Bundles.antt =====
-- Headers, values, queues, streams and bundles on concrete data.
use sm4ns.Base.{
  ℕ, ◌≡◌, refl, false, List, [], ◌∷◌, ◌++◌, codes, some, returns, undefined, Returns, All, arith,
}
use sm4ns.Header.{BundleHeader, Fits, make_bundle_header, read_bundle_header}
use sm4ns.Header.RoundTrip.{decoded, read-make, make-read}
use sm4ns.Conglomerate.{no_messages}
use sm4ns.Serialize.{vary_header_bytes, length_bytes, deserialize_v1}
use sm4ns.Serialize.Items.{Item, stored}
use sm4ns.Serialize.RoundTrip.{transmit, serialized, body_of, transmit-serialized}
use sm4ns.Serialize.Safety.{deserialize_v1-undefined}
use sm4ns.Queue.{ThreadSafeQueue}
use sm4ns.Queue.Order.{Operation, pushes, pops, run, pushed, run-order}
use sm4ns.Session.{Session}
use sm4ns.Session.Stream.{Bundles, IsBundle, received, write_all, read_all, read_all-write_all}
use sm4ns.Writer.{single_line, write}
use sm4ns.Writer.Total.{write-Returns}
use sm4ns.Tests.SampleJson.{Tree, sample, message_of}
use sm4ns.Tests.SampleLaws.{sample-IsTree}
use sm4ns.Tests.Samples.{
  small_header, small_header-Fits, item_a, item_b, item_a-Readable, item_b-Readable, open_session,
}

-- 300 messages are too many for the header.
abbrev many_header : BundleHeader
many_header = record { send_id_len = 9; dest_id_len = 1; message_count = 300; rem_len = 70000 }

read-make_example :
    read_bundle_header (make_bundle_header many_header) ≡ returns (decoded many_header)
read-make_example = read-make many_header

many_header-decoded : (decoded many_header).message_count ≡ 44
many_header-decoded = refl

small_header-read : read_bundle_header (1 ∷ 9 ∷ 1 ∷ 1 ∷ 0 ∷ 0 ∷ 0 ∷ 3 ∷ []) ≡ returns small_header
unfolding read_bundle_header
small_header-read = refl

make-read_example :
    (make_bundle_header small_header ≡ 1 ∷ 9 ∷ 1 ∷ 1 ∷ 0 ∷ 0 ∷ 0 ∷ 3 ∷ []) × Fits small_header
make-read_example =
    make-read 1 9 1 1 0 0 0 3 small_header
      (
        omega arith,
        (
          omega arith,
          (
            omega arith,
            (omega arith, (omega arith, (omega arith, (omega arith, (omega arith, tt))))),
          ),
        ),
      )
      small_header-read

write-Returns_example : Returns (write sample (single_line false) (message_of "a"))
write-Returns_example = write-Returns sample sample-IsTree (single_line false) (message_of "a")

abbrev three_operations : List (Operation ℕ)
three_operations = pushes 7 ∷ pops ∷ pushes 8 ∷ []

abbrev one_waiting : ThreadSafeQueue ℕ
one_waiting = record { message_list = 5 ∷ [] }

run-order_example :
    (run three_operations one_waiting).1 ++ (run three_operations one_waiting).0.message_list
    ≡ one_waiting.message_list ++ pushed three_operations
run-order_example = run-order three_operations one_waiting

abbrev two_bundles : Bundles
two_bundles = (small_header, 1 ∷ 2 ∷ 3 ∷ []) ∷ (small_header, 4 ∷ 5 ∷ 6 ∷ []) ∷ []

two_bundles-IsBundle : All (λ b. IsBundle b.0 b.1) two_bundles
two_bundles-IsBundle = (
  record { fits = small_header-Fits; rem = refl; some_data = omega arith },
  (record { fits = small_header-Fits; rem = refl; some_data = omega arith }, tt),
)

read_all-write_all_example :
    (sent : Session) × (write_all two_bundles open_session ≡ returns sent)
    × (read_all 2 (record open_session { inbound = sent.outbound ++ 9 ∷ [] })
        ≡ returns (received two_bundles, record open_session { inbound = 9 ∷ [] }))
read_all-write_all_example =
    read_all-write_all two_bundles (9 ∷ []) open_session open_session two_bundles-IsBundle refl refl

abbrev two_items : List (Item Tree)
two_items = item_a ∷ item_b ∷ []

transmit-serialized_example :
    transmit sample (serialized sample (codes "987654321") (codes "0") two_items)
    ≡ returns (
        some (
          stored sample
            (codes "987654321")
            (message_of "a" ∷ message_of "b" ∷ [])
            (body_of sample (codes "987654321") (codes "0") two_items)
            ((16, 16) ∷ (32, 16) ∷ [])
            (record { msg_type = "a" } ∷ record { msg_type = "b" } ∷ [])))
unfolding vary_header_bytes length_bytes
transmit-serialized_example =
    transmit-serialized sample (codes "987654321") (codes "0") two_items
      (item_a-Readable, (item_b-Readable, tt)) (omega arith) (omega arith) (omega arith)
      (omega arith)

-- A header that promises 255 characters of a sender's id in a body of one.
deserialize_v1-undefined_example :
    deserialize_v1 sample (record small_header { send_id_len = 255 }) (65 ∷ []) no_messages
    ≡ undefined
deserialize_v1-undefined_example =
    deserialize_v1-undefined sample (record small_header { send_id_len = 255 }) (65 ∷ [])
      no_messages (omega arith)
