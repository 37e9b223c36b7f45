-- ===== src/Client/Tests.antt =====
-- Runs of the reassembly table, and its theorems at small tables.
use vynkor_sdk_python.Prelude.{
  ◌*◌, false, ◌+◌, ◌≡◌, refl, List, [], ◌∷◌, arith, true, none, some, inl, inr,
}
use mathlib.Core.List.{Perm}
use mathlib.Core.List.Perm
use vynkor_sdk_python.Prelude.Dict
use vynkor_sdk_python.Errors.{Bytes, Result, ok, err}
use vynkor_sdk_python.Py.Text.{str, str_eq, encode, encode_char, ljust}
use vynkor_sdk_python.Messages.{
  RegisterAck, plugin_register_ack, ActionResponse, action_ok, Envelope, action_response, ping,
}
use vynkor_sdk_python.Client.Reassembly.{Streams, absorb_fragment, recv_frame, returned}
use vynkor_sdk_python.Client.Fragments.{
  send_fragmented, fragment_count, fragments_from, fragment_at, chunk_at, following_id,
}
use vynkor_sdk_python.Client.Rounds.{Clocks, arrivals}
use vynkor_sdk_python.Client.Delivery.{recv_frame-send_fragmented}
use vynkor_sdk_python.Client.Counting.{present, weight}
use vynkor_sdk_python.Client.Invariant.{IsSafe, absorb_fragment-IsSafe}
use vynkor_sdk_python.Client.Bounded.{IsBounded}
use vynkor_sdk_python.Py.Struct.{pack_u16, pack_u32}
use vynkor_sdk_python.Py.Crc.{checksum}
use vynkor_sdk_python.Framing.Header.{
  target_bytes, pack_header, header_bytes_for, pack_frag_header, without,
}
use vynkor_sdk_python.Framing.Mac.{
  compute_tag, derive_session_key, hkdf_extract, hkdf_expand, expand_loop,
}
use vynkor_sdk_python.Framing.Pack.{pack_frame, sign, compressible, wire_form, assemble}
use vynkor_sdk_python.Framing.Tests.{toy}
use vynkor_sdk_python.Client.Session.{
  Session, outgoing_frame, register_full, on_reply_or_error, on_reply, apply_session_nonce,
  with_key,
}
use vynkor_sdk_python.Client.Clear.{IsKeyed, register_full-IsKeyed}
use vynkor_sdk_python.Client.Requests.{
  Delivery, await_matching, on_received, request, answers_action, action_reply, or_default,
  default_action_timeout, send_action,
}
use vynkor_sdk_python.Client.Correlation.{IsAnswer, send_action-IsAnswer, await_matching_finds}

-- Stream 9 has the second of its two fragments.
abbrev half : Streams
half =
    (
      9,
      record {
        fragments = (1, 33 ∷ 34 ∷ []) ∷ [];
        total = 2;
        flags = 0;
        first_seen = 100;
        buffered_bytes = 2;
      },
    )
    ∷ []

half-IsBounded : IsBounded half
unfolding present weight Dict.get
half-IsBounded = record { open_sets = (omega arith, tt); few = omega arith }

-- The first fragment of stream 9, which completes it.
abbrev first_fragment : Bytes
first_fragment = 0 ∷ 9 ∷ 0 ∷ 0 ∷ 0 ∷ 2 ∷ 0 ∷ 0 ∷ 0 ∷ 9 ∷ 31 ∷ 32 ∷ []

absorb_fragment-IsSafe_example : IsSafe (absorb_fragment 200 4 first_fragment half)
absorb_fragment-IsSafe_example = absorb_fragment-IsSafe 200 4 first_fragment half half-IsBounded

abbrev answer : ActionResponse
answer = record { action_id = 65 ∷ []; status = action_ok; data_json = 1 ∷ []; error = [] }

-- A ping, a response to another action, and the answer.
abbrev deliveries : List Delivery
deliveries =
    record { arrived = 10; received = ok (ping 5); checked = 11 }
    ∷ record {
      arrived = 12;
      received = ok (action_response (record answer { action_id = 66 ∷ [] }));
      checked = 13;
    }
    ∷ record { arrived = 20; received = ok (action_response answer); checked = 21 }
    ∷ []

abbrev sends : Envelope → Result (Unit {0})
sends env = ok tt

answered : (send_action sends 5 6 (65 ∷ []) [] [] 0 deliveries).result ≡ ok answer
unfolding send_action request await_matching on_received answers_action action_reply or_default
    str_eq
answered = refl

send_action-IsAnswer_example :
    IsAnswer
      (65 ∷ [])
      (5 + or_default 0 default_action_timeout)
      deliveries
      (send_action sends 5 6 (65 ∷ []) [] [] 0 deliveries)
      answer
send_action-IsAnswer_example =
    send_action-IsAnswer sends 5 6 (65 ∷ []) [] [] 0 deliveries answer answered

await_matching_finds_example :
    await_matching 40 (answers_action (65 ∷ [])) 6 deliveries ≡ (ok (action_response answer), [])
unfolding answers_action str_eq
await_matching_finds_example =
    await_matching_finds 40 (answers_action (65 ∷ [])) 6 deliveries [] (action_response answer)
      (omega arith)
      ((omega arith, omega arith), ((omega arith, omega arith), ((omega arith, omega arith), tt)))
      (inr (
        ping 5,
        refl,
        refl,
        inr (
          action_response (record answer { action_id = 66 ∷ [] }),
          refl,
          refl,
          inl (refl, refl, omega arith, refl),
        ),
      ))

abbrev session : Session
session = record {
  is_ws = true;
  secret = some (5 ∷ []);
  device_id = none;
  session_key = some (7 ∷ 9 ∷ []);
  plugin_id = none;
}

abbrev ok_or_empty : Result Bytes → Bytes
ok_or_empty (ok b) = b
ok_or_empty (err e) = []

ws_frame : Bytes
unfolding outgoing_frame pack_frame sign assemble wire_form compressible target_bytes
    header_bytes_for pack_header pack_u16 pack_u32 checksum compute_tag encode encode_char str ljust
ws_frame = ok_or_empty (outgoing_frame toy session (107 ∷ []) 0 (1 ∷ 2 ∷ []))

ws_sent : outgoing_frame toy session (107 ∷ []) 0 (1 ∷ 2 ∷ []) ≡ ok ws_frame
unfolding ws_frame
ws_sent = refl

abbrev ack : RegisterAck
ack = record { accepted = true; reject_reason = []; session_nonce = 4 ∷ [] }

registered :
    (register_full toy sends (ok (plugin_register_ack ack)) session (112 ∷ []) [] []).1 ≡ ok ack
unfolding register_full on_reply_or_error on_reply apply_session_nonce with_key derive_session_key
    hkdf_extract hkdf_expand expand_loop encode encode_char str checksum
registered = refl

register_full-IsKeyed_example :
    IsKeyed toy session
      (112 ∷ [])
      ack
      (register_full toy sends (ok (plugin_register_ack ack)) session (112 ∷ []) [] []).0
register_full-IsKeyed_example =
    register_full-IsKeyed toy sends (ok (plugin_register_ack ack)) session (112 ∷ []) [] [] ack
      registered

-- Five bytes in three fragments on stream 7.
abbrev fragments : List Bytes
fragments =
    (0 ∷ 7 ∷ 0 ∷ 0 ∷ 0 ∷ 3 ∷ 0 ∷ 0 ∷ 0 ∷ 7 ∷ 1 ∷ 2 ∷ [])
    ∷ (0 ∷ 7 ∷ 0 ∷ 1 ∷ 0 ∷ 3 ∷ 0 ∷ 0 ∷ 0 ∷ 7 ∷ 3 ∷ 4 ∷ [])
    ∷ (0 ∷ 7 ∷ 0 ∷ 2 ∷ 0 ∷ 3 ∷ 0 ∷ 0 ∷ 0 ∷ 7 ∷ 5 ∷ [])
    ∷ []

fragments_sent : send_fragmented false (1 ∷ 2 ∷ 3 ∷ 4 ∷ 5 ∷ []) 2 7 ≡ ok (fragments, 8)
unfolding send_fragmented fragment_count fragments_from fragment_at chunk_at following_id
    pack_frag_header pack_u16 pack_u32
fragments_sent = refl

abbrev clocks : Clocks
clocks = record { pruned = λ i. 10 * i; read = λ i. 10 * i + 5 }

-- The last fragment comes first, and the first one last.
abbrev shuffled : List Bytes
shuffled =
    (0 ∷ 7 ∷ 0 ∷ 2 ∷ 0 ∷ 3 ∷ 0 ∷ 0 ∷ 0 ∷ 7 ∷ 5 ∷ [])
    ∷ (0 ∷ 7 ∷ 0 ∷ 1 ∷ 0 ∷ 3 ∷ 0 ∷ 0 ∷ 0 ∷ 7 ∷ 3 ∷ 4 ∷ [])
    ∷ (0 ∷ 7 ∷ 0 ∷ 0 ∷ 0 ∷ 3 ∷ 0 ∷ 0 ∷ 0 ∷ 7 ∷ 1 ∷ 2 ∷ [])
    ∷ []

shuffled-Perm : Perm shuffled fragments
shuffled-Perm =
    Perm.trans (Perm.swap _ _ _) (Perm.trans (Perm.cons _ (Perm.swap _ _ _)) (Perm.swap _ _ _))

recv_frame-send_fragmented_example :
    recv_frame (arrivals 4 clocks 0 shuffled) []
    ≡ returned (without 4 5, 1 ∷ 2 ∷ 3 ∷ 4 ∷ 5 ∷ []) [] []
recv_frame-send_fragmented_example =
    recv_frame-send_fragmented (1 ∷ 2 ∷ 3 ∷ 4 ∷ 5 ∷ []) 2 7 8 4 clocks fragments shuffled
      fragments_sent shuffled-Perm refl (λ i lt. omega arith)
