-- ===== src/Client/StreamTests.antt =====
-- A fragmented payload on a Unix socket.
use vynkor_sdk_python.Prelude.{
  ◌≡◌, refl, ℕ, suc, ◌+◌, ◌*◌, false, List, [], ◌∷◌, map, length, none, some, arith,
}
use vynkor_sdk_python.Errors.{Bytes, Result, ok}
use vynkor_sdk_python.Py.Text.{str, encode, encode_char, ljust}
use vynkor_sdk_python.Py.Struct.{pack_u16, pack_u32}
use vynkor_sdk_python.Py.Crc.{checksum}
use vynkor_sdk_python.Framing.Header.{target_bytes, pack_header, header_bytes_for, pack_frag_header}
use vynkor_sdk_python.Framing.Mac.{compute_tag}
use vynkor_sdk_python.Framing.Pack.{pack_frame, sign, compressible, wire_form, assemble}
use vynkor_sdk_python.Framing.Async.{Reader, in_time}
use vynkor_sdk_python.Framing.Tests.{toy, toy-IsSound}
use vynkor_sdk_python.Client.Session.{Session, outgoing_frame}
use vynkor_sdk_python.Client.Reassembly.{returned, recv_frame}
use vynkor_sdk_python.Client.Fragments.{fragment_count, fragment_at, chunk_at, following_id}
use vynkor_sdk_python.Client.Transport.{Bindings, transmit, send_raw_with_flags}
use vynkor_sdk_python.Client.Rounds.{Clocks}
use vynkor_sdk_python.Client.Stream.{wrote, send_from, send_counted, send_fragments, uds_arrivals}
use vynkor_sdk_python.Client.EndToEnd.{AreTimely, joined, recv_frame-send_fragments}
use vynkor_sdk_python.Messages.{unset}

abbrev bindings : Bindings
bindings = record { serialize = λ env. []; parse = λ b. ok unset; str_error = λ e. [] }

abbrev session : Session
session = record {
  is_ws = false;
  secret = some (5 ∷ []);
  device_id = none;
  session_key = some (7 ∷ 9 ∷ []);
  plugin_id = none;
}

abbrev writes : Bytes → Result (Unit {0})
writes frame = ok tt

abbrev stamp : ℕ → Bytes → Reader
stamp now [] = []
stamp now (b ∷ bytes) = record { byte = b; at = now } ∷ stamp (suc now) bytes

abbrev clocks : Clocks
clocks = record { pruned = λ i. 100 * i; read = λ i. 100 * i + 50 }

-- The three frames, each with a tag.
frames : List Bytes
unfolding send_fragments send_counted send_from wrote fragment_count fragment_at chunk_at
    following_id pack_frag_header send_raw_with_flags transmit outgoing_frame pack_frame sign
    assemble wire_form compressible target_bytes header_bytes_for pack_header pack_u16 pack_u32
    checksum compute_tag encode encode_char str ljust
frames = (send_fragments toy bindings session writes (107 ∷ []) (1 ∷ 2 ∷ 3 ∷ 4 ∷ 5 ∷ []) 2 7).0.0

frames_sent :
    send_fragments toy bindings session writes (107 ∷ []) (1 ∷ 2 ∷ 3 ∷ 4 ∷ 5 ∷ []) 2 7
    ≡ ((frames, ok tt), 8)
unfolding frames
frames_sent = refl

frames_timely : AreTimely 10000 frames (map (stamp 0) frames)
unfolding frames in_time
frames_timely = (refl, refl, (refl, refl, (refl, refl, tt)))

three : length frames ≡ 3
unfolding frames
three = refl

recv_frame-send_fragments_example :
    recv_frame
      (uds_arrivals toy 0 session.session_key 10000 clocks 0
        (length frames)
        (joined (map (stamp 0) frames) []))
      []
    ≡ returned (0, 1 ∷ 2 ∷ 3 ∷ 4 ∷ 5 ∷ []) [] []
recv_frame-send_fragments_example =
    recv_frame-send_fragments toy toy-IsSound bindings session writes (107 ∷ [])
      (1 ∷ 2 ∷ 3 ∷ 4 ∷ 5 ∷ []) 2 7 8 frames 0 10000 clocks (map (stamp 0) frames) [] refl
      frames_sent frames_timely (λ i lt. omega (arith, three))
