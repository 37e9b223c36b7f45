-- ===== src/Client/WireTests.antt =====
-- Envelopes on their way from one client to another, at concrete ones.
use vynkor_sdk_python.Prelude.{
  ap, ℕ, suc, ◌≡◌, refl, true, false, List, [], ◌∷◌, ◌++◌, some, none, drop, arith,
}
use vynkor_sdk_python.Errors.{
  Str, Bytes, Result, ok, err, internal, foreign, connection_error, is_exception,
}
use vynkor_sdk_python.Py.Text.{str, encode, encode_char, ljust}
use vynkor_sdk_python.Py.Struct.{pack_u16, pack_u32}
use vynkor_sdk_python.Py.Crc.{checksum}
use vynkor_sdk_python.Messages.{Envelope, ping, RegisterAck, plugin_register_ack}
use vynkor_sdk_python.Framing.Header.{target_bytes, pack_header, header_bytes_for}
use vynkor_sdk_python.Framing.Mac.{
  compute_tag, derive_session_key, hkdf_extract, hkdf_expand, expand_loop,
}
use vynkor_sdk_python.Framing.Pack.{pack_frame, sign, compressible, wire_form, assemble}
use vynkor_sdk_python.Framing.Async.{
  Timed, Reader, in_time, async_read_frame, frame_read_timeout_ms,
}
use vynkor_sdk_python.Framing.Tests.{toy, toy-IsSound}
use vynkor_sdk_python.Client.Session.{
  Session, outgoing_frame, register_full, on_reply_or_error, on_reply, apply_session_nonce,
  with_key,
}
use vynkor_sdk_python.Client.Reassembly.{prune_reassembly}
use vynkor_sdk_python.Client.Transport.{
  Bindings, Incoming, ws_text, ws_binary, send_raw_with_flags, send_raw, send, transmit, ws_sent,
  recv, ws_arrivals, ws_recv_frame,
}
use vynkor_sdk_python.Client.Exchange.{read_frame_from_bytes-send}
use vynkor_sdk_python.Framing.Safety.{IsTagged}
use vynkor_sdk_python.Client.Secured.{ws_recv_frame-register_full}
use vynkor_sdk_python.Client.Connection.{
  IsShut, Connection, ws_connection, close, after_ws_close, close_writer, close-close, behind,
}
use vynkor_sdk_python.Client.Conversation.{
  Carries, send_all, recv_all, recv_all-send_all, recv-send,
}

-- Bindings that know pings alone.
abbrev pings : Envelope → Bytes
pings (ping n) = n ∷ []
pings _ = []

abbrev parse_ping : Bytes → Result Envelope
parse_ping (n ∷ []) = ok (ping n)
parse_ping _ = err (internal [])

abbrev bindings : Bindings
bindings = record { serialize = pings; parse = parse_ping; str_error = λ e. [] }

abbrev session : Session
session = record {
  is_ws = true;
  secret = none;
  device_id = none;
  session_key = some (7 ∷ 9 ∷ []);
  plugin_id = none;
}

abbrev writes : Bytes → Result (Unit {0})
writes frame = ok tt

abbrev messages : List (Str × Envelope)
messages = (107 ∷ [], ping 3) ∷ (108 ∷ [], ping 4) ∷ []

abbrev ok_or_empty {ℓ} : {A : Type ℓ} → Result (List A) → List A
ok_or_empty (ok b) = b
ok_or_empty (err e) = []

frames : List Bytes
unfolding send_all send send_raw send_raw_with_flags transmit ws_sent outgoing_frame pack_frame sign
    assemble wire_form compressible target_bytes header_bytes_for pack_header pack_u16 pack_u32
    checksum compute_tag encode encode_char str ljust
frames = ok_or_empty (send_all toy bindings session writes messages)

all_sent : send_all toy bindings session writes messages ≡ ok frames
unfolding frames
all_sent = refl

-- A text message behind each frame.
abbrev noisy : List Bytes → Incoming
noisy [] = []
noisy (frame ∷ rest) = ok (ws_binary frame) ∷ ok (ws_text (104 ∷ [])) ∷ noisy rest

noisy-Carries : (fs : List Bytes) → Carries fs (noisy fs)
unfolding Carries
noisy-Carries [] = tt
noisy-Carries (frame ∷ rest) = (refl, noisy-Carries rest)

abbrev ticks : List (ℕ × ℕ)
ticks = (1, 2) ∷ (3, 4) ∷ []

recv_all-send_all_example :
    recv_all bindings 2 (ws_arrivals toy bindings session.session_key ticks (noisy frames)) []
    ≡ ok (ping 3) ∷ ok (ping 4) ∷ []
recv_all-send_all_example =
    recv_all-send_all toy toy-IsSound bindings session writes messages frames (noisy frames) ticks
      [] (refl, (refl, tt)) all_sent (noisy-Carries frames) refl

-- The same over a Unix socket: the frame at one byte a millisecond, and a byte of another one later.
abbrev local : Session
local = record session { is_ws = false }

ping_frame : Bytes
unfolding send send_raw send_raw_with_flags transmit ws_sent outgoing_frame pack_frame sign assemble
    wire_form compressible target_bytes header_bytes_for pack_header pack_u16 pack_u32 checksum
    compute_tag encode encode_char str ljust
ping_frame = ok_or_empty (send toy bindings local writes (107 ∷ []) (ping 3))

ping_sent : send toy bindings local writes (107 ∷ []) (ping 3) ≡ ok ping_frame
unfolding ping_frame
ping_sent = refl

abbrev stamp : ℕ → Bytes → Reader
stamp now [] = []
stamp now (b ∷ bytes) = record { byte = b; at = now } ∷ stamp (suc now) bytes

abbrev later : Reader
later = record { byte = 0x56; at = 60000 } ∷ []

abbrev first_byte : Timed
first_byte = record { byte = 0x56; at = 5 }

recv-send_example :
    recv bindings
      (record {
        pruned_at = 1;
        read_at = 2;
        frame =
            (async_read_frame toy 90000 local.session_key frame_read_timeout_ms
              (first_byte ∷ (stamp 6 (drop 1 ping_frame) ++ later))).0;
      }
        ∷ [])
      []
    ≡ (some (ok (ping 3)), prune_reassembly 1 [], [])
unfolding in_time ping_frame
recv-send_example =
    recv-send toy toy-IsSound bindings local writes (107 ∷ []) (ping 3) ping_frame [] 90000
      frame_read_timeout_ms 1 2 first_byte (stamp 6 (drop 1 ping_frame)) later [] refl ping_sent
      refl refl (omega arith)

-- A registration with a secret, and a frame of the session behind it.
abbrev paired : Session
paired = record session { secret = some (5 ∷ []); session_key = none }

abbrev ack : RegisterAck
ack = record { accepted = true; reject_reason = []; session_nonce = 4 ∷ [] }

abbrev replies : Envelope → Result (Unit {0})
replies env = ok tt

abbrev secured : Session
secured = (register_full toy replies (ok (plugin_register_ack ack)) paired (112 ∷ []) [] []).0

registered :
    (register_full toy replies (ok (plugin_register_ack ack)) paired (112 ∷ []) [] []).1 ≡ ok ack
unfolding register_full on_reply_or_error on_reply apply_session_nonce with_key derive_session_key
    hkdf_extract hkdf_expand expand_loop encode encode_char str checksum
registered = refl

secured_frame : Bytes
unfolding send send_raw send_raw_with_flags transmit ws_sent outgoing_frame pack_frame sign assemble
    wire_form compressible target_bytes header_bytes_for pack_header pack_u16 pack_u32 checksum
    compute_tag encode encode_char str ljust register_full on_reply_or_error on_reply
    apply_session_nonce with_key derive_session_key hkdf_extract hkdf_expand expand_loop
secured_frame = ok_or_empty (send toy bindings secured writes (107 ∷ []) (ping 3))

secured_sent : send toy bindings secured writes (107 ∷ []) (ping 3) ≡ ok secured_frame
unfolding secured_frame
secured_sent = refl

secured_got :
    ws_recv_frame toy bindings secured.session_key (ok (ws_binary secured_frame) ∷ [])
    ≡ (some (ok (1, 3 ∷ [])), [])
unfolding ws_recv_frame secured_frame
secured_got =
    ap (λ r. (some r, []))
      (read_frame_from_bytes-send toy toy-IsSound bindings secured writes (107 ∷ []) (ping 3)
        secured_frame [] secured_sent)

ws_recv_frame-register_full_example :
    (key frame : Bytes) × (before : Incoming) × (derive_session_key toy (5 ∷ []) (4 ∷ []) (112 ∷ [])
      ≡ ok key)
    × (ok (ws_binary secured_frame) ∷ [] ≡ before ++ (ok (ws_binary frame) ∷ []))
    × IsTagged toy key frame 1 (3 ∷ [])
ws_recv_frame-register_full_example =
    ws_recv_frame-register_full toy bindings replies (ok (plugin_register_ack ack)) paired
      (112 ∷ []) [] [] ack (ok (ws_binary secured_frame) ∷ []) [] 1 (3 ∷ []) registered refl
      secured_got

-- The WebSocket's own `close` raises.
abbrev broken : Result (Unit {0})
broken = err (foreign connection_error)

abbrev shut : Connection
shut = (close ws_connection broken (ok tt)).connection

closes : (close ws_connection broken (ok tt)).result ≡ ok tt
unfolding close after_ws_close close_writer behind is_exception
closes = refl

close-close_example :
    IsShut shut
    × (close shut broken broken ≡ record { calls = []; connection = shut; result = ok tt })
close-close_example = close-close ws_connection broken (ok tt) broken broken refl closes
