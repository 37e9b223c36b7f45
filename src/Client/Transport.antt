-- ===== src/Client/Transport.antt =====
-- vynkor/client.py: `send` down to the transport, `_ws_recv_frame`, and `recv` over `recv_frame`.
use vynkor_sdk_python.Prelude.{
  ℕ, ◌≡◌, Bool, true, false, List, [], ◌∷◌, ◌++◌, if◌then◌else◌, Option, none, some,
}
use vynkor_sdk_python.Errors.{
  Str, Bytes, Error, Result, ok, err, internal, proto_error, is_exception, ◌>>=◌, ◌>>◌,
}
use vynkor_sdk_python.Py.Text.{str}
use vynkor_sdk_python.Messages.{Envelope}
use vynkor_sdk_python.Framing.Primitives.{Primitives}
use vynkor_sdk_python.Framing.Header.{flag_raw_binary, has}
use vynkor_sdk_python.Framing.Read.{read_frame_from_bytes}
use vynkor_sdk_python.Client.Session.{Session, outgoing_frame}
use vynkor_sdk_python.Client.Reassembly.{
  Streams, Arrival, Received, waiting, returned, raised, recv_frame,
}

-- The generated bindings, and `str(e)` of an exception.
pub record Bindings : Type 0 where
  pub serialize : Envelope → Bytes
  pub parse : Bytes → Result Envelope
  pub str_error : Error → Str

-- The bindings read the envelope that they wrote.
abbrev pub IsFaithful : Bindings → Envelope → Type 0
IsFaithful bindings env = bindings.parse (bindings.serialize env) ≡ ok env

-- What `recv` of the WebSocket returns.
pub data WsMessage : Type 0 where
  ws_text : Str → WsMessage
  ws_binary : Bytes → WsMessage

-- What the WebSocket delivers: a message, or an exception.
abbrev pub Incoming : Type 0
Incoming = List (Result WsMessage)

module _ (bindings : Bindings) where
  -- `except Exception as e: raise VynkorInternal(f"{what}: {e}") from e`
  unfoldable pub ws_failure : Str → Error → Error
  ws_failure what e =
      if is_exception e then internal (what ++ (str ": " ++ bindings.str_error e)) else e

  unfoldable pub ws_sent : Result (Unit {0}) → Result (Unit {0})
  ws_sent (ok done) = ok done
  ws_sent (err e) = err (ws_failure (str "websocket send failed") e)

  -- `write` is what the transport's own write comes to.
  unfoldable pub transmit : Bool → (Bytes → Result (Unit {0})) → Bytes → Result (Unit {0})
  transmit true write frame = ws_sent (write frame)
  transmit false write frame = write frame

  -- `except Exception as e: raise VynkorProtoError(str(e)) from e`
  unfoldable pub parsed : Result Envelope → Result Envelope
  parsed (ok env) = ok env
  parsed (err e) = err (if is_exception e then proto_error (bindings.str_error e) else e)

  unfoldable pub decode : ℕ → Bytes → Result Envelope
  decode flags payload =
      if has flags flag_raw_binary
      then err (internal (str "received raw-binary frame; use recv_frame() for audio"))
      else parsed (bindings.parse payload)

  -- Behind `recv_frame`.
  unfoldable pub on_frame : Received → Option (Result Envelope) × Streams × List Arrival
  on_frame (waiting d) = (none, d, [])
  on_frame (returned (flags, payload) d rest) = (some (decode flags payload), d, rest)
  on_frame (raised e d rest) = (some (err e), d, rest)

  -- `none`: it still waits.
  unfoldable pub recv : List Arrival → Streams → Option (Result Envelope) × Streams × List Arrival
  recv arrivals d = on_frame (recv_frame arrivals d)

-- One round of `recv_frame` over a WebSocket, with the clocks at the pruning and at the read.
unfoldable pub ws_round : ℕ × ℕ → Option (Result (ℕ × Bytes)) → List Arrival → List Arrival
ws_round clock none later = []
ws_round (pruned_at, read_at) (some frame) later =
    record { pruned_at = pruned_at; read_at = read_at; frame = frame } ∷ later

module _ (prim : Primitives) (bindings : Bindings) where
  -- Text messages are passed over.
  unfoldable pub ws_recv_frame : Option Bytes → Incoming → Option (Result (ℕ × Bytes)) × Incoming
  ws_recv_frame session_key [] = (none, [])
  ws_recv_frame session_key (err e ∷ rest) =
      (some (err (ws_failure bindings (str "websocket connection closed") e)), rest)
  ws_recv_frame session_key (ok (ws_text s) ∷ rest) = ws_recv_frame session_key rest
  ws_recv_frame session_key (ok (ws_binary input) ∷ rest) =
      (some (read_frame_from_bytes prim input session_key), rest)

  module _ (session : Session) (write : Bytes → Result (Unit {0})) where
    -- The frame that was written.
    unfoldable pub send_raw_with_flags : Str → ℕ → Bytes → Result Bytes
    send_raw_with_flags target extra_flags payload = do
      frame ← outgoing_frame prim session target extra_flags payload
      transmit bindings session.is_ws write frame
      ok frame

    unfoldable pub send_raw : Str → Bytes → Result Bytes
    send_raw target payload = send_raw_with_flags target 0 payload

    unfoldable pub send : Str → Envelope → Result Bytes
    send target envelope = send_raw target (bindings.serialize envelope)

    unfoldable pub send_raw_audio : Str → Bytes → Result Bytes
    send_raw_audio target input = send_raw_with_flags target flag_raw_binary input

  unfoldable pub ws_arrivals : Option Bytes → List (ℕ × ℕ) → Incoming → List Arrival
  ws_arrivals session_key [] incoming = []
  ws_arrivals session_key (clock ∷ clocks) incoming =
      let (frame, rest) = ws_recv_frame session_key incoming in
      ws_round clock frame (ws_arrivals session_key clocks rest)
