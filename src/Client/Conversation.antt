-- ===== src/Client/Conversation.antt =====
-- vynkor/client.py: envelopes on their way from the `send` of one client to the `recv` of another,
-- over each transport.
use vynkor_sdk_python.Prelude.{
  ℕ, zero, suc, ◌+◌, ◌≡◌, refl, sym, ap, subst, ◌∙◌, true, List, [], ◌∷◌, ◌++◌, Option, none, some,
  map, length, append-nil, arith, All,
}
use vynkor_sdk_python.Errors.{Str, Bytes, Result, ok, err, ◌>>=◌, >>=-eq-ok, ok-injective}
use vynkor_sdk_python.Messages.{Envelope}
use vynkor_sdk_python.Framing.Primitives.{Primitives, IsSound}
use vynkor_sdk_python.Framing.Pack.{mac_flags}
use vynkor_sdk_python.Framing.Read.{read_frame_from_bytes}
use vynkor_sdk_python.Framing.Async.{Timed, Reader, bytes_of, in_time, async_read_frame}
use vynkor_sdk_python.Framing.Simulation.{IsLate}
use vynkor_sdk_python.Framing.AsyncAgree.{async_read_frame-read_frame_from_bytes, IsSameFrame}
use vynkor_sdk_python.Client.Session.{Session}
use vynkor_sdk_python.Client.Reassembly.{Streams, Arrival, prune_reassembly}
use vynkor_sdk_python.Client.Transport.{
  Bindings, IsFaithful, ws_text, ws_binary, Incoming, recv, ws_recv_frame, send, ws_round,
  ws_arrivals,
}
use vynkor_sdk_python.Client.Exchange.{
  plain_frame, recv-whole, decode-serialize, read_frame_from_bytes-send,
}

-- The WebSocket delivers these frames in order, and nothing else but text messages.
unfoldable pub Carries : List Bytes → Incoming → Type 0
Carries [] [] = Unit
Carries (frame ∷ frames) [] = ⊥
Carries frames (err e ∷ incoming) = ⊥
Carries frames (ok (ws_text s) ∷ incoming) = Carries frames incoming
Carries [] (ok (ws_binary input) ∷ incoming) = ⊥
Carries (frame ∷ frames) (ok (ws_binary input) ∷ incoming) =
    (input ≡ frame) × Carries frames incoming

-- `recv`, so many times, until it waits.
abbrev pub and_then : Option (Result Envelope) → List (Result Envelope) → List (Result Envelope)
and_then none later = []
and_then (some got) later = got ∷ later

unfoldable pub recv_all : Bindings → ℕ → List Arrival → Streams → List (Result Envelope)
recv_all bindings zero arrivals d = []
recv_all bindings (suc n) arrivals d =
    let (got, d', rest) = recv bindings arrivals d in and_then got (recv_all bindings n rest d')

module _ (prim : Primitives) (bindings : Bindings) (session : Session)
    (write : Bytes → Result (Unit {0})) where
  -- `send` of one envelope after the other, each to its target: the frames that were written.
  unfoldable pub send_all : List (Str × Envelope) → Result (List Bytes)
  send_all [] = ok []
  send_all ((target, env) ∷ messages) = do
    frame ← send prim bindings session write target env
    frames ← send_all messages
    ok (frame ∷ frames)

-- One frame behind text messages.
ws_recv_frame-Carries :
    (prim : Primitives) (bindings : Bindings) (key : Option Bytes) (frame : Bytes)
    → (frames : List Bytes) (incoming : Incoming) → Carries (frame ∷ frames) incoming
    → ((ws_recv_frame prim bindings key incoming).0 ≡ some (read_frame_from_bytes prim frame key))
      × Carries frames (ws_recv_frame prim bindings key incoming).1
unfolding Carries ws_recv_frame
ws_recv_frame-Carries prim bindings key frame frames [] c = absurd c
ws_recv_frame-Carries prim bindings key frame frames (err e ∷ incoming) c = absurd c
ws_recv_frame-Carries prim bindings key frame frames (ok (ws_text s) ∷ incoming) c =
    ws_recv_frame-Carries prim bindings key frame frames incoming c
ws_recv_frame-Carries prim bindings key frame frames (ok (ws_binary input) ∷ incoming) (e, c) =
    (ap (λ x. some (read_frame_from_bytes prim x key)) e, c)

module _ (prim : Primitives) (sound : IsSound prim) (bindings : Bindings) where
  -- Envelopes that the bindings can read back, and that one client sent successfully one after the
  -- other, arrive at a client with the
  -- same session key, on a WebSocket that delivers the frames in order, with text messages between
  -- them: its `recv` returns the envelopes, all of them and in order, whatever the clock says and
  -- whatever fragments it holds.
  pub recv_all-send_all :
      (session : Session) (write : Bytes → Result (Unit {0})) (messages : List (Str × Envelope))
      → (frames : List Bytes) (incoming : Incoming) (clocks : List (ℕ × ℕ)) (d : Streams)
      → All (λ m. IsFaithful bindings m.1) messages
      → send_all prim bindings session write messages ≡ ok frames
      → Carries frames incoming
      → length clocks ≡ length messages
      → recv_all bindings
          (length messages)
          (ws_arrivals prim bindings session.session_key clocks incoming)
          d
        ≡ map (λ m. ok m.1) messages
  unfolding send_all recv_all ws_arrivals ws_round
  recv_all-send_all session write [] frames incoming clocks d faithful sent c n = refl
  recv_all-send_all session write (m ∷ messages) frames incoming [] d faithful sent c n =
      absurd (omega (arith, n))
  recv_all-send_all session write ((target, env) ∷ messages) frames incoming
        ((pruned_at, read_at) ∷ clocks) d (one_back, faithful) sent c n =
      let key = session.session_key in
      let (frame, one, more) = >>=-eq-ok (send prim bindings session write target env) _ sent in
      let (others, later, whole) =
        >>=-eq-ok (send_all prim bindings session write messages) _ more in
      let split = subst (λ fs. Carries fs incoming) (sym (ok-injective whole)) c in
      let (first, carried) = ws_recv_frame-Carries prim bindings key frame others incoming split in
      let back =
        read_frame_from_bytes-send prim sound bindings session write target env frame [] one in
      let (unfragmented, envelope, tagged) = plain_frame key in
      let rest = (ws_recv_frame prim bindings key incoming).1 in
      let arrivals = ws_arrivals prim bindings key clocks rest in
      let read =
        first
        ∙ ap (λ f. some (read_frame_from_bytes prim f key)) (sym (append-nil frame))
        ∙ ap some back in
      let received : recv bindings
            (ws_round (pruned_at, read_at) (ws_recv_frame prim bindings key incoming).0 arrivals) d
          ≡ (some (ok env), prune_reassembly pruned_at d, arrivals) =
        ap (λ o. recv bindings (ws_round (pruned_at, read_at) o arrivals) d) read
        ∙ recv-whole bindings pruned_at read_at (mac_flags key 0) (bindings.serialize env) arrivals
            d unfragmented
        ∙ ap (λ x. (some x, prune_reassembly pruned_at d, arrivals))
            (decode-serialize bindings (mac_flags key 0) env one_back envelope) in
      ap (λ x. and_then x.0 (recv_all bindings (length messages) x.2 x.1)) received
      ∙ ap (◌∷◌ (ok env)) (
          recv_all-send_all session write messages others rest clocks (prune_reassembly pruned_at d)
            faithful later carried (omega (arith, n)))

  -- An envelope that the bindings can read back, and that one client sent successfully, goes over a Unix socket to a client with the same
  -- session key: all bytes of the frame come within the frame's time of the first, with anything
  -- behind them. `recv` returns the envelope, whatever fragments it holds.
  pub recv-send :
      (session : Session) (write : Bytes → Result (Unit {0})) (target : Str) (env : Envelope)
      → (frame next : Bytes) (closes frame_timeout pruned_at read_at : ℕ)
      → (t : Timed) (ts later : Reader) (d : Streams) → IsFaithful bindings env
      → send prim bindings session write target env ≡ ok frame
      → bytes_of (t ∷ ts) ≡ frame ++ next
      → in_time (t.at + frame_timeout) ts ≡ true
      → IsLate (t.at + frame_timeout) later
      → recv bindings
          (record {
            pruned_at = pruned_at;
            read_at = read_at;
            frame =
                (async_read_frame prim closes session.session_key frame_timeout
                  (t ∷ (ts ++ later))).0;
          }
            ∷ [])
          d
        ≡ (some (ok env), prune_reassembly pruned_at d, [])
  recv-send session write target env frame next closes frame_timeout pruned_at read_at t ts later d
        faithful sent all i l =
      let key = session.session_key in
      let flags = mac_flags key 0 in
      let payload = bindings.serialize env in
      let (unfragmented, envelope, tagged) = plain_frame key in
      let back =
        ap (λ b. read_frame_from_bytes prim b key) all
        ∙ read_frame_from_bytes-send prim sound bindings session write target env frame next sent in
      let agree =
        async_read_frame-read_frame_from_bytes prim closes key frame_timeout t ts later i l in
      let read =
        subst
          (λ r.
            IsSameFrame r (async_read_frame prim closes key frame_timeout (t ∷ (ts ++ later))).0)
          back agree in
      ap
        (λ r. recv bindings (record { pruned_at = pruned_at; read_at = read_at; frame = r } ∷ []) d)
        read
      ∙ recv-whole bindings pruned_at read_at flags payload [] d unfragmented
      ∙ ap (λ x. (some x, prune_reassembly pruned_at d, []))
          (decode-serialize bindings flags env faithful envelope)
