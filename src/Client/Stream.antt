-- ===== src/Client/Stream.antt =====
-- vynkor/client.py: `send_fragmented` down to the transport, and the rounds of `recv_frame` over a
-- Unix socket.
use vynkor_sdk_python.Prelude.{ℕ, zero, suc, List, [], ◌∷◌, Option}
use vynkor_sdk_python.Errors.{Str, Bytes, Result, ok, err, ◌>>=◌}
use vynkor_sdk_python.Framing.Primitives.{Primitives}
use vynkor_sdk_python.Framing.Header.{flag_fragmented}
use vynkor_sdk_python.Framing.Async.{Reader, async_read_frame}
use vynkor_sdk_python.Client.Session.{Session}
use vynkor_sdk_python.Client.Reassembly.{Arrival}
use vynkor_sdk_python.Client.Fragments.{fragment_count, fragment_at, following_id}
use vynkor_sdk_python.Client.Transport.{Bindings, send_raw_with_flags}
use vynkor_sdk_python.Client.Rounds.{Clocks}

-- The frames that were written, and whether the loop got to its end.
abbrev pub Written : Type 0
Written = List Bytes × Result (Unit {0})

-- Behind one send, with what the loop does then.
unfoldable pub wrote : Result Bytes → Written → Written
wrote (err e) rest = ([], err e)
wrote (ok frame) (frames, result) = (frame ∷ frames, result)

module _ (prim : Primitives) (bindings : Bindings) (session : Session)
    (write : Bytes → Result (Unit {0})) (target : Str) where
  -- The loop over `range(total)`, from `seq` on.
  unfoldable pub send_from : Bytes → ℕ → ℕ → ℕ → ℕ → ℕ → Written
  send_from payload chunk_size total stream_id seq zero = ([], ok tt)
  send_from payload chunk_size total stream_id seq (suc left) =
      let rest = send_from payload chunk_size total stream_id (suc seq) left in
      wrote
        (do
          frag_payload ← fragment_at payload chunk_size total stream_id seq
          send_raw_with_flags prim bindings session write target flag_fragmented frag_payload)
        rest

  -- Behind the checks: the stream id is used up whatever the sends come to.
  unfoldable pub send_counted : Bytes → ℕ → ℕ → Result ℕ → Written × ℕ
  send_counted payload chunk_size next_stream_id (err e) = (([], err e), next_stream_id)
  send_counted payload chunk_size next_stream_id (ok total) =
      (send_from payload chunk_size total next_stream_id 0 total, following_id next_stream_id)

  -- `send_fragmented`, with the next value of `_next_stream_id`.
  unfoldable pub send_fragments : Bytes → ℕ → ℕ → Written × ℕ
  send_fragments payload chunk_size next_stream_id =
      send_counted payload chunk_size next_stream_id
        (fragment_count session.is_ws payload chunk_size)

-- So many rounds of `recv_frame` over the reader, from the `n`-th on.
unfoldable pub uds_arrivals :
    Primitives → ℕ → Option Bytes → ℕ → Clocks → ℕ → ℕ → Reader → List Arrival
uds_arrivals prim closes session_key frame_timeout clocks n zero reader = []
uds_arrivals prim closes session_key frame_timeout clocks n (suc rounds) reader =
    let (frame, rest) = async_read_frame prim closes session_key frame_timeout reader in
    record { pruned_at = clocks.pruned n; read_at = clocks.read n; frame = frame }
    ∷ uds_arrivals prim closes session_key frame_timeout clocks (suc n) rounds rest
