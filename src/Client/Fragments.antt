-- ===== src/Client/Fragments.antt =====
-- vynkor/client.py: `send_fragmented`, with the frames that it hands to `send_raw_with_flags`.
use vynkor_sdk_python.Prelude.{
  ℕ, zero, suc, ◌+◌, ◌-◌, ◌*◌, ◌/◌, Bool, ◌||◌, List, [], ◌∷◌, ◌++◌, ltb, ◌==◌, if◌then◌else◌,
  length, take, drop, max, bit_and,
}
use vynkor_sdk_python.Errors.{Bytes, Result, ok, internal, payload_too_large, raise_if, ◌>>=◌, ◌>>◌}
use vynkor_sdk_python.Py.Text.{str, decimal}
use vynkor_sdk_python.Framing.Primitives.{max_payload}
use vynkor_sdk_python.Framing.Header.{FragHeader, frag_header_size, pack_frag_header}

-- `-(-n // c)`
abbrev pub ceil_div : ℕ → ℕ → ℕ
ceil_div n c = (n + c - 1) / c

-- `(n + 1) & 0xFFFFFFFF or 1`
unfoldable pub following_id : ℕ → ℕ
following_id n = let next = bit_and (n + 1) 0xffffffff in if next == 0 then 1 else next

-- `payload[seq * chunk_size : (seq + 1) * chunk_size]`
unfoldable pub chunk_at : Bytes → ℕ → ℕ → Bytes
chunk_at payload chunk_size seq = take chunk_size (drop (seq * chunk_size) payload)

abbrev pub header_at : ℕ → ℕ → ℕ → FragHeader
header_at total stream_id seq = record {
  fragment_id = bit_and stream_id 0xffff;
  sequence = seq;
  total = total;
  stream_id = stream_id;
}

unfoldable pub fragment_at : Bytes → ℕ → ℕ → ℕ → ℕ → Result Bytes
fragment_at payload chunk_size total stream_id seq = do
  h ← pack_frag_header (header_at total stream_id seq)
  ok (h ++ chunk_at payload chunk_size seq)

-- The loop over `range(total)`, from `seq` on.
unfoldable pub fragments_from : Bytes → ℕ → ℕ → ℕ → ℕ → ℕ → Result (List Bytes)
fragments_from payload chunk_size total stream_id seq zero = ok []
fragments_from payload chunk_size total stream_id seq (suc left) = do
  front ← fragment_at payload chunk_size total stream_id seq
  rest ← fragments_from payload chunk_size total stream_id (suc seq) left
  ok (front ∷ rest)

-- The checks of `send_fragmented`, and the number of fragments.
unfoldable pub fragment_count : Bool → Bytes → ℕ → Result ℕ
fragment_count is_ws payload chunk_size = do
  raise_if is_ws (internal (str "fragmented frames are not supported over WebSocket (R5-03)"))
  raise_if (ltb max_payload (length payload)) (payload_too_large (length payload))
  raise_if (chunk_size == 0 || ltb max_payload (chunk_size + frag_header_size))
      (internal (str "invalid fragment chunk_size: " ++ decimal chunk_size))
  let total = max 1 (ceil_div (length payload) chunk_size)
  raise_if (ltb 0xffff total)
      (internal (str "payload needs " ++ (decimal total ++ str " fragments; max is 65535")))
  ok total

-- The payloads that are sent with FLAG_FRAGMENTED, and the next value of `_next_stream_id`.
unfoldable pub send_fragmented : Bool → Bytes → ℕ → ℕ → Result (List Bytes × ℕ)
send_fragmented is_ws payload chunk_size next_stream_id = do
  total ← fragment_count is_ws payload chunk_size
  frames ← fragments_from payload chunk_size total next_stream_id 0 total
  ok (frames, following_id next_stream_id)
