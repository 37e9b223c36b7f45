-- ===== src/Client/Reassembly.antt =====
-- vynkor/client.py: `_ReassemblyBuf`, `_prune_reassembly`, `_absorb_fragment` and `recv_frame`.
-- Times are milliseconds of `time.monotonic()`.
use vynkor_sdk_python.Prelude.{
  ℕ, zero, suc, ◌+◌, ◌-◌, Bool, not, ◌||◌, List, [], ◌∷◌, ◌++◌, ltb, leb, ◌==◌, if◌then◌else◌,
  length, drop, Option, none, some,
}
use vynkor_sdk_python.Prelude.Dict.{Dict, nat_key}
use vynkor_sdk_python.Prelude.Dict
use vynkor_sdk_python.Errors.{
  Bytes, Error, Result, ok, err, internal, payload_too_large, foreign, key_error, ◌>>=◌,
}
use vynkor_sdk_python.Py.Text.{str, decimal}
use vynkor_sdk_python.Framing.Primitives.{max_payload}
use vynkor_sdk_python.Framing.Header.{
  FragHeader, flag_fragmented, frag_header_size, has, without, parse_frag_header,
}

abbrev pub max_reassembly_streams : ℕ
max_reassembly_streams = 64

abbrev pub reassembly_timeout : ℕ
reassembly_timeout = 30000

pub record ReassemblyBuf : Type 0 where
  pub fragments : Dict ℕ Bytes
  pub total : ℕ
  pub flags : ℕ
  pub first_seen : ℕ
  pub buffered_bytes : ℕ

abbrev pub new_buf : ℕ → ℕ → ℕ → ReassemblyBuf
new_buf total flags now = record {
  fragments = [];
  total = total;
  flags = flags;
  first_seen = now;
  buffered_bytes = 0;
}

unfoldable pub is_complete : ReassemblyBuf → Bool
is_complete buf = length buf.fragments == buf.total

-- `b"".join(self.fragments[seq] for seq in range(…))`, from `seq` on.
unfoldable pub join_from : Dict ℕ Bytes → ℕ → ℕ → Result Bytes
join_from fragments seq zero = ok []
join_from fragments seq (suc left) =
    let rest = join_from fragments (suc seq) left in
    elim (Dict.get seq fragments) [
      | none ↦ err (foreign (key_error seq))
      | some chunk ↦ (do back ← rest; ok (chunk ++ back))
    ]

unfoldable pub reassemble : ReassemblyBuf → Result Bytes
reassemble buf = join_from buf.fragments 0 buf.total

-- `self._reassembly`
abbrev pub Streams : Type 0
Streams = Dict ℕ ReassemblyBuf

-- The ids of the sets that have waited too long.
unfoldable pub stale_ids : ℕ → Streams → List ℕ
stale_ids now [] = []
stale_ids now ((sid, buf) ∷ d) =
    let rest = stale_ids now d in
    if leb reassembly_timeout (now - buf.first_seen) then sid ∷ rest else rest

unfoldable pub remove_all : List ℕ → Streams → Streams
remove_all [] d = d
remove_all (sid ∷ sids) d = remove_all sids (Dict.remove sid d)

unfoldable pub prune_reassembly : ℕ → Streams → Streams
prune_reassembly now d = remove_all (stale_ids now d) d

abbrev pub Absorbed : Type 0
Absorbed = Result (Option (ℕ × Bytes)) × Streams

-- The buffer of a fragment's stream, old or new.
unfoldable pub open_buf : ℕ → ℕ → FragHeader → Streams → Result ReassemblyBuf × Streams
open_buf now flags h d = elim (Dict.get h.stream_id d) [
  | some buf ↦
      if not (buf.total == h.total)
      then (err (internal (str "fragment total mismatch within stream")), Dict.remove h.stream_id d)
      else (ok buf, d)
  | none ↦
      if leb max_reassembly_streams (length d)
      then (err (internal (str "too many concurrent fragment streams")), d)
      else (let buf = new_buf h.total (without flags 5) now in
          (ok buf, Dict.insert h.stream_id buf d))
]

abbrev pub size_at : ℕ → Dict ℕ Bytes → ℕ
size_at seq fragments = elim (Dict.get seq fragments) [ none ↦ 0 | some chunk ↦ length chunk ]

-- The buffer with one more chunk. `buffered_bytes` counts the replaced chunk, so `-` is exact.
unfoldable pub put_chunk : ℕ → Bytes → ReassemblyBuf → ReassemblyBuf
put_chunk seq chunk buf = record buf {
  fragments = Dict.insert seq chunk buf.fragments;
  buffered_bytes = buf.buffered_bytes - size_at seq buf.fragments + length chunk;
}

unfoldable pub finish : ℕ → ReassemblyBuf → Streams → Absorbed
finish sid buf d =
    if is_complete buf
    then ((do whole ← reassemble buf; ok (some (buf.flags, whole))), Dict.remove sid d)
    else (ok none, d)

unfoldable pub store_chunk : FragHeader → Bytes → ReassemblyBuf → Streams → Absorbed
store_chunk h chunk buf d =
    let buf' = put_chunk h.sequence chunk buf in
    if ltb max_payload buf'.buffered_bytes
    then (err (payload_too_large (max_payload + 1)), Dict.remove h.stream_id d)
    else finish h.stream_id buf' (Dict.insert h.stream_id buf' d)

abbrev pub store_opened : FragHeader → Bytes → Result ReassemblyBuf × Streams → Absorbed
store_opened h chunk (ok buf, d) = store_chunk h chunk buf d
store_opened h chunk (err e, d) = (err e, d)

unfoldable pub invalid_fragment : FragHeader → Error
invalid_fragment h = internal (
    str "invalid fragment header: seq "
    ++ (decimal h.sequence ++ (str " / total " ++ decimal h.total)))

unfoldable pub absorb_header : ℕ → ℕ → FragHeader → Bytes → Streams → Absorbed
absorb_header now flags h chunk d =
    if h.total == 0 || leb h.total h.sequence
    then (err (invalid_fragment h), d)
    else store_opened h chunk (open_buf now flags h d)

unfoldable pub absorb_fragment : ℕ → ℕ → Bytes → Streams → Absorbed
absorb_fragment now flags payload d = elim (parse_frag_header payload) [
  | err e ↦ (err e, d)
  | ok none ↦ (err (internal (str "fragment header too short")), d)
  | ok (some h) ↦ absorb_header now flags h (drop frag_header_size payload) d
]

-- One round of `recv_frame`: the time of the pruning, and the time at which the transport's read
-- came back with a frame or an error.
pub record Arrival : Type 0 where
  pub pruned_at : ℕ
  pub read_at : ℕ
  pub frame : Result (ℕ × Bytes)

-- What a call of `recv_frame` has come to when the arrivals are used up: it may still be waiting.
pub data Received : Type 0 where
  waiting : Streams → Received
  returned : ℕ × Bytes → Streams → List Arrival → Received
  raised : Error → Streams → List Arrival → Received

unfoldable pub recv_frame : List Arrival → Streams → Received
recv_frame [] d = waiting d
recv_frame (a ∷ rest) d =
    let pruned = prune_reassembly a.pruned_at d in
    elim a.frame [
      | err e ↦ raised e pruned rest
      | ok (flags, payload) ↦
          if has flags flag_fragmented
          then (let (result, d') = absorb_fragment a.read_at flags payload pruned in
              elim result [
                | err e ↦ raised e d' rest
                | ok none ↦ recv_frame rest d'
                | ok (some frame) ↦ returned frame d' rest
              ])
          else returned (flags, payload) pruned rest
    ]
