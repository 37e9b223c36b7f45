-- ===== src/Client/Invariant.antt =====
-- The reassembly table stays within its bounds, whatever the peer sends.
use vynkor_sdk_python.Prelude.{
  ℕ, ◌≤◌, ◌<◌, ◌≡◌, refl, true, not, ◌||◌, inl, inr, arith, ltb, leb, ◌==◌, ==_iff, if◌then◌else◌,
  length, length-take, take, Option, none, some, Bool-cases, Option-cases,
}
use vynkor_sdk_python.Prelude.Dict
use vynkor_sdk_python.Prelude.Dict.{
  Dict, nat_key, absent, Each, Each-insert, Each-remove, get-insert, get-remove, length-insert,
  length-remove, remove-insert_self,
}
use vynkor_sdk_python.Errors.{Bytes, Result, ok, err, internal, is_vynkor_error}
use vynkor_sdk_python.Py.Text.{str}
use vynkor_sdk_python.Framing.Primitives.{max_payload}
use vynkor_sdk_python.Framing.Header.{FragHeader, parse_frag_header, without}
use vynkor_sdk_python.Framing.Layout.{unpack_frag_header_total}
use vynkor_sdk_python.Client.Reassembly.{
  ReassemblyBuf, Streams, Absorbed, new_buf, is_complete, reassemble, max_reassembly_streams,
  open_buf, put_chunk, finish, store_chunk, store_opened, invalid_fragment, absorb_header,
  absorb_fragment,
}
use vynkor_sdk_python.Client.Counting.{
  present, weight, present-insert, weight-insert, size_at-le-weight, present-le, join_from-present,
}
use vynkor_sdk_python.Client.Bounded.{
  IsOpen, IsBounded, Each-get, remove-IsBounded, insert-IsBounded, new_buf-IsOpen,
}

-- The buffer of a fragment's stream, as `open_buf` hands it on.
abbrev Opened : FragHeader → Result ReassemblyBuf × Streams → Type 0
Opened h (ok buf, d) =
    IsOpen buf × IsBounded d × (Dict.get h.stream_id d ≡ some buf) × (buf.total ≡ h.total)
Opened h (err e, d) = (is_vynkor_error e ≡ true) × IsBounded d

found_buf :
    (h : FragHeader) (d : Streams) (buf : ReassemblyBuf)
    → IsBounded d
    → Dict.get h.stream_id d ≡ some buf
    → Opened h (
        if not (buf.total == h.total)
        then (
          err (internal (str "fragment total mismatch within stream")),
          Dict.remove h.stream_id d,
        )
        else (ok buf, d))
found_buf h d buf b e = elim (Bool-cases (buf.total == h.total)) [
  | inl same ↦ rw same (Each-get h.stream_id d b.open_sets e, b, e, (==_iff _ _).0 same)
  | inr differ ↦ rw differ (refl, remove-IsBounded h.stream_id d b)
]

fresh_buf :
    (now flags : ℕ) (h : FragHeader) (d : Streams)
    → 0 < h.total
    → IsBounded d
    → Dict.get h.stream_id d ≡ none
    → Opened h (
        if leb max_reassembly_streams (length d)
        then (err (internal (str "too many concurrent fragment streams")), d)
        else (let buf = new_buf h.total flags now in (ok buf, Dict.insert h.stream_id buf d)))
fresh_buf now flags h d pos b e =
    let buf = new_buf h.total flags now in
    let o = new_buf-IsOpen h.total flags now pos in
    elim (Bool-cases (leb max_reassembly_streams (length d))) [
      | inl full ↦ rw full (refl, b)
      | inr room ↦ rw room (
        o,
        insert-IsBounded h.stream_id buf d o (ground arith) b,
        ground (arith, get-insert h.stream_id h.stream_id buf d),
        refl,
      )
    ]

open_buf-Opened :
    (now flags : ℕ) (h : FragHeader) (d : Streams)
    → 0 < h.total
    → IsBounded d
    → Opened h (open_buf now flags h d)
unfolding open_buf
open_buf-Opened now flags h d pos b = elim (Option-cases (Dict.get h.stream_id d)) [
  | inl unknown ↦ rw (unknown, open_buf) (fresh_buf now (without flags 5) h d pos b unknown)
  | inr (buf, found) ↦ rw (found, open_buf) (found_buf h d buf b found)
]

-- One more chunk keeps the counts.
put_chunk_counts :
    (seq : ℕ) (chunk : Bytes) (buf : ReassemblyBuf)
    → IsOpen buf
    → seq < buf.total
    → let buf' = put_chunk seq chunk buf in
      (length buf'.fragments ≡ present buf.total buf'.fragments)
      × (buf'.buffered_bytes ≡ weight buf.total buf'.fragments)
unfolding put_chunk
put_chunk_counts seq chunk buf o h = (
  omega (
    arith,
    length-insert seq chunk buf.fragments,
    present-insert buf.total seq chunk buf.fragments h,
    o.counted,
  ),
  omega (
    arith,
    weight-insert buf.total seq chunk buf.fragments h,
    size_at-le-weight buf.total seq buf.fragments h,
    o.weighed,
  ),
)

-- What a call may come to: an error of the SDK's own, nothing yet, or a payload within the limit.
abbrev pub Delivered : Result (Option (ℕ × Bytes)) → Type 0
Delivered (err e) = is_vynkor_error e ≡ true
Delivered (ok none) = Unit {0}
Delivered (ok (some (flags, payload))) = length payload ≤ max_payload

abbrev pub IsSafe : Absorbed → Type 0
IsSafe (r, d) = Delivered r × IsBounded d

-- A full buffer reassembles, and its stream is gone from the table.
finish-IsSafe :
    (sid : ℕ) (buf : ReassemblyBuf) (d : Streams)
    → length buf.fragments ≡ present buf.total buf.fragments
    → buf.buffered_bytes ≡ weight buf.total buf.fragments
    → buf.buffered_bytes ≤ max_payload
    → absent (Dict.get sid d) ≡ 0
    → IsBounded d
    → IsSafe (finish sid buf (Dict.insert sid buf d))
unfolding finish is_complete reassemble
finish-IsSafe sid buf d counted weighed small known b =
    elim (Bool-cases (length buf.fragments == buf.total)) [
      | inl full ↦
          let (whole, joined, size) =
            join_from-present 0 buf.total buf.total buf.fragments (omega arith) (ground arith) in
          rw (full, joined)
            (omega (arith, size), rw (remove-insert_self sid buf d) (remove-IsBounded sid d b))
      | inr short ↦
          let o : IsOpen buf = record {
            counted = counted;
            weighed = weighed;
            bounded = small;
            incomplete = ground (arith, present-le buf.total buf.fragments);
          } in
          rw short (tt, insert-IsBounded sid buf d o (omega (arith, b.few)) b)
    ]

store_chunk-IsSafe :
    (h : FragHeader) (chunk : Bytes) (buf : ReassemblyBuf) (d : Streams)
    → h.sequence < h.total
    → Opened h (ok buf, d)
    → IsSafe (store_chunk h chunk buf d)
unfolding store_chunk
store_chunk-IsSafe h chunk buf d in_range (o, b, known, same) =
    let (counted, weighed) = put_chunk_counts h.sequence chunk buf o (rw same in_range) in
    let buf' = put_chunk h.sequence chunk buf in
    elim (Bool-cases (ltb max_payload buf'.buffered_bytes)) [
      | inl large ↦ rw large (refl, remove-IsBounded h.stream_id d b)
      | inr small ↦ rw small (
          finish-IsSafe h.stream_id buf' d (unfold put_chunk in counted)
            (unfold put_chunk in weighed) (ground arith) (rw known refl) b)
    ]

store_opened-IsSafe :
    (h : FragHeader) (chunk : Bytes) (m : Result ReassemblyBuf × Streams)
    → h.sequence < h.total
    → Opened h m
    → IsSafe (store_opened h chunk m)
store_opened-IsSafe h chunk (ok buf, d) in_range o = store_chunk-IsSafe h chunk buf d in_range o
store_opened-IsSafe h chunk (err e, d) in_range o = o

absorb_header-IsSafe :
    (now flags : ℕ) (h : FragHeader) (chunk : Bytes) (d : Streams)
    → IsBounded d
    → IsSafe (absorb_header now flags h chunk d)
unfolding absorb_header invalid_fragment
absorb_header-IsSafe now flags h chunk d b =
    elim (Bool-cases (h.total == 0 || leb h.total h.sequence)) [
      | inl invalid ↦ rw invalid (refl, b)
      | inr valid ↦ rw valid (
          store_opened-IsSafe h chunk (open_buf now flags h d) (ground arith)
            (open_buf-Opened now flags h d (ground arith) b))
    ]

-- Parsing a fragment's header raises nothing: ten bytes always unpack.
parse_frag_header_total :
    (payload : Bytes) → (o : Option FragHeader) × (parse_frag_header payload ≡ ok o)
unfolding parse_frag_header
parse_frag_header_total payload = elim (Bool-cases (ltb (length payload) 10)) [
  | inl short ↦ (none, rw short)
  | inr long ↦
      let (h, e) =
        unpack_frag_header_total (take 10 payload) (ground (arith, length-take 10 payload)) in
      (some h, rw (long, e))
]

-- Whatever a fragment's payload holds, `_absorb_fragment` keeps the table within its bounds (at
-- most 64 sets, each with fewer fragments than it announces and at most MAX_PAYLOAD bytes), and it
-- raises a `VynkorError`, waits for more, or delivers a payload of at most MAX_PAYLOAD bytes: never
-- a `KeyError` for a fragment that is missing.
pub absorb_fragment-IsSafe :
    (now flags : ℕ) (payload : Bytes) (d : Streams)
    → IsBounded d
    → IsSafe (absorb_fragment now flags payload d)
unfolding absorb_fragment
absorb_fragment-IsSafe now flags payload d b =
    let (o, e) = parse_frag_header_total payload in parsed o e
  where
    parsed :
        (o : Option FragHeader)
        → parse_frag_header payload ≡ ok o
        → IsSafe (absorb_fragment now flags payload d)
    parsed none e = rw (e, absorb_fragment) (refl, b)
    parsed (some h) e = rw (e, absorb_fragment) (absorb_header-IsSafe now flags h _ d b)
