-- ===== src/Client/Rounds.antt =====
-- vynkor/client.py: the frames of one stream as they arrive, and one round of `recv_frame`.
use vynkor_sdk_python.Prelude.{
  ℕ, suc, ◌≡◌, refl, sym, ap, ◌∙◌, true, List, [], ◌∷◌, ◌++◌, none, some,
}
use vynkor_sdk_python.Prelude.Dict.{nat_key}
use vynkor_sdk_python.Errors.{Bytes, ok, >>=-eq-ok, ok-injective}
use vynkor_sdk_python.Framing.Header.{flag_fragmented, has, pack_frag_header}
use vynkor_sdk_python.Client.Reassembly.{
  ReassemblyBuf, put_chunk, Streams, prune_reassembly, absorb_fragment, Arrival, returned,
  recv_frame,
}
use vynkor_sdk_python.Client.Fragments.{header_at, chunk_at, fragment_at, fragments_from}

-- The frames of one stream as they arrive, with the clock at each pruning and at each reading.
pub record Clocks : Type 0 where
  pub pruned : ℕ → ℕ
  pub read : ℕ → ℕ

unfoldable pub arrivals : ℕ → Clocks → ℕ → List Bytes → List Arrival
arrivals flags clocks k [] = []
arrivals flags clocks k (frame ∷ frames) =
    record { pruned_at = clocks.pruned k; read_at = clocks.read k; frame = ok (flags, frame) }
    ∷ arrivals flags clocks (suc k) frames

pub put_chunk-flags :
    (k : ℕ) (chunk : Bytes) (buf : ReassemblyBuf) → (put_chunk k chunk buf).flags ≡ buf.flags
unfolding put_chunk
put_chunk-flags k chunk buf = refl

pub put_chunk-seen :
    (k : ℕ) (chunk : Bytes) (buf : ReassemblyBuf)
    → (put_chunk k chunk buf).first_seen ≡ buf.first_seen
unfolding put_chunk
put_chunk-seen k chunk buf = refl

pub fragments_from-eq-ok :
    (payload : Bytes) (c total sid k left : ℕ) (frames : List Bytes)
    → fragments_from payload c total sid k (suc left) ≡ ok frames
    → (head : Bytes) × (rest : List Bytes) × (pack_frag_header (header_at total sid k) ≡ ok head)
      × (frames ≡ (head ++ chunk_at payload c k) ∷ rest)
      × (fragments_from payload c total sid (suc k) left ≡ ok rest)
unfolding fragments_from fragment_at
fragments_from-eq-ok payload c total sid k left frames sent =
    let (front, packed, more) = >>=-eq-ok (fragment_at payload c total sid k) _ sent in
    let (rest, later, whole) = >>=-eq-ok (fragments_from payload c total sid (suc k) left) _ more in
    let (head, header, body) = >>=-eq-ok (pack_frag_header (header_at total sid k)) _ packed in
    (head, rest, header, sym (ap (λ x. x ∷ rest) (ok-injective body) ∙ ok-injective whole), later)

-- One round of `recv_frame` on a fragment, by what `_absorb_fragment` comes to.
pub recv_goes_on :
    (a : Arrival) (rest : List Arrival) (flags : ℕ) (frame : Bytes) (d d' : Streams)
    → a.frame ≡ ok (flags, frame)
    → has flags flag_fragmented ≡ true
    → prune_reassembly a.pruned_at d ≡ d
    → absorb_fragment a.read_at flags frame d ≡ (ok none, d')
    → recv_frame (a ∷ rest) d ≡ recv_frame rest d'
unfolding recv_frame
recv_goes_on a rest flags frame d d' got f kept absorbed =
    let absorbed' = ap (absorb_fragment a.read_at flags frame) kept ∙ absorbed in
    rw (got, recv_frame)
      (rw f (rw (absorbed', recv_frame) (ap (λ x. recv_frame rest x.1) absorbed')))

pub recv_returns :
    (a : Arrival) (rest : List Arrival) (flags : ℕ) (frame : Bytes) (d d' : Streams)
    → (whole : ℕ × Bytes) → a.frame ≡ ok (flags, frame)
    → has flags flag_fragmented ≡ true
    → prune_reassembly a.pruned_at d ≡ d
    → absorb_fragment a.read_at flags frame d ≡ (ok (some whole), d')
    → recv_frame (a ∷ rest) d ≡ returned whole d' rest
unfolding recv_frame
recv_returns a rest flags frame d d' whole got f kept absorbed =
    let absorbed' = ap (absorb_fragment a.read_at flags frame) kept ∙ absorbed in
    rw (got, recv_frame)
      (rw f (rw (absorbed', recv_frame) (ap (λ x. returned whole x.1 rest) absorbed')))
