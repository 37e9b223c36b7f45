-- ===== src/Client/Storing.antt =====
-- vynkor/client.py: the storing of the fragments of one stream in any order.
use vynkor_sdk_python.Prelude.{
  ℕ, ◌+◌, ◌-◌, ◌*◌, ◌≤◌, ◌<◌, ◌≡◌, refl, ap, true, false, ◌||◌, List, [], ◌∷◌, ◌++◌, ltb, leb, ◌==◌,
  length, none, some, arith, ==_iff, range_from, take, take_all, length-append,
}
use mathlib.Core.List.{Perm, perm_middle, Mem, not-mem-nil, mem-append_right, Nodup-cons}
use mathlib.Core.List.Perm
use vynkor_sdk_python.Prelude.Ranges.{
  length-perm, length-range_from, mem-range_from, Nodup-range_from,
}
use vynkor_sdk_python.Prelude.Dict
use vynkor_sdk_python.Prelude.Dict.{Dict, nat_key}
use vynkor_sdk_python.Errors.{Bytes, ok}
use vynkor_sdk_python.Framing.Primitives.{max_payload}
use vynkor_sdk_python.Framing.Header.{without, pack_frag_header}
use vynkor_sdk_python.Framing.Layout.{parse_frag_header-pack_frag_header}
use vynkor_sdk_python.Client.Reassembly.{
  ReassemblyBuf, new_buf, is_complete, put_chunk, Streams, stale_ids, remove_all, prune_reassembly,
  reassembly_timeout, open_buf, finish, store_chunk, absorb_header, absorb_fragment,
}
use vynkor_sdk_python.Client.Fragments.{header_at, chunk_at}
use vynkor_sdk_python.Client.Chunks.{
  Holds, put_chunk-Holds, reassemble-Holds, sizes, sizes-append, sizes-perm, sizes-range_from,
}
use vynkor_sdk_python.Client.Rounds.{put_chunk-flags}

module _ (payload : Bytes) (c total sid flags : ℕ) where
  pub new_buf-Holds : (now : ℕ) → Holds payload c total [] (new_buf total (without flags 5) now)
  unfolding Dict.get
  new_buf-Holds now = record {
    has = λ i m. absurd (not-mem-nil m);
    lacks = λ i m. refl;
    counted = refl;
    weighed = refl;
    same_total = refl;
  }

  module _ (small : length payload ≤ max_payload) (covers : length payload ≤ total * c) where
    -- The numbers of some fragments of the stream, beside others.
    abbrev pub IsPart : List ℕ → List ℕ → Type 0
    IsPart others seen = Perm (others ++ seen) (range_from 0 total)

    stored_bytes :
        (others seen : List ℕ) (buf : ReassemblyBuf)
        → IsPart others seen
        → Holds payload c total seen buf
        → ltb max_payload buf.buffered_bytes ≡ false
    stored_bytes others seen buf part h =
        let all = sizes-range_from payload c total 0 total in
        let z : 0 * c ≡ 0 = omega arith in
        let none_yet : length (take (0 * c) payload) ≡ 0 = rw z refl in
        let e : (0 + total) * c ≡ total * c = omega arith in
        let whole : sizes payload c total (range_from 0 total) ≡ length payload = omega (
          arith,
          all,
          none_yet,
          ap (λ n. length (take n payload)) e,
          ap length (take_all (total * c) payload covers),
        ) in
        ground (
          arith,
          h.weighed,
          whole,
          sizes-perm payload c total part,
          sizes-append payload c total others seen,
        )

    length-part : (others seen : List ℕ) → IsPart others seen → length others + length seen ≡ total
    length-part others seen part =
        omega (arith, length-append others seen, length-perm part, length-range_from 0 total)

    -- A fragment that is not the last one is kept.
    pub store_chunk_partial :
        (k : ℕ) (others seen : List ℕ) (buf old : ReassemblyBuf)
        → Holds payload c total seen buf
        → ¬ Mem k seen
        → IsPart others (k ∷ seen)
        → 0 < length others
        → store_chunk (header_at total sid k) (chunk_at payload c k) buf ((sid, old) ∷ [])
          ≡ (ok none, (sid, put_chunk k (chunk_at payload c k) buf) ∷ [])
    unfolding store_chunk finish is_complete Dict.insert
    store_chunk_partial k others seen buf old h new part more_to_come =
        let h' = put_chunk-Holds payload c total k seen buf new h in
        let fits =
          stored_bytes others (k ∷ seen) (put_chunk k (chunk_at payload c k) buf) part h' in
        let self : (sid == sid) ≡ true = (==_iff sid sid).1 refl in
        let count = length-part others (k ∷ seen) part in
        let more : (length (put_chunk k (chunk_at payload c k) buf).fragments
              == (put_chunk k (chunk_at payload c k) buf).total)
            ≡ false =
          ground (arith, h'.counted, h'.same_total, count) in
        rw (fits, self, more) refl

    -- The last fragment completes the payload, and the stream is forgotten.
    pub store_chunk_last :
        (k : ℕ) (seen : List ℕ) (buf old : ReassemblyBuf)
        → Holds payload c total seen buf
        → ¬ Mem k seen
        → IsPart [] (k ∷ seen)
        → store_chunk (header_at total sid k) (chunk_at payload c k) buf ((sid, old) ∷ [])
          ≡ (ok (some (buf.flags, payload)), [])
    unfolding store_chunk finish is_complete Dict.insert Dict.remove
    store_chunk_last k seen buf old h new part =
        let h' = put_chunk-Holds payload c total k seen buf new h in
        let fits = stored_bytes [] (k ∷ seen) (put_chunk k (chunk_at payload c k) buf) part h' in
        let self : (sid == sid) ≡ true = (==_iff sid sid).1 refl in
        let count = length-part [] (k ∷ seen) part in
        let full : (length (put_chunk k (chunk_at payload c k) buf).fragments
              == (put_chunk k (chunk_at payload c k) buf).total)
            ≡ true =
          ground (arith, h'.counted, h'.same_total, count) in
        let whole =
          reassemble-Holds payload c total (k ∷ seen) (put_chunk k (chunk_at payload c k) buf) h'
            (λ i lt. (Perm.mem_iff part).1 (mem-range_from i 0 total (omega arith) (omega arith)))
            covers in
        rw (fits, self, full, self, whole, put_chunk-flags k (chunk_at payload c k) buf) refl

    -- The buffer that `_absorb_fragment` finds or makes for a fragment.
    pub open_first :
        (now k : ℕ)
        → open_buf now flags (header_at total sid k) [] ≡ (
          ok (new_buf total (without flags 5) now),
          (sid, new_buf total (without flags 5) now) ∷ [],
        )
    unfolding open_buf Dict.get Dict.insert
    open_first now k = refl

    pub open_next :
        (now k : ℕ) (buf : ReassemblyBuf)
        → buf.total ≡ total
        → open_buf now flags (header_at total sid k) ((sid, buf) ∷ []) ≡ (ok buf, (sid, buf) ∷ [])
    unfolding open_buf Dict.get
    open_next now k buf e =
        let self : (sid == sid) ≡ true = (==_iff sid sid).1 refl in
        let same : (buf.total == total) ≡ true = (==_iff buf.total total).1 e in ground arith

    -- `_absorb_fragment` on a frame of the stream is the storing of its chunk.
    pub absorb_frame :
        (now k : ℕ) (head : Bytes) (d d' : Streams) (buf : ReassemblyBuf)
        → pack_frag_header (header_at total sid k) ≡ ok head
        → k < total
        → open_buf now flags (header_at total sid k) d ≡ (ok buf, d')
        → absorb_fragment now flags (head ++ chunk_at payload c k) d
          ≡ store_chunk (header_at total sid k) (chunk_at payload c k) buf d'
    unfolding absorb_fragment absorb_header
    absorb_frame now k head d d' buf packed lt opened =
        let (parsed, cut) =
          parse_frag_header-pack_frag_header (header_at total sid k) head (chunk_at payload c k)
            packed in
        let valid : (total == 0 || leb total k) ≡ false = ground arith in
        rw (parsed, absorb_fragment) (rw (cut, valid, opened) refl)

    pub prune_young :
        (now : ℕ) (buf : ReassemblyBuf)
        → now < buf.first_seen + reassembly_timeout
        → prune_reassembly now ((sid, buf) ∷ []) ≡ (sid, buf) ∷ []
    unfolding prune_reassembly stale_ids remove_all
    prune_young now buf young =
        let kept : leb reassembly_timeout (now - buf.first_seen) ≡ false = ground arith in
        rw kept refl

    -- The number of a frame that is still to come has not been seen.
    pub part-new : (k : ℕ) (others seen : List ℕ) → IsPart (k ∷ others) seen → ¬ Mem k seen
    part-new k others seen part m =
        (Nodup-cons.0 (Perm.nodup (Perm.symm part) (Nodup-range_from 0 total))).0
          (mem-append_right others m)

    pub IsPart-next :
        (k : ℕ) (others seen : List ℕ) → IsPart (k ∷ others) seen → IsPart others (k ∷ seen)
    IsPart-next k others seen part = Perm.trans (perm_middle others seen) part
