-- ===== src/Client/AnyOrder.antt =====
-- vynkor/client.py: `recv_frame` on the frames of one stream in any order.
use vynkor_sdk_python.Prelude.{
  ℕ, suc, ◌+◌, ◌*◌, ◌≤◌, ◌<◌, ◌≡◌, refl, ap, ◌∙◌, true, List, [], ◌∷◌, ◌++◌, length, arith,
}
use mathlib.Core.List.{Mem}
use vynkor_sdk_python.Prelude.Dict.{nat_key}
use vynkor_sdk_python.Errors.{Bytes, ok}
use vynkor_sdk_python.Framing.Primitives.{max_payload}
use vynkor_sdk_python.Framing.Header.{flag_fragmented, has, without}
use vynkor_sdk_python.Client.Reassembly.{
  ReassemblyBuf, new_buf, put_chunk, Streams, stale_ids, remove_all, prune_reassembly,
  reassembly_timeout, open_buf, Arrival, returned, recv_frame,
}
use vynkor_sdk_python.Client.Fragments.{header_at, chunk_at}
use vynkor_sdk_python.Client.Chunks.{Holds, put_chunk-Holds}
use vynkor_sdk_python.Client.Numbers.{AreNumbered}
use vynkor_sdk_python.Client.Storing.{
  new_buf-Holds, IsPart, store_chunk_partial, store_chunk_last, open_first, open_next, absorb_frame,
  prune_young, part-new, IsPart-next,
}
use vynkor_sdk_python.Client.Rounds.{
  Clocks, arrivals, recv_goes_on, recv_returns, put_chunk-flags, put_chunk-seen,
}

module _ (payload : Bytes) (c total sid flags : ℕ) where
  module _ (small : length payload ≤ max_payload) (covers : length payload ≤ total * c) where
    -- The table is ready for the `n`-th arrival: no pruning changes it, and `_absorb_fragment` goes
    -- on with a buffer that has the fragments seen.
    pub record IsReady (clocks : Clocks) (n : ℕ) (seen : List ℕ) (d : Streams) : Type 0 where
      buf : ReassemblyBuf
      kept : prune_reassembly (clocks.pruned n) d ≡ d
      opened :
          (k : ℕ)
          → open_buf (clocks.read n) flags (header_at total sid k) d ≡ (ok buf, (sid, buf) ∷ [])
      held : Holds payload c total seen buf
      same_flags : buf.flags ≡ without flags 5
      first_read : buf.first_seen ≡ clocks.read 0

    pub start-IsReady : (clocks : Clocks) → IsReady clocks 0 [] []
    unfolding prune_reassembly stale_ids remove_all
    start-IsReady clocks = record {
      buf = new_buf total (without flags 5) (clocks.read 0);
      kept = refl;
      opened = open_first payload c total sid flags small covers (clocks.read 0);
      held = new_buf-Holds payload c total sid flags (clocks.read 0);
      same_flags = refl;
      first_read = refl;
    }

    next-IsReady :
        (clocks : Clocks) (n k : ℕ) (seen : List ℕ) (d : Streams) (r : IsReady clocks n seen d)
        → ¬ Mem k seen
        → clocks.pruned (suc n) < clocks.read 0 + reassembly_timeout
        → IsReady clocks (suc n) (k ∷ seen) ((sid, put_chunk k (chunk_at payload c k) r.buf) ∷ [])
    next-IsReady clocks n k seen d r new young =
        let buf = put_chunk k (chunk_at payload c k) r.buf in
        let held = put_chunk-Holds payload c total k seen r.buf new r.held in
        let first_read : buf.first_seen ≡ clocks.read 0 =
          put_chunk-seen k (chunk_at payload c k) r.buf ∙ r.first_read in
        record {
          buf = buf;
          kept =
              prune_young payload c total sid flags small covers (clocks.pruned (suc n)) buf
                (omega (arith, first_read));
          opened = λ j.
              open_next payload c total sid flags small covers (clocks.read (suc n)) j buf
                held.same_total;
          held = held;
          same_flags = put_chunk-flags k (chunk_at payload c k) r.buf ∙ r.same_flags;
          first_read = first_read;
        }

    abbrev first_arrival : ℕ → Clocks → Bytes → Arrival
    first_arrival n clocks frame = record {
      pruned_at = clocks.pruned n;
      read_at = clocks.read n;
      frame = ok (flags, frame);
    }

    -- The loop of `recv_frame` from the `n`-th arrival on.
    pub recv_rest :
        (n : ℕ) (clocks : Clocks) (k : ℕ) (order seen : List ℕ) (frame : Bytes)
        (frames : List Bytes) (d : Streams)
        → AreNumbered payload c total sid (k ∷ order) (frame ∷ frames)
        → IsPart payload c total sid flags small covers (k ∷ order) seen
        → ((i : ℕ)
            → i < n + suc (length order)
            → clocks.pruned i < clocks.read 0 + reassembly_timeout)
        → has flags flag_fragmented ≡ true
        → IsReady clocks n seen d
        → recv_frame (arrivals flags clocks n (frame ∷ frames)) d
          ≡ returned (without flags 5, payload) [] []
    unfolding arrivals
    recv_rest n clocks k [] seen frame [] d (numbered, done) part young f r =
        let new = part-new payload c total sid flags small covers k [] seen part in
        let stored =
          absorb_frame payload c total sid flags small covers (clocks.read n) k numbered.head d _
            r.buf numbered.packed numbered.in_range (r.opened k)
          ∙ store_chunk_last payload c total sid flags small covers k seen r.buf r.buf r.held new
              (IsPart-next payload c total sid flags small covers k [] seen part) in
        rw numbered.whole (
          recv_returns (first_arrival n clocks (numbered.head ++ chunk_at payload c k)) [] flags
            (numbered.head ++ chunk_at payload c k) d [] (r.buf.flags, payload) refl f r.kept stored
          ∙ ap (λ w. returned (w, payload) [] []) r.same_flags)
    recv_rest n clocks k (j ∷ order) seen frame (next ∷ frames) d (numbered, others) part young f
          r =
        let new = part-new payload c total sid flags small covers k (j ∷ order) seen part in
        let less = IsPart-next payload c total sid flags small covers k (j ∷ order) seen part in
        let stored =
          absorb_frame payload c total sid flags small covers (clocks.read n) k numbered.head d _
            r.buf numbered.packed numbered.in_range (r.opened k)
          ∙ store_chunk_partial payload c total sid flags small covers k (j ∷ order) seen r.buf
              r.buf r.held new less (omega arith) in
        let ready = next-IsReady clocks n k seen d r new (young (suc n) (omega arith)) in
        rw numbered.whole (
          recv_goes_on (first_arrival n clocks (numbered.head ++ chunk_at payload c k))
            (arrivals flags clocks (suc n) (next ∷ frames)) flags
            (numbered.head ++ chunk_at payload c k) d
            ((sid, put_chunk k (chunk_at payload c k) r.buf) ∷ []) refl f r.kept stored
          ∙ recv_rest (suc n) clocks j order (k ∷ seen) next frames
              ((sid, put_chunk k (chunk_at payload c k) r.buf) ∷ []) others less
              (λ i lt. young i (omega arith)) f ready)
    recv_rest n clocks k [] seen frame (next ∷ frames) d (numbered, others) part young f r =
        absurd others
    recv_rest n clocks k (j ∷ order) seen frame [] d (numbered, others) part young f r =
        absurd others
