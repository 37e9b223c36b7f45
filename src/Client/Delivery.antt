-- ===== src/Client/Delivery.antt =====
-- vynkor/client.py: what `send_fragmented` sends, `recv_frame` returns.
use vynkor_sdk_python.Prelude.{
  ℕ, zero, suc, ◌+◌, ◌*◌, ◌≤◌, ◌<◌, ◌≡◌, sym, ap, subst, ◌∙◌, true, false, ◌||◌, List, [], ◌∷◌, map,
  range_from, append-nil, ltb, ◌==◌, length, max, arith,
}
use mathlib.Core.List.{Perm}
use mathlib.Core.List.Perm
use vynkor_sdk_python.Prelude.Ranges.{length-perm, length-range_from}
use vynkor_sdk_python.Prelude.Dict.{nat_key}
use vynkor_sdk_python.Errors.{Bytes, ok, >>=-eq-ok, raise_if-eq-ok, ok-injective}
use vynkor_sdk_python.Framing.Primitives.{max_payload}
use vynkor_sdk_python.Framing.Header.{flag_fragmented, frag_header_size, has, without}
use vynkor_sdk_python.Client.Reassembly.{reassembly_timeout, returned, recv_frame}
use vynkor_sdk_python.Client.Fragments.{ceil_div, fragments_from, fragment_count, send_fragmented}
use vynkor_sdk_python.Client.Chunks.{ceil_div_covers}
use vynkor_sdk_python.Client.Rounds.{Clocks, arrivals, fragments_from-eq-ok}
use vynkor_sdk_python.Client.Numbers.{
  number_of, AreNumbered, fragments_from-IsOwn, order-AreNumbered,
}
use vynkor_sdk_python.Client.AnyOrder.{start-IsReady, recv_rest}

length-fragments_from :
    (payload : Bytes) (c total sid k left : ℕ) (frames : List Bytes)
    → fragments_from payload c total sid k left ≡ ok frames
    → length frames ≡ left
unfolding fragments_from
length-fragments_from payload c total sid k zero frames sent = sym (ap length (ok-injective sent))
length-fragments_from payload c total sid k (suc left) frames sent =
    let (head, rest, header, whole, later) =
      fragments_from-eq-ok payload c total sid k left frames sent in
    ap length whole ∙ ap suc (length-fragments_from payload c total sid (suc k) left rest later)

-- What a successful `send_fragmented` has checked, and the frames that it sends.
send_fragmented-eq-ok :
    (payload : Bytes) (c next following : ℕ) (frames : List Bytes)
    → send_fragmented false payload c next ≡ ok (frames, following)
    → let total = max 1 (ceil_div (length payload) c) in
      (length payload ≤ max_payload)
      × (0 < c)
      × (fragments_from payload c total next 0 total ≡ ok frames)
unfolding send_fragmented fragment_count
send_fragmented-eq-ok payload c next following frames sent =
    let (total, counted, more) = >>=-eq-ok (fragment_count false payload c) _ sent in
    let (s, c1) = raise_if-eq-ok (ltb max_payload (length payload)) _ _ counted in
    let (v, c2) = raise_if-eq-ok (c == 0 || ltb max_payload (c + frag_header_size)) _ _ c1 in
    let (few, c3) = raise_if-eq-ok (ltb 0xffff (max 1 (ceil_div (length payload) c))) _ _ c2 in
    let (got, from, pair) = >>=-eq-ok (fragments_from payload c total next 0 total) _ more in
    let same : max 1 (ceil_div (length payload) c) ≡ total = ok-injective c3 in
    let frames_same : got ≡ frames = ap (λ x. x.0) (ok-injective pair) in
    (
      ground arith,
      ground arith,
      subst (λ n. fragments_from payload c n next 0 n ≡ ok frames) (sym same)
          (from ∙ ap ok frames_same),
    )

-- The arrivals of all frames of a stream, in the order of their numbers' list.
recv_numbered :
    (payload : Bytes) (c total sid flags : ℕ) (small : length payload ≤ max_payload)
    (covers : length payload ≤ total * c) (clocks : Clocks) (arrived : List Bytes)
    → 0 < total
    → Perm (map number_of arrived) (range_from 0 total)
    → AreNumbered payload c total sid (map number_of arrived) arrived
    → has flags flag_fragmented ≡ true
    → ((i : ℕ) → i < total → clocks.pruned i < clocks.read 0 + reassembly_timeout)
    → recv_frame (arrivals flags clocks 0 arrived) [] ≡ returned (without flags 5, payload) [] []
recv_numbered payload c total sid flags small covers clocks [] pos p numbered f young =
    absurd (omega (arith, length-perm p, length-range_from 0 total))
recv_numbered payload c total sid flags small covers clocks (frame ∷ rest) pos p numbered f young =
    let order = map number_of rest in
    recv_rest payload c total sid flags small covers 0 clocks (number_of frame) order [] frame rest
      [] numbered
      (subst (λ xs. Perm xs (range_from 0 total)) (sym (append-nil (number_of frame ∷ order))) p)
      (λ i lt. young i (omega (arith, length-perm p, length-range_from 0 total))) f
      (start-IsReady payload c total sid flags small covers clocks)

-- The frames of a successful `send_fragmented`, received in any order on a connection with no other
-- unfinished stream, and each within 30 s of the first: `recv_frame` goes on until the last and
-- returns the payload, with FLAG_FRAGMENTED and FLAG_MAC_PRESENT cleared, and leaves no stream.
pub recv_frame-send_fragmented :
    (payload : Bytes) (c next following flags : ℕ) (clocks : Clocks) (frames arrived : List Bytes)
    → send_fragmented false payload c next ≡ ok (frames, following)
    → Perm arrived frames
    → has flags flag_fragmented ≡ true
    → ((i : ℕ) → i < length frames → clocks.pruned i < clocks.read 0 + reassembly_timeout)
    → recv_frame (arrivals flags clocks 0 arrived) [] ≡ returned (without flags 5, payload) [] []
recv_frame-send_fragmented payload c next following flags clocks frames arrived sent shuffled f
      young =
    let total = max 1 (ceil_div (length payload) c) in
    let (small, pos, from) = send_fragmented-eq-ok payload c next following frames sent in
    let covers = ceil_div_covers (length payload) c pos in
    let count = length-fragments_from payload c total next 0 total frames from in
    let (numbers, own, packed) =
      fragments_from-IsOwn payload c total next 0 total frames from (omega arith) in
    recv_numbered payload c total next flags small covers clocks arrived (omega arith)
      (subst (Perm (map number_of arrived)) numbers (Perm.map number_of shuffled))
      (order-AreNumbered payload c total next arrived (λ k lt. packed k (omega arith) lt)
        (λ frame m. own frame ((Perm.mem_iff shuffled).0 m)))
      f (λ i lt. young i (omega (arith, count)))
