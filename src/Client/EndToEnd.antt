-- ===== src/Client/EndToEnd.antt =====
-- vynkor/client.py: a fragmented payload on its way over a Unix socket.
use vynkor_sdk_python.Prelude.{
  ℕ, zero, suc, ◌+◌, ◌≡◌, ◌<◌, refl, sym, ap, subst, ◌∙◌, true, false, List, [], ◌∷◌, ◌++◌, Option,
  none, some, length, arith,
}
use mathlib.Core.List.Perm
use vynkor_sdk_python.Errors.{Str, Bytes, Result, ok, err, ◌>>=◌, >>=-eq-ok}
use vynkor_sdk_python.Framing.Primitives.{Primitives, IsSound}
use vynkor_sdk_python.Framing.Header.{flag_fragmented, has, without}
use vynkor_sdk_python.Framing.Pack.{mac_flags}
use vynkor_sdk_python.Framing.Read.{parse_frame}
use vynkor_sdk_python.Framing.Async.{Reader, bytes_of, in_time}
use vynkor_sdk_python.Framing.Suffix.{async_read_frame_exact}
use vynkor_sdk_python.Framing.RoundTrip.{Taggable, parse_frame-pack_frame}
use vynkor_sdk_python.Client.Session.{Session, outgoing_frame}
use vynkor_sdk_python.Client.Reassembly.{reassembly_timeout, returned, recv_frame}
use vynkor_sdk_python.Client.Fragments.{
  fragment_at, fragments_from, fragment_count, following_id, send_fragmented,
}
use vynkor_sdk_python.Client.Transport.{Bindings, send_raw_with_flags}
use vynkor_sdk_python.Client.Exchange.{outgoing_frame-eq-ok, send_raw_with_flags-eq-ok}
use vynkor_sdk_python.Client.Rounds.{Clocks, arrivals}
use vynkor_sdk_python.Client.Delivery.{recv_frame-send_fragmented}
use vynkor_sdk_python.Client.Stream.{
  Written, wrote, send_from, send_counted, send_fragments, uds_arrivals,
}

-- The bytes of each frame come in one piece of the reader, within the frame's time of the first.
abbrev pub AreTimely : ℕ → List Bytes → List Reader → Type 0
AreTimely frame_timeout [] [] = Unit
AreTimely frame_timeout (frame ∷ frames) ((t ∷ ts) ∷ pieces) =
    (bytes_of (t ∷ ts) ≡ frame)
    × (in_time (t.at + frame_timeout) ts ≡ true)
    × AreTimely frame_timeout frames pieces
AreTimely frame_timeout _ _ = ⊥

-- The pieces one behind the other, and what follows.
abbrev pub joined : List Reader → Reader → Reader
joined [] next = next
joined (piece ∷ pieces) next = piece ++ joined pieces next

fragment_flags :
    (key : Option Bytes)
    → (has (mac_flags key 4) flag_fragmented ≡ true)
      × Taggable key 4
      × (without (mac_flags key 4) 5 ≡ 0)
fragment_flags none = (refl, refl, refl)
fragment_flags (some key) = (refl, tt, refl)

wrote-eq-ok :
    (one : Result Bytes) (rest : Written) (frames : List Bytes)
    → wrote one rest ≡ (frames, ok tt)
    → (frame : Bytes) × (one ≡ ok frame) × (rest.1 ≡ ok tt) × (frames ≡ frame ∷ rest.0)
unfolding wrote
wrote-eq-ok (err e) rest frames h =
    let failed : ◌≡◌ {A = Result (Unit {0})} (err e) (ok tt) = ap (λ w. w.1) h in absurd (cc)
wrote-eq-ok (ok frame) (sent, result) frames h =
    (frame, refl, ap (λ w. w.1) h, sym (ap (λ w. w.0) h))

module _ (prim : Primitives) (sound : IsSound prim) (bindings : Bindings) (session : Session)
    (write : Bytes → Result (Unit {0})) (target : Str) where
  -- The frames of some payloads.
  abbrev AreFramed : List Bytes → List Bytes → Type 0
  AreFramed [] [] = Unit
  AreFramed (payload ∷ payloads) (frame ∷ frames) =
      (outgoing_frame prim session target flag_fragmented payload ≡ ok frame)
      × AreFramed payloads frames
  AreFramed _ _ = ⊥

  send_from-eq-ok :
      (payload : Bytes) (c total sid seq left : ℕ) (frames : List Bytes)
      → send_from prim bindings session write target payload c total sid seq left ≡ (frames, ok tt)
      → (payloads : List Bytes) × (fragments_from payload c total sid seq left ≡ ok payloads)
        × AreFramed payloads frames
  unfolding send_from fragments_from
  send_from-eq-ok payload c total sid seq zero frames h =
      ([], refl, subst (AreFramed []) (ap (λ w. w.0) h) tt)
  send_from-eq-ok payload c total sid seq (suc left) frames h =
      let rest = send_from prim bindings session write target payload c total sid (suc seq) left in
      let one = fragment_at payload c total sid seq >>= λ f.
      send_raw_with_flags prim bindings session write target flag_fragmented f in
      let (frame, got, done, whole) = wrote-eq-ok one rest frames h in
      let (f, packed, sent) = >>=-eq-ok (fragment_at payload c total sid seq) _ got in
      let (payloads, later, framed) =
        send_from-eq-ok payload c total sid (suc seq) left rest.0 (ap (λ r. (rest.0, r)) done) in
      (
        f ∷ payloads,
        rw (packed, later) refl,
        subst (AreFramed (f ∷ payloads)) (sym whole) (
          send_raw_with_flags-eq-ok prim sound bindings session write target flag_fragmented f frame
              sent,
          framed,
        ),
      )

  AreFramed-length :
      (payloads frames : List Bytes) → AreFramed payloads frames → length payloads ≡ length frames
  AreFramed-length [] [] framed = refl
  AreFramed-length (payload ∷ payloads) (frame ∷ frames) (sent, framed) =
      ap suc (AreFramed-length payloads frames framed)
  AreFramed-length [] (frame ∷ frames) framed = absurd framed
  AreFramed-length (payload ∷ payloads) [] framed = absurd framed

  counted-eq-ok :
      (payload : Bytes) (c sid following : ℕ) (frames : List Bytes) (counted : Result ℕ)
      → send_counted prim bindings session write target payload c sid counted
        ≡ ((frames, ok tt), following)
      → (total : ℕ) × (payloads : List Bytes) × (counted ≡ ok total)
        × (fragments_from payload c total sid 0 total ≡ ok payloads)
        × AreFramed payloads frames
  unfolding send_counted
  counted-eq-ok payload c sid following frames (err e) h =
      let failed : ◌≡◌ {A = Result (Unit {0})} (err e) (ok tt) = ap (λ w. w.0.1) h in absurd (cc)
  counted-eq-ok payload c sid following frames (ok total) h =
      let (payloads, built, framed) =
        send_from-eq-ok payload c total sid 0 total frames (ap (λ w. w.0) h) in
      (total, payloads, refl, built, framed)

  -- The fragments behind the frames that were written.
  pub send_fragments-eq-ok :
      (payload : Bytes) (c sid following : ℕ) (frames : List Bytes)
      → session.is_ws ≡ false
      → send_fragments prim bindings session write target payload c sid
        ≡ ((frames, ok tt), following)
      → (payloads : List Bytes) × (send_fragmented false payload c sid
          ≡ ok (payloads, following_id sid))
        × AreFramed payloads frames
  unfolding send_fragments send_fragmented
  send_fragments-eq-ok payload c sid following frames uds h =
      let (total, payloads, counted, built, framed) =
        counted-eq-ok payload c sid following frames (fragment_count session.is_ws payload c) h in
      let count = ap (λ w. fragment_count w payload c) (sym uds) ∙ counted in
      (payloads, rw (count, built) refl, framed)

  module _ (closes frame_timeout : ℕ) (clocks : Clocks) where
    uds_arrivals-AreFramed :
        (n : ℕ) (payloads frames : List Bytes) (pieces : List Reader) (next : Reader)
        → AreFramed payloads frames
        → AreTimely frame_timeout frames pieces
        → uds_arrivals prim closes session.session_key frame_timeout clocks n
            (length frames)
            (joined pieces next)
          ≡ arrivals (mac_flags session.session_key 4) clocks n payloads
    unfolding uds_arrivals arrivals
    uds_arrivals-AreFramed n [] [] pieces next framed timely = refl
    uds_arrivals-AreFramed n (payload ∷ payloads) (frame ∷ frames) ((t ∷ ts) ∷ pieces) next
          (sent, framed) (whole, soon, timely) =
        let key = session.session_key in
        let (fragmented, tagged, cleared) = fragment_flags key in
        let (compress, packed) =
          outgoing_frame-eq-ok prim sound session target flag_fragmented payload frame sent in
        let reads : (more : Bytes)
            → parse_frame prim key (bytes_of (t ∷ ts) ++ more)
              ≡ (ok (mac_flags key 4, payload), more) =
          λ more.
            ap (λ b. parse_frame prim key (b ++ more)) whole
            ∙ parse_frame-pack_frame prim sound target payload flag_fragmented key compress frame
                more refl tagged packed in
        let got =
          async_read_frame_exact prim closes key frame_timeout t ts (joined pieces next)
            (mac_flags key 4, payload) soon reads in
        rw got (
          ap
            (λ later.
              record {
                pruned_at = clocks.pruned n;
                read_at = clocks.read n;
                frame = ok (mac_flags key 4, payload);
              }
              ∷ later)
            (uds_arrivals-AreFramed (suc n) payloads frames pieces next framed timely))
    uds_arrivals-AreFramed n (payload ∷ payloads) (frame ∷ frames) ([] ∷ pieces) next framed
          timely =
        absurd timely
    uds_arrivals-AreFramed n (payload ∷ payloads) (frame ∷ frames) [] next framed timely =
        absurd timely
    uds_arrivals-AreFramed n (payload ∷ payloads) [] pieces next framed timely = absurd framed
    uds_arrivals-AreFramed n [] (frame ∷ frames) pieces next framed timely = absurd framed

-- When `send_fragmented` on a Unix socket gets to its end, the frames that it wrote carry the whole
-- payload: a client with the same session key and no unfinished stream reads them from a socket
-- that brings each frame within its time, one behind the other, and the last within 30 s of the
-- first. Its `recv_frame` returns the payload with no flag set, and leaves no stream.
pub recv_frame-send_fragments :
    (prim : Primitives) (sound : IsSound prim) (bindings : Bindings) (session : Session)
    (write : Bytes → Result (Unit {0})) (target : Str) (payload : Bytes) (c sid following : ℕ)
    (frames : List Bytes) (closes frame_timeout : ℕ) (clocks : Clocks) (pieces : List Reader)
    (next : Reader)
    → session.is_ws ≡ false
    → send_fragments prim bindings session write target payload c sid ≡ ((frames, ok tt), following)
    → AreTimely frame_timeout frames pieces
    → ((i : ℕ) → i < length frames → clocks.pruned i < clocks.read 0 + reassembly_timeout)
    → recv_frame
        (uds_arrivals prim closes session.session_key frame_timeout clocks 0
          (length frames)
          (joined pieces next))
        []
      ≡ returned (0, payload) [] []
recv_frame-send_fragments prim sound bindings session write target payload c sid following frames
      closes frame_timeout clocks pieces next uds sent timely young =
    let (payloads, fragmented, framed) =
      send_fragments-eq-ok prim sound bindings session write target payload c sid following frames
        uds sent in
    let key = session.session_key in
    let (marked, tagged, cleared) = fragment_flags key in
    ap (λ a. recv_frame a [])
      (uds_arrivals-AreFramed prim sound bindings session write target closes frame_timeout clocks 0
        payloads frames pieces next framed timely)
    ∙ recv_frame-send_fragmented payload c sid (following_id sid) (mac_flags key 4) clocks payloads
        payloads fragmented Perm.rfl marked
        (λ i lt. young i (
          omega (
            arith,
            AreFramed-length prim sound bindings session write target payloads frames framed,
          )))
    ∙ ap (λ f. returned (f, payload) [] []) cleared
