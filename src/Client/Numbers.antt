-- ===== src/Client/Numbers.antt =====
-- vynkor/client.py: the frames of `send_fragmented` in any order, with their numbers.
use vynkor_sdk_python.Prelude.{
  ℕ, zero, suc, ◌+◌, ◌≤◌, ◌<◌, ◌≡◌, refl, sym, ap, subst, ◌∙◌, List, [], ◌∷◌, ◌++◌, map, range_from,
  Option, some, arith, Bool-cases, ◌==◌, ==_iff, inl, inr,
}
use mathlib.Core.List.{Mem, not-mem-nil, mem-cons_self, mem-cons_of_mem, eq-or-mem_of_mem-cons}
use native.Mathlib.Bridge.{le_prop}
use mathlib.Core.Logic.Or
use vynkor_sdk_python.Errors.{Bytes, Result, ok, err, ok-injective}
use vynkor_sdk_python.Framing.Header.{FragHeader, pack_frag_header, parse_frag_header}
use vynkor_sdk_python.Framing.Layout.{parse_frag_header-pack_frag_header}
use vynkor_sdk_python.Client.Fragments.{header_at, chunk_at, fragments_from}
use vynkor_sdk_python.Client.Rounds.{fragments_from-eq-ok}

abbrev bytes_or_nil : Result Bytes → Bytes
bytes_or_nil (ok b) = b
bytes_or_nil (err e) = []

abbrev number_or_zero : Result (Option FragHeader) → ℕ
number_or_zero (ok (some h)) = h.sequence
number_or_zero _ = 0

-- The number that a frame's header has.
abbrev pub number_of : Bytes → ℕ
number_of frame = number_or_zero (parse_frag_header frame)

bytes_or_nil-eq-ok : (r : Result Bytes) (b : Bytes) → r ≡ ok b → bytes_or_nil r ≡ b
bytes_or_nil-eq-ok (ok b) b' h = ok-injective h
bytes_or_nil-eq-ok (err e) b' h = cc

module _ (payload : Bytes) (c total sid : ℕ) where
  abbrev frame_at : ℕ → Bytes
  frame_at k = bytes_or_nil (pack_frag_header (header_at total sid k)) ++ chunk_at payload c k

  -- A frame of the stream, with its number.
  pub record IsNumbered (k : ℕ) (frame : Bytes) : Type 0 where
    pub head : Bytes
    pub packed : pack_frag_header (header_at total sid k) ≡ ok head
    pub whole : frame ≡ head ++ chunk_at payload c k
    pub in_range : k < total

  -- Frames with their numbers.
  abbrev pub AreNumbered : List ℕ → List Bytes → Type 0
  AreNumbered [] [] = Unit
  AreNumbered (k ∷ order) (frame ∷ frames) = IsNumbered k frame × AreNumbered order frames
  AreNumbered _ _ = ⊥

  -- Every number has a header.
  abbrev IsPacked : Type 0
  IsPacked =
      (k : ℕ) → k < total → (head : Bytes) × (pack_frag_header (header_at total sid k) ≡ ok head)

  -- A frame of the stream.
  abbrev IsOwn : Bytes → Type 0
  IsOwn frame = (frame ≡ frame_at (number_of frame)) × (number_of frame < total)

  IsOwn-prop : (frame : Bytes) → IsProp (IsOwn frame)
  IsOwn-prop frame = hlevel (le_prop)

  number_of-head :
      (k : ℕ) (head : Bytes)
      → pack_frag_header (header_at total sid k) ≡ ok head
      → number_of (head ++ chunk_at payload c k) ≡ k
  number_of-head k head packed =
      ap number_or_zero
        (parse_frag_header-pack_frag_header (header_at total sid k) head (chunk_at payload c k)
          packed).0

  head-IsOwn :
      (k : ℕ) (head : Bytes)
      → pack_frag_header (header_at total sid k) ≡ ok head
      → k < total
      → IsOwn (head ++ chunk_at payload c k)
  head-IsOwn k head packed lt =
      let number = number_of-head k head packed in
      let same : frame_at k ≡ head ++ chunk_at payload c k =
        ap (λ h. h ++ chunk_at payload c k)
          (bytes_or_nil-eq-ok (pack_frag_header (header_at total sid k)) head packed) in
      (sym same ∙ ap frame_at (sym number), omega (arith, number))

  -- What is sent: the frames of the stream, one for each number.
  pub fragments_from-IsOwn :
      (k left : ℕ) (frames : List Bytes)
      → fragments_from payload c total sid k left ≡ ok frames
      → k + left ≡ total
      → (map number_of frames ≡ range_from k left)
        × ((frame : Bytes) → Mem frame frames → IsOwn frame)
        × ((i : ℕ)
            → k ≤ i
            → i < total
            → (head : Bytes) × (pack_frag_header (header_at total sid i) ≡ ok head))
  unfolding fragments_from
  fragments_from-IsOwn k zero frames sent e =
      let nothing : [] ≡ frames = ok-injective sent in
      (
        subst (λ f. map number_of f ≡ []) nothing refl,
        subst (λ f. (frame : Bytes) → Mem frame f → IsOwn frame) nothing
            (λ frame m. absurd (not-mem-nil m)),
        λ i low high. absurd (omega arith),
      )
  fragments_from-IsOwn k (suc left) frames sent e =
      let (head, rest, header, whole, later) =
        fragments_from-eq-ok payload c total sid k left frames sent in
      let (numbers, own, packed) = fragments_from-IsOwn (suc k) left rest later (omega arith) in
      let first = head ++ chunk_at payload c k in
      let mine = head-IsOwn k head header (omega arith) in
      (
        ap (map number_of) whole
            ∙ ap (λ n. n ∷ map number_of rest) (number_of-head k head header)
            ∙ ap (◌∷◌ k) numbers,
        subst (λ f. (frame : Bytes) → Mem frame f → IsOwn frame) (sym whole)
            (λ frame m.
              Or.elim (IsOwn-prop frame) (eq-or-mem_of_mem-cons m)
                (λ same. subst IsOwn (sym same) mine) (own frame)),
        λ i low high. elim (Bool-cases (k == i)) [
          | inl y ↦
              subst (λ j. (head : Bytes) × (pack_frag_header (header_at total sid j) ≡ ok head))
                ((==_iff k i).0 y) (head, header)
          | inr z ↦ packed i (ground arith) high
        ],
      )

  pub order-AreNumbered :
      (frames : List Bytes)
      → IsPacked
      → ((frame : Bytes) → Mem frame frames → IsOwn frame)
      → AreNumbered (map number_of frames) frames
  order-AreNumbered [] packed own = tt
  order-AreNumbered (frame ∷ frames) packed own =
      let (same, lt) = own frame mem-cons_self in
      let (head, header) = packed (number_of frame) lt in
      (
        record {
          head = head;
          packed = header;
          whole =
              same
              ∙ ap (λ h. h ++ chunk_at payload c (number_of frame))
                  (bytes_or_nil-eq-ok (pack_frag_header (header_at total sid (number_of frame)))
                    head header);
          in_range = lt;
        },
        order-AreNumbered frames packed (λ f m. own f (mem-cons_of_mem frame m)),
      )
