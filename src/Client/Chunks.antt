-- ===== src/Client/Chunks.antt =====
-- vynkor/client.py: the chunks that `send_fragmented` cuts, put together by `_ReassemblyBuf`.
use vynkor_sdk_python.Prelude.{
  ℕ, zero, suc, ◌+◌, ◌-◌, ◌*◌, ◌/◌, ◌%◌, ◌≤◌, ◌<◌, ◌≡◌, refl, ap, sym, subst, ◌∙◌, List, range_from,
  [], ◌∷◌, ◌++◌, ◌==◌, length, take, drop, max, none, some, arith, take_all, Bool-cases, inl, inr,
  length-append, ==_iff,
}
use mathlib.Core.List.{
  Perm, foldr, Mem, Mem-prop, mem-cons_self, mem-cons_of_mem, eq-or-mem_of_mem-cons,
}
use mathlib.Core.List.Perm
use mathlib.Core.Logic.Or
use native.Mathlib.Nat.{mod-add-div', mod-lt}
use vynkor_sdk_python.Prelude.Dict
use vynkor_sdk_python.Prelude.Dict.{Dict, nat_key, absent, get-insert, length-insert}
use vynkor_sdk_python.Errors.{Bytes, ok}
use vynkor_sdk_python.Client.Reassembly.{ReassemblyBuf, join_from, reassemble, put_chunk}
use vynkor_sdk_python.Client.Fragments.{chunk_at, ceil_div}

take_add : (m n : ℕ) (xs : Bytes) → take (m + n) xs ≡ take m xs ++ take n (drop m xs)
take_add zero n xs = let e : 0 + n ≡ n = omega arith in rw e refl
take_add (suc m) zero [] = let e : suc m + 0 ≡ suc m = omega arith in rw e refl
take_add (suc m) (suc n) [] = let e : suc m + suc n ≡ suc (m + suc n) = omega arith in rw e refl
take_add (suc m) n (x ∷ xs) =
    let e : suc m + n ≡ suc (m + n) = omega arith in rw e (ap (◌∷◌ x) (take_add m n xs))

drop_add : (m n : ℕ) (xs : Bytes) → drop n (drop m xs) ≡ drop (m + n) xs
drop_add zero n xs = let e : 0 + n ≡ n = omega arith in rw e refl
drop_add (suc m) zero [] = let e : suc m + 0 ≡ suc m = omega arith in rw e refl
drop_add (suc m) (suc n) [] = let e : suc m + suc n ≡ suc (m + suc n) = omega arith in rw e refl
drop_add (suc m) n (x ∷ xs) =
    let e : suc m + n ≡ suc (m + n) = omega arith in rw e (drop_add m n xs)

pub ceil_div_covers : (n c : ℕ) → 0 < c → n ≤ max 1 (ceil_div n c) * c
ceil_div_covers n c h =
    let q = (n + c - 1) / c in
    let whole : (n + c - 1) % c + q * c ≡ n + c - 1 = mod-add-div' (n + c - 1) c in
    let part : (n + c - 1) % c < c = mod-lt (n + c - 1) h in
    elim (Bool-cases (q == 0)) [
      | inl z ↦
          let e : q ≡ 0 = ground arith in
          let e' : q * c ≡ 0 = rw e (omega arith) in
          let m : max 1 q ≡ 1 = omega (arith, e) in rw m (omega arith)
      | inr z ↦ let m : max 1 q ≡ q = ground arith in rw m (omega arith)
    ]

mem-of_ne : (i k : ℕ) (seen : List ℕ) → ¬ (i ≡ k) → Mem i (k ∷ seen) → Mem i seen
mem-of_ne i k seen other m =
    Or.elim Mem-prop (eq-or-mem_of_mem-cons m) (λ e. absurd (other e)) (λ here. here)

module _ (payload : Bytes) (c total : ℕ) where
  -- The chunk at `seq` and what follows it.
  chunk_split :
      (left seq : ℕ)
      → take (suc left * c) (drop (seq * c) payload)
        ≡ chunk_at payload c seq ++ take (left * c) (drop (suc seq * c) payload)
  unfolding chunk_at
  chunk_split left seq =
      let e : suc left * c ≡ c + left * c = omega arith in
      let e' : suc seq * c ≡ seq * c + c = omega arith in
      rw (e, e')
        (take_add c (left * c) (drop (seq * c) payload)
          ∙ ap (λ rest. take c (drop (seq * c) payload) ++ take (left * c) rest)
              (drop_add (seq * c) c payload))

  -- The chunks in front of `suc k` are those in front of `k`, and the chunk at `k`.
  length-chunks :
      (k : ℕ)
      → length (take (suc k * c) payload)
        ≡ length (take (k * c) payload) + length (chunk_at payload c k)
  unfolding chunk_at
  length-chunks k =
      let e : suc k * c ≡ k * c + c = omega arith in
      rw (e, take_add (k * c) c payload)
        (length-append (take (k * c) payload) (take c (drop (k * c) payload)))

  -- The bytes of some chunks.
  abbrev pub sizes : List ℕ → ℕ
  sizes [] = 0
  sizes (k ∷ seen) = length (chunk_at payload c k) + sizes seen

  pub sizes-append : (xs ys : List ℕ) → sizes (xs ++ ys) ≡ sizes xs + sizes ys
  sizes-append [] ys = omega arith
  sizes-append (k ∷ xs) ys = omega (arith, sizes-append xs ys)

  sizes-foldr : (xs : List ℕ) → sizes xs ≡ foldr (λ k n. length (chunk_at payload c k) + n) 0 xs
  sizes-foldr [] = refl
  sizes-foldr (k ∷ xs) = ap (λ n. length (chunk_at payload c k) + n) (sizes-foldr xs)

  pub sizes-perm : {xs ys : List ℕ} → Perm xs ys → sizes xs ≡ sizes ys
  sizes-perm {xs} {ys} p =
      sizes-foldr xs
      ∙ Perm.foldr-eq (hlevel) (λ k n. length (chunk_at payload c k) + n) (λ a b n. omega arith) p 0
      ∙ sym (sizes-foldr ys)

  pub sizes-range_from :
      (k count : ℕ)
      → length (take (k * c) payload) + sizes (range_from k count)
        ≡ length (take ((k + count) * c) payload)
  sizes-range_from k zero = let e : k + 0 ≡ k = omega arith in rw e (omega arith)
  sizes-range_from k (suc count) =
      let e : k + suc count ≡ suc k + count = omega arith in
      rw e (omega (arith, length-chunks k, sizes-range_from (suc k) count))

  -- A buffer of the stream that has the fragments with these numbers.
  pub record Holds (seen : List ℕ) (buf : ReassemblyBuf) : Type 0 where
    pub has : (i : ℕ) → Mem i seen → Dict.get i buf.fragments ≡ some (chunk_at payload c i)
    pub lacks : (i : ℕ) → ¬ Mem i seen → Dict.get i buf.fragments ≡ none
    pub counted : length buf.fragments ≡ length seen
    pub weighed : buf.buffered_bytes ≡ sizes seen
    pub same_total : buf.total ≡ total

  pub put_chunk-Holds :
      (k : ℕ) (seen : List ℕ) (buf : ReassemblyBuf)
      → ¬ Mem k seen
      → Holds seen buf
      → Holds (k ∷ seen) (put_chunk k (chunk_at payload c k) buf)
  unfolding put_chunk
  put_chunk-Holds k seen buf new h = record {
    has = λ i m. elim (Bool-cases (k == i)) [
      | inl y ↦
          rw (get-insert k i (chunk_at payload c k) buf.fragments, y)
            (ap (λ j. some (chunk_at payload c j)) ((==_iff k i).0 y))
      | inr z ↦
          let other : ¬ (i ≡ k) = λ e. ground (arith, e) in
          rw (get-insert k i (chunk_at payload c k) buf.fragments, z)
            (h.has i (mem-of_ne i k seen other m))
    ];
    lacks = λ i m. elim (Bool-cases (k == i)) [
      | inl y ↦ absurd (m (subst (λ j. Mem j (k ∷ seen)) ((==_iff k i).0 y) mem-cons_self))
      | inr z ↦
          rw (get-insert k i (chunk_at payload c k) buf.fragments, z)
            (h.lacks i (λ here. m (mem-cons_of_mem k here)))
    ];
    counted = omega (
      arith,
      length-insert k (chunk_at payload c k) buf.fragments,
      h.counted,
      ap absent (h.lacks k new),
    );
    weighed = ground (arith, h.lacks k new, h.weighed);
    same_total = h.same_total;
  }

  join_from-Holds :
      (left seq : ℕ) (seen : List ℕ) (buf : ReassemblyBuf)
      → Holds seen buf
      → ((i : ℕ) → i < total → Mem i seen)
      → seq + left ≡ total
      → join_from buf.fragments seq left ≡ ok (take (left * c) (drop (seq * c) payload))
  unfolding join_from
  join_from-Holds zero seq seen buf h whole e = let z : 0 * c ≡ 0 = omega arith in rw z refl
  join_from-Holds (suc left) seq seen buf h whole e =
      let here = h.has seq (whole seq (omega arith)) in
      let rest = join_from-Holds left (suc seq) seen buf h whole (omega arith) in
      let split = chunk_split left seq in ground arith

  -- All fragments together are the payload.
  pub reassemble-Holds :
      (seen : List ℕ) (buf : ReassemblyBuf)
      → Holds seen buf
      → ((i : ℕ) → i < total → Mem i seen)
      → length payload ≤ total * c
      → reassemble buf ≡ ok payload
  unfolding reassemble
  reassemble-Holds seen buf h whole covers =
      let e : 0 * c ≡ 0 = omega arith in
      let joined : join_from buf.fragments 0 total ≡ ok (take (total * c) (drop (0 * c) payload)) =
        join_from-Holds total 0 seen buf h whole (omega arith) in
      rw h.same_total (
        joined
        ∙ ap (λ n. ok (take (total * c) (drop n payload))) e
        ∙ ap ok (take_all (total * c) payload covers))
