-- ===== src/Gate/Wildcard.antt =====
-- vynkor/confirmation_gate.py: whom an entry of the allowlist admits.
use vynkor_sdk_python.Prelude.{
  ◌-◌, ◌≡◌, ◌↔◌, ◌⊎◌, inl, inr, refl, true, List, [], ◌∷◌, ◌++◌, length, take, drop, arith,
  Bool-cases, subst, length-append, take-append, drop-append, take-append-drop,
}
use vynkor_sdk_python.Errors.{Str}
use vynkor_sdk_python.Py.Text.{str, str_eq→eq, str_eq_refl, starts_with}
use vynkor_sdk_python.Gate.Allowlist.{ends_with, drop_last_two, is_below, is_allowed, may_confirm}

-- `caller` is `prefix`, a full stop, and any text.
abbrev pub IsChild : Str → Str → Type 0
IsChild prefix caller = (name : Str) × (caller ≡ prefix ++ (46 ∷ name))

-- An entry admits its own name, and `prefix.*` whatever is below `prefix`.
abbrev pub Admits : Str → Str → Type 0
Admits allowed caller =
    (caller ≡ allowed) ⊎ ((prefix : Str) × (allowed ≡ prefix ++ str ".*") × IsChild prefix caller)

abbrev pub AnyAdmits : List Str → Str → Type 0
AnyAdmits [] caller = ⊥
AnyAdmits (allowed ∷ rest) caller = Admits allowed caller ⊎ AnyAdmits rest caller

pub starts_with-append : (p s : Str) → starts_with (p ++ s) p ≡ true
unfolding starts_with
starts_with-append [] s = refl
starts_with-append (c ∷ p) s = ground (arith, starts_with-append p s)

pub starts_with-split : (s p : Str) → starts_with s p ≡ true → (rest : Str) × (s ≡ p ++ rest)
unfolding starts_with
starts_with-split s [] h = (s, refl)
starts_with-split [] (c ∷ p) h = cc
starts_with-split (d ∷ s) (c ∷ p) h =
    let (rest, e) = starts_with-split s p (ground arith) in (rest, ground arith)

below_iff :
    (prefix rest : Str)
    → (is_below prefix (prefix ++ rest) ≡ true) ↔ (starts_with rest (46 ∷ []) ≡ true)
unfolding is_below starts_with
below_iff prefix [] =
    rw (drop-append (length prefix) prefix [] refl) (ground (arith, starts_with-append prefix []))
below_iff prefix (c ∷ rest) =
    rw (drop-append (length prefix) prefix (c ∷ rest) refl)
      (ground (arith, starts_with-append prefix (c ∷ rest), length-append prefix (c ∷ rest)))

stop-split : (rest : Str) → starts_with rest (46 ∷ []) ≡ true → (name : Str) × (rest ≡ 46 ∷ name)
unfolding starts_with
stop-split [] h = cc
stop-split (c ∷ rest) h = (rest, ground arith)

below-starts :
    (prefix caller : Str) → is_below prefix caller ≡ true → starts_with caller prefix ≡ true
unfolding is_below
below-starts prefix caller h = ground arith

is_below-IsChild : (prefix caller : Str) → is_below prefix caller ≡ true → IsChild prefix caller
is_below-IsChild prefix caller h =
    let (rest, e) = starts_with-split caller prefix (below-starts prefix caller h) in
    let h' : is_below prefix (prefix ++ rest) ≡ true = subst (λ c. is_below prefix c ≡ true) e h in
    let (name, q) = stop-split rest ((below_iff prefix rest).0 h') in (name, cc)

IsChild-is_below : (prefix caller : Str) → IsChild prefix caller → is_below prefix caller ≡ true
unfolding starts_with
IsChild-is_below prefix caller (name, e) =
    let below : is_below prefix (prefix ++ (46 ∷ name)) ≡ true =
      (below_iff prefix (46 ∷ name)).1 refl in
    rw e below

ends_with-split : (s t : Str) → ends_with s t ≡ true → s ≡ take (length s - length t) s ++ t
unfolding ends_with
ends_with-split s t h =
    let tail : drop (length s - length t) s ≡ t =
      str_eq→eq (drop (length s - length t) s) t (ground arith) in
    let whole = take-append-drop (length s - length t) s in cc

append-minus : (s t : Str) → length (s ++ t) - length t ≡ length s
append-minus s t = omega (arith, length-append s t)

ends_with-append : (s t : Str) → ends_with (s ++ t) t ≡ true
unfolding ends_with
ends_with-append s t =
    rw (append-minus s t, drop-append (length s) s t refl)
      (ground (arith, length-append s t, str_eq_refl t))

drop_last_two-append : (s : Str) → drop_last_two (s ++ str ".*") ≡ s
unfolding drop_last_two str
drop_last_two-append s =
    rw (append-minus s (46 ∷ 42 ∷ [])) (take-append (length s) s (46 ∷ 42 ∷ []) refl)

drop_last_two_split : (s : Str) → ends_with s (str ".*") ≡ true → s ≡ drop_last_two s ++ str ".*"
unfolding drop_last_two str
drop_last_two_split s h = ends_with-split s (str ".*") h

is_allowed-Admits :
    (allowed caller : Str) → is_allowed allowed caller ≡ true → Admits allowed caller
unfolding is_allowed
is_allowed-Admits allowed caller h = elim (Bool-cases (ends_with allowed (str ".*"))) [
  | inl e ↦ inr (
    drop_last_two allowed,
    drop_last_two_split allowed e,
    is_below-IsChild (drop_last_two allowed) caller (ground arith),
  )
  | inr e ↦ inl (str_eq→eq caller allowed (ground arith))
]

-- A caller that is the entry itself: with a star, it is below the prefix under the name `*`.
is_allowed_refl : (s : Str) → is_allowed s s ≡ true
unfolding is_allowed str
is_allowed_refl s = elim (Bool-cases (ends_with s (str ".*"))) [
  | inl e ↦
      let below = IsChild-is_below (drop_last_two s) s (42 ∷ [], drop_last_two_split s e) in
      ground arith
  | inr e ↦ ground (arith, str_eq_refl s)
]

IsChild-is_allowed :
    (prefix caller : Str) → IsChild prefix caller → is_allowed (prefix ++ str ".*") caller ≡ true
unfolding is_allowed
IsChild-is_allowed prefix caller child =
    let below = IsChild-is_below prefix caller child in
    rw (ends_with-append prefix (str ".*"), drop_last_two-append prefix) below

Admits-is_allowed :
    (allowed caller : Str) → Admits allowed caller → is_allowed allowed caller ≡ true
Admits-is_allowed allowed caller (inl e) = rw e (is_allowed_refl allowed)
Admits-is_allowed allowed caller (inr (prefix, e, child)) =
    rw e (IsChild-is_allowed prefix caller child)

-- `may_confirm` returns True for a caller exactly if some entry of the allowlist is its id, or is
-- `prefix.*` where its id is the prefix, a full stop and any text.
pub may_confirm_iff :
    (callers : List Str) (caller : Str)
    → (may_confirm callers caller ≡ true) ↔ AnyAdmits callers caller
unfolding may_confirm
may_confirm_iff [] caller = (λ h. cc, λ h. absurd h)
may_confirm_iff (allowed ∷ rest) caller =
    let later = may_confirm_iff rest caller in
    elim (Bool-cases (is_allowed allowed caller)) [
      | inl e ↦ (λ h. inl (is_allowed-Admits allowed caller e), λ h. rw e refl)
      | inr e ↦ (
        λ h. inr (later.0 (ground arith)),
        λ h. elim h [
          | inl a ↦ let yes = Admits-is_allowed allowed caller a in ground arith
          | inr a ↦ let yes = later.1 a in ground arith
        ],
      )
    ]
