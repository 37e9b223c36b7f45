-- ===== src/Py/Text.antt =====
-- Texts: literals, `str.encode`, `ljust`, `startswith`, `endswith`, and `f"{n}"` of a number.
use Prim.Native.Char.{code}
use Prim.Native.String.{String}
use vynkor_sdk_python.Prelude.{
  ℕ, zero, suc, ◌+◌, ◌-◌, ◌/◌, ◌%◌, ◌≤◌, ◌≡◌, refl, Bool, true, false, ◌&&◌, [], ◌∷◌, ◌++◌, ◌↔◌,
  arith, ltb, leb, ◌==◌, if◌then◌else◌, length, replicate, length-append, length-replicate,
}
use vynkor_sdk_python.Prelude.Dict.{Key}
use vynkor_sdk_python.Errors.{Str, Bytes, Result, ok, err, foreign, unicode_encode_error, ◌>>=◌}

-- The code points of a literal.
unfoldable pub str : String → Str
str String.[] = []
str (String.◌∷◌ c s) = code c ∷ str s

-- One character in UTF-8; the surrogates have no encoding.
unfoldable pub encode_char : ℕ → Result Bytes
encode_char c =
    if ltb c 0x80
    then ok (c ∷ [])
    else if ltb c 0x800
    then ok ((0xc0 + c / 0x40) ∷ (0x80 + c % 0x40) ∷ [])
    else if leb 0xd800 c && leb c 0xdfff
    then err (foreign unicode_encode_error)
    else if ltb c 0x10000
    then ok ((0xe0 + c / 0x1000) ∷ (0x80 + c / 0x40 % 0x40) ∷ (0x80 + c % 0x40) ∷ [])
    else ok (
        (0xf0 + c / 0x40000)
        ∷ (0x80 + c / 0x1000 % 0x40)
        ∷ (0x80 + c / 0x40 % 0x40)
        ∷ (0x80 + c % 0x40)
        ∷ [])

-- `s.encode()`
unfoldable pub encode : Str → Result Bytes
unfolding encode_char
encode [] = ok []
encode (c ∷ s) = do front ← encode_char c; back ← encode s; ok (front ++ back)

-- `b.ljust(width, b"\x00")`
unfoldable pub ljust : ℕ → Bytes → Bytes
ljust width b = b ++ replicate (width - length b) 0

-- `s.startswith(p)`
unfoldable pub starts_with : Str → Str → Bool
starts_with s [] = true
starts_with [] (p ∷ ps) = false
starts_with (c ∷ s) (p ∷ ps) = c == p && starts_with s ps

unfoldable pub str_eq : Str → Str → Bool
str_eq [] [] = true
str_eq [] (d ∷ t) = false
str_eq (c ∷ s) [] = false
str_eq (c ∷ s) (d ∷ t) = c == d && str_eq s t

-- The decimal digits of a number, with fuel for one round for each digit.
unfoldable pub decimal_fuel : ℕ → ℕ → Str
decimal_fuel zero n = []
decimal_fuel (suc fuel) n =
    let front = decimal_fuel fuel (n / 10) in
    if ltb n 10 then (48 + n) ∷ [] else front ++ ((48 + n % 10) ∷ [])

-- `f"{n}"`: a number has at most as many digits as its value plus one.
unfoldable pub decimal : ℕ → Str
unfolding decimal_fuel
decimal n = decimal_fuel (suc n) n

pub length-ljust : (width : ℕ) (b : Bytes) → length b ≤ width → length (ljust width b) ≡ width
unfolding ljust
length-ljust width b h = omega (
  arith,
  length-append b (replicate (width - length b) 0),
  length-replicate {A = ℕ} (width - length b) 0,
)

pub str_eq_refl : (b : Str) → str_eq b b ≡ true
unfolding str_eq
str_eq_refl [] = refl
str_eq_refl (x ∷ b) = ground (arith, str_eq_refl b)

pub str_eq→eq : (s t : Str) → str_eq s t ≡ true → s ≡ t
unfolding str_eq
str_eq→eq [] [] h = refl
str_eq→eq [] (d ∷ t) h = cc
str_eq→eq (c ∷ s) [] h = cc
str_eq→eq (c ∷ s) (d ∷ t) h = ground (arith, str_eq→eq s t)

pub str_eq_iff : (s t : Str) → (str_eq s t ≡ true) ↔ (s ≡ t)
str_eq_iff s t = (str_eq→eq s t, λ e. rw e (str_eq_refl t))

instance abbrev pub str_key : Key Str
str_key = record { beq = str_eq; beq_iff = str_eq_iff }
