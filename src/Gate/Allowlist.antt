-- ===== src/Gate/Allowlist.antt =====
-- vynkor/confirmation_gate.py: `may_confirm`.
use vynkor_sdk_python.Prelude.{
  ◌-◌, Bool, true, false, ◌&&◌, List, [], ◌∷◌, ltb, leb, if◌then◌else◌, length, take, drop,
}
use vynkor_sdk_python.Errors.{Str}
use vynkor_sdk_python.Py.Text.{str, str_eq, starts_with}

-- `s.endswith(t)`
unfoldable pub ends_with : Str → Str → Bool
ends_with s t = leb (length t) (length s) && str_eq (drop (length s - length t) s) t

-- `s[:-2]`
unfoldable pub drop_last_two : Str → Str
drop_last_two s = take (length s - 2) s

-- `caller.startswith(prefix) and len(caller) > len(prefix) and caller[len(prefix)] == "."`
unfoldable pub is_below : Str → Str → Bool
is_below prefix caller =
    starts_with caller prefix
    && (ltb (length prefix) (length caller) && starts_with (drop (length prefix) caller) (46 ∷ []))

unfoldable pub is_allowed : Str → Str → Bool
is_allowed allowed caller =
    if ends_with allowed (str ".*")
    then is_below (drop_last_two allowed) caller
    else str_eq caller allowed

unfoldable pub may_confirm : List Str → Str → Bool
may_confirm [] caller = false
may_confirm (allowed ∷ rest) caller =
    let later = may_confirm rest caller in if is_allowed allowed caller then true else later
