-- ===== src/Py/Json.antt =====
-- The values that `json.loads` returns and `json.dumps` takes, and `dict.get` on an object.
use vynkor_sdk_python.Prelude.{ℕ, Option, none, some, if◌then◌else◌}
use vynkor_sdk_python.Errors.{Str}
use vynkor_sdk_python.Py.Text.{str_eq}

-- Lists, floats and `None` are never looked into, so they are all `scalar`.
mutual
  pub data Json : Type 0 where
    text : Str → Json
    integer : ℕ → Json
    scalar : ℕ → Json
    object : Members → Json

  pub data Members : Type 0 where
    done : Members
    member : Str → Json → Members → Members

-- `members.get(key)`
unfoldable pub lookup : Str → Members → Option Json
lookup key done = none
lookup key (member name value members) =
    let rest = lookup key members in if str_eq name key then some value else rest
