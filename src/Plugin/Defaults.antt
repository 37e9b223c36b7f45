-- ===== src/Plugin/Defaults.antt =====
-- vynkor/plugin.py: the methods that a subclass of `Plugin` may leave as they are.
use vynkor_sdk_python.Prelude.{ℕ, ◌∷◌, Option, none, some}
use vynkor_sdk_python.Errors.{Str, Result, ok, err, foreign, not_implemented}
use vynkor_sdk_python.Py.Text.{str}
use vynkor_sdk_python.Messages.{RegisterAck, Envelope, Event}
use vynkor_sdk_python.Plugin.Serve.{Step, History, Host}

-- `id`, of the attribute `plugin_id`.
unfoldable pub id : Option Str → Result Str
id (some (c ∷ plugin_id)) = ok (c ∷ plugin_id)
id _ = err (foreign not_implemented)

abbrev pub version : Str
version = str "1.0.0"

-- What the class attribute `manifest` is.
pub data Attribute (M : Type 0) : Type 0 where
  missing callable : Attribute M
  plain : M → Attribute M

-- `manifest`; `empty` is `PluginManifest()`.
unfoldable pub manifest : {M : Type 0} → M → Attribute M → M
manifest empty (plain given) = given
manifest empty _ = empty

unfoldable pub on_init : History → Result (Unit {0})
on_init history = ok tt

unfoldable pub on_message : History → Envelope → Result (Option Envelope)
on_message history env = ok none

unfoldable pub on_event : History → Event → Result (Option Envelope)
on_event history e = ok none

unfoldable pub on_shutdown : History → Result (Unit {0})
on_shutdown history = ok tt

-- A plugin with these methods.
abbrev pub default_host :
    Result RegisterAck → (History → Step → Result (Unit {0})) → (History → ℕ) → Host
default_host register deliver wall = record {
  register = register;
  on_init = on_init;
  on_event = on_event;
  on_message = on_message;
  on_shutdown = on_shutdown;
  deliver = deliver;
  wall = wall;
}
