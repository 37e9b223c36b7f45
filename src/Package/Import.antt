-- ===== src/Package/Import.antt =====
-- vynkor/__init__.py: what the module's statements bind. Whether an import raises depends on the
-- dependencies that are installed; what each import statement comes to is a field of `Imports`.
use vynkor_sdk_python.Prelude.{
  Bool, true, false, List, [], ◌∷◌, ◌++◌, if◌then◌else◌, Option, none, some,
}
use vynkor_sdk_python.Prelude.Dict
use vynkor_sdk_python.Prelude.Dict.{Dict}
use vynkor_sdk_python.Errors.{
  Str, Error, Result, ok, err, foreign, import_error, version_error, name_error, ◌>>=◌,
}
use vynkor_sdk_python.Py.Text.{str, str_key}
use vynkor_sdk_python.Package.Names.{
  client_names, concurrent_names, gate_names, error_names, plugin_names, unavailable_classes,
  unavailable_functions, framing_names,
}

-- What a name stands for: a module's own name, a module, the placeholder class of a name with the
-- text of the captured exception, `_unavailable_fn` with that text, or the new module `frame_mac`
-- with its three attributes.
pub data Meaning : Type 0 where
  imported : Str → Str → Meaning
  submodule : Str → Meaning
  unavailable : Str → Str → Meaning
  unavailable_fn : Str → Meaning
  frame_mac : Meaning → Meaning → Meaning → Meaning

abbrev pub Namespace : Type 0
Namespace = Dict Str Meaning

-- What executing the module behind an import statement comes to.
pub record Imports : Type 0 where
  pub runtime_version : Result (Unit {0})
  pub client : Result (Unit {0})
  pub concurrent : Result (Unit {0})
  pub confirmation_gate : Result (Unit {0})
  pub errors : Result (Unit {0})
  pub plugin : Result (Unit {0})
  pub framing : Result (Unit {0})

-- The package's namespace, and what it adds to `sys.modules`.
pub record Package : Type 0 where
  pub namespace : Namespace
  pub modules : Namespace

-- One assignment for each name.
unfoldable pub bind_each : (Str → Meaning) → List Str → Namespace → Namespace
bind_each value [] space = space
bind_each value (name ∷ names) space = bind_each value names (Dict.insert name (value name) space)

-- Whether `_ProtoVersionError` is protobuf's `VersionError`, and not `ImportError`.
unfoldable pub version_known : Result (Unit {0}) → Result Bool
version_known (ok executed) = ok true
version_known (err (foreign (import_error why))) = ok false
version_known (err raised) = err raised

-- `from .module import names`, in a block that may have raised before.
unfoldable pub then_import :
    Str
    → List Str
    → Result (Unit {0})
    → Namespace × Result (Unit {0})
    → Namespace × Result (Unit {0})
then_import name names now (space, err raised) = (space, err raised)
then_import name names (err raised) (space, ok before) = (space, err raised)
then_import name names (ok executed) (space, ok before) =
    (bind_each (imported name) names space, ok tt)

-- The guarded block.
unfoldable pub guarded : Imports → Namespace × Result (Unit {0})
guarded imports = then_import (str "plugin") plugin_names imports.plugin (
    then_import (str "errors") error_names imports.errors (
      then_import (str "confirmation_gate") gate_names imports.confirmation_gate (
        then_import (str "concurrent") concurrent_names imports.concurrent
          (then_import (str "client") client_names imports.client ([], ok tt)))))

-- The text of an exception that `except (ImportError, _ProtoVersionError)` catches.
unfoldable pub caught_text : Bool → Error → Option Str
caught_text known (foreign (import_error why)) = some why
caught_text known (foreign (version_error why)) = if known then some why else none
caught_text known raised = none

-- The handler's assignments.
unfoldable pub placeholders : Str → Namespace → Namespace
placeholders why space =
    bind_each (λ name. unavailable_fn why) unavailable_functions
      (bind_each (λ name. unavailable name why) unavailable_classes space)

unfoldable pub handled : Bool → Namespace × Result (Unit {0}) → Result Namespace
handled known (space, ok whole) = ok space
handled known (space, err raised) = elim (caught_text known raised) [
  | some why ↦ ok (placeholders why space)
  | none ↦ err raised
]

-- A name that is read.
unfoldable pub bound : Str → Namespace → Result Meaning
bound name space = elim (Dict.get name space) [
  | some value ↦ ok value
  | none ↦ err (foreign (name_error name))
]

abbrev pub framing_module : Str
framing_module = str "framing"

-- The imports of `.framing` under its own names, as the module, and under private names.
unfoldable pub with_framing : Namespace → Namespace
with_framing space = Dict.insert (str "_verify_tag") (imported framing_module (str "verify_tag")) (
    Dict.insert (str "_derive_session_key") (imported framing_module (str "derive_session_key")) (
      Dict.insert (str "_compute_tag") (imported framing_module (str "compute_tag")) (
        Dict.insert framing_module (submodule framing_module)
          (bind_each (imported framing_module) framing_names space))))

-- The module `frame_mac`.
unfoldable pub with_frame_mac : Namespace → Result Package
with_frame_mac space = do
  tag ← bound (str "compute_tag") space
  key ← bound (str "derive_session_key") space
  check ← bound (str "verify_tag") space
  ok (record {
    namespace = Dict.insert (str "frame_mac") (frame_mac tag key check) space;
    modules = Dict.insert (str "vynkor.frame_mac") (frame_mac tag key check) [];
  })

-- The whole file.
unfoldable pub import_package : Imports → Result Package
import_package imports = do
  known ← version_known imports.runtime_version
  space ← handled known (guarded imports)
  executed ← imports.framing
  with_frame_mac (with_framing space)

-- `_raise`, the `__init__` and the `__init_subclass__` of the placeholder class of a name.
unfoldable pub unavailable_error : Str → Str → Error
unavailable_error name why = foreign (
    import_error (
      str "vynkor."
      ++ (name
          ++ (str " unavailable: "
              ++ (why
                  ++ str
                      ". Install the vynkor SDK's declared dependencies (see pyproject.toml) to use it.")))))

-- What a placeholder raises where it is called: a class in its `__init__`, the function in its body.
unfoldable pub call_error : Meaning → Option Error
call_error (unavailable name why) = some (unavailable_error name why)
call_error (unavailable_fn why) = some (foreign (import_error (str "vynkor unavailable: " ++ why)))
call_error own = none
