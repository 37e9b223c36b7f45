-- ===== src/Package/Tests.antt =====
-- The package's namespace where one import fails.
use vynkor_sdk_python.Prelude.{◌≡◌, refl, some}
use vynkor_sdk_python.Prelude.Dict
use vynkor_sdk_python.Errors.{ok, err, foreign, version_error, import_error}
use vynkor_sdk_python.Py.Text.{str, str_key, str_eq}
use vynkor_sdk_python.Package.Import.{
  Imports, imported, unavailable, bind_each, then_import, guarded, placeholders, call_error,
  unavailable_error, import_package,
}
use vynkor_sdk_python.Package.Whole.{IsImported, import_package-IsImported}

-- The gate's import meets generated code of another version of protobuf.
abbrev stale_protobuf : Imports
stale_protobuf = record {
  runtime_version = ok tt;
  client = ok tt;
  concurrent = ok tt;
  confirmation_gate = err (foreign (version_error (str "gencode 6.31.1 runtime 5.29.0")));
  errors = ok tt;
  plugin = ok tt;
  framing = ok tt;
}

-- What the client's import had bound is replaced.
client_replaced :
    Dict.get (str "VynkorClient") (guarded stale_protobuf).0
    ≡ some (imported (str "client") (str "VynkorClient"))
unfolding guarded then_import bind_each Dict.get Dict.insert str str_eq
client_replaced = refl

client_placeholder :
    Dict.get (str "VynkorClient") (placeholders (str "old") (guarded stale_protobuf).0)
    ≡ some (unavailable (str "VynkorClient") (str "old"))
unfolding guarded then_import placeholders bind_each Dict.get Dict.insert str str_eq
client_placeholder = refl

client_message :
    call_error (unavailable (str "VynkorClient") (str "old"))
    ≡ some (
        foreign (
          import_error (
            str
              "vynkor.VynkorClient unavailable: old. Install the vynkor SDK's declared dependencies (see pyproject.toml) to use it.")))
unfolding call_error unavailable_error str
client_message = refl

import_package-IsImported_example : IsImported stale_protobuf (import_package stale_protobuf)
import_package-IsImported_example = import_package-IsImported stale_protobuf
