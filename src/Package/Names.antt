-- ===== src/Package/Names.antt =====
-- vynkor/__init__.py: the names that it imports, replaces and exports.
use vynkor_sdk_python.Prelude.{List, [], ◌∷◌, map, String}
use vynkor_sdk_python.Errors.{Str}
use vynkor_sdk_python.Py.Text.{str}

abbrev texts : List String → List Str
texts = map str

-- The names of the five guarded import statements.
abbrev pub client_names : List Str
client_names = texts ("VynkorClient" ∷ [])

abbrev pub concurrent_names : List Str
concurrent_names =
    texts
      ("ConcurrentHandler" ∷ "response_envelope" ∷ "run_concurrent_loop" ∷ "serve_concurrent" ∷ [])

abbrev pub gate_names : List Str
gate_names =
    texts (
      "ConfirmationGate" ∷ "PendingAction" ∷ "send_confirmation" ∷ "send_confirmation_request" ∷ [])

abbrev pub error_names : List Str
error_names = texts ("VynkorError" ∷ [])

abbrev pub plugin_names : List Str
plugin_names = texts ("Plugin" ∷ [])

-- The names that become placeholder classes, and those that become `_unavailable_fn`.
abbrev pub unavailable_classes : List Str
unavailable_classes = texts (
    "VynkorClient" ∷ "VynkorError" ∷ "Plugin" ∷ "ConcurrentHandler" ∷ "ConfirmationGate"
    ∷ "PendingAction" ∷ [])

abbrev pub unavailable_functions : List Str
unavailable_functions = texts (
    "response_envelope" ∷ "run_concurrent_loop" ∷ "serve_concurrent" ∷ "send_confirmation"
    ∷ "send_confirmation_request" ∷ [])

abbrev pub framing_names : List Str
framing_names = texts (
    "FLAG_COMPRESSED" ∷ "FLAG_FRAGMENTED" ∷ "FLAG_MAC_PRESENT" ∷ "FLAG_RAW_BINARY"
    ∷ "async_read_frame" ∷ "compute_tag" ∷ "derive_session_key" ∷ "pack_frame" ∷ "read_frame"
    ∷ "read_frame_from_bytes" ∷ "verify_tag" ∷ [])

-- `__all__`
abbrev pub exported_names : List Str
exported_names = texts (
    "VynkorClient" ∷ "VynkorError" ∷ "Plugin" ∷ "ConcurrentHandler" ∷ "response_envelope"
    ∷ "run_concurrent_loop" ∷ "serve_concurrent" ∷ "ConfirmationGate" ∷ "PendingAction"
    ∷ "send_confirmation" ∷ "send_confirmation_request" ∷ "framing" ∷ "frame_mac" ∷ "pack_frame"
    ∷ "read_frame" ∷ "read_frame_from_bytes" ∷ "async_read_frame" ∷ "compute_tag"
    ∷ "derive_session_key" ∷ "verify_tag" ∷ "FLAG_COMPRESSED" ∷ "FLAG_FRAGMENTED"
    ∷ "FLAG_MAC_PRESENT" ∷ "FLAG_RAW_BINARY" ∷ [])
