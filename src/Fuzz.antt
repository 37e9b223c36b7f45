-- ===== src/Fuzz.antt =====
-- fuzz/fuzz_framing.py: the harness that reads frames out of arbitrary bytes.
use vynkor_sdk_python.Prelude.{if◌then◌else◌, none, some, range_from}
use vynkor_sdk_python.Errors.{Bytes, Result, ok, err, is_vynkor_error, ◌>>◌}
use vynkor_sdk_python.Framing.Primitives.{Primitives}
use vynkor_sdk_python.Framing.Read.{read_frame}

abbrev pub fixed_key : Bytes
fixed_key = range_from 0 32

-- `except VynkorError: pass`
unfoldable pub pass_vynkor_error : Result Bytes → Result (Unit {0})
pass_vynkor_error (ok payload) = ok tt
pass_vynkor_error (err e) = if is_vynkor_error e then ok tt else err e

unfoldable pub test_one_input : Primitives → Bytes → Result (Unit {0})
test_one_input prim input =
    pass_vynkor_error (read_frame prim none input).0
    >> pass_vynkor_error (read_frame prim (some fixed_key) input).0
