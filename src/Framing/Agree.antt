-- ===== src/Framing/Agree.antt =====
-- The two synchronous decoders, which the source writes out twice, agree.
use vynkor_sdk_python.Prelude.{ℕ, ◌≡◌, ap, ◌∙◌, arith, Option}
use vynkor_sdk_python.Errors.{Bytes, Result, ok, err}
use vynkor_sdk_python.Framing.Primitives.{Primitives}
use vynkor_sdk_python.Framing.Parts.{in_parts, read_frame-in_parts}
use vynkor_sdk_python.Framing.Read.{read_frame, parse_frame, read_frame_from_bytes}

abbrev pub payload_of : Result (ℕ × Bytes) → Result Bytes
payload_of (ok (flags, payload)) = ok payload
payload_of (err e) = err e

in_parts-read_frame_from_bytes :
    (prim : Primitives) (key : Option Bytes) (s : Bytes)
    → (in_parts prim key s).0 ≡ payload_of (read_frame_from_bytes prim s key)
unfolding read_frame_from_bytes parse_frame
in_parts-read_frame_from_bytes prim key s = ground arith

-- `read_frame` returns the payload that `read_frame_from_bytes` returns beside the flags, and
-- raises what it raises.
pub read_frame-read_frame_from_bytes :
    (prim : Primitives) (key : Option Bytes) (s : Bytes)
    → (read_frame prim key s).0 ≡ payload_of (read_frame_from_bytes prim s key)
read_frame-read_frame_from_bytes prim key s =
    ap (λ r. r.0) (read_frame-in_parts prim key s) ∙ in_parts-read_frame_from_bytes prim key s
