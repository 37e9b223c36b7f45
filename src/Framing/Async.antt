-- ===== src/Framing/Async.antt =====
-- vynkor/framing.py: `async_read_frame`. The `StreamReader` is the bytes that come, each with the
-- time when a read has it, and the time at which the peer closes. Times are milliseconds.
use vynkor_sdk_python.Prelude.{
  ℕ, ◌+◌, ◌-◌, Bool, true, false, not, ◌&&◌, List, [], ◌∷◌, ◌++◌, ltb, leb, ◌==◌, if◌then◌else◌,
  length, take, drop, Option,
}
use vynkor_sdk_python.Errors.{
  Bytes, Error, Result, ok, err, foreign, incomplete_read, frame_read_timeout, frame_magic_mismatch,
  frame_crc_mismatch, payload_too_large, internal,
}
use vynkor_sdk_python.Py.Text.{str}
use vynkor_sdk_python.Py.Crc.{checksum}
use vynkor_sdk_python.Framing.Primitives.{Primitives, max_payload}
use vynkor_sdk_python.Framing.Header.{
  Header, magic_number, header_size, flag_mac_present, has, unpack_header,
}
use vynkor_sdk_python.Framing.Read.{Plain, normalize, forged, is_some}

abbrev pub frame_read_timeout_ms : ℕ
frame_read_timeout_ms = 10000

-- A byte, and when a read that waits for it has it: for a byte that was there before the read began,
-- the time of that read.
pub record Timed : Type 0 where
  pub byte : ℕ
  pub at : ℕ

abbrev pub Reader : Type 0
Reader = List Timed

abbrev pub bytes_of : Reader → Bytes
bytes_of [] = []
bytes_of (t ∷ ts) = t.byte ∷ bytes_of ts

-- All of these come before a deadline.
unfoldable pub in_time : ℕ → Reader → Bool
in_time deadline [] = true
in_time deadline (t ∷ ts) = ltb t.at deadline && in_time deadline ts

-- Reading from a reader: a result, and the reader that is left.
abbrev pub Async {ℓ} : Type ℓ → Type ℓ
Async A = Reader → Result A × Reader

module _ {ℓ} {A : Type ℓ} where
  abbrev pub pure : A → Async A
  pure a ts = (ok a, ts)

  abbrev pub lift : Result A → Async A
  lift r ts = (r, ts)

abbrev pub fail_if : Bool → Error → Async (Unit {0})
fail_if true e ts = (err e, ts)
fail_if false e ts = (ok tt, ts)

module _ {ℓ κ} {A : Type ℓ} {B : Type κ} where
  abbrev pub proceed : Result A → (A → Async B) → Async B
  proceed (ok a) f ts = f a ts
  proceed (err e) f ts = (err e, ts)

  infixl 5 ◌>>=◌
  abbrev pub ◌>>=◌ : Async A → (A → Async B) → Async B
  ◌>>=◌ m f ts = proceed (m ts).0 f (m ts).1

infixl 5 ◌>>◌
abbrev pub ◌>>◌ {ℓ} : {B : Type ℓ} → Async (Unit {0}) → Async B → Async B
m >> k = m >>= λ _. k

module _ (prim : Primitives) (closes deadline : ℕ) where
  -- `await reader.readexactly(n)` inside `wait_for`: it takes its bytes at once when all have come, and
  -- `IncompleteReadError` takes what there is.
  unfoldable pub readexactly : ℕ → Async Bytes
  readexactly n ts =
      if leb n (length ts)
      then (if in_time deadline (take n ts)
          then (ok (bytes_of (take n ts)), drop n ts)
          else (err frame_read_timeout, ts))
      else (if ltb closes deadline
          then (err (foreign incomplete_read), [])
          else (err frame_read_timeout, ts))

  -- The rest of the header, and the checks on its magic number and its length.
  unfoldable pub async_header : Bytes → Async Header
  async_header first_byte = do
    rest ← readexactly (header_size - 1)
    h ← lift (unpack_header (first_byte ++ rest))
    fail_if (not (h.magic == magic_number)) frame_magic_mismatch
    fail_if (ltb max_payload h.size) (payload_too_large h.size)
    pure h

  unfoldable pub async_payload : Header → Async Bytes
  async_payload h = do
    payload ← if ltb 0 h.size then readexactly h.size else pure []
    fail_if (not (checksum payload == h.crc)) frame_crc_mismatch
    pure payload

  unfoldable pub async_mac : Option Bytes → Plain → Async (Unit {0})
  async_mac key (flags, header, payload) =
      if has flags flag_mac_present
      then (do
        tag ← readexactly 32
        fail_if (forged prim key header payload tag)
            (internal (str "frame MAC verification failed")))
      else fail_if (is_some key) (internal (str "MAC missing on secured connection"))

  -- `_read_body`
  unfoldable pub read_body : Option Bytes → Bytes → Async (ℕ × Bytes)
  read_body session_key first_byte = do
    h ← async_header first_byte
    wire ← async_payload h
    plain ← lift (normalize prim h.flags h.target wire)
    async_mac session_key plain
    pure (plain.0, plain.2)

-- The first byte is waited for without a limit; the frame's time begins when `readexactly(1)` has it.
unfoldable pub async_read_frame : Primitives → ℕ → Option Bytes → ℕ → Async (ℕ × Bytes)
async_read_frame prim closes session_key frame_timeout [] = (err (foreign incomplete_read), [])
async_read_frame prim closes session_key frame_timeout (t ∷ ts) =
    read_body prim closes (t.at + frame_timeout) session_key (t.byte ∷ []) ts
