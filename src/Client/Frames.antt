-- ===== src/Client/Frames.antt =====
-- vynkor/client.py: when `send_fragmented` returns, and the frames that it sends then.
use vynkor_sdk_python.Prelude.{
  ℕ, suc, ◌+◌, ◌≤◌, ◌<◌, ◌^◌, ◌≡◌, Bool, true, false, some, List, [], ◌∷◌, ◌⊎◌, length, drop, max,
}
use vynkor_sdk_python.Errors.{Str, Bytes, Error, Result, ok, err, internal, payload_too_large}
use vynkor_sdk_python.Framing.Primitives.{max_payload}
use vynkor_sdk_python.Framing.Header.{frag_header_size, parse_frag_header}
use vynkor_sdk_python.Client.Fragments.{ceil_div, chunk_at, header_at}

abbrev pub total_of : Bytes → ℕ → ℕ
total_of payload chunk_size = max 1 (ceil_div (length payload) chunk_size)

-- What `send_fragmented` refuses: a payload over 1 MiB, or else a WebSocket, an unusable chunk
-- size, or more fragments than their header can count.
abbrev pub IsRefused : Bool → Bytes → ℕ → Error → Type 0
IsRefused is_ws payload chunk_size e =
    ((is_ws ≡ false) × (max_payload < length payload) × (e ≡ payload_too_large (length payload)))
    ⊎ ((why : Str) × (e ≡ internal why)
        × ((is_ws ≡ true)
            ⊎ (chunk_size ≡ 0)
            ⊎ (max_payload < chunk_size + frag_header_size)
            ⊎ (0xffff < total_of payload chunk_size)))

abbrev pub IsAllowed : Bool → Bytes → ℕ → Type 0
IsAllowed is_ws payload chunk_size =
    (is_ws ≡ false)
    × (length payload ≤ max_payload)
    × (0 < chunk_size)
    × (chunk_size + frag_header_size ≤ max_payload)
    × (total_of payload chunk_size ≤ 0xffff)

-- A frame with the header of its number in front of its chunk, no longer than a header and a chunk.
abbrev pub IsFrame : Bytes → ℕ → ℕ → ℕ → Bytes → Type 0
IsFrame payload c sid seq frame =
    (parse_frag_header frame ≡ ok (some (header_at (total_of payload c) sid seq)))
    × (drop frag_header_size frame ≡ chunk_at payload c seq)
    × (length frame ≤ c + frag_header_size)

-- The frames from a number on.
abbrev pub IsSequence : Bytes → ℕ → ℕ → ℕ → List Bytes → Type 0
IsSequence payload c sid seq [] = Unit
IsSequence payload c sid seq (frame ∷ frames) =
    IsFrame payload c sid seq frame × IsSequence payload c sid (suc seq) frames

-- The ids go round, and 0 is left out.
abbrev pub IsNext : ℕ → ℕ → Type 0
IsNext id next = ((id + 1 < 2 ^ 32) × (next ≡ id + 1)) ⊎ ((id + 1 ≡ 2 ^ 32) × (next ≡ 1))

-- An error for what is refused, or frames and the next id for what is allowed.
abbrev pub IsOutcome : Bool → Bytes → ℕ → ℕ → Result (List Bytes × ℕ) → Type 0
IsOutcome is_ws payload c sid outcome =
    ((e : Error) × (outcome ≡ err e) × IsRefused is_ws payload c e)
    ⊎ ((frames : List Bytes) × (next : ℕ) × (outcome ≡ ok (frames, next))
        × IsAllowed is_ws payload c
        × (length frames ≡ total_of payload c)
        × IsSequence payload c sid 0 frames
        × IsNext sid next)
