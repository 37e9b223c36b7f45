-- ===== src/Gate/Outcome.antt =====
-- vynkor/confirmation_gate.py: the reply to a confirmed request, by what the executor came to.
use vynkor_sdk_python.Prelude.{◌≡◌, ◌⊎◌, refl, true, false, List, [], ◌∷◌, Bool-cases, inl, inr}
use vynkor_sdk_python.Errors.{Str, Bytes, Error, Result, ok, err, is_exception, ◌>>=◌}
use vynkor_sdk_python.Py.Text.{encode}
use vynkor_sdk_python.Messages.{Envelope, action_response, action_ok, action_error}
use vynkor_sdk_python.Gate.Names.{response_ok, response_err}
use vynkor_sdk_python.Gate.Route.{
  Outside, bytes_value, other_value, Returned, returned, pair, nothing, reply_of, caught,
}

-- The one response of a list, with the bytes of a success or the text of an error.
abbrev pub success : Str → Bytes → List Envelope
success id bytes =
    action_response (record { action_id = id; status = action_ok; data_json = bytes; error = [] })
    ∷ []

abbrev pub failure : Str → Str → List Envelope
failure id text =
    action_response (record { action_id = id; status = action_error; data_json = []; error = text })
    ∷ []

-- An exception is an error reply with its text, but a cancellation is raised.
abbrev pub IsRaised : Outside → Str → Error → Result (List Envelope) → Type 0
IsRaised py id e replies =
    ((is_exception e ≡ true) × (replies ≡ ok (failure id (py.str_error e))))
    ⊎ ((is_exception e ≡ false) × (replies ≡ err e))

-- A value that is converted to bytes is a success with them, unless the conversion raises.
abbrev pub IsConverted : Outside → Str → Result Bytes → Result (List Envelope) → Type 0
IsConverted py id (ok bytes) replies = replies ≡ ok (success id bytes)
IsConverted py id (err e) replies = IsRaised py id e replies

-- Bytes, a true pair and `None` are successes, with the bytes, the pair's bytes or text, and no
-- bytes; a false pair is an error with its value as text; any other value is converted by `bytes`.
abbrev pub IsReplyTo : Outside → Str → Result Returned → Result (List Envelope) → Type 0
IsReplyTo py id (ok (returned (bytes_value bytes))) replies = replies ≡ ok (success id bytes)
IsReplyTo py id (ok (returned (other_value shown))) replies =
    IsConverted py id (py.bytes_of (other_value shown)) replies
IsReplyTo py id (ok (pair true (bytes_value bytes))) replies = replies ≡ ok (success id bytes)
IsReplyTo py id (ok (pair true (other_value shown))) replies =
    IsConverted py id (encode (py.str_value (other_value shown))) replies
IsReplyTo py id (ok (pair false value)) replies = replies ≡ ok (failure id (py.str_value value))
IsReplyTo py id (ok nothing) replies = replies ≡ ok (success id [])
IsReplyTo py id (err e) replies = IsRaised py id e replies

module _ (py : Outside) (id : Str) where
  caught-IsRaised : (e : Error) → IsRaised py id e (caught py id (err e))
  unfolding caught response_err
  caught-IsRaised e = elim (Bool-cases (is_exception e)) [
    | inl x ↦ rw x (inl (refl, refl))
    | inr x ↦ rw x (inr (refl, refl))
  ]

  caught-IsConverted :
      (bytes : Result Bytes)
      → IsConverted py id bytes (caught py id (bytes >>= λ b. ok (response_ok id b)))
  unfolding caught response_ok
  caught-IsConverted (ok bytes) = refl
  caught-IsConverted (err e) = caught-IsRaised e

  pub caught-IsReplyTo :
      (result : Result Returned) → IsReplyTo py id result (caught py id (result >>= reply_of py id))
  unfolding caught reply_of response_ok response_err
  caught-IsReplyTo (ok (returned (bytes_value bytes))) = refl
  caught-IsReplyTo (ok (returned (other_value shown))) =
      caught-IsConverted (py.bytes_of (other_value shown))
  caught-IsReplyTo (ok (pair true (bytes_value bytes))) = refl
  caught-IsReplyTo (ok (pair true (other_value shown))) =
      caught-IsConverted (encode (py.str_value (other_value shown)))
  caught-IsReplyTo (ok (pair false value)) = refl
  caught-IsReplyTo (ok nothing) = refl
  caught-IsReplyTo (err e) = caught-IsRaised e
