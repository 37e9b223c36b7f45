-- ===== src/Gate/Names.antt =====
-- vynkor/confirmation_gate.py: `_validate_op`, the actions of the manifest, and the replies.
use vynkor_sdk_python.Prelude.{
  ℕ, Bool, true, false, not, ◌&&◌, ◌||◌, List, [], ◌∷◌, ◌++◌, leb, ◌==◌,
}
use vynkor_sdk_python.Errors.{
  Str, Bytes, Result, ok, err, foreign, value_error, type_error, raise_if, ◌>>◌,
}
use vynkor_sdk_python.Py.Text.{str, starts_with}
use vynkor_sdk_python.Messages.{
  ActionSpec, action_ok, action_error, action_not_found, Envelope, action_response,
}

unfoldable pub within : ℕ → ℕ → ℕ → Bool
within low high c = leb low c && leb c high

-- `c.isascii() and (c.isalnum() or c in "-_")`
unfoldable pub is_op_char : ℕ → Bool
unfolding within
is_op_char c = within 48 57 c || within 65 90 c || within 97 122 c || c == 45 || c == 95

unfoldable pub all_op_chars : Str → Bool
all_op_chars [] = true
all_op_chars (c ∷ op) = is_op_char c && all_op_chars op

abbrev pub is_empty : Str → Bool
is_empty [] = true
is_empty (c ∷ s) = false

unfoldable pub request_name : Str → Str
request_name op = str "request_" ++ op

unfoldable pub confirm_name : Str → Str
confirm_name op = str "confirm_" ++ op

unfoldable pub validate_op : Str → Result (Unit {0})
validate_op op = do
  raise_if (is_empty op) (foreign (value_error (str "operation name must not be empty")))
  raise_if (not (all_op_chars op)) (
      foreign
        (value_error (str "operation name may only contain ASCII alphanumerics, '-' and '_'")))
  raise_if (starts_with op (str "request_") || starts_with op (str "confirm_")) (
      foreign (
        value_error (
          str "operation name must not start with request_/confirm_ "
          ++ str "(would collide with the gate's own action names)")))

unfoldable pub response_ok : Str → Bytes → Envelope
response_ok id data_json =
    action_response
      (record { action_id = id; status = action_ok; data_json = data_json; error = [] })

unfoldable pub response_err : Str → Str → Envelope
response_err id error =
    action_response
      (record { action_id = id; status = action_error; data_json = []; error = error })

unfoldable pub not_found : Str → List Envelope
not_found id =
    action_response (record {
      action_id = id;
      status = action_not_found;
      data_json = [];
      error = str "unknown action";
    })
    ∷ []

-- An argument of `response_envelope`: bytes, a text, or anything else.
pub data Shorthand : Type 0 where
  of_bytes : Bytes → Shorthand
  of_text : Str → Shorthand
  of_other : Shorthand

unfoldable pub response_envelope : Str → Shorthand → Result Envelope
unfolding response_ok response_err
response_envelope id (of_bytes data_json) = ok (response_ok id data_json)
response_envelope id (of_text error) = ok (response_err id error)
response_envelope id of_other = err (foreign type_error)

-- `ActionSpec(…)` of the requesting and of the confirming action.
unfoldable pub request_spec : Str → Str → Str → ℕ → ActionSpec
request_spec op description schema risk = record {
  name = request_name op;
  description =
      description
      ++ (str " — requests execution; the operation only "
          ++ str "runs after an approved caller confirms (requires_confirmation).");
  params_schema = schema;
  risk = risk;
  requires_confirmation = true;
}

unfoldable pub confirm_spec : Str → Str → ℕ → ActionSpec
confirm_spec op description risk = record {
  name = confirm_name op;
  description =
      description
      ++ (str " — executes a previously requested operation; "
          ++ str "only approved callers may invoke.");
  params_schema =
      str
        "{\"type\":\"object\",\"properties\":{\"pending_id\":{\"type\":\"string\"}},\"required\":[\"pending_id\"]}";
  risk = risk;
  requires_confirmation = false;
}
