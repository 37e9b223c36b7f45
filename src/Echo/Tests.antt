-- ===== src/Echo/Tests.antt =====
-- The example plugin at concrete messages.
use vynkor_sdk_python.Prelude.{range_from, ℕ, ◌≡◌, refl, true, [], ◌∷◌, ◌++◌}
use mathlib.Core.List.{Perm}
use mathlib.Core.List.Perm
use vynkor_sdk_python.Errors.{Bytes, ok}
use vynkor_sdk_python.Py.Text.{str}
use vynkor_sdk_python.Py.Json.{scalar}
use vynkor_sdk_python.Messages.{ActionRequest, action_request, action_ok}
use vynkor_sdk_python.Echo.Handlers.{
  World, no_session, response, response_chunk, on_message, session_of,
}
use vynkor_sdk_python.Echo.Sorted.{joined}
use vynkor_sdk_python.Echo.Sessions.{run, chunks_of, run-chunks_of}
use vynkor_sdk_python.Echo.Answers.{IsAnswered, on_message-IsAnswered}

abbrev world : World
world = record {
  send = λ sent env. ok tt;
  now = 0;
  next = 0;
  deliveries = [];
  ack_of = λ b. record { published = true; error = [] };
  loads = λ b. ok (scalar 0);
  dumps = λ j. [];
  str_error = λ e. [];
}

abbrev opening : ActionRequest
opening = record {
  action_id = str "a";
  action = str "stream_echo";
  params_json = [];
  caller_plugin_id = [];
  timeout_ms = 0;
  streaming = true;
}

-- Chunk `k` holds `k` and a zero.
abbrev piece : ℕ → Bytes
piece k = k ∷ 0 ∷ []

-- The chunks come in the order 1, 0.
swapped : Perm (1 ∷ 0 ∷ []) (range_from 0 2)
swapped = Perm.swap 0 1 []

run-chunks_of_example :
    (front back : Bytes) × (front ++ back ≡ joined piece 0 2)
    × (run world
          (session_of (str "b") [])
          (action_request opening ∷ chunks_of (str "a") piece 1 (0 ∷ []))
        ≡ (
          no_session,
          response (str "a") action_ok [] []
              ∷ response_chunk (str "a") 0 front
              ∷ response_chunk (str "a") 1 back
              ∷ response (str "a") action_ok (joined piece 0 2) []
              ∷ [],
        ))
run-chunks_of_example =
    run-chunks_of world (λ sent env. refl) (session_of (str "b") []) opening piece 2 1 (0 ∷ []) refl
      refl swapped

on_message-IsAnswered_example :
    let h = on_message world no_session (action_request (record opening { action = str "echo" })) in
    IsAnswered world (record opening { action = str "echo" }) h.result × (h.sent ≡ [])
on_message-IsAnswered_example =
    on_message-IsAnswered world no_session (record opening { action = str "echo" })
