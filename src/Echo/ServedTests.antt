-- ===== src/Echo/ServedTests.antt =====
-- The example plugin served on two actions.
use vynkor_sdk_python.Prelude.{All, ◌≡◌, refl, true, false, List, [], ◌∷◌}
use vynkor_sdk_python.Errors.{Str, ok}
use vynkor_sdk_python.Py.Text.{str, str_eq}
use vynkor_sdk_python.Py.Json.{scalar}
use vynkor_sdk_python.Messages.{RegisterAck, ActionRequest}
use vynkor_sdk_python.Plugin.Serve.{serve}
use vynkor_sdk_python.Echo.Handlers
use vynkor_sdk_python.Echo.Handlers.{World, PublishAck}
use vynkor_sdk_python.Echo.Served.{echo_host, requests_of, IsQuiet, IsServed, serve-answers}

abbrev world : World
world = record {
  send = λ sent env. ok tt;
  now = 0;
  next = 0;
  deliveries = [];
  ack_of = λ b. record { published = true; error = [] };
  loads = λ b. ok (scalar 0);
  dumps = λ j. [];
  str_error = λ e. [];
}

abbrev accepting : RegisterAck
accepting = record { accepted = true; reject_reason = []; session_nonce = [] }

abbrev request : Str → Str → ActionRequest
request id action = record {
  action_id = id;
  action = action;
  params_json = [];
  caller_plugin_id = [];
  timeout_ms = 0;
  streaming = false;
}

abbrev two_requests : List ActionRequest
two_requests = request (str "a") (str "echo") ∷ request (str "b") (str "unheard") ∷ []

begun : Handlers.on_init world ≡ ok tt
unfolding Handlers.on_init
begun = refl

quiet : All IsQuiet two_requests
unfolding str str_eq
quiet = (refl, (refl, tt))

serve-answers_example :
    IsServed world two_requests
      (serve (echo_host world accepting (λ h s. ok tt) (λ h. 0)) (requests_of two_requests))
serve-answers_example =
    serve-answers world accepting (λ h s. ok tt) (λ h. 0) two_requests (λ h s. refl) refl begun
      quiet
