-- ===== src/Echo/Answers.antt =====
-- examples/echo_plugin.py: the answer to an action request.
use vynkor_sdk_python.Prelude.{
  ◌≡◌, refl, ◌⊎◌, inl, inr, true, false, ◌&&◌, [], Option, none, some, Bool-cases,
}
use vynkor_sdk_python.Errors.{Error, Result, ok, err, is_exception, ◌>>=◌}
use vynkor_sdk_python.Py.Text.{str, str_eq}
use vynkor_sdk_python.Messages.{ActionRequest, Envelope, action_request, action_response}
use vynkor_sdk_python.Echo.Handlers.{
  EchoPlugin, World, PublishAck, response, publish_response, published, handle_publish_test,
  params_or_empty, echo_response, plain_action, handle_action, on_message,
}

-- An exception comes from `json.loads` of an `echo`, or it is a cancellation of the `publish_event`
-- of a `publish_test`.
abbrev pub IsOutside : World → ActionRequest → Error → Type 0
IsOutside world req e =
    ((str_eq req.action (str "echo") ≡ true)
      × (world.loads (params_or_empty req.params_json) ≡ err e))
    ⊎ ((str_eq req.action (str "publish_test") ≡ true)
        × ((published world req.params_json).0 ≡ err e)
        × (is_exception e ≡ false))

-- The handler returns an ActionResponse with the request's id, or the exception comes from outside.
abbrev pub IsAnswer : World → ActionRequest → Result Envelope → Type 0
IsAnswer world req (ok (action_response r)) = r.action_id ≡ req.action_id
IsAnswer world req (ok _) = ⊥
IsAnswer world req (err e) = IsOutside world req e

abbrev pub IsAnswered : World → ActionRequest → Result (Option Envelope) → Type 0
IsAnswered world req (ok (some env)) = IsAnswer world req (ok env)
IsAnswered world req (ok none) = ⊥
IsAnswered world req (err e) = IsOutside world req e

module _ (world : World) (req : ActionRequest) where
  publish-IsAnswer :
      (acked : Result PublishAck)
      → str_eq req.action (str "publish_test") ≡ true
      → (published world req.params_json).0 ≡ acked
      → IsAnswer world req (publish_response world req.action_id acked)
  unfolding publish_response response
  publish-IsAnswer (ok ack) named h = elim (Bool-cases ack.published) [
    | inl e ↦ rw e refl
    | inr e ↦ rw e refl
  ]
  publish-IsAnswer (err e) named h = elim (Bool-cases (is_exception e)) [
    | inl c ↦ rw c refl
    | inr c ↦ rw c (inr (named, h, c))
  ]

  echo-IsAnswer :
      (loaded : _)
      → world.loads (params_or_empty req.params_json) ≡ loaded
      → str_eq req.action (str "echo") ≡ true
      → IsAnswer world req (echo_response world req)
  unfolding echo_response response
  echo-IsAnswer (ok params) h named = rw h refl
  echo-IsAnswer (err e) h named = rw h (inl (named, h))

  plain_action-IsAnswer : IsAnswer world req (plain_action world req).0
  unfolding plain_action handle_publish_test response
  plain_action-IsAnswer = elim (Bool-cases (str_eq req.action (str "publish_test"))) [
    | inl p ↦ rw p (publish-IsAnswer (published world req.params_json).0 p refl)
    | inr p ↦ elim (Bool-cases (str_eq req.action (str "echo"))) [
      | inl e ↦ rw (p, e) (echo-IsAnswer (world.loads (params_or_empty req.params_json)) refl e)
      | inr e ↦ rw (p, e) refl
    ]
  ]

  IsAnswer-some :
      (r : Result Envelope)
      → IsAnswer world req r
      → IsAnswered world req (r >>= λ reply. ok (some reply))
  IsAnswer-some (ok env) h = h
  IsAnswer-some (err e) h = h

-- Every action request is answered by the value that the handler returns, with a response that has
-- the request's own id. An exception gets out only where `json.loads` refuses the parameters of an
-- `echo`, or a cancellation comes out of the `publish_event` of a `publish_test`. The handler hands
-- nothing to `client.send` itself.
pub on_message-IsAnswered :
    (world : World) (plugin : EchoPlugin) (req : ActionRequest)
    → let h = on_message world plugin (action_request req) in
      IsAnswered world req h.result × (h.sent ≡ [])
unfolding on_message handle_action response
on_message-IsAnswered world plugin req =
    elim (Bool-cases (str_eq req.action (str "stream_echo") && req.streaming)) [
      | inl s ↦ rw s (refl, refl)
      | inr s ↦ rw s (
        IsAnswer-some world req (plain_action world req).0 (plain_action-IsAnswer world req),
        refl,
      )
    ]
