-- ===== src/Client/Correlation.antt =====
-- vynkor/client.py: which reply a request returns.
use vynkor_sdk_python.Prelude.{
  ℕ, ◌+◌, ◌<◌, ◌≡◌, refl, sym, ap, ◌∙◌, Bool, true, false, ◌||◌, List, [], ◌∷◌, leb, arith,
  Bool-cases, All, inl, inr, ◌⊎◌, subst,
}
use vynkor_sdk_python.Errors.{Str, Bytes, Result, ok, err, ok-injective, >>=-eq-ok}
use vynkor_sdk_python.Py.Text.{str_eq→eq}
use vynkor_sdk_python.Messages.{
  ActionResponse, Envelope, action_response, kernel_error, action_stream_abort,
}
use vynkor_sdk_python.Client.Requests.{
  Delivery, Requested, await_matching, on_received, answers_action, action_reply, request,
  send_action, or_default, default_action_timeout,
}

-- The deliveries begin with envelopes that do not match, then `env` comes before the deadline and
-- matches; `left` is what follows it.
abbrev pub IsFirst : (Envelope → Bool) → ℕ → Envelope → List Delivery → List Delivery → Type 0
IsFirst matches deadline env [] left = ⊥
IsFirst matches deadline env (d ∷ rest) left =
    ((d.received ≡ ok env) × (matches env ≡ true) × (d.arrived < deadline) × (left ≡ rest))
    ⊎ ((passed : Envelope) × (d.received ≡ ok passed)
        × (matches passed ≡ false)
        × IsFirst matches deadline env rest left)

on_received-eq :
    (deadline : ℕ) (matches : Envelope → Bool) (got : Result Envelope) (left : List Delivery)
    → (rest : Result Envelope × List Delivery) (env : Envelope)
    → (on_received deadline matches got left rest).0 ≡ ok env
    → ((got ≡ ok env)
        × (matches env ≡ true)
        × ((on_received deadline matches got left rest).1 ≡ left))
      ⊎ ((passed : Envelope) × (got ≡ ok passed)
          × (matches passed ≡ false)
          × (rest.0 ≡ ok env)
          × ((on_received deadline matches got left rest).1 ≡ rest.1))
unfolding on_received
on_received-eq deadline matches (err e) left rest env = λ h. cc
on_received-eq deadline matches (ok seen) left rest env = elim (Bool-cases (matches seen)) [
  | inl m ↦ rw m (λ h. inl (h, ap matches (sym (ok-injective h)) ∙ m, refl))
  | inr m ↦ rw m (λ h. inr (seen, refl, m, h, refl))
]

-- `_await_matching` returns the first envelope that matches, it came before the deadline, and all
-- that came before it was taken off the connection and did not match.
pub await_matching-IsFirst :
    (deadline : ℕ) (matches : Envelope → Bool) (now : ℕ) (deliveries : List Delivery)
    → (env : Envelope) → (await_matching deadline matches now deliveries).0 ≡ ok env
    → IsFirst matches deadline env deliveries (await_matching deadline matches now deliveries).1
unfolding await_matching
await_matching-IsFirst deadline matches now [] env = λ h. cc
await_matching-IsFirst deadline matches now (d ∷ rest) env =
    let later = await_matching-IsFirst deadline matches d.checked rest env in
    elim (Bool-cases (leb deadline now || leb deadline d.arrived)) [
      | inl late ↦ rw late (λ h. cc)
      | inr early ↦ rw early (λ h.
          elim (on_received-eq deadline matches d.received rest
            (await_matching deadline matches d.checked rest) env h) [
              | inl (got, m, left) ↦ inl (got, m, ground arith, left)
              | inr (passed, got, m, r, left) ↦ inr (
                passed,
                got,
                m,
                subst (λ l. IsFirst matches deadline env rest l) (sym left) (later r),
              )
            ])
    ]

action_reply-IsCorrelated :
    (id : Str) (env : Envelope) (resp : ActionResponse)
    → answers_action id env ≡ true
    → action_reply env ≡ ok resp
    → (env ≡ action_response resp) × (resp.action_id ≡ id)
unfolding answers_action action_reply
action_reply-IsCorrelated id (action_response r) resp m h =
    let same : r ≡ resp = ok-injective h in
    (ap action_response same, sym (ap ActionResponse.action_id same) ∙ str_eq→eq r.action_id id m)
action_reply-IsCorrelated id (action_stream_abort a) resp m h = cc
action_reply-IsCorrelated id (kernel_error e) resp m h = cc
action_reply-IsCorrelated id env resp m h = cc

-- A matching envelope does match.
IsFirst-matches :
    (matches : Envelope → Bool) (deadline : ℕ) (env : Envelope) (deliveries left : List Delivery)
    → IsFirst matches deadline env deliveries left
    → matches env ≡ true
IsFirst-matches matches deadline env [] left h = absurd h
IsFirst-matches matches deadline env (d ∷ rest) left (inl (got, m, early, same)) = m
IsFirst-matches matches deadline env (d ∷ rest) left (inr (passed, got, m, later)) =
    IsFirst-matches matches deadline env rest left later

-- What the caller of `send_action` may rely on.
abbrev pub IsAnswer : Str → ℕ → List Delivery → Requested ActionResponse → ActionResponse → Type 0
IsAnswer id deadline deliveries asked resp =
    (resp.action_id ≡ id)
    × IsFirst (answers_action id) deadline (action_response resp) deliveries asked.left

request-IsAnswer :
    (id : Str) (env : Envelope) (outcome : Result (Unit {0})) (deadline now : ℕ)
    → (deliveries : List Delivery) (resp : ActionResponse)
    → (request (answers_action id) action_reply env outcome deadline now deliveries).result
      ≡ ok resp
    → IsAnswer id deadline deliveries
        (request (answers_action id) action_reply env outcome deadline now deliveries)
        resp
unfolding request
request-IsAnswer id env (err e) deadline now deliveries resp h = cc
request-IsAnswer id env (ok done) deadline now deliveries resp h =
    let waited = await_matching deadline (answers_action id) now deliveries in
    let (got, e, r) = >>=-eq-ok waited.0 action_reply h in
    let first = await_matching-IsFirst deadline (answers_action id) now deliveries got e in
    let matched = IsFirst-matches (answers_action id) deadline got deliveries waited.1 first in
    let (shape, same) = action_reply-IsCorrelated id got resp matched r in
    (
      same,
      subst (λ found. IsFirst (answers_action id) deadline found deliveries waited.1) shape first,
    )

-- `send_action` returns only a response with its own action id, the first envelope on the
-- connection that answers the action, which came before its deadline; the default of 30 s stands for
-- a `timeout_ms` of 0.
pub send_action-IsAnswer :
    (send : Envelope → Result (Unit {0})) (now next : ℕ) (id action : Str) (params_json : Bytes)
    → (timeout_ms : ℕ) (deliveries : List Delivery) (resp : ActionResponse)
    → (send_action send now next id action params_json timeout_ms deliveries).result ≡ ok resp
    → IsAnswer id
        (now + or_default timeout_ms default_action_timeout)
        deliveries
        (send_action send now next id action params_json timeout_ms deliveries)
        resp
unfolding send_action
send_action-IsAnswer send now next id action params_json timeout_ms deliveries resp h =
    request-IsAnswer id _ _ _ next deliveries resp h

-- What has arrived, and been looked at, before the deadline.
abbrev pub IsTimely : ℕ → Delivery → Type 0
IsTimely deadline d = (d.arrived < deadline) × (d.checked < deadline)

in_time :
    (deadline now arrived : ℕ)
    → now < deadline
    → arrived < deadline
    → leb deadline now || leb deadline arrived ≡ false
in_time deadline now arrived h a = ground arith

on_received-match :
    (deadline : ℕ) (matches : Envelope → Bool) (got : Result Envelope) (left : List Delivery)
    → (rest : Result Envelope × List Delivery) (env : Envelope) → got ≡ ok env
    → matches env ≡ true
    → on_received deadline matches got left rest ≡ (ok env, left)
unfolding on_received
on_received-match deadline matches got left rest env e m = rw (e, m) refl

on_received-pass :
    (deadline : ℕ) (matches : Envelope → Bool) (got : Result Envelope) (left : List Delivery)
    → (rest : Result Envelope × List Delivery) (env : Envelope) → got ≡ ok env
    → matches env ≡ false
    → on_received deadline matches got left rest ≡ rest
unfolding on_received
on_received-pass deadline matches got left rest env e m = rw (e, m) refl

-- If all deliveries are timely and one of them matches, behind envelopes that do not, then
-- `_await_matching` returns that one and leaves what follows it on the connection.
pub await_matching_finds :
    (deadline : ℕ) (matches : Envelope → Bool) (now : ℕ) (deliveries left : List Delivery)
    → (env : Envelope) → now < deadline
    → All (IsTimely deadline) deliveries
    → IsFirst matches deadline env deliveries left
    → await_matching deadline matches now deliveries ≡ (ok env, left)
unfolding await_matching
await_matching_finds deadline matches now [] left env early timely h = absurd h
await_matching_finds deadline matches now (d ∷ rest) left env early timely (inl (got, m, a, same)) =
    let next = await_matching deadline matches d.checked rest in
    rw (in_time deadline now d.arrived early a) (
      on_received-match deadline matches d.received rest next env got m
      ∙ ap (λ l. (ok env, l)) (sym same))
await_matching_finds deadline matches now (d ∷ rest) left env early timely
      (inr (passed, got, m, h)) =
    let next = await_matching deadline matches d.checked rest in
    rw (in_time deadline now d.arrived early timely.0.0) (
      on_received-pass deadline matches d.received rest next passed got m
      ∙ await_matching_finds deadline matches d.checked rest left env timely.0.1 timely.1 h)
