-- ===== src/Gate/Branches.antt =====
-- vynkor/confirmation_gate.py: the branches of `route`, once for all its properties.
use vynkor_sdk_python.Prelude.{◌≡◌, ◌++◌, true, length, drop, Bool-cases, inl, inr, List}
use vynkor_sdk_python.Errors.{Str, Bytes, Result}
use vynkor_sdk_python.Py.Text.{str, str_eq, str_eq→eq, starts_with}
use vynkor_sdk_python.Messages.{ActionRequest, Envelope}
use vynkor_sdk_python.Prelude.{drop-append, refl}
use vynkor_sdk_python.Gate.Names.{request_name, confirm_name}
use vynkor_sdk_python.Gate.Allowlist.{may_confirm}
use vynkor_sdk_python.Gate.Table.{Gate, Clock}
use vynkor_sdk_python.Gate.Route.{
  Outside, Returned, Routed, answered, route_confirm, route_request, route,
}
use vynkor_sdk_python.Gate.Wildcard.{starts_with-split}

pub action-eq :
    (prefix action op : Str)
    → starts_with action prefix ≡ true
    → str_eq (drop (length prefix) action) op ≡ true
    → action ≡ prefix ++ op
action-eq prefix action op h e =
    let (rest, split) = starts_with-split action prefix h in
    let cut = drop-append (length prefix) prefix rest refl in
    let same = str_eq→eq (drop (length prefix) action) op e in cc

module _ (py : Outside) (executor : Bytes → Result Returned) where
  pub route_elim {ℓ} :
      (P : Routed → Type ℓ) (gate : Gate) (clock : Clock) (req : ActionRequest)
      → (starts_with req.action (str "request_") ≡ true
          → req.action ≡ request_name gate.op
          → P (route_request py gate clock req))
      → (req.action ≡ confirm_name gate.op
          → may_confirm gate.confirm_callers req.caller_plugin_id ≡ true
          → P (route_confirm py executor gate clock req))
      → ((envs : List Envelope) → P (answered py executor gate envs))
      → P (route py executor gate clock req)
  unfolding route request_name confirm_name
  route_elim P gate clock req requests confirms answers =
      elim (Bool-cases (starts_with req.action (str "request_"))) [
        | inl r ↦
            rw r (elim (Bool-cases (str_eq (drop (length (str "request_")) req.action) gate.op)) [
              | inl e ↦ rw e (requests r (action-eq (str "request_") req.action gate.op r e))
              | inr e ↦ rw e (answers _)
            ])
        | inr r ↦ rw r (elim (Bool-cases (starts_with req.action (str "confirm_"))) [
          | inr c ↦ rw c (answers _)
          | inl c ↦
              rw c (elim (Bool-cases (str_eq (drop (length (str "confirm_")) req.action) gate.op)) [
                | inr e ↦ rw e (answers _)
                | inl e ↦
                    rw e
                      (elim (Bool-cases (may_confirm gate.confirm_callers req.caller_plugin_id)) [
                        | inr m ↦ rw m (answers _)
                        | inl m ↦
                            rw m (confirms (action-eq (str "confirm_") req.action gate.op c e) m)
                      ])
              ])
        ])
      ]
