-- ===== src/Gate/Confirm.antt =====
-- vynkor/confirmation_gate.py: a request that is confirmed in time is executed.
use vynkor_sdk_python.Prelude.{
  ℕ, ◌+◌, ◌<◌, ◌≡◌, refl, sym, subst, ap, ◌∙◌, true, false, [], ◌∷◌, ◌++◌, leb, if◌then◌else◌, none,
  some, length, drop, arith, drop-append,
}
use vynkor_sdk_python.Prelude.Dict.{Dict}
use vynkor_sdk_python.Prelude.Dict
use vynkor_sdk_python.Errors.{Str, Bytes, Result, ok, ◌>>=◌}
use vynkor_sdk_python.Py.Text.{str, str_eq, str_eq_refl, starts_with, str_key}
use vynkor_sdk_python.Messages.{ActionRequest}
use vynkor_sdk_python.Gate.Names.{request_name, confirm_name}
use vynkor_sdk_python.Gate.Allowlist.{may_confirm}
use vynkor_sdk_python.Gate.Table.{
  Gate, Clock, PendingAction, pending_id, pending_of, is_stale, stale_pids, sweep_expired,
  store_request, take_pending, found_or_raise,
}
use vynkor_sdk_python.Gate.Route.{
  Outside, Returned, parse_pending_id, calls_for, reply_for, reply_of, caught, confirm_parsed,
  route_confirm, route_request, route,
}
use vynkor_sdk_python.Gate.Outcome.{IsReplyTo, caught-IsReplyTo}
use vynkor_sdk_python.Gate.Expiry.{mem, get-delete_all}
use vynkor_sdk_python.Gate.Wildcard.{starts_with-append}
use vynkor_sdk_python.Gate.Fresh.{IsFresh, get-fresh, sweep_expired-IsIssued}

-- An action with a prefix, as `route` takes it apart.
named_parts :
    (prefix action op : Str)
    → action ≡ prefix ++ op
    → (starts_with action prefix ≡ true) × (str_eq (drop (length prefix) action) op ≡ true)
named_parts prefix action op e = (
  subst (λ a. starts_with a prefix ≡ true) (sym e) (starts_with-append prefix op),
  subst (λ a. str_eq (drop (length prefix) a) op ≡ true) (sym e)
      (rw (drop-append (length prefix) prefix op refl) (str_eq_refl op)),
)

confirm_prefix_differs : (op : Str) → starts_with (str "confirm_" ++ op) (str "request_") ≡ false
unfolding str starts_with
confirm_prefix_differs op = refl

confirm_is_no_request :
    (action op : Str) → action ≡ confirm_name op → starts_with action (str "request_") ≡ false
unfolding confirm_name
confirm_is_no_request action op e =
    subst (λ a. starts_with a (str "request_") ≡ false) (sym e) (confirm_prefix_differs op)

module _ (py : Outside) (executor : Bytes → Result Returned) where
  pub route_requests :
      (gate : Gate) (clock : Clock) (req : ActionRequest)
      → req.action ≡ request_name gate.op
      → route py executor gate clock req ≡ route_request py gate clock req
  unfolding route request_name
  route_requests gate clock req named =
      let (starts, rest) = named_parts (str "request_") req.action gate.op named in
      rw (starts, rest) refl

  route_confirms :
      (gate : Gate) (clock : Clock) (req : ActionRequest)
      → req.action ≡ confirm_name gate.op
      → may_confirm gate.confirm_callers req.caller_plugin_id ≡ true
      → route py executor gate clock req ≡ route_confirm py executor gate clock req
  unfolding route confirm_name
  route_confirms gate clock req named allowed =
      let (starts, rest) = named_parts (str "confirm_") req.action gate.op named in
      rw (confirm_is_no_request req.action gate.op named, starts, rest, allowed) refl

-- A new entry is among the stale ones exactly if it is stale itself.
mem-insert :
    (now ttl : ℕ) (pid : Str) (p : PendingAction) (table : Dict Str PendingAction)
    → Dict.get pid table ≡ none
    → mem pid (stale_pids now ttl (Dict.insert pid p table)) ≡ is_stale now ttl p
unfolding mem stale_pids Dict.insert Dict.get
mem-insert now ttl pid p [] h = ground (arith, str_eq_refl pid)
mem-insert now ttl pid p ((q, w) ∷ table) h =
    ground (arith, str_eq_refl pid, mem-insert now ttl pid p table)

-- A request that was stored is still there for a confirmation before it expires.
get-stored :
    (first second : Clock) (req : ActionRequest) (gate : Gate)
    → IsFresh gate
    → second.now < first.created + gate.pending_ttl
    → Dict.get
        (pending_id first.wall gate.seq)
        (sweep_expired second.now (store_request first req gate).0).pending
      ≡ some (pending_of first req)
unfolding sweep_expired store_request is_stale pending_of
get-stored first second req gate f live =
    let pid = pending_id first.wall gate.seq in
    let before = (sweep_expired first.now gate).pending in
    let p = pending_of first req in
    let table = Dict.insert pid p before in
    let absent = get-fresh first.wall gate.seq before (sweep_expired-IsIssued first.now gate f) in
    let young : leb (first.created + gate.pending_ttl) second.now ≡ false = ground arith in
    let kept = mem-insert second.now gate.pending_ttl pid p before absent ∙ young in
    let there : Dict.get pid table ≡ some p =
      ground (arith, Dict.get-insert pid pid p before, str_eq_refl pid) in
    get-delete_all pid (stale_pids second.now gate.pending_ttl table) table
    ∙ ap (λ b. if b then none else Dict.get pid table) kept
    ∙ there

-- What is left of a confirmation once its parameters are parsed.
confirm_parsed-found :
    (py : Outside) (executor : Bytes → Result Returned)
    → (gate : Gate) (clock : Clock) (id pid : Str) (parsed : Result Str) (p : PendingAction)
    → parsed ≡ ok pid
    → Dict.get pid (sweep_expired clock.now gate).pending ≡ some p
    → let r = confirm_parsed py executor gate clock id parsed in
      (r.calls ≡ p.params ∷ []) × (r.replies ≡ caught py id (executor p.params >>= reply_of py id))
unfolding confirm_parsed take_pending found_or_raise calls_for reply_for
confirm_parsed-found py executor gate clock id pid parsed p e found = rw e (
    let calls = ap (λ o. calls_for py executor (found_or_raise gate.op pid o)) found in
    let replies = ap (λ o. reply_for py executor id (found_or_raise gate.op pid o)) found in
    (calls, replies))

-- A `request_<op>`, then a `confirm_<op>` of a caller that may confirm, with the pending id that the
-- request was given and before it expires: the executor is called once, with the parameters of the
-- request. The reply has the id of the confirmation: it is a success with the bytes that the
-- executor returned, or with those of a true pair's value or of another value, an error with a
-- false pair's value as text, or an error with the text of the exception that the executor or a
-- conversion to bytes raised. A cancellation is raised as it is.
pub route-route_confirms :
    (py : Outside) (executor : Bytes → Result Returned)
    → (gate : Gate) (first second : Clock) (req confirm : ActionRequest) → IsFresh gate
    → req.action ≡ request_name gate.op
    → confirm.action ≡ confirm_name gate.op
    → may_confirm gate.confirm_callers confirm.caller_plugin_id ≡ true
    → parse_pending_id py confirm.params_json ≡ ok (pending_id first.wall gate.seq)
    → second.now < first.created + gate.pending_ttl
    → let r = route py executor (route py executor gate first req).gate second confirm in
      (r.calls ≡ req.params_json ∷ [])
      × IsReplyTo py confirm.action_id (executor req.params_json) r.replies
unfolding route_request route_confirm store_request pending_of sweep_expired
route-route_confirms py executor gate first second req confirm f named confirms allowed parsed
      live =
    let stored = (store_request first req gate).0 in
    let found = get-stored first second req gate f live in
    rw (route_requests py executor gate first req named) (
      rw (route_confirms py executor stored second confirm confirms allowed) (
        let (calls, replies) =
          confirm_parsed-found py executor stored second confirm.action_id
            (pending_id first.wall gate.seq) (parse_pending_id py confirm.params_json)
            (pending_of first req) parsed found in
        (
          calls,
          subst (IsReplyTo py confirm.action_id (executor req.params_json)) (sym replies)
              (caught-IsReplyTo py confirm.action_id (executor req.params_json)),
        )))
