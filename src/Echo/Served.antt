-- ===== src/Echo/Served.antt =====
-- examples/echo_plugin.py under `serve` of vynkor/plugin.py: the plugin as a host. Its state is what
-- the messages of the history left; what a handler sends itself is not in that history.
use vynkor_sdk_python.Prelude.{
  ℕ, ◌≡◌, refl, sym, ap, subst, ◌∙◌, ◌⊎◌, inl, inr, true, false, List, [], ◌∷◌, ◌++◌, Option, none,
  some, All, map, append_assoc, append-nil, if◌then◌else◌,
}
use vynkor_sdk_python.Errors.{Str, Error, Result, ok, err, permission_denied, ◌>>◌}
use vynkor_sdk_python.Py.Text.{str, str_eq}
use vynkor_sdk_python.Messages.{
  RegisterAck, ActionRequest, Envelope, action_request, action_response,
}
use vynkor_sdk_python.Plugin.Serve.{
  Step, init_called, message_called, replied, History, Host, Ending, stopped, handler_failed,
  after_send, sending, sending_reply, after_message, on_envelope, loop, closing, shut_down,
  after_init, after_register, serve,
}
use vynkor_sdk_python.Echo.Handlers
use vynkor_sdk_python.Echo.Handlers.{EchoPlugin, World, no_session, params_or_empty}
use vynkor_sdk_python.Echo.Answers.{IsOutside, IsAnswered, on_message-IsAnswered}

-- The plugin after a history.
unfoldable pub plugin_after : World → History → EchoPlugin
plugin_after world [] = no_session
plugin_after world (message_called env ∷ before) =
    (Handlers.on_message world (plugin_after world before) env).plugin
plugin_after world (_ ∷ before) = plugin_after world before

abbrev pub echo_host :
    World → RegisterAck → (History → Step → Result (Unit {0})) → (History → ℕ) → Host
echo_host world ack deliver wall = record {
  register = ok ack;
  on_init = λ h. Handlers.on_init world;
  on_event = λ h e. ok none;
  on_message = λ h env. (Handlers.on_message world (plugin_after world h) env).result;
  on_shutdown = λ h. ok tt;
  deliver = deliver;
  wall = wall;
}

-- The ids of the actions that a history answers, the first answer first.
unfoldable pub answered_ids : History → List Str
answered_ids [] = []
answered_ids (replied (action_response r) ∷ before) = answered_ids before ++ (r.action_id ∷ [])
answered_ids (_ ∷ before) = answered_ids before

abbrev pub requests_of : List ActionRequest → List (Result Envelope)
requests_of = map (λ req. ok (action_request req))

-- Not a `publish_test`, which reads from the connection that `serve` reads from, and drops what it
-- does not wait for.
abbrev pub IsQuiet : ActionRequest → Type 0
IsQuiet req = str_eq req.action (str "publish_test") ≡ false

-- The request is an `echo` whose parameters `json.loads` refuses.
abbrev pub IsRefused : World → ActionRequest → Error → Type 0
IsRefused world req e =
    (str_eq req.action (str "echo") ≡ true)
    × (world.loads (params_or_empty req.params_json) ≡ err e)

abbrev ids_of : List ActionRequest → List Str
ids_of = map (λ req. req.action_id)

-- All requests are answered behind a history, and the loop is stopped; or all in front of one whose
-- parameters are refused, and the loop ends with that exception.
abbrev IsLoop : World → List ActionRequest → History → History × Ending → Type 0
IsLoop world reqs history (after, ending) =
    ((answered_ids after ≡ answered_ids history ++ ids_of reqs) × (ending ≡ stopped))
    ⊎ ((front : List ActionRequest) × (req : ActionRequest) × (back : List ActionRequest)
        × (e : Error) × (reqs ≡ front ++ (req ∷ back))
        × (answered_ids after ≡ answered_ids history ++ ids_of front)
        × (ending ≡ handler_failed e)
        × IsRefused world req e)

-- All requests are answered, in their order, and the run returns; or all in front of one whose
-- parameters are refused, and the run raises that exception.
abbrev pub IsServed : World → List ActionRequest → History × Result (Unit {0}) → Type 0
IsServed world reqs (history, last) =
    ((answered_ids history ≡ ids_of reqs) × (last ≡ ok tt))
    ⊎ ((front : List ActionRequest) × (req : ActionRequest) × (back : List ActionRequest)
        × (e : Error) × (reqs ≡ front ++ (req ∷ back))
        × (answered_ids history ≡ ids_of front)
        × (last ≡ err e)
        × IsRefused world req e)

quiet-IsRefused :
    (world : World) (req : ActionRequest) (e : Error)
    → IsQuiet req
    → IsOutside world req e
    → IsRefused world req e
quiet-IsRefused world req e quiet (inl refused) = refused
quiet-IsRefused world req e quiet (inr (named, came, cancelled)) = absurd (cc)

module _ (world : World) (ack : RegisterAck) (deliver : History → Step → Result (Unit {0}))
    (wall : History → ℕ) (sends : (h : History) (s : Step) → deliver h s ≡ ok tt) where
  -- One request behind its handler: the loop goes on with an answer more, or it ends.
  after_message-answers :
      (history : History) (req : ActionRequest) (result : Result (Option Envelope))
      (next : History → History × Ending)
      → IsAnswered world req result
      → let after = after_message (echo_host world ack deliver wall) history result next in
        ((h : History) × (after ≡ next h)
          × (answered_ids h ≡ answered_ids history ++ (req.action_id ∷ [])))
        ⊎ ((e : Error) × (after ≡ (history, handler_failed e)) × IsOutside world req e)
  unfolding after_message sending_reply sending after_send answered_ids
  after_message-answers history req (err e) next outside = inr (e, refl, outside)
  after_message-answers history req (ok none) next never = absurd never
  after_message-answers history req (ok (some (action_response r))) next same = inl (
    replied (action_response r) ∷ history,
    rw (sends history (replied (action_response r))) refl,
    ap (λ id. answered_ids history ++ (id ∷ [])) same,
  )
  after_message-answers history req (ok (some another)) next never = absurd never

  -- One answer more in front of what the rest of the loop comes to.
  answered-IsLoop :
      (req : ActionRequest) (reqs : List ActionRequest) (history h : History)
      (run : History × Ending)
      → answered_ids h ≡ answered_ids history ++ (req.action_id ∷ [])
      → IsLoop world reqs h run
      → IsLoop world (req ∷ reqs) history run
  answered-IsLoop req reqs history h run one (inl (more, ends)) = inl (
    more
        ∙ ap (λ front. front ++ ids_of reqs) one
        ∙ append_assoc (answered_ids history) (req.action_id ∷ []) (ids_of reqs),
    ends,
  )
  answered-IsLoop req reqs history h run one
        (inr (front, last, back, e, split, more, ends, refused)) =
      inr (
        req ∷ front,
        last,
        back,
        e,
        ap (◌∷◌ req) split,
        more
            ∙ ap (λ ids. ids ++ ids_of front) one
            ∙ append_assoc (answered_ids history) (req.action_id ∷ []) (ids_of front),
        ends,
        refused,
      )

  loop-IsLoop :
      (reqs : List ActionRequest) (history : History)
      → All IsQuiet reqs
      → IsLoop world reqs history
          (loop (echo_host world ack deliver wall) (requests_of reqs) history)
  unfolding loop on_envelope answered_ids
  loop-IsLoop [] history quiet = inl (sym (append-nil (answered_ids history)), refl)
  loop-IsLoop (req ∷ reqs) history (quiet, rest) =
      let host = echo_host world ack deliver wall in
      let next = loop host (requests_of reqs) in
      let called = message_called (action_request req) ∷ history in
      let result = host.on_message history (action_request req) in
      elim (after_message-answers called req result next
        (on_message-IsAnswered world (plugin_after world history) req).0) [
          | inl (h, goes_on, one) ↦
              subst (IsLoop world (req ∷ reqs) history) (sym goes_on)
                (answered-IsLoop req reqs history h (next h) one (loop-IsLoop reqs h rest))
          | inr (e, ends, outside) ↦ subst (IsLoop world (req ∷ reqs) history) (sym ends) (
              inr (
                [],
                req,
                reqs,
                e,
                refl,
                sym (append-nil (answered_ids history)),
                refl,
                quiet-IsRefused world req e quiet outside,
              ))
        ]

accepted-serve :
    (host : Host) (ack : RegisterAck) (inbox : List (Result Envelope))
    → ack.accepted ≡ true
    → host.on_init [] ≡ ok tt
    → after_register host (ok ack) inbox ≡ shut_down host (loop host inbox (init_called ∷ []))
unfolding after_register after_init
accepted-serve host ack inbox accepted begun =
    ap
      (λ b.
        if b
        then after_init host (host.on_init []) inbox
        else ([], err (permission_denied (str "registration rejected: " ++ ack.reject_reason))))
      accepted
    ∙ ap (λ r. after_init host r inbox) begun

shut_down-IsServed :
    (host : Host) (reqs : List ActionRequest) (world : World) (run : History × Ending)
    → host.on_shutdown run.0 ≡ ok tt
    → IsLoop world reqs (init_called ∷ []) run
    → IsServed world reqs (shut_down host run)
unfolding shut_down closing answered_ids
shut_down-IsServed host reqs world (history, ending) closed (inl (answers, ends)) =
    inl (answers, ap (λ r. r >> closing host ending) closed ∙ ap (closing host) ends)
shut_down-IsServed host reqs world (history, ending) closed
      (inr (front, req, back, e, split, answers, ends, refused)) =
    inr (
      front,
      req,
      back,
      e,
      split,
      answers,
      ap (λ r. r >> closing host ending) closed ∙ ap (closing host) ends,
      refused,
    )

-- Served as a plugin that the kernel accepts, on sends that do not raise, EchoPlugin answers the
-- action requests of a list one after the other, each with its own id, where none of them is a
-- `publish_test`. Either all are answered and the run returns, or all in front of an `echo` whose
-- parameters `json.loads` refuses, and the run raises the exception of that.
pub serve-answers :
    (world : World) (ack : RegisterAck) (deliver : History → Step → Result (Unit {0}))
    (wall : History → ℕ) (reqs : List ActionRequest)
    → ((h : History) (s : Step) → deliver h s ≡ ok tt)
    → ack.accepted ≡ true
    → Handlers.on_init world ≡ ok tt
    → All IsQuiet reqs
    → IsServed world reqs (serve (echo_host world ack deliver wall) (requests_of reqs))
unfolding serve
serve-answers world ack deliver wall reqs sends accepted begun quiet =
    let host = echo_host world ack deliver wall in
    let run = loop host (requests_of reqs) (init_called ∷ []) in
    subst (IsServed world reqs) (sym (accepted-serve host ack (requests_of reqs) accepted begun)) (
      shut_down-IsServed host reqs world run refl
        (loop-IsLoop world ack deliver wall sends reqs (init_called ∷ []) quiet))
