-- ===== src/Concurrent/Replies.antt =====
-- vynkor/concurrent.py: every request that a task was spawned for gets its replies.
use vynkor_sdk_python.Prelude.{
  ◌≡◌, refl, sym, ap, ◌∙◌, subst, List, [], ◌∷◌, ◌++◌, Option, take, drop, map, append_assoc,
  take-append-drop, Bool-cases, inl, inr,
}
use mathlib.Core.List.{Perm, perm_middle}
use mathlib.Core.List.Perm
use vynkor_sdk_python.Py.Text.{str}
use vynkor_sdk_python.Gate.Names.{response_err}
use vynkor_sdk_python.Errors.{Result, ok, err, is_exception}
use vynkor_sdk_python.Messages.{
  ActionRequest, Event, Envelope, ping, plugin_shutdown, event, action_request, unset,
  action_response, action_error,
}
use vynkor_sdk_python.Concurrent.System.{
  Handler, Log, Phase, Ended, System, room, park, put_all, reply_of_task, after_accept, after_event,
  after_message, on_envelope, on_inbound, lose,
}
use vynkor_sdk_python.Concurrent.Steps.{
  Step, finish, resume, wake_inbound, wake_response, wake_both, drain, drain_end, Reach, begin,
  later,
}

-- The envelopes that blocked tasks still have to put.
unfoldable pub waiting_puts : List (List Envelope) → List Envelope
waiting_puts [] = []
waiting_puts (envs ∷ blocked) = envs ++ waiting_puts blocked

-- What the task of an ended request puts: what its handler returned, or one error reply.
abbrev pub outcome_puts : Handler → ActionRequest → Result (List Envelope) → List Envelope
outcome_puts handler req (ok envelopes) = envelopes
outcome_puts handler req (err e) =
    action_response (record {
      action_id = req.action_id;
      status = action_error;
      data_json = [];
      error = str "handler panicked: " ++ handler.str_error e;
    })
    ∷ []

-- The envelopes that the tasks of the ended requests put.
unfoldable pub replies : Handler → List Ended → List Envelope
replies handler [] = []
replies handler ((req, outcome) ∷ ended) = outcome_puts handler req outcome ++ replies handler ended

-- Up to order, the accepted requests are those that run and those that have ended, and the envelopes
-- that were put or wait are those of the ended requests.
pub record IsAnswered (handler : Handler) (s : System) : Type 0 where
  pub requests : Perm s.accepted (s.running ++ map (λ ended. ended.0) s.ended)
  pub put : Perm (s.produced ++ waiting_puts s.blocked) (replies handler s.ended)

move_front {ℓ} :
    {A : Type ℓ} (xs front ys : List A) → Perm (front ++ (xs ++ ys)) (xs ++ (front ++ ys))
move_front [] front ys = Perm.rfl
move_front (x ∷ xs) front ys =
    Perm.trans (perm_middle front (xs ++ ys)) (Perm.cons x (move_front xs front ys))

waiting_puts-append :
    (before after : List (List Envelope))
    → waiting_puts (before ++ after) ≡ waiting_puts before ++ waiting_puts after
unfolding waiting_puts
waiting_puts-append [] after = refl
waiting_puts-append (envs ∷ before) after =
    ap (λ w. envs ++ w) (waiting_puts-append before after)
    ∙ sym (append_assoc envs (waiting_puts before) (waiting_puts after))

waiting_puts-park :
    (rest : List Envelope) (blocked : List (List Envelope))
    → waiting_puts (park rest blocked) ≡ rest ++ waiting_puts blocked
unfolding waiting_puts park
waiting_puts-park [] blocked = refl
waiting_puts-park (e ∷ more) blocked = refl

put_all-puts :
    (envs : List Envelope) (s : System)
    → (put_all envs s).produced ++ waiting_puts (put_all envs s).blocked
      ≡ s.produced ++ (envs ++ waiting_puts s.blocked)
unfolding put_all
put_all-puts envs s =
    let now = take (room s) envs in
    let then_on = drop (room s) envs in
    ap (λ w. (s.produced ++ now) ++ w) (waiting_puts-park then_on s.blocked)
    ∙ append_assoc s.produced now (then_on ++ waiting_puts s.blocked)
    ∙ ap (λ w. s.produced ++ w) (sym (append_assoc now then_on (waiting_puts s.blocked)))
    ∙ ap (λ w. s.produced ++ (w ++ waiting_puts s.blocked)) (take-append-drop (room s) envs)

module _ (handler : Handler) where
  IsAnswered-log :
      (s : System) (log : Log) (phase : Phase)
      → IsAnswered handler s
      → IsAnswered handler (record s { log = log; phase = phase })
  IsAnswered-log s log phase a = record { requests = a.requests; put = a.put }

  after_accept-IsAnswered :
      (req : ActionRequest) (r : Result (Unit {0})) (s : System)
      → IsAnswered handler s
      → IsAnswered handler (after_accept handler req r s)
  unfolding after_accept
  after_accept-IsAnswered req (ok done) s a =
      let ended = map (λ e. e.0) s.ended in
      record {
        requests = Perm.trans (Perm.cons req a.requests) (
            subst (Perm (req ∷ (s.running ++ ended)))
              (sym (append_assoc s.running (req ∷ []) ended))
              (Perm.symm (perm_middle s.running ended)));
        put = a.put;
      }
  after_accept-IsAnswered req (err e) s a = elim (Bool-cases (is_exception e)) [
    | inl x ↦ rw x (IsAnswered-log s _ _ a)
    | inr x ↦ rw x (IsAnswered-log s s.log _ a)
  ]

  after_event-IsAnswered :
      (e : Event) (r : Result (Option Envelope)) (s : System)
      → IsAnswered handler s
      → IsAnswered handler (after_event handler e r s)
  unfolding after_event
  after_event-IsAnswered e (ok reply) s a = IsAnswered-log s _ _ a
  after_event-IsAnswered e (err x) s a = IsAnswered-log s _ _ a

  after_message-IsAnswered :
      (env : Envelope) (r : Result (Option Envelope)) (s : System)
      → IsAnswered handler s
      → IsAnswered handler (after_message handler env r s)
  unfolding after_message
  after_message-IsAnswered env (ok reply) s a = IsAnswered-log s _ _ a
  after_message-IsAnswered env (err x) s a = IsAnswered-log s _ _ a

  on_envelope-IsAnswered :
      (env : Envelope) (s : System)
      → IsAnswered handler s
      → IsAnswered handler (on_envelope handler env s)
  unfolding on_envelope
  on_envelope-IsAnswered (ping timestamp) s a = IsAnswered-log s _ _ a
  on_envelope-IsAnswered plugin_shutdown s a = IsAnswered-log s s.log _ a
  on_envelope-IsAnswered (action_request req) s a =
      after_accept-IsAnswered req (handler.accept s.log req) s a
  on_envelope-IsAnswered (event e) s a = after_event-IsAnswered e (handler.on_event s.log e) s a
  on_envelope-IsAnswered unset s a = IsAnswered-log s s.log _ a
  on_envelope-IsAnswered env s a = after_message-IsAnswered env (handler.on_message s.log env) s a

  on_inbound-IsAnswered :
      (got : Result Envelope) (s : System)
      → IsAnswered handler s
      → IsAnswered handler (on_inbound handler got s)
  unfolding on_inbound
  on_inbound-IsAnswered (err e) s a = IsAnswered-log s s.log _ a
  on_inbound-IsAnswered (ok env) s a = on_envelope-IsAnswered env s a

  -- What a task puts, and what it did before.
  put_all-IsAnswered :
      (envs : List Envelope) (s : System)
      → Perm s.accepted (s.running ++ map (λ e. e.0) s.ended)
      → Perm (envs ++ (s.produced ++ waiting_puts s.blocked)) (replies handler s.ended)
      → IsAnswered handler (put_all envs s)
  unfolding put_all
  put_all-IsAnswered envs s c p = record {
    requests = c;
    put =
        subst (λ w. Perm w (replies handler s.ended)) (sym (put_all-puts envs s))
          (Perm.trans (move_front envs s.produced (waiting_puts s.blocked)) p);
  }

  reply_of_task-outcome :
      (req : ActionRequest) (outcome : Result (List Envelope))
      → reply_of_task handler req outcome ≡ outcome_puts handler req outcome
  unfolding reply_of_task response_err
  reply_of_task-outcome req (ok envelopes) = refl
  reply_of_task-outcome req (err e) = refl

  -- A running request among the ended ones.
  ended_next :
      (before after : List ActionRequest) (req : ActionRequest) (ended : List ActionRequest)
      → Perm ((before ++ (req ∷ after)) ++ ended) ((before ++ after) ++ (req ∷ ended))
  ended_next before after req ended =
      Perm.trans (Perm.append_right ended (perm_middle before after))
        (Perm.symm (perm_middle (before ++ after) ended))

  finish-puts :
      (s : System) (req : ActionRequest) (outcome : Result (List Envelope))
      → IsAnswered handler s
      → Perm
          (reply_of_task handler req outcome ++ (s.produced ++ waiting_puts s.blocked))
          (replies handler ((req, outcome) ∷ s.ended))
  unfolding replies
  finish-puts s req outcome a =
      subst
        (λ front.
          Perm (front ++ (s.produced ++ waiting_puts s.blocked))
            (outcome_puts handler req outcome ++ replies handler s.ended))
        (sym (reply_of_task-outcome req outcome))
        (Perm.append_left (outcome_puts handler req outcome) a.put)

  resume-puts :
      (s : System) (before after : List (List Envelope)) (envs : List Envelope)
      → s.blocked ≡ before ++ (envs ∷ after)
      → IsAnswered handler s
      → Perm (envs ++ (s.produced ++ waiting_puts (before ++ after))) (replies handler s.ended)
  unfolding waiting_puts
  resume-puts s before after envs e a =
      let front = s.produced ++ waiting_puts before in
      let now : s.produced ++ waiting_puts s.blocked ≡ front ++ (envs ++ waiting_puts after) =
        ap (λ b. s.produced ++ waiting_puts b) e
        ∙ ap (λ w. s.produced ++ w) (waiting_puts-append before (envs ∷ after))
        ∙ sym (append_assoc s.produced (waiting_puts before) _) in
      let left : front ++ waiting_puts after ≡ s.produced ++ waiting_puts (before ++ after) =
        append_assoc s.produced (waiting_puts before) (waiting_puts after)
        ∙ ap (λ w. s.produced ++ w) (sym (waiting_puts-append before after)) in
      Perm.trans
        (Perm.symm (
          subst (λ w. Perm (front ++ (envs ++ waiting_puts after)) (envs ++ w)) left
            (move_front envs front (waiting_puts after))))
        (subst (λ w. Perm w (replies handler s.ended)) now a.put)

  Step-IsAnswered : {s t : System} → Step handler s t → IsAnswered handler s → IsAnswered handler t
  Step-IsAnswered {s} (finish before after req r e) a =
      let ended = map (λ x. x.0) s.ended in
      put_all-IsAnswered (reply_of_task handler req (handler.on_action s req)) _
        (Perm.trans (subst (λ running. Perm s.accepted (running ++ ended)) e a.requests)
          (ended_next before after req ended))
        (finish-puts s req (handler.on_action s req) a)
  Step-IsAnswered {s} (resume before after envs r space e) a =
      put_all-IsAnswered envs _ a.requests (resume-puts s before after envs e a)
  Step-IsAnswered {s} (wake_inbound got p) a = on_inbound-IsAnswered got s a
  Step-IsAnswered {s} (wake_response env rest p e) a = record { requests = a.requests; put = a.put }
  Step-IsAnswered {s} (wake_both got env rest p e) a =
      on_inbound-IsAnswered got (lose env rest s) (record { requests = a.requests; put = a.put })
  Step-IsAnswered {s} (drain exits env rest p e) a = record { requests = a.requests; put = a.put }
  Step-IsAnswered {s} (drain_end exits p e) a = IsAnswered-log s s.log _ a

-- In every state that the loop and its tasks reach, the requests that a task was spawned for are, up
-- to order, those that run and those that have ended; and the envelopes that were put into the queue
-- or wait for room in it are, up to order, those that the handlers of the ended requests returned,
-- with one error reply, which has the request's id and the exception's text, for each that raised.
pub Reach-IsAnswered : (handler : Handler) {s : System} → Reach handler s → IsAnswered handler s
unfolding replies waiting_puts
Reach-IsAnswered handler begin = record { requests = Perm.rfl; put = Perm.rfl }
Reach-IsAnswered handler (later r step) = Step-IsAnswered handler step (Reach-IsAnswered handler r)
