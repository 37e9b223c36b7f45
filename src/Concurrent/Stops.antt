-- ===== src/Concurrent/Stops.antt =====
-- vynkor/concurrent.py: the loop ends once it has drained the queue for the last time.
use vynkor_sdk_python.Prelude.{
  ℕ, zero, suc, ◌+◌, ◌≤◌, ◌<◌, ◌≡◌, refl, sym, ap, ◌∙◌, subst, ◌⊎◌, inl, inr, true, List, [], ◌∷◌,
  ◌++◌, length, arith,
}
use vynkor_sdk_python.Errors.{Result, ok, err}
use vynkor_sdk_python.Messages.{ActionRequest, Envelope, plugin_shutdown}
use vynkor_sdk_python.Concurrent.System.{
  Handler, draining, stopped, System, reply_of_task, on_envelope, on_inbound,
}
use vynkor_sdk_python.Concurrent.Steps.{
  IsRunning, Step, finish, resume, wake_inbound, wake_response, wake_both, drain, drain_end,
}
use vynkor_sdk_python.Concurrent.Work.{
  blocked_work, phase_work, running_work, work, running_work-append, blocked_work-append,
  put_all-work, put_all-kept, IsLeaving, drained-work, exits_of, drained-IsLeaving,
}

-- What bounds the envelopes of a task.
abbrev pub IsAtMost : Handler → ℕ → Type 0
IsAtMost handler most =
    (s : System) (req : ActionRequest)
    → length (reply_of_task handler req (handler.on_action s req)) ≤ most

module _ (handler : Handler) (most : ℕ) (at_most : IsAtMost handler most) where
  -- Every turn of the last drain costs something, and leads to nothing but the drain and its end.
  Step-work :
      {s t : System}
      → Step handler s t
      → s.phase ≡ draining true
      → (work most t < work most s) × IsLeaving t.phase
  Step-work {s} (finish before after req r split) d =
      let envs = reply_of_task handler req (handler.on_action s req) in
      let left = record s {
        running = before ++ after;
        ended = (req, handler.on_action s req) ∷ s.ended;
      } in
      let (kept, phase) = put_all-kept envs left in
      (
        omega (
          arith,
          put_all-work envs left,
          at_most s req,
          ap phase_work phase,
          ap (running_work most) kept,
          ap (running_work most) split,
          running_work-append most before after,
          running_work-append most before (req ∷ after),
        ),
        inl (phase ∙ d),
      )
  Step-work {s} (resume before after envs r short split) d =
      let left = record s { blocked = before ++ after } in
      let (kept, phase) = put_all-kept envs left in
      (
        omega (
          arith,
          put_all-work envs left,
          ap phase_work phase,
          ap (running_work most) kept,
          ap blocked_work split,
          blocked_work-append before after,
          blocked_work-append before (envs ∷ after),
        ),
        inl (phase ∙ d),
      )
  Step-work (wake_inbound got w) d = absurd (cc)
  Step-work (wake_response env rest w q) d = absurd (cc)
  Step-work (wake_both got env rest w q) d = absurd (cc)
  Step-work (drain exits env rest w q) d = (omega (arith, ap length q), inl d)
  Step-work {s} (drain_end exits w q) d = (
    omega (arith, ap phase_work w, drained-work exits),
    drained-IsLeaving exits (ap exits_of (sym w ∙ d)),
  )

  -- The last drain can always go on.
  drain-goes_on : (s : System) → s.phase ≡ draining true → (t : System) × Step handler s t
  drain-goes_on s d = by_queue s.queue refl
    where
      by_queue : (queue : List Envelope) → s.queue ≡ queue → (t : System) × Step handler s t
      by_queue [] q = (_, drain_end true d q)
      by_queue (env ∷ rest) q = (_, drain true env rest d q)

-- So many turns of the loop and its tasks.
pub data Run (handler : Handler) (s : System) : ℕ → System → Type 0 where
  none_yet : Run handler s zero s
  then_step :
      {n : ℕ} {t u : System} → Run handler s n t → Step handler t u → Run handler s (suc n) u

-- What makes the loop leave: an exception of `recv`, or the shutdown message.
unfoldable pub IsEnd : Result Envelope → Type 0
IsEnd (err e) = Unit
IsEnd (ok plugin_shutdown) = Unit
IsEnd (ok _) = ⊥

on_inbound-IsEnd :
    (handler : Handler) (got : Result Envelope) (s : System)
    → IsEnd got
    → on_inbound handler got s ≡ record s { phase = draining true }
unfolding IsEnd on_inbound on_envelope
on_inbound-IsEnd handler (err e) s h = refl
on_inbound-IsEnd handler (ok plugin_shutdown) s h = refl
on_inbound-IsEnd handler (ok _) s h = absurd h

module _ (handler : Handler) (most : ℕ) (at_most : IsAtMost handler most) where
  IsLeaving-work :
      {s t : System}
      → IsLeaving s.phase
      → Step handler s t
      → (work most t < work most s) × IsLeaving t.phase
  IsLeaving-work (inl d) step = Step-work handler most at_most step d
  IsLeaving-work {s} (inr d) step = absurd (stopped_is_over step d)
    where
      stopped_is_over : {t : System} → Step handler s t → s.phase ≡ stopped → ⊥
      stopped_is_over (finish before after req r split) d = subst IsRunning d r
      stopped_is_over (resume before after envs r short split) d = subst IsRunning d r
      stopped_is_over (wake_inbound got w) d = cc
      stopped_is_over (wake_response env rest w q) d = cc
      stopped_is_over (wake_both got env rest w q) d = cc
      stopped_is_over (drain exits env rest w q) d = cc
      stopped_is_over (drain_end exits w q) d = cc

  Run-work :
      {s t : System} {n : ℕ}
      → IsLeaving s.phase
      → Run handler s n t
      → (n + work most t ≤ work most s) × IsLeaving t.phase
  Run-work leaving none_yet = (omega arith, leaving)
  Run-work leaving (then_step run step) =
      let (cost, still) = Run-work leaving run in
      let (less, next) = IsLeaving-work still step in (omega arith, next)

-- If no handler's task has more than `most` envelopes to put, then once `recv` has raised or a
-- shutdown message has come, the loop and its tasks take at most so many turns as the envelopes of
-- the tasks and of the queue cost, in whatever order they are taken; and until the loop has ended
-- there is always a next turn.
pub Run-stops :
    (handler : Handler) (most : ℕ) (got : Result Envelope) (s : System) {n : ℕ} {t : System}
    → IsAtMost handler most
    → IsEnd got
    → Run handler (on_inbound handler got s) n t
    → (n ≤ running_work most s.running + blocked_work s.blocked + length s.queue + 1)
      × ((t.phase ≡ stopped) ⊎ ((t.phase ≡ draining true) × (u : System) × Step handler t u))
Run-stops handler most got s {n} {t} at_most ends run =
    let entered = on_inbound-IsEnd handler got s ends in
    let begun = subst (λ x. Run handler x n t) entered run in
    let (cost, leaving) = Run-work handler most at_most (inl refl) begun in
    (
      omega arith,
      elim leaving [
        | inl d ↦ let (u, step) = drain-goes_on handler most at_most t d in inr (d, u, step)
        | inr d ↦ inl d
      ],
    )
