-- ===== src/Concurrent/Kept.antt =====
-- vynkor/concurrent.py: what an inbound envelope leaves as it is.
use vynkor_sdk_python.Prelude.{◌≡◌, refl, List, [], Option, Bool-cases, inl, inr}
use vynkor_sdk_python.Errors.{Result, ok, err, is_exception}
use vynkor_sdk_python.Messages.{
  ActionRequest, Event, Envelope, ping, plugin_shutdown, event, action_request, unset,
}
use vynkor_sdk_python.Concurrent.System.{
  Handler, Log, Phase, stopped, System, after_accept, after_event, after_message, on_envelope,
  on_inbound,
}

-- Behind the loop's end the queue is empty.
abbrev pub IsFlushed : Phase → List Envelope → Type 0
IsFlushed stopped queue = queue ≡ []
IsFlushed _ queue = Unit

-- `t` has the responses where `s` has them, and the loop is not behind its end.
pub record IsKept (s t : System) : Type 0 where
  pub queue : t.queue ≡ s.queue
  pub delivered : t.delivered ≡ s.delivered
  pub dropped : t.dropped ≡ s.dropped
  pub produced : t.produced ≡ s.produced
  pub open_phase : (q : List Envelope) → IsFlushed t.phase q

-- What only writes the tasks, the log and the phase.
same :
    (s : System) (accepted running : List ActionRequest) (log : Log) (phase : Phase)
    → ((q : List Envelope) → IsFlushed phase q)
    → IsKept s (record s { accepted = accepted; running = running; log = log; phase = phase })
same s accepted running log phase f = record {
  queue = refl;
  delivered = refl;
  dropped = refl;
  produced = refl;
  open_phase = f;
}

module _ (handler : Handler) where
  after_accept-IsKept :
      (req : ActionRequest) (r : Result (Unit {0})) (s : System)
      → IsKept s (after_accept handler req r s)
  unfolding after_accept
  after_accept-IsKept req (ok done) s = same s _ _ _ _ (λ q. tt)
  after_accept-IsKept req (err e) s = elim (Bool-cases (is_exception e)) [
    | inl x ↦ rw x (same s _ _ _ _ (λ q. tt))
    | inr x ↦ rw x (same s _ _ _ _ (λ q. tt))
  ]

  after_event-IsKept :
      (e : Event) (r : Result (Option Envelope)) (s : System) → IsKept s (after_event handler e r s)
  unfolding after_event
  after_event-IsKept e (ok reply) s = same s _ _ _ _ (λ q. tt)
  after_event-IsKept e (err x) s = same s _ _ _ _ (λ q. tt)

  after_message-IsKept :
      (env : Envelope) (r : Result (Option Envelope)) (s : System)
      → IsKept s (after_message handler env r s)
  unfolding after_message
  after_message-IsKept env (ok reply) s = same s _ _ _ _ (λ q. tt)
  after_message-IsKept env (err x) s = same s _ _ _ _ (λ q. tt)

  on_envelope-IsKept : (env : Envelope) (s : System) → IsKept s (on_envelope handler env s)
  unfolding on_envelope
  on_envelope-IsKept (ping timestamp) s = same s _ _ _ _ (λ q. tt)
  on_envelope-IsKept plugin_shutdown s = same s _ _ _ _ (λ q. tt)
  on_envelope-IsKept (action_request req) s = after_accept-IsKept req (handler.accept s.log req) s
  on_envelope-IsKept (event e) s = after_event-IsKept e (handler.on_event s.log e) s
  on_envelope-IsKept unset s = same s _ _ _ _ (λ q. tt)
  on_envelope-IsKept env s = after_message-IsKept env (handler.on_message s.log env) s

  pub on_inbound-IsKept : (got : Result Envelope) (s : System) → IsKept s (on_inbound handler got s)
  unfolding on_inbound
  on_inbound-IsKept (err e) s = same s _ _ _ _ (λ q. tt)
  on_inbound-IsKept (ok env) s = on_envelope-IsKept env s
