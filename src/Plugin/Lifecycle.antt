-- ===== src/Plugin/Lifecycle.antt =====
-- vynkor/plugin.py: what every run of `serve` does.
use vynkor_sdk_python.Prelude.{
  ℕ, suc, ◌≡◌, refl, ◌∙◌, true, List, [], ◌∷◌, Option, none, some, Bool-cases, ap, inl, inr,
}
use vynkor_sdk_python.Errors.{Str, Result, ok, err, ok-injective, is_exception}
use vynkor_sdk_python.Messages.{RegisterAck, Envelope, Event, ping, plugin_shutdown, event}
use vynkor_sdk_python.Plugin.Serve.{
  init_called, shutdown_called, event_called, message_called, ponged, acked, replied, History, Host,
  Ending, after_send, sending, sending_reply, after_event, after_message, on_envelope, loop,
  shut_down, after_init, after_register, serve,
}

-- The calls of `on_shutdown` in a history.
unfoldable pub shutdowns : History → ℕ
shutdowns [] = 0
shutdowns (shutdown_called ∷ history) = suc (shutdowns history)
shutdowns (_ ∷ history) = shutdowns history

-- The history before an ack: the call of `on_event` for that event, which returned.
abbrev pub IsHandled : Host → Str → History → Type 0
IsHandled host id (event_called e ∷ before) =
    (id ≡ e.event_id) × ((reply : Option Envelope) × (host.on_event before e ≡ ok reply))
IsHandled host id _ = ⊥

-- Every ack stands right behind the call of `on_event` for its event, and that call returned.
abbrev pub IsAcked : Host → History → Type 0
IsAcked host [] = Unit
IsAcked host (acked id ∷ history) = IsHandled host id history × IsAcked host history
IsAcked host (_ ∷ history) = IsAcked host history

-- What holds of a history as long as the loop runs.
IsRunning : Host → History → Type 0
IsRunning host history = IsAcked host history × (shutdowns history ≡ 0)

-- A continuation of the loop keeps that.
IsKeeping : Host → (History → History × Ending) → Type 0
IsKeeping host next = (h : History) → IsRunning host h → IsRunning host (next h).0

module _ (host : Host) where
  after_send-IsRunning :
      (outcome : Result (Unit {0})) (history : History) (next : History → History × Ending)
      → IsKeeping host next
      → IsRunning host history
      → IsRunning host (after_send host outcome history next).0
  unfolding after_send IsKeeping
  after_send-IsRunning (err e) history next k r = r
  after_send-IsRunning (ok done) history next k r = k history r

  sending_reply-IsRunning :
      (history : History) (reply : Option Envelope) (next : History → History × Ending)
      → IsKeeping host next
      → IsRunning host history
      → IsRunning host (sending_reply host history reply next).0
  unfolding sending_reply sending IsKeeping IsRunning shutdowns
  sending_reply-IsRunning history none next k r = k history r
  sending_reply-IsRunning history (some reply) next k r =
      after_send-IsRunning (host.deliver history (replied reply)) (replied reply ∷ history) next k r

  after_event-IsRunning :
      (before : History) (e : Event) (outcome : Result (Option Envelope))
      → (next : History → History × Ending) → host.on_event before e ≡ outcome
      → IsKeeping host next
      → IsRunning host before
      → IsRunning host (after_event host (event_called e ∷ before) e outcome next).0
  unfolding after_event sending IsRunning shutdowns IsKeeping
  after_event-IsRunning before e (err failure) next called k r =
      elim (Bool-cases (is_exception failure)) [
        | inl x ↦ rw x (k (event_called e ∷ before) r)
        | inr x ↦ rw x r
      ]
  after_event-IsRunning before e (ok reply) next called k r =
      let history = acked e.event_id ∷ event_called e ∷ before in
      after_send-IsRunning (host.deliver (event_called e ∷ before) (acked e.event_id)) history
        (λ h. sending_reply host h reply next) (λ h. sending_reply-IsRunning h reply next k)
        (((refl, (reply, called)), r.0), r.1)

  after_message-IsRunning :
      (history : History) (outcome : Result (Option Envelope)) (next : History → History × Ending)
      → IsKeeping host next
      → IsRunning host history
      → IsRunning host (after_message host history outcome next).0
  unfolding after_message
  after_message-IsRunning history (err e) next k r = r
  after_message-IsRunning history (ok reply) next k r =
      sending_reply-IsRunning history reply next k r

  on_envelope-IsRunning :
      (env : Envelope) (history : History) (next : History → History × Ending)
      → IsKeeping host next
      → IsRunning host history
      → IsRunning host (on_envelope host history env next).0
  unfolding on_envelope sending IsRunning shutdowns IsKeeping
  on_envelope-IsRunning (ping timestamp) history next k r =
      let step = ponged timestamp (host.wall history) in
      after_send-IsRunning (host.deliver history step) (step ∷ history) next k r
  on_envelope-IsRunning plugin_shutdown history next k r = r
  on_envelope-IsRunning (event e) history next k r =
      after_event-IsRunning history e (host.on_event history e) next refl k r
  on_envelope-IsRunning env history next k r =
      after_message-IsRunning (message_called env ∷ history) (host.on_message history env) next k r

  loop-IsRunning : (inbox : List (Result Envelope)) → IsKeeping host (loop host inbox)
  unfolding loop IsKeeping
  loop-IsRunning [] history r = r
  loop-IsRunning (err e ∷ inbox) history r = elim (Bool-cases (is_exception e)) [
    | inl x ↦ rw x r
    | inr x ↦ rw x r
  ]
  loop-IsRunning (ok env ∷ inbox) history r =
      on_envelope-IsRunning env history (loop host inbox) (loop-IsRunning inbox) r

-- A history that ends with the one call of `on_shutdown`.
abbrev pub IsClosed : Host → History → Type 0
IsClosed host history =
    (before : History) × (history ≡ shutdown_called ∷ before)
    × (shutdowns before ≡ 0)
    × IsAcked host before

after_init-IsClosed :
    (host : Host) (outcome : Result (Unit {0})) (inbox : List (Result Envelope))
    → IsClosed host (after_init host outcome inbox).0
unfolding after_init shut_down shutdowns IsKeeping IsRunning
after_init-IsClosed host (err e) inbox = (init_called ∷ [], refl, refl, tt)
after_init-IsClosed host (ok done) inbox =
    let start : History = init_called ∷ [] in
    let (all_acked, none_yet) = loop-IsRunning host inbox start (tt, refl) in
    ((loop host inbox start).0, refl, none_yet, all_acked)

after_register-IsClosed :
    (host : Host) (outcome : Result RegisterAck) (inbox : List (Result Envelope))
    (ack : RegisterAck)
    → outcome ≡ ok ack
    → ack.accepted ≡ true
    → IsClosed host (after_register host outcome inbox).0
unfolding after_register
after_register-IsClosed host (err e) inbox ack registered accepted = cc
after_register-IsClosed host (ok given) inbox ack registered accepted =
    let yes : given.accepted ≡ true =
      ap RegisterAck.accepted (ok-injective registered) ∙ accepted in
    rw yes (after_init-IsClosed host (host.on_init []) inbox)

-- Once the kernel has accepted the registration, `serve` ends with a call of `on_shutdown`, the
-- only one, whatever arrives, whatever the methods raise and whichever send fails; and every ack
-- directly follows the call of `on_event` for its event, which returned.
pub serve-IsClosed :
    (host : Host) (inbox : List (Result Envelope)) (ack : RegisterAck)
    → host.register ≡ ok ack
    → ack.accepted ≡ true
    → IsClosed host (serve host inbox).0
unfolding serve
serve-IsClosed host inbox ack registered accepted =
    after_register-IsClosed host host.register inbox ack registered accepted
