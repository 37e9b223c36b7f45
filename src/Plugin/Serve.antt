-- ===== src/Plugin/Serve.antt =====
-- vynkor/plugin.py: `serve`. What happens is a history, the newest step first. The plugin's
-- methods and the client are the fields of `Host`; each may depend on the history before the call.
use vynkor_sdk_python.Prelude.{ℕ, List, [], ◌∷◌, ◌++◌, if◌then◌else◌, Option, none, some}
use vynkor_sdk_python.Errors.{Str, Error, Result, ok, err, is_exception, permission_denied, ◌>>◌}
use vynkor_sdk_python.Py.Text.{str}
use vynkor_sdk_python.Messages.{RegisterAck, Envelope, Event, ping, plugin_shutdown, event}

-- What the loop does to the outside: the methods it calls, and what it hands to the client.
pub data Step : Type 0 where
  init_called shutdown_called : Step
  event_called : Event → Step
  message_called : Envelope → Step
  ponged : ℕ → ℕ → Step
  acked : Str → Step
  replied : Envelope → Step

abbrev pub History : Type 0
History = List Step

-- `register` is what `register_full` comes to, and `deliver` whether the client's sending of a
-- step's envelope raises.
pub record Host : Type 0 where
  pub register : Result RegisterAck
  pub on_init : History → Result (Unit {0})
  pub on_event : History → Event → Result (Option Envelope)
  pub on_message : History → Envelope → Result (Option Envelope)
  pub on_shutdown : History → Result (Unit {0})
  pub deliver : History → Step → Result (Unit {0})
  pub wall : History → ℕ

-- How the receive loop ends: by a `break`, by a `break` with `handler_err`, or by an exception.
pub data Ending : Type 0 where
  stopped : Ending
  handler_failed : Error → Ending
  raised : Error → Ending

module _ (host : Host) where
  -- Behind a send: its exception leaves the loop.
  unfoldable pub after_send :
      Result (Unit {0}) → History → (History → History × Ending) → History × Ending
  after_send (err e) history next = (history, raised e)
  after_send (ok done) history next = next history

  -- One send, and what follows unless it raises.
  unfoldable pub sending : History → Step → (History → History × Ending) → History × Ending
  sending history step next = after_send (host.deliver history step) (step ∷ history) next

  -- `if reply is not None: await client.send("kernel", reply)`
  unfoldable pub sending_reply :
      History → Option Envelope → (History → History × Ending) → History × Ending
  sending_reply history none next = next history
  sending_reply history (some reply) next = sending history (replied reply) next

  -- Behind `on_event`: an exception skips the ack.
  unfoldable pub after_event :
      History → Event → Result (Option Envelope) → (History → History × Ending) → History × Ending
  after_event history e (err raised_error) next =
      if is_exception raised_error then next history else (history, raised raised_error)
  after_event history e (ok reply) next =
      sending history (acked e.event_id) (λ h. sending_reply h reply next)

  -- Behind `on_message`: any exception ends the loop.
  unfoldable pub after_message :
      History → Result (Option Envelope) → (History → History × Ending) → History × Ending
  after_message history (err e) next = (history, handler_failed e)
  after_message history (ok reply) next = sending_reply history reply next

  -- One inbound envelope that does not stop the loop.
  unfoldable pub on_envelope : History → Envelope → (History → History × Ending) → History × Ending
  on_envelope history (ping timestamp) next =
      sending history (ponged timestamp (host.wall history)) next
  on_envelope history plugin_shutdown next = (history, stopped)
  on_envelope history (event e) next =
      after_event (event_called e ∷ history) e (host.on_event history e) next
  on_envelope history env next =
      after_message (message_called env ∷ history) (host.on_message history env) next

  -- The receive loop over what the calls of `recv` come to; behind the last one, `recv` raises.
  unfoldable pub loop : List (Result Envelope) → History → History × Ending
  loop [] history = (history, stopped)
  loop (err e ∷ inbox) history = if is_exception e then (history, stopped) else (history, raised e)
  loop (ok env ∷ inbox) history = on_envelope history env (loop inbox)

  -- `finally: await self.on_shutdown()`, then `raise handler_err`.
  unfoldable pub closing : Ending → Result (Unit {0})
  closing stopped = ok tt
  closing (handler_failed e) = err e
  closing (raised e) = err e

  unfoldable pub shut_down : History × Ending → History × Result (Unit {0})
  shut_down (history, ending) =
      (shutdown_called ∷ history, host.on_shutdown history >> closing ending)

  -- Behind `on_init`: its exception is raised again, whatever `on_shutdown` does.
  unfoldable pub after_init :
      Result (Unit {0}) → List (Result Envelope) → History × Result (Unit {0})
  after_init (err e) inbox = (shutdown_called ∷ init_called ∷ [], err e)
  after_init (ok done) inbox = shut_down (loop inbox (init_called ∷ []))

  unfoldable pub after_register :
      Result RegisterAck → List (Result Envelope) → History × Result (Unit {0})
  after_register (err e) inbox = ([], err e)
  after_register (ok ack) inbox =
      if ack.accepted
      then after_init (host.on_init []) inbox
      else ([], err (permission_denied (str "registration rejected: " ++ ack.reject_reason)))

  unfoldable pub serve : List (Result Envelope) → History × Result (Unit {0})
  serve inbox = after_register host.register inbox
