-- ===== src/Concurrent/Serve.antt =====
-- vynkor/concurrent.py: `serve_concurrent`. What happens is a list of calls, the newest first; the
-- loop is what `run_concurrent_loop` comes to, of which the modules beside this one are about.
use vynkor_sdk_python.Prelude.{List, [], ◌∷◌, ◌++◌, if◌then◌else◌}
use vynkor_sdk_python.Errors.{Result, ok, err, permission_denied}
use vynkor_sdk_python.Py.Text.{str}
use vynkor_sdk_python.Messages.{RegisterAck}

pub data Call : Type 0 where
  init_called loop_entered shutdown_called : Call

-- What the awaited calls come to.
pub record Outcomes : Type 0 where
  pub register : Result RegisterAck
  pub on_init : Result (Unit {0})
  pub run_loop : Result (Unit {0})
  pub on_shutdown : Result (Unit {0})

module _ (outcomes : Outcomes) where
  -- Behind the loop: an exception of it leaves at once, one of `on_shutdown` is swallowed.
  unfoldable pub after_loop : Result (Unit {0}) → List Call × Result (Unit {0})
  after_loop (err e) = (loop_entered ∷ init_called ∷ [], err e)
  after_loop (ok done) = (shutdown_called ∷ loop_entered ∷ init_called ∷ [], ok done)

  -- Behind `on_init`: its exception is raised again behind `on_shutdown`, whatever that does.
  unfoldable pub after_init : Result (Unit {0}) → List Call × Result (Unit {0})
  after_init (err e) = (shutdown_called ∷ init_called ∷ [], err e)
  after_init (ok done) = after_loop outcomes.run_loop

  unfoldable pub after_register : Result RegisterAck → List Call × Result (Unit {0})
  after_register (err e) = ([], err e)
  after_register (ok ack) =
      if ack.accepted
      then after_init outcomes.on_init
      else ([], err (permission_denied (str "registration rejected: " ++ ack.reject_reason)))

  unfoldable pub serve_concurrent : List Call × Result (Unit {0})
  serve_concurrent = after_register outcomes.register
