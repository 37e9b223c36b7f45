-- ===== src/Concurrent/Tests.antt =====
-- Runs of the concurrent loop.
use vynkor_sdk_python.Prelude.{◌+◌, ◌≤◌, ◌⊎◌, length, arith, ◌≡◌, refl, [], ◌∷◌, none, false, true}
use vynkor_sdk_python.Errors.{ok}
use vynkor_sdk_python.Messages.{ActionRequest, ping, plugin_shutdown, action_request, other}
use vynkor_sdk_python.Concurrent.System.{
  Handler, System, start, put_all, park, reply_of_task, on_inbound, on_envelope, after_accept,
  stopped, waiting, draining,
}
use vynkor_sdk_python.Concurrent.Steps.{
  Reach, begin, later, wake_inbound, finish, drain, drain_end, Step,
}
use vynkor_sdk_python.Concurrent.Accounting.{IsAccounted, Reach-IsAccounted}
use vynkor_sdk_python.Concurrent.Replies.{IsAnswered, Reach-IsAnswered}
use vynkor_sdk_python.Concurrent.Stops.{Run, none_yet, then_step, IsEnd, Run-stops}
use vynkor_sdk_python.Concurrent.Work.{running_work, blocked_work}
use vynkor_sdk_python.Concurrent.Loss.{IsLossy, Reach-loses_response}

-- A handler that accepts everything and answers with one envelope.
abbrev handler : Handler
handler = record {
  on_action = λ s req. ok (other (1 ∷ []) ∷ []);
  accept = λ log req. ok tt;
  on_event = λ log e. ok none;
  on_message = λ log env. ok none;
  wall = λ log. 0;
  str_error = λ e. [];
}

abbrev request : ActionRequest
request = record {
  action_id = 65 ∷ [];
  action = 66 ∷ [];
  params_json = [];
  caller_plugin_id = [];
  timeout_ms = 0;
  streaming = false;
}

-- The request has arrived, its task has ended, and the loop waits with the response in the queue.
abbrev accepted : System
accepted = record start { accepted = request ∷ []; running = request ∷ []; phase = draining false }

abbrev idle : System
idle = record accepted { phase = waiting }

abbrev answered : System
answered = record idle {
  running = [];
  ended = (request, ok (other (1 ∷ []) ∷ [])) ∷ [];
  queue = other (1 ∷ []) ∷ [];
  produced = other (1 ∷ []) ∷ [];
}

answered_reached : Reach handler answered
unfolding on_inbound on_envelope after_accept put_all park reply_of_task
answered_reached =
    later
      (later (later begin (wake_inbound (ok (action_request request)) refl))
        (drain_end false refl refl))
      (finish [] [] request tt refl)

abbrev finished : System
finished = record answered { queue = []; delivered = other (1 ∷ []) ∷ []; phase = stopped }

Reach-IsAccounted_example : IsAccounted answered
Reach-IsAccounted_example = Reach-IsAccounted handler answered_reached

Reach-loses_response_example :
    (t : System) × Reach handler t × IsLossy answered t (other (1 ∷ [])) []
Reach-loses_response_example =
    Reach-loses_response handler answered (other (1 ∷ [])) [] (ok (ping 3)) answered_reached refl
      refl

Reach-IsAnswered_example : IsAnswered handler answered
Reach-IsAnswered_example = Reach-IsAnswered handler answered_reached

-- The shutdown message comes while the response is in the queue: it is drained, and the loop ends.
stopped-Run : Run handler (on_inbound handler (ok plugin_shutdown) answered) 2 finished
unfolding on_inbound on_envelope
stopped-Run =
    then_step (then_step none_yet (drain true (other (1 ∷ [])) [] refl refl))
      (drain_end true refl refl)

Run-stops_example :
    (2
      ≤ running_work 1 answered.running + blocked_work answered.blocked + length answered.queue + 1)
    × ((finished.phase ≡ stopped)
        ⊎ ((finished.phase ≡ draining true) × (u : System) × Step handler finished u))
unfolding IsEnd reply_of_task
Run-stops_example =
    Run-stops handler 1 (ok plugin_shutdown) answered (λ s req. omega arith) tt stopped-Run
