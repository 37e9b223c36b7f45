-- ===== src/Concurrent/Steps.antt =====
-- vynkor/concurrent.py: how the loop and its handler tasks take turns. Each step is what happens
-- between two points at which a coroutine may give up control. The relation ends with the loop.
use vynkor_sdk_python.Prelude.{◌≡◌, ◌<◌, length, List, [], ◌∷◌, ◌++◌, Bool}
use vynkor_sdk_python.Errors.{Result}
use vynkor_sdk_python.Messages.{ActionRequest, Envelope}
use vynkor_sdk_python.Concurrent.System.{
  Handler, Phase, waiting, draining, stopped, crashed, System, start, put_all, reply_of_task,
  on_inbound, deliver, lose, drained, response_channel_capacity,
}

-- The phases in which the event loop still runs the tasks beside the loop.
abbrev pub IsRunning : Phase → Type 0
IsRunning waiting = Unit
IsRunning (draining exits) = Unit
IsRunning stopped = ⊥
IsRunning (crashed e) = ⊥

pub data Step (handler : Handler) (s : System) : System → Type 0 where
  -- A handler returns or raises, and its task puts what it has to put.
  finish :
      (before after : List ActionRequest) (req : ActionRequest)
      → IsRunning s.phase
      → s.running ≡ before ++ (req ∷ after)
      → Step handler s (
          put_all (reply_of_task handler req (handler.on_action s req)) (record s {
            running = before ++ after;
            ended = (req, handler.on_action s req) ∷ s.ended;
          }))
  -- There is room again, and a task that waited for it goes on.
  resume :
      (before after : List (List Envelope)) (envs : List Envelope)
      → IsRunning s.phase
      → length s.queue < response_channel_capacity
      → s.blocked ≡ before ++ (envs ∷ after)
      → Step handler s (put_all envs (record s { blocked = before ++ after }))
  -- `asyncio.wait` returns with the inbound envelope, or its exception, alone.
  wake_inbound :
      (got : Result Envelope) → s.phase ≡ waiting → Step handler s (on_inbound handler got s)
  -- It returns with a response alone.
  wake_response :
      (env : Envelope) (rest : List Envelope)
      → s.phase ≡ waiting
      → s.queue ≡ env ∷ rest
      → Step handler s (deliver env rest s)
  -- It returns with both: `recv_task in done` holds, and the result of `queue_task` is not read.
  wake_both :
      (got : Result Envelope) (env : Envelope) (rest : List Envelope)
      → s.phase ≡ waiting
      → s.queue ≡ env ∷ rest
      → Step handler s (on_inbound handler got (lose env rest s))
  -- One round of a drain, and its end.
  drain :
      (exits : Bool) (env : Envelope) (rest : List Envelope)
      → s.phase ≡ draining exits
      → s.queue ≡ env ∷ rest
      → Step handler s (deliver env rest s)
  drain_end :
      (exits : Bool)
      → s.phase ≡ draining exits
      → s.queue ≡ []
      → Step handler s (record s { phase = drained exits })

pub data Reach (handler : Handler) : System → Type 0 where
  begin : Reach handler start
  later : {s t : System} → Reach handler s → Step handler s t → Reach handler t
