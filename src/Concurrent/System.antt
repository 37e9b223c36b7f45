-- ===== src/Concurrent/System.antt =====
-- vynkor/concurrent.py: the state of `run_concurrent_loop` with its handler tasks, and what the loop
-- does when `asyncio.wait` returns.
use vynkor_sdk_python.Prelude.{
  ℕ, ◌-◌, Bool, true, false, List, [], ◌∷◌, ◌++◌, if◌then◌else◌, Option, none, some, length, take,
  drop,
}
use vynkor_sdk_python.Errors.{Str, Error, Result, ok, err, foreign, type_error, is_exception}
use vynkor_sdk_python.Py.Text.{str}
use vynkor_sdk_python.Messages.{
  ActionRequest, Event, Envelope, ping, plugin_shutdown, event, action_request, action_response,
  action_ok, action_error, unset,
}
use vynkor_sdk_python.Gate.Names.{response_err, Shorthand, of_bytes, of_text, of_other}

abbrev pub response_channel_capacity : ℕ
response_channel_capacity = 256

-- What the loop itself does to the outside, besides sending responses.
pub data Act : Type 0 where
  ponged : ℕ → ℕ → Act
  rejected : Envelope → Act
  event_called : Event → Act
  acked : Str → Act
  message_called : Envelope → Act
  replied : Envelope → Act

abbrev pub Log : Type 0
Log = List Act

-- The envelope for what a handler's action came to: bytes, or the text of an error.
unfoldable pub response_envelope : Str → Shorthand → Result Envelope
response_envelope id (of_bytes data_json) = ok (
    action_response
      (record { action_id = id; status = action_ok; data_json = data_json; error = [] }))
response_envelope id (of_text error) = ok (
    action_response
      (record { action_id = id; status = action_error; data_json = []; error = error }))
response_envelope id of_other = err (foreign type_error)

-- Where the loop stands: in `asyncio.wait`, in one of its drains (which ends in a new round or in the
-- end of the loop), behind its end, or out by an exception.
pub data Phase : Type 0 where
  waiting : Phase
  draining : Bool → Phase
  stopped : Phase
  crashed : Error → Phase

-- A request whose handler has returned or raised, with what it came to.
abbrev pub Ended : Type 0
Ended = ActionRequest × Result (List Envelope)

-- `accepted` are the requests that a task was spawned for, `running` the tasks inside `on_action`,
-- `ended` those whose handler has ended, `blocked` the tasks that wait for room in the queue with
-- the envelopes they still have to put. `delivered` are the responses handed to `client.send`,
-- `dropped` those taken from the queue and not handed over, `produced` all that were put; the
-- oldest first in each.
pub record System : Type 0 where
  pub accepted : List ActionRequest
  pub running : List ActionRequest
  pub ended : List Ended
  pub blocked : List (List Envelope)
  pub queue : List Envelope
  pub delivered : List Envelope
  pub dropped : List Envelope
  pub produced : List Envelope
  pub log : Log
  pub phase : Phase

-- The methods of a `ConcurrentHandler`, and `str(e)`. What `on_action` comes to may depend on the
-- whole state in which it ends; `accept`, `on_event` and `on_message` may depend on all that the
-- loop did before, the newest first.
pub record Handler : Type 0 where
  pub on_action : System → ActionRequest → Result (List Envelope)
  pub accept : Log → ActionRequest → Result (Unit {0})
  pub on_event : Log → Event → Result (Option Envelope)
  pub on_message : Log → Envelope → Result (Option Envelope)
  pub wall : Log → ℕ
  pub str_error : Error → Str

abbrev pub start : System
start = record {
  accepted = [];
  running = [];
  ended = [];
  blocked = [];
  queue = [];
  delivered = [];
  dropped = [];
  produced = [];
  log = [];
  phase = waiting;
}

-- Room for puts that do not wait.
abbrev pub room : System → ℕ
room s = response_channel_capacity - length s.queue

-- A task with nothing left to put is over.
unfoldable pub park : List Envelope → List (List Envelope) → List (List Envelope)
park [] blocked = blocked
park (e ∷ more) blocked = (e ∷ more) ∷ blocked

-- A task puts its envelopes as far as there is room, and waits with the rest.
unfoldable pub put_all : List Envelope → System → System
put_all envs s = record s {
  queue = s.queue ++ take (room s) envs;
  produced = s.produced ++ take (room s) envs;
  blocked = park (drop (room s) envs) s.blocked;
}

module _ (handler : Handler) where
  -- What `_run` has to put for a request: the handler's envelopes, or the reply for its exception.
  unfoldable pub reply_of_task : ActionRequest → Result (List Envelope) → List Envelope
  reply_of_task req (ok envelopes) = envelopes
  reply_of_task req (err e) =
      response_err req.action_id (str "handler panicked: " ++ handler.str_error e) ∷ []

  -- `if reply is not None: client.send(…)`
  abbrev pub with_reply : Option Envelope → Log → Log
  with_reply none log = log
  with_reply (some reply) log = replied reply ∷ log

  -- Behind `accept`: the request is rejected, or a task is spawned for it.
  unfoldable pub after_accept : ActionRequest → Result (Unit {0}) → System → System
  after_accept req (ok done) s = record s {
    accepted = req ∷ s.accepted;
    running = s.running ++ (req ∷ []);
    phase = draining false;
  }
  after_accept req (err e) s =
      if is_exception e
      then record s {
        log = rejected (response_err req.action_id (handler.str_error e)) ∷ s.log;
        phase = waiting;
      }
      else record s { phase = crashed e }

  -- Behind `on_event`: no ack if it raised.
  unfoldable pub after_event : Event → Result (Option Envelope) → System → System
  after_event e (err failure) s = record s { log = event_called e ∷ s.log; phase = waiting }
  after_event e (ok reply) s = record s {
    log = with_reply reply (acked e.event_id ∷ event_called e ∷ s.log);
    phase = draining false;
  }

  -- Behind `on_message`.
  unfoldable pub after_message : Envelope → Result (Option Envelope) → System → System
  after_message env (err failure) s = record s { log = message_called env ∷ s.log; phase = waiting }
  after_message env (ok reply) s = record s {
    log = with_reply reply (message_called env ∷ s.log);
    phase = draining false;
  }

  -- One inbound envelope.
  unfoldable pub on_envelope : Envelope → System → System
  on_envelope (ping timestamp) s = record s {
    log = ponged timestamp (handler.wall s.log) ∷ s.log;
    phase = draining false;
  }
  on_envelope plugin_shutdown s = record s { phase = draining true }
  on_envelope (action_request req) s = after_accept req (handler.accept s.log req) s
  on_envelope (event e) s = after_event e (handler.on_event s.log e) s
  on_envelope unset s = record s { phase = waiting }
  on_envelope env s = after_message env (handler.on_message s.log env) s

  -- `recv_task in done`
  unfoldable pub on_inbound : Result Envelope → System → System
  on_inbound (err e) s = record s { phase = draining true }
  on_inbound (ok env) s = on_envelope env s

-- The response at the head of the queue goes to the client.
abbrev pub deliver : Envelope → List Envelope → System → System
deliver env rest s = record s { queue = rest; delivered = s.delivered ++ (env ∷ []) }

-- The response at the head of the queue was taken by `queue_task`, and nobody reads its result.
abbrev pub lose : Envelope → List Envelope → System → System
lose env rest s = record s { queue = rest; dropped = s.dropped ++ (env ∷ []) }

-- Where a drain leads once the queue is empty.
abbrev pub drained : Bool → Phase
drained true = stopped
drained false = waiting
