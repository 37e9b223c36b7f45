-- ===== src/Concurrent/Loss.antt =====
-- vynkor/concurrent.py: a response that no one sends.
use vynkor_sdk_python.Prelude.{◌+◌, ◌<◌, ◌≡◌, ap, List, [], ◌∷◌, ◌++◌, length, length-append, arith}
use vynkor_sdk_python.Errors.{Result}
use vynkor_sdk_python.Messages.{Envelope}
use vynkor_sdk_python.Concurrent.System.{Handler, waiting, System, on_inbound, lose}
use vynkor_sdk_python.Concurrent.Steps.{wake_both, Reach, later}
use vynkor_sdk_python.Concurrent.Merge.{length-Merge}
use vynkor_sdk_python.Concurrent.Accounting.{Reach-IsAccounted}
use vynkor_sdk_python.Concurrent.Kept.{on_inbound-IsKept}

-- A state in which `env` is neither delivered nor queued, and which lacks a response.
abbrev pub IsLossy : System → System → Envelope → List Envelope → Type 0
IsLossy s t env rest =
    (t.dropped ≡ s.dropped ++ (env ∷ []))
    × (t.delivered ≡ s.delivered)
    × (t.queue ≡ rest)
    × (length t.delivered + length t.queue < length t.produced)

-- Whenever the loop waits while a response is queued, any inbound envelope that is ready in the same
-- round makes it lose that response: the response is neither handed to the client nor in the queue.
pub Reach-loses_response :
    (handler : Handler) (s : System) (env : Envelope) (rest : List Envelope) (got : Result Envelope)
    → Reach handler s
    → s.phase ≡ waiting
    → s.queue ≡ env ∷ rest
    → (t : System) × Reach handler t × IsLossy s t env rest
Reach-loses_response handler s env rest got r p e =
    let lost = lose env rest s in
    let t = on_inbound handler got lost in
    let kept = on_inbound-IsKept handler got lost in
    let reached : Reach handler t = later r (wake_both got env rest p e) in
    let (taken, put, merge) = (Reach-IsAccounted handler reached).merged in
    (
      t,
      reached,
      (
        kept.dropped,
        kept.delivered,
        kept.queue,
        omega (
          arith,
          ap length put,
          length-append taken t.queue,
          length-Merge merge,
          ap length kept.dropped,
          length-append s.dropped (env ∷ []),
        ),
      ),
    )
