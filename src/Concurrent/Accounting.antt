-- ===== src/Concurrent/Accounting.antt =====
-- vynkor/concurrent.py: where every response of a handler task is.
use vynkor_sdk_python.Prelude.{
  ◌≤◌, ◌≡◌, refl, sym, ap, ◌∙◌, subst, Bool, true, false, List, [], ◌∷◌, ◌++◌, length, take, arith,
  append_assoc, length-append, length-take,
}
use vynkor_sdk_python.Messages.{ActionRequest, Envelope}
use vynkor_sdk_python.Concurrent.System.{
  Handler, Phase, waiting, draining, stopped, crashed, Ended, System, room, put_all, deliver, lose,
  drained, response_channel_capacity,
}
use vynkor_sdk_python.Concurrent.Steps.{
  IsRunning, Step, finish, resume, wake_inbound, wake_response, wake_both, drain, drain_end, Reach,
  begin, later,
}
use vynkor_sdk_python.Concurrent.Merge.{Merge, nil, Merge-snoc_left, Merge-snoc_right}
use vynkor_sdk_python.Concurrent.Kept.{IsFlushed, IsKept, on_inbound-IsKept}

-- The responses that were put are, in their order, a merge of the delivered and the dropped ones,
-- then those in the queue.
abbrev pub IsMerged : System → Type 0
IsMerged s =
    (taken : List Envelope) × (s.produced ≡ taken ++ s.queue) × Merge s.delivered s.dropped taken

pub record IsAccounted (s : System) : Type 0 where
  pub bounded : length s.queue ≤ response_channel_capacity
  pub merged : IsMerged s
  pub flushed : IsFlushed s.phase s.queue

IsKept-IsAccounted : (s t : System) → IsKept s t → IsAccounted s → IsAccounted t
IsKept-IsAccounted s t k a =
    let (taken, put, merge) = a.merged in
    record {
      bounded = omega (arith, ap length k.queue);
      merged = (
        taken,
        k.produced ∙ put ∙ ap (λ q. taken ++ q) (sym k.queue),
        subst (λ d. Merge d t.dropped taken) (sym k.delivered)
            (subst (λ d. Merge s.delivered d taken) (sym k.dropped) merge),
      );
      flushed = k.open_phase t.queue;
    }

-- A running phase is not behind the loop's end.
IsRunning-IsFlushed : (phase : Phase) (q : List Envelope) → IsRunning phase → IsFlushed phase q
IsRunning-IsFlushed waiting q r = tt
IsRunning-IsFlushed (draining exits) q r = tt
IsRunning-IsFlushed stopped q r = absurd r
IsRunning-IsFlushed (crashed e) q r = absurd r

put_all-IsAccounted :
    (envs : List Envelope) (s : System)
    → IsRunning s.phase
    → IsAccounted s
    → IsAccounted (put_all envs s)
unfolding put_all
put_all-IsAccounted envs s r a =
    let (taken, put, merge) = a.merged in
    let new = take (room s) envs in
    record {
      bounded = omega (arith, length-append s.queue new, length-take (room s) envs, a.bounded);
      merged = (taken, ap (λ p. p ++ new) put ∙ append_assoc taken s.queue new, merge);
      flushed = IsRunning-IsFlushed s.phase (s.queue ++ new) r;
    }

-- What a task or a list of tasks does to the fields beside.
IsAccounted-tasks :
    (s : System) (running : List ActionRequest) (ended : List Ended)
    (blocked : List (List Envelope))
    → IsAccounted s
    → IsAccounted (record s { running = running; ended = ended; blocked = blocked })
IsAccounted-tasks s running ended blocked a = record {
  bounded = a.bounded;
  merged = a.merged;
  flushed = a.flushed;
}

deliver-IsAccounted :
    (env : Envelope) (rest : List Envelope) (s : System)
    → s.queue ≡ env ∷ rest
    → IsRunning s.phase
    → IsAccounted s
    → IsAccounted (deliver env rest s)
deliver-IsAccounted env rest s e r a =
    let (taken, put, merge) = a.merged in
    record {
      bounded = omega (arith, ap length e, a.bounded);
      merged = (
        taken ++ (env ∷ []),
        put ∙ ap (λ q. taken ++ q) e ∙ sym (append_assoc taken (env ∷ []) rest),
        Merge-snoc_left env merge,
      );
      flushed = IsRunning-IsFlushed s.phase rest r;
    }

lose-IsAccounted :
    (env : Envelope) (rest : List Envelope) (s : System)
    → s.queue ≡ env ∷ rest
    → IsRunning s.phase
    → IsAccounted s
    → IsAccounted (lose env rest s)
lose-IsAccounted env rest s e r a =
    let (taken, put, merge) = a.merged in
    record {
      bounded = omega (arith, ap length e, a.bounded);
      merged = (
        taken ++ (env ∷ []),
        put ∙ ap (λ q. taken ++ q) e ∙ sym (append_assoc taken (env ∷ []) rest),
        Merge-snoc_right env merge,
      );
      flushed = IsRunning-IsFlushed s.phase rest r;
    }

-- The phases of the steps that name theirs.
phase-IsRunning : (phase p : Phase) → phase ≡ p → IsRunning p → IsRunning phase
phase-IsRunning phase p e r = subst IsRunning (sym e) r

drained-IsFlushed : (exits : Bool) (q : List Envelope) → q ≡ [] → IsFlushed (drained exits) q
drained-IsFlushed true q e = e
drained-IsFlushed false q e = tt

Step-IsAccounted :
    (handler : Handler) {s t : System} → Step handler s t → IsAccounted s → IsAccounted t
Step-IsAccounted handler {s} (finish before after req r e) a =
    put_all-IsAccounted _ _ r
      (IsAccounted-tasks s (before ++ after) ((req, handler.on_action s req) ∷ s.ended) s.blocked a)
Step-IsAccounted handler {s} (resume before after envs r space e) a =
    put_all-IsAccounted envs _ r (IsAccounted-tasks s s.running s.ended (before ++ after) a)
Step-IsAccounted handler {s} (wake_inbound got p) a =
    IsKept-IsAccounted s _ (on_inbound-IsKept handler got s) a
Step-IsAccounted handler {s} (wake_response env rest p e) a =
    deliver-IsAccounted env rest s e (phase-IsRunning s.phase waiting p tt) a
Step-IsAccounted handler {s} (wake_both got env rest p e) a =
    IsKept-IsAccounted (lose env rest s) _ (on_inbound-IsKept handler got (lose env rest s))
      (lose-IsAccounted env rest s e (phase-IsRunning s.phase waiting p tt) a)
Step-IsAccounted handler {s} (drain exits env rest p e) a =
    deliver-IsAccounted env rest s e (phase-IsRunning s.phase (draining exits) p tt) a
Step-IsAccounted handler {s} (drain_end exits p e) a = record {
  bounded = a.bounded;
  merged = a.merged;
  flushed = drained-IsFlushed exits s.queue e;
}

-- In every state that the loop and its tasks reach, the queue holds at most 256 responses; the
-- responses that were put into it are, in their order, a merge of those handed to the client and those
-- dropped, followed by the queue; and at the loop's end the queue is empty.
pub Reach-IsAccounted : (handler : Handler) {s : System} → Reach handler s → IsAccounted s
Reach-IsAccounted handler begin = record {
  bounded = omega arith;
  merged = ([], refl, nil);
  flushed = tt;
}
Reach-IsAccounted handler (later r step) =
    Step-IsAccounted handler step (Reach-IsAccounted handler r)
