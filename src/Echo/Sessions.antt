-- ===== src/Echo/Sessions.antt =====
-- examples/echo_plugin.py: a streaming session from its acceptance to its response.
use vynkor_sdk_python.Prelude.{
  range_from, ℕ, ◌≡◌, refl, sym, ap, subst, ◌∙◌, Bool, true, false, List, [], ◌∷◌, ◌++◌, none, some,
  append-nil, append_assoc, length, ◌/◌, take, drop, take-append-drop,
}
use mathlib.Core.List.{Perm}
use vynkor_sdk_python.Prelude.Dict.{Dict, nat_key}
use vynkor_sdk_python.Prelude.Dict
use vynkor_sdk_python.Errors.{Str, Bytes, ok, err}
use vynkor_sdk_python.Py.Text.{str, str_eq, str_eq_refl}
use vynkor_sdk_python.Messages.{
  ActionRequest, action_ok, Envelope, action_request, action_request_chunk,
}
use vynkor_sdk_python.Echo.Handlers.{
  EchoPlugin, World, Handled, no_session, session_of, response, stream_replies, response_chunk,
  keys, sorted, join_chunks, send_each, after_send, end_stream, reply_stream, store_part,
  in_session, handle_request_chunk, handle_action, on_message,
}
use vynkor_sdk_python.Echo.Sorted.{store_all, joined, join_chunks-store_all}

-- What goes out to the kernel: what the handler sent itself, and what it returned. An exception ends
-- the run.
unfoldable pub outgoing : Handled → EchoPlugin × List Envelope → EchoPlugin × List Envelope
outgoing h later = elim h.result [
  | err e ↦ (h.plugin, h.sent)
  | ok none ↦ (later.0, h.sent ++ later.1)
  | ok (some reply) ↦ (later.0, h.sent ++ (reply ∷ later.1))
]

module _ (world : World) where
  unfoldable pub run : EchoPlugin → List Envelope → EchoPlugin × List Envelope
  run plugin [] = (plugin, [])
  run plugin (env ∷ inbox) = let h = on_message world plugin env in outgoing h (run h.plugin inbox)

-- The request's chunks as they come, with the last of them marked as final.
unfoldable pub chunk_of : Str → (ℕ → Bytes) → ℕ → Bool → Envelope
chunk_of id piece seq final =
    action_request_chunk (record { action_id = id; seq = seq; chunk = piece seq; final = final })

unfoldable pub chunks_of : Str → (ℕ → Bytes) → ℕ → List ℕ → List Envelope
chunks_of id piece seq [] = chunk_of id piece seq true ∷ []
chunks_of id piece seq (next ∷ order) = chunk_of id piece seq false ∷ chunks_of id piece next order

-- Every send of the plugin succeeds.
abbrev pub Sends : World → Type 0
Sends world = (sent : List Envelope) (env : Envelope) → world.send sent env ≡ ok tt

module _ (world : World) (sends : Sends world) where
  send_each-Sends : (sent envs : List Envelope) → send_each world sent envs ≡ (sent ++ envs, ok tt)
  unfolding send_each after_send
  send_each-Sends sent [] = ap (λ l. (l, ok tt)) (sym (append-nil sent))
  send_each-Sends sent (env ∷ envs) = rw (sends sent env) (
      send_each-Sends (sent ++ (env ∷ [])) envs
      ∙ ap (λ l. (l, ok tt)) (append_assoc sent (env ∷ []) envs))

  last_chunk :
      (id : Str) (piece : ℕ → Bytes) (seq : ℕ) (d : Dict ℕ Bytes) (full : Bytes)
      → (let table = Dict.insert seq (piece seq) d in
          join_chunks table (sorted (keys table)) ≡ ok full)
      → run world (session_of id d) (chunk_of id piece seq true ∷ [])
        ≡ (no_session, stream_replies id full)
  unfolding run chunk_of on_message handle_request_chunk in_session store_part reply_stream
      end_stream outgoing
  last_chunk id piece seq d full e =
      rw (str_eq_refl id, e, send_each-Sends [] (stream_replies id full))
        (ap (λ l. (no_session, l)) (append-nil (stream_replies id full)))

  other_chunk :
      (id : Str) (piece : ℕ → Bytes) (seq : ℕ) (inbox : List Envelope) (d : Dict ℕ Bytes)
      → run world (session_of id d) (chunk_of id piece seq false ∷ inbox)
        ≡ run world (session_of id (Dict.insert seq (piece seq) d)) inbox
  unfolding run chunk_of on_message handle_request_chunk in_session store_part outgoing
  other_chunk id piece seq inbox d = rw (str_eq_refl id) refl

  accepts :
      (plugin : EchoPlugin) (req : ActionRequest) (inbox : List Envelope)
      → req.action ≡ str "stream_echo"
      → req.streaming ≡ true
      → let later = run world (session_of req.action_id []) inbox in
        run world plugin (action_request req ∷ inbox)
        ≡ (later.0, response req.action_id action_ok [] [] ∷ later.1)
  unfolding run on_message handle_action outgoing
  accepts plugin req inbox named streams =
      let is_stream : str_eq req.action (str "stream_echo") ≡ true =
        subst (λ a. str_eq a (str "stream_echo") ≡ true) (sym named)
          (str_eq_refl (str "stream_echo")) in
      rw (is_stream, streams) refl

  all_chunks :
      (id : Str) (piece : ℕ → Bytes) (seq : ℕ) (order : List ℕ) (d : Dict ℕ Bytes) (full : Bytes)
      → (let table = store_all piece (seq ∷ order) d in
          join_chunks table (sorted (keys table)) ≡ ok full)
      → run world (session_of id d) (chunks_of id piece seq order)
        ≡ (no_session, stream_replies id full)
  unfolding chunks_of store_all
  all_chunks id piece seq [] d full e = last_chunk id piece seq d full e
  all_chunks id piece seq (next ∷ order) d full e =
      other_chunk id piece seq (chunks_of id piece next order) d
      ∙ all_chunks id piece next order (Dict.insert seq (piece seq) d) full e

  -- A streaming `stream_echo` request, whatever the plugin did before, then the request's chunks
  -- with the numbers 0 to `count - 1`, each once and in any order, the last to come marked as final;
  -- no send raises. Out go an OK response, then two chunks that together are the bytes of the request
  -- in the order of the numbers, then an OK response with all these bytes; and no session is open.
  pub run-chunks_of :
      (plugin : EchoPlugin) (req : ActionRequest) (piece : ℕ → Bytes)
      → (count seq : ℕ) (order : List ℕ) → req.action ≡ str "stream_echo"
      → req.streaming ≡ true
      → Perm (seq ∷ order) (range_from 0 count)
      → let id = req.action_id in
        let full = joined piece 0 count in
        (front back : Bytes) × (front ++ back ≡ full)
        × (run world plugin (action_request req ∷ chunks_of id piece seq order) ≡ (
          no_session,
          response id action_ok [] []
              ∷ response_chunk id 0 front
              ∷ response_chunk id 1 back
              ∷ response id action_ok full []
              ∷ [],
        ))
  unfolding stream_replies
  run-chunks_of plugin req piece count seq order named streams p =
      let id = req.action_id in
      let full = joined piece 0 count in
      let mid = length full / 2 in
      let stored = join_chunks-store_all piece count (seq ∷ order) p in
      (
        take mid full,
        drop mid full,
        take-append-drop mid full,
        accepts plugin req (chunks_of id piece seq order) named streams
            ∙ ap (λ later. (later.0, response id action_ok [] [] ∷ later.1))
                (all_chunks id piece seq order [] full stored),
      )
