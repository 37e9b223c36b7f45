-- ===== src/Plugin/Endings.antt =====
-- vynkor/plugin.py: how every run of `run`, `run_with` and `run_ws` ends.
use vynkor_sdk_python.Prelude.{
  subst, ◌≡◌, refl, ap, sym, ◌∙◌, inl, inr, List, [], ◌∷◌, Option, true, none, Bool-cases, arith,
}
use vynkor_sdk_python.Errors.{Str, Bytes, Result, ok, err, ok-injective, >>=-eq-ok, ◌>>◌}
use vynkor_sdk_python.Client.Session.{with_device_id}
use vynkor_sdk_python.Client.Connection.{
  ws_closed, writer_closed, Closed, uds_connection, ws_connection, close, close_writer, after_wait,
  after_ws_close, behind, IsShut, IsCoherent, close-IsShut,
}
use vynkor_sdk_python.Client.Connect.{
  VynkorClient, new_client, on_uds, on_ws, connect_with_secret, connect_ws, connect_ws_device,
  subprotocols, joined_protocols,
}
use vynkor_sdk_python.Plugin.Credentials.{
  with_secret, ws_device, ws, run_with_connection, run_ws_connection,
}
use vynkor_sdk_python.Plugin.Credentials
use vynkor_sdk_python.Plugin.SocketPath.{Machine, FileCall, socket_of}
use vynkor_sdk_python.Plugin.Serve.{serve}
use vynkor_sdk_python.Plugin.Run.{
  World, connecting, served, closed, finally, connect, with_client, with_connection, run_with,
  run_ws, run_at, run,
}
use vynkor_sdk_python.Plugin.Outcomes.{IsFinal, IsNew, IsMade, closing_of, IsRun, connection_at}

uds-calls :
    (ws_close waited : Result (Unit {0}))
    → (close uds_connection ws_close waited).calls ≡ writer_closed ∷ []
unfolding close close_writer after_wait
uds-calls ws_close (ok done) = refl
uds-calls ws_close (err e) = refl

ws-calls :
    (ws_close waited : Result (Unit {0}))
    → (close ws_connection ws_close waited).calls ≡ ws_closed ∷ []
unfolding close close_writer after_ws_close behind
ws-calls (ok done) waited = refl
ws-calls (err e) waited = ground arith

close-calls :
    (c : Credentials.Connection) (client : VynkorClient) (ws_close waited : Result (Unit {0}))
    → IsMade c client
    → (close client.connection ws_close waited).calls ≡ closing_of c ∷ []
close-calls (with_secret path secret) client ws_close waited made =
    ap (λ x. (close x ws_close waited).calls) made.1 ∙ uds-calls ws_close waited
close-calls (ws_device url token device_id secret) client ws_close waited made =
    ap (λ x. (close x ws_close waited).calls) made.1 ∙ ws-calls ws_close waited
close-calls (ws url token secret) client ws_close waited made =
    ap (λ x. (close x ws_close waited).calls) made.1 ∙ ws-calls ws_close waited

finally-IsFinal :
    (shut : Closed) (returned result : Result (Unit {0}))
    → shut.result ≡ returned
    → ((shut.result ≡ ok tt) → IsShut shut.connection)
    → IsFinal shut result (finally returned result)
unfolding finally
finally-IsFinal shut (ok done) result h left = inr (h, left h, refl)
finally-IsFinal shut (err e) result h left = inl (e, h, refl)

module _ (world : World) where
  connect_ws-IsNew :
      (url token : Str) (secret : Option Bytes) (client : VynkorClient)
      → connect_ws world.has_websockets world.dial url token secret ≡ ok client
      → IsNew true secret none client
  unfolding connect_ws on_ws new_client
  connect_ws-IsNew url token secret client h = elim (Bool-cases world.has_websockets) [
    | inl y ↦
        let step : (world.dial url (subprotocols token)
              >> ok (on_ws (joined_protocols token) (new_client url secret)))
            ≡ ok client =
          ground arith in
        let (dialled, _, made) =
          >>=-eq-ok (world.dial url (subprotocols token))
            (λ _. ok (on_ws (joined_protocols token) (new_client url secret))) step in
        let same = sym (ok-injective made) in
        (ap VynkorClient.session same, ap VynkorClient.connection same)
    | inr n ↦ absurd (ground arith)
  ]

  pub connect-IsMade :
      (c : Credentials.Connection) (client : VynkorClient)
      → connect world c ≡ ok client
      → IsMade c client
  unfolding connect connect_with_secret connect_ws_device on_uds new_client
  connect-IsMade (with_secret path secret) client h =
      let (opened, _, made) =
        >>=-eq-ok (world.open_unix_connection path) (λ _. ok (on_uds (new_client path secret))) h in
      let same = sym (ok-injective made) in
      (ap VynkorClient.session same, ap VynkorClient.connection same)
  connect-IsMade (ws_device url token device_id secret) client h =
      let (dialled, connected, made) =
        >>=-eq-ok (connect_ws world.has_websockets world.dial url token secret)
          (λ made. ok (record made { session = with_device_id device_id made.session })) h in
      let (session, connection) = connect_ws-IsNew url token secret dialled connected in
      let same = sym (ok-injective made) in
      (
        ap VynkorClient.session same ∙ ap (with_device_id device_id) session,
        ap VynkorClient.connection same ∙ connection,
      )
  connect-IsMade (ws url token secret) client h = connect_ws-IsNew url token secret client h

  made-IsCoherent :
      (c : Credentials.Connection) (client : VynkorClient)
      → IsMade c client
      → IsCoherent client.connection
  made-IsCoherent (with_secret path secret) client (session, connection) =
      subst IsCoherent (sym connection) refl
  made-IsCoherent (ws_device url token device_id secret) client (session, connection) =
      subst IsCoherent (sym connection) refl
  made-IsCoherent (ws url token secret) client (session, connection) =
      subst IsCoherent (sym connection) refl

  with_client-IsRun :
      (c : Credentials.Connection) (made : Result VynkorClient)
      → connect world c ≡ made
      → IsRun world (ok c) (with_client world c made)
  unfolding with_client
  with_client-IsRun c (err e) h = inl (e, h, refl)
  with_client-IsRun c (ok client) h =
      let new = connect-IsMade c client h in
      let shut = close client.connection world.ws_close world.wait_closed in
      let served_on = serve (world.host client world.token) world.inbox in
      inr (
        client,
        h,
        new,
        (
          ap (λ calls. connecting c ∷ served client served_on.0 ∷ closed calls ∷ [])
              (close-calls c client world.ws_close world.wait_closed new),
          finally-IsFinal shut shut.result served_on.1 refl (
              close-IsShut client.connection world.ws_close world.wait_closed
                (made-IsCoherent c client new)),
        ),
      )

  with_connection-IsRun :
      (chosen : Result Credentials.Connection) → IsRun world chosen (with_connection world chosen)
  unfolding with_connection
  with_connection-IsRun (err e) = refl
  with_connection-IsRun (ok c) = with_client-IsRun c (connect world c) refl

  run_at-IsRun :
      (files : List FileCall) (socket : Result Str)
      → let (made, stages, last) = run_at world (files, socket) in
        (made ≡ files) × IsRun world (connection_at world socket) (stages, last)
  unfolding run_at run_with
  run_at-IsRun files (err e) = (refl, refl)
  run_at-IsRun files (ok path) =
      (refl, with_connection-IsRun (run_with_connection path world.jwt_secret))

-- Every `run`, `run_with` and `run_ws` raises what the choice of its address or of its
-- credentials raised, or makes one attempt to connect. That fails and is raised, or it makes a
-- client with the chosen secret and device id and no session key; the plugin serves on it,
-- whatever comes of it, and then the connection is closed by one call. What `close` raises is
-- raised; behind a `close` that returns nothing is open, and the run comes to what serving came to.
pub run-IsRun :
    (world : World) (machine : Machine) (socket_path : Option Str) (path url : Str)
    → let (files, socket) = socket_of machine socket_path in
      let (made, stages, last) = run world machine socket_path in
      ((made ≡ files) × IsRun world (connection_at world socket) (stages, last))
      × IsRun world (run_with_connection path world.jwt_secret) (run_with world path)
      × IsRun world
          (run_ws_connection url world.token world.device_id world.device_secret world.jwt_secret)
          (run_ws world url)
unfolding run run_with run_ws
run-IsRun world machine socket_path path url =
    let (files, socket) = socket_of machine socket_path in
    (
      run_at-IsRun world files socket,
      with_connection-IsRun world (run_with_connection path world.jwt_secret),
      with_connection-IsRun world
          (run_ws_connection url world.token world.device_id world.device_secret world.jwt_secret),
    )
