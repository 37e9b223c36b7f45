-- ===== src/Client/Connection.antt =====
-- vynkor/client.py: the connection of a client, as the constructors make it and `close` leaves it.
use vynkor_sdk_python.Prelude.{
  ◌≡◌, refl, Bool, true, false, not, ◌&&◌, List, [], ◌∷◌, if◌then◌else◌, Bool-cases, inl, inr,
  arith,
}
use vynkor_sdk_python.Errors.{
  Error, Result, ok, err, foreign, connection_error, timeout_error, is_exception,
}

-- `_transport`, and whether `_ws`, `_writer` and `_reader` are set.
pub record Connection : Type 0 where
  pub is_ws : Bool
  pub ws_open : Bool
  pub writer_open : Bool
  pub reader_open : Bool

-- `connect`, `connect_with_secret` and `from_stream`
abbrev pub uds_connection : Connection
uds_connection = record { is_ws = false; ws_open = false; writer_open = true; reader_open = true }

-- `connect_ws`
abbrev pub ws_connection : Connection
ws_connection = record { is_ws = true; ws_open = true; writer_open = false; reader_open = false }

pub data CloseCall : Type 0 where
  ws_closed writer_closed : CloseCall

-- The calls that `close` makes, the connection that it leaves, and what it comes to.
pub record Closed : Type 0 where
  pub calls : List CloseCall
  pub connection : Connection
  pub result : Result (Unit {0})

-- `except (ConnectionError, OSError)`; `TimeoutError` is an `OSError`.
unfoldable pub is_connection_error : Error → Bool
is_connection_error (foreign connection_error) = true
is_connection_error (foreign timeout_error) = true
is_connection_error _ = false

-- `waited` is what `wait_closed` comes to.
unfoldable pub after_wait : Connection → Result (Unit {0}) → Closed
after_wait c (ok closed) = record {
  calls = writer_closed ∷ [];
  connection = record c { writer_open = false; reader_open = false };
  result = ok closed;
}
after_wait c (err e) = record {
  calls = writer_closed ∷ [];
  connection =
      if is_connection_error e then record c { writer_open = false; reader_open = false } else c;
  result = if is_connection_error e then ok tt else err e;
}

unfoldable pub close_writer : Connection → Result (Unit {0}) → Closed
close_writer c waited =
    if c.writer_open
    then after_wait c waited
    else record { calls = []; connection = c; result = ok tt }

unfoldable pub behind : CloseCall → Closed → Closed
behind call closed = record closed { calls = call ∷ closed.calls }

-- Behind `self._ws.close()`.
unfoldable pub after_ws_close : Connection → Result (Unit {0}) → Result (Unit {0}) → Closed
after_ws_close c (ok closed) waited =
    behind ws_closed (close_writer (record c { ws_open = false }) waited)
after_ws_close c (err e) waited =
    if is_exception e
    then behind ws_closed (close_writer (record c { ws_open = false }) waited)
    else record { calls = ws_closed ∷ []; connection = c; result = err e }

unfoldable pub close : Connection → Result (Unit {0}) → Result (Unit {0}) → Closed
close c ws_close waited =
    if c.is_ws && c.ws_open then after_ws_close c ws_close waited else close_writer c waited

-- Nothing of it is open.
abbrev pub IsShut : Connection → Type 0
IsShut c = (c.ws_open ≡ false) × (c.writer_open ≡ false)

-- A WebSocket is open only on the transport "ws", as the constructors leave it.
abbrev pub IsCoherent : Connection → Type 0
IsCoherent c = (c.ws_open && not c.is_ws) ≡ false

writer-IsShut :
    (c : Connection) (waited : Result (Unit {0}))
    → c.ws_open ≡ false
    → (close_writer c waited).result ≡ ok tt
    → IsShut (close_writer c waited).connection
unfolding close_writer after_wait
writer-IsShut c (ok closed) w h = ground arith
writer-IsShut c (err e) w h = ground arith

ws-IsShut :
    (c : Connection) (ws_close waited : Result (Unit {0}))
    → (after_ws_close c ws_close waited).result ≡ ok tt
    → IsShut (after_ws_close c ws_close waited).connection
unfolding after_ws_close behind
ws-IsShut c (ok closed) waited =
    λ h. writer-IsShut (record c { ws_open = false }) waited (ground arith) h
ws-IsShut c (err e) waited = elim (Bool-cases (is_exception e)) [
  | inl x ↦ rw x (λ h. writer-IsShut (record c { ws_open = false }) waited (ground arith) h)
  | inr x ↦ rw x (λ h. absurd (cc))
]

pub close-IsShut :
    (c : Connection) (ws_close waited : Result (Unit {0}))
    → IsCoherent c
    → (close c ws_close waited).result ≡ ok tt
    → IsShut (close c ws_close waited).connection
unfolding close
close-IsShut c ws_close waited coherent = elim (Bool-cases (c.is_ws && c.ws_open)) [
  | inl w ↦ rw w (ws-IsShut c ws_close waited)
  | inr w ↦ rw w (writer-IsShut c waited (ground arith))
]

shut-close :
    (c : Connection) (again wait_again : Result (Unit {0}))
    → IsShut c
    → close c again wait_again ≡ record { calls = []; connection = c; result = ok tt }
unfolding close close_writer
shut-close c again wait_again (w, r) =
    let none_open : (c.is_ws && c.ws_open) ≡ false = ground arith in rw (none_open, r) refl

-- On a connection whose WebSocket is open only on the transport "ws", a `close` that returns,
-- whatever it caught, leaves neither a WebSocket nor a writer open, and a `close` behind it makes no
-- call, leaves the connection as it is, and returns.
pub close-close :
    (c : Connection) (ws_close waited again wait_again : Result (Unit {0}))
    → IsCoherent c
    → (close c ws_close waited).result ≡ ok tt
    → let left = (close c ws_close waited).connection in
      IsShut left
      × (close left again wait_again ≡ record { calls = []; connection = left; result = ok tt })
close-close c ws_close waited again wait_again coherent h =
    let shut = close-IsShut c ws_close waited coherent h in
    (shut, shut-close (close c ws_close waited).connection again wait_again shut)
