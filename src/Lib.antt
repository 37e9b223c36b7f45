-- ===== src/Lib.antt =====
-- The Vynkor SDK for Python: a client and a plugin runtime for the Vynkor kernel.
--
-- The program's parts and the files that model them:
--
-- * `vynkor/errors.py` is Errors. The subclasses of `VynkorError` and the other exceptions that
--   pass through the SDK are one data type, and code that may raise returns a `Result`.
-- * `vynkor/framing.py` is Framing. `Header` has the constants, the struct layouts of the frame
--   header and of the fragment header; `Mac` has `_hkdf_extract`, `_hkdf_expand`,
--   `derive_session_key`, `compute_tag` and `verify_tag`; `Pack` has `pack_frame`; `Stream` is
--   reading from a `BytesIO` or a file, and `Read` has `_decompress`, `_normalize`, `read_frame`
--   and `read_frame_from_bytes`; `Async` has `async_read_frame` over bytes with their arrival
--   times.
-- * `vynkor/client.py` is Client. `Reassembly` has `_ReassemblyBuf`, `_prune_reassembly`,
--   `_absorb_fragment` and `recv_frame` over a list of arrivals; `Fragments` has the frames of
--   `send_fragmented`; `Session` has the registration and the choice of the transport's frame;
--   `Requests` has `recv_timeout`, `_await_matching`, `send_action` and `publish_event` over a
--   list of what the connection delivers, with the time of each delivery; `Transport` has `send`,
--   `send_raw_with_flags`, `_ws_recv_frame` and `recv`; `Stream` has `send_fragmented` down to the
--   bytes that it writes, and the rounds of `recv_frame` over a Unix socket; `Calls` has the calls that send one
--   envelope, and `send_command` and `ping`; `Connection` has `close`, and `Connect` has the state
--   of a new `VynkorClient` with its constructors, `register` and `register_with_token`.
-- * `vynkor/confirmation_gate.py` is Gate. `Names` has `_validate_op`, the manifest entries and
--   the replies; `Allowlist` has `may_confirm`; `Table` has the state of a `ConfirmationGate` and
--   `_store_request`, `_take_pending`, `_sweep_expired_locked`; `Route` has `_parse_pending_id`
--   and `route`, which also records the calls of the executor; `Await` cuts `route` at its await of
--   the executor, and `Turns` is the relation of the turns that overlapping calls take; `Caller`
--   has `send_confirmation_request` and `send_confirmation`.
-- * `vynkor/plugin.py` is Plugin. `SocketPath` has `_default_socket_path`; `Credentials` has
--   `resolve_ws_credentials` and the connections of `run_with` and `run_ws`; `Serve` has `serve`
--   over the list of what `recv` comes to, and records what it does as a history; `Defaults` has
--   the methods that a subclass may leave, and `Run` has `run`, `run_with` and `run_ws`, from the
--   environment to the closed connection.
-- * `vynkor/concurrent.py` is Concurrent. `System` has the state of `run_concurrent_loop` with
--   its handler tasks and what the loop does with an inbound envelope; `Steps` is the relation of
--   the turns that the loop and the tasks take; `Serve` has `serve_concurrent`.
-- * `examples/echo_plugin.py` is Echo. `Handlers` has the plugin's state and its handlers, with
--   what they send and what they return. `Served` is the plugin under `serve`.
-- * `fuzz/fuzz_framing.py` is Fuzz.
-- * `vynkor/__init__.py` is Package. `Names` has its lists of names, and `Import` what its
--   statements bind, from what each import comes to. `scripts/gen_proto_python.py` is Scripts.
--
-- Messages holds the fields of `proto/vynkor_protocol.proto` that this code reads or writes.
-- Prelude has Boolean tests, lists, bits and dicts; Py has what the code uses of Python itself:
-- text and UTF-8, decimal numbers, `struct` in network order, CRC-32, and the values of `json`.
--
-- The parts meet as in the source: Client uses the frames of Framing, Plugin makes a client, serves
-- on it and closes it, and a Gate is called by a plugin's `on_message`.
--
-- Parameters. HMAC-SHA256 and zstd are fields of `Primitives` (Framing), with their documented laws
-- as hypotheses where a theorem needs them; zstd's decompression may raise any exception. `json`,
-- `str()` and `bytes()` of outside values are fields of `Outside` (Gate). The file system is the
-- fields of `Machine`, and the environment and the opening of sockets are those of `World`
-- (Plugin). The generated protobuf bindings are fields of `Bindings` (Client). What executing a
-- module of the package comes to is a field of `Imports` (Package). A plugin's methods, and whether
-- the client's sends raise, are fields of `Host` (Plugin) and may depend on all that happened
-- before; those of a concurrent handler are fields of `Handler` (Concurrent), where what an action
-- comes to may depend on the whole state of the loop. Clocks are arguments.
--
-- Bounds and fuel. Times are whole milliseconds, and the time-to-live of a pending request is not
-- negative. Numbers on the wire keep their widths. HKDF's loop runs on fuel, with one round for
-- each output block and a theorem that it ends; the decimal digits of a number have one round for
-- each unit of its value, more than it has digits. A loop over the network is a recursion over
-- the list of what arrives.
--
-- Not modelled: what the operating system does to open a socket (it comes to an exception or to an
-- open connection), the bytes that a cancelled read may have taken, the generated protobuf
-- bindings and the compiler that generates them. In `Route`, `route` runs its executor in one step;
-- calls that overlap are those of `Turns`, where the gate's lock does not appear, since each
-- operation on the table runs in one turn.
pub mod Prelude
pub mod Errors
pub mod Py
pub mod Framing
pub mod Client
pub mod Messages
pub mod Gate
pub mod Plugin
pub mod Concurrent
pub mod Echo
pub mod Fuzz
pub mod Package
pub mod Scripts
