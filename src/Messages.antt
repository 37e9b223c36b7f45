-- ===== src/Messages.antt =====
-- The messages of proto/vynkor_protocol.proto that the code inspects or builds, with the fields that
-- it reads or writes. An `Envelope` holds one of them.
use vynkor_sdk_python.Prelude.{ℕ, Bool, List}
use vynkor_sdk_python.Errors.{Str, Bytes}

pub data ActionStatus : Type 0 where
  action_unknown action_ok action_error action_not_found : ActionStatus

pub record ActionRequest : Type 0 where
  pub action_id : Str
  pub action : Str
  pub params_json : Bytes
  pub caller_plugin_id : Str
  pub timeout_ms : ℕ
  pub streaming : Bool

pub record ActionResponse : Type 0 where
  pub action_id : Str
  pub status : ActionStatus
  pub data_json : Bytes
  pub error : Str

pub record ActionSpec : Type 0 where
  pub name : Str
  pub description : Str
  pub params_schema : Str
  pub risk : ℕ
  pub requires_confirmation : Bool

pub record Event : Type 0 where
  pub event_id : Str
  pub payload_json : Bytes

pub record PluginRegister : Type 0 where
  pub plugin_id : Str
  pub version : Str
  pub jwt_token : Str
  pub device_id : Str

pub record RegisterAck : Type 0 where
  pub accepted : Bool
  pub reject_reason : Str
  pub session_nonce : Bytes

pub record KernelError : Type 0 where
  pub message : Str
  pub details : Str

pub record StreamAbort : Type 0 where
  pub action_id : Str
  pub reason : Str

pub record EventPublish : Type 0 where
  pub event_type : Str
  pub payload_json : Bytes

pub record RequestChunk : Type 0 where
  pub action_id : Str
  pub seq : ℕ
  pub chunk : Bytes
  pub final : Bool

pub record ResponseChunk : Type 0 where
  pub action_id : Str
  pub seq : ℕ
  pub chunk : Bytes

pub record SessionClose : Type 0 where
  pub action_id : Str
  pub reason : Str

pub record KernelCommand : Type 0 where
  pub command_id : Str
  pub command : Str
  pub params_json : Bytes

-- `other` is an envelope with any other field set, as its serialized bytes, `unset` one with none, and an
-- `EventPublishAck`, a `KernelCommandAck` and an
-- `AudioStreamChunk` are kept serialized too.
pub data Envelope : Type 0 where
  action_request : ActionRequest → Envelope
  action_response : ActionResponse → Envelope
  ping : ℕ → Envelope
  pong : ℕ → ℕ → Envelope
  plugin_shutdown : Envelope
  event : Event → Envelope
  event_ack : Str → Envelope
  other : Bytes → Envelope
  plugin_register : PluginRegister → Envelope
  plugin_register_ack : RegisterAck → Envelope
  kernel_error : KernelError → Envelope
  event_publish : EventPublish → Envelope
  event_publish_ack : Bytes → Envelope
  action_stream_abort : StreamAbort → Envelope
  unset : Envelope
  subscription : List Str → Envelope
  unsubscription : List Str → Envelope
  action_request_chunk : RequestChunk → Envelope
  action_response_chunk : ResponseChunk → Envelope
  session_close : SessionClose → Envelope
  kernel_command : KernelCommand → Envelope
  kernel_command_ack : Bytes → Envelope
  audio_stream_chunk : Bytes → Envelope
