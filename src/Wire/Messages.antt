-- ===== src/Wire/Messages.antt =====
-- crates/moire-wire/src/lib.rs: the messages of both directions and their frames. The serializer is
-- a parameter.
pub mod RoundTrip
pub mod Stream
use peeps.Prelude.{ℕ, ℤ, Option, List, String, Result, ◌>>=◌, map_err}
use peeps.Trace.{ModuleId, RuntimeBase, BacktraceRecord}
use peeps.Types.{ProcessId}
use peeps.Types.Change.{PullChangesResponse, CutRequest, CutAck}
use peeps.Types.Snapshot.{Snapshot}
use peeps.Wire.Frame.{
  Bytes, WireError, json, frame, encode_frame, decode_frame, default_max_frame_bytes,
}

pub data ModuleIdentity : Type 0 where
  build_id : String → ModuleIdentity
  debug_id : String → ModuleIdentity

pub record ModuleManifestEntry : Type 0 where
  pub module_id : ModuleId
  pub module_path : String
  pub runtime_base : RuntimeBase
  pub identity : ModuleIdentity
  pub arch : String

pub record Handshake : Type 0 where
  pub process_id : ProcessId
  pub process_name : String
  pub pid : ℕ
  pub args : List String
  pub env : List String
  pub module_manifest : List ModuleManifestEntry

pub record SnapshotRequest : Type 0 where
  pub snapshot_id : ℤ
  pub timeout_ms : ℤ

pub record SnapshotReply : Type 0 where
  pub snapshot_id : ℤ
  pub ptime_now_ms : ℕ
  pub snapshot : Option Snapshot

pub record ClientError : Type 0 where
  pub process_name : String
  pub pid : ℕ
  pub stage : String
  pub error : String
  pub last_frame_utf8 : Option String

pub data ClientMessage : Type 0 where
  handshake : Handshake → ClientMessage
  backtrace_record : BacktraceRecord → ClientMessage
  snapshot_reply : SnapshotReply → ClientMessage
  delta_batch : PullChangesResponse → ClientMessage
  cut_ack : CutAck → ClientMessage
  error : ClientError → ClientMessage

pub data ServerMessage : Type 0 where
  snapshot_request : SnapshotRequest → ServerMessage
  cut_request : CutRequest → ServerMessage

-- `facet_json::to_vec` and `facet_json::from_slice` of one type, the error as its text.
pub record Serializer (A : Type 0) : Type 0 where
  pub to_vec : A → Result String Bytes
  pub from_slice : Bytes → Result String A

-- `encode_client_message` and `encode_server_message`, which differ in the type of the message.
module _ {A : Type 0} (facet : Serializer A) where
  unfoldable pub encode_message : A → ℕ → Result WireError Bytes
  encode_message message max_payload_bytes = do
    payload ← map_err json (facet.to_vec message)
    map_err frame (encode_frame payload max_payload_bytes)

  -- `decode_client_message` and `decode_server_message`.
  unfoldable pub decode_message : Bytes → ℕ → Result WireError A
  decode_message bytes max_payload_bytes = do
    payload ← map_err frame (decode_frame bytes max_payload_bytes)
    map_err json (facet.from_slice payload)

unfoldable pub encode_client_message_default :
    Serializer ClientMessage → ClientMessage → Result WireError Bytes
unfolding encode_message
encode_client_message_default facet message = encode_message facet message default_max_frame_bytes

unfoldable pub decode_client_message_default :
    Serializer ClientMessage → Bytes → Result WireError ClientMessage
unfolding decode_message
decode_client_message_default facet bytes = decode_message facet bytes default_max_frame_bytes

unfoldable pub encode_server_message_default :
    Serializer ServerMessage → ServerMessage → Result WireError Bytes
unfolding encode_message
encode_server_message_default facet message = encode_message facet message default_max_frame_bytes

unfoldable pub decode_server_message_default :
    Serializer ServerMessage → Bytes → Result WireError ServerMessage
unfolding decode_message
decode_server_message_default facet bytes = decode_message facet bytes default_max_frame_bytes
