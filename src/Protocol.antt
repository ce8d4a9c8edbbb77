-- ===== src/Protocol.antt =====
-- acton-reactive/src/common/ipc/protocol.rs: versions, capabilities, and frames of the IPC wire
-- protocol. A byte is a number below 256. A reader is the bytes that are still to come and how
-- they end; a writer is the bytes that were written, and does not fail. The texts of
-- `ProtocolError` are a data type with the figures that they show.
pub mod Version
pub mod Frames
pub mod RoundTrip
pub mod Limits
pub mod Broken
use acton_reactive.Shared.{
  ℕ, suc, ◌+◌, ◌-◌, ◌*◌, ◌/◌, ◌%◌, ◌^◌, Bool, true, false, not, ◌&&◌, ◌||◌, Option, some, none,
  List, [], ◌∷◌, ◌++◌, ltb, leb, ◌==◌, if◌then◌else◌, length, Result, ok, err, ◌≡◌, refl, contains,
  ℕ_discrete,
}
use Prim.Native.Nat.{bit_and}

abbrev pub protocol_version : ℕ
protocol_version = 0x02

abbrev pub min_supported_version : ℕ
min_supported_version = 0x01

abbrev pub max_supported_version : ℕ
max_supported_version = 0x02

pub data ProtocolCapability : Type 0 where
  format_byte message_pack streaming push discovery : ProtocolCapability

-- The bits of `CapabilityFlags`.
abbrev pub format_byte_flag : ℕ
format_byte_flag = 1

abbrev pub messagepack_flag : ℕ
messagepack_flag = 2

abbrev pub streaming_flag : ℕ
streaming_flag = 4

abbrev pub push_flag : ℕ
push_flag = 8

abbrev pub discovery_flag : ℕ
discovery_flag = 16

-- The table of `supports`.
abbrev pub flag : ProtocolCapability → ℕ
flag format_byte = format_byte_flag
flag message_pack = messagepack_flag
flag streaming = streaming_flag
flag push = push_flag
flag discovery = discovery_flag

-- A set of capabilities is the byte of its flags.
unfoldable pub supports : ℕ → ProtocolCapability → Bool
supports flags capability = not (bit_and flags (flag capability) == 0)

-- The table of `as_array` is another one.
unfoldable pub as_array : ℕ → List (Option ProtocolCapability)
as_array flags =
    (if not (bit_and flags format_byte_flag == 0) then some format_byte else none)
    ∷ (if not (bit_and flags messagepack_flag == 0) then some message_pack else none)
    ∷ (if not (bit_and flags streaming_flag == 0) then some streaming else none)
    ∷ (if not (bit_and flags push_flag == 0) then some push else none)
    ∷ (if not (bit_and flags discovery_flag == 0) then some discovery else none)
    ∷ []

pub record ProtocolVersion : Type 0 where
  pub major : ℕ
  pub capabilities : ℕ
  pub header_size : ℕ

abbrev pub v1 : ProtocolVersion
v1 = record { major = 0x01; capabilities = 0; header_size = 6 }

abbrev pub v2 : ProtocolVersion
v2 = record { major = 0x02; capabilities = 31; header_size = 7 }

unfoldable pub version_from_byte : ℕ → Option ProtocolVersion
version_from_byte version =
    if version == 0x01 then some v1 else if version == 0x02 then some v2 else none

unfoldable pub is_supported : ℕ → Bool
is_supported version = leb min_supported_version version && leb version max_supported_version

unfoldable pub negotiate : ℕ → ℕ → Option ℕ
negotiate client_version server_version =
    if ltb client_version min_supported_version || ltb server_version min_supported_version
    then none
    else let negotiated =
        if ltb client_version server_version then client_version else server_version in
      if leb negotiated max_supported_version then some negotiated else some max_supported_version

pub data Format : Type 0 where
  json messagepack : Format

unfoldable pub to_byte : Format → ℕ
to_byte json = 0x01
to_byte messagepack = 0x02

-- The first argument is whether the feature `ipc-messagepack` is compiled in.
unfoldable pub format_from_byte : Bool → ℕ → Option Format
format_from_byte feature byte =
    if byte == 0x01 then some json else if feature && byte == 0x02 then some messagepack else none

abbrev pub msg_type_request : ℕ
msg_type_request = 0x01

abbrev pub msg_type_response : ℕ
msg_type_response = 0x02

abbrev pub msg_type_error : ℕ
msg_type_error = 0x03

abbrev pub msg_type_heartbeat : ℕ
msg_type_heartbeat = 0x04

abbrev pub max_frame_size : ℕ
max_frame_size = 16 * 1024 * 1024

abbrev pub v1_message_types : List ℕ
v1_message_types = 0x01 ∷ 0x02 ∷ 0x03 ∷ 0x04 ∷ []

abbrev pub v2_message_types : List ℕ
v2_message_types = 0x01 ∷ 0x02 ∷ 0x03 ∷ 0x04 ∷ 0x05 ∷ 0x06 ∷ 0x07 ∷ 0x08 ∷ 0x09 ∷ 0x0a ∷ 0x0b ∷ []

pub data Fault : Type 0 where
  unknown_version : ℕ → Fault
  unknown_message_type : ℕ → ℕ → Fault
  unknown_format : ℕ → Fault
  frame_too_large : ℕ → ℕ → Fault
  over_hard_limit : ℕ → Fault
  payload_too_large : Fault
  unexpected_message_type : ℕ → Fault

-- The errors of `IpcError` that this file raises. The bounds that an unsupported version is told
-- with are the constants above.
pub data IpcError : Type 0 where
  connection_closed : IpcError
  io_error : IpcError
  unsupported_protocol_version : ℕ → IpcError
  protocol_error : Fault → IpcError

-- `>>=`, for the operator `?`.
infixl 5 ◌>>=◌ ◌>>◌
abbrev pub ◌>>=◌ : {A B : Type 0} → Result IpcError A → (A → Result IpcError B) → Result IpcError B
ok a >>= f = f a
err e >>= f = err e

abbrev pub ◌>>◌ : {B : Type 0} → Result IpcError (Unit {0}) → Result IpcError B → Result IpcError B
m >> k = m >>= λ _. k

-- A chain that succeeds has a first step that does.
pub bind_inv :
    {A B : Type 0} (m : Result IpcError A) (f : A → Result IpcError B) {b : B}
    → (m >>= f) ≡ ok b
    → (a : A) × (m ≡ ok a) × (f a ≡ ok b)
bind_inv (ok a) f h = (a, refl, h)
bind_inv (err e) f h = absurd (cc h)

abbrev pub ensure : Bool → IpcError → Result IpcError (Unit {0})
ensure true e = ok tt
ensure false e = err e

abbrev pub types_of : ℕ → Option (List ℕ)
types_of version =
    if version == 0x01
    then some v1_message_types
    else if version == 0x02
    then some v2_message_types
    else none

unfoldable pub validate_message_type : ℕ → ℕ → Result IpcError (Unit {0})
validate_message_type version msg_type = elim (types_of version) [
  | none ↦ err (protocol_error (unknown_version version))
  | some valid_types ↦
      ensure (contains ℕ_discrete valid_types msg_type)
        (protocol_error (unknown_message_type msg_type version))
]

-- How the bytes of a connection end: it was closed, or reading failed.
pub data Ending : Type 0 where
  closed broken : Ending

pub record Reader : Type 0 where
  pub bytes : List ℕ
  pub ending : Ending

abbrev pub short_read : Ending → IpcError
short_read closed = connection_closed
short_read broken = io_error
