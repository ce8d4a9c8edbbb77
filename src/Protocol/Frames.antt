-- ===== src/Protocol/Frames.antt =====
-- Reading and writing frames: `read_header`, `write_header_with_version`, `read_frame` and
-- `write_frame` of acton-reactive/src/common/ipc/protocol.rs, and what reads an envelope or a
-- response off them. Serialization is by serde and rmp-serde, outside this repository: payloads
-- are bytes.
use acton_reactive.Shared.{
  ℕ, zero, suc, ◌+◌, ◌*◌, ◌/◌, ◌%◌, ◌^◌, Bool, ◌||◌, Option, some, none, List, [], ◌∷◌, ◌++◌, ltb,
  leb, ◌==◌, if◌then◌else◌, length, Result, ok, err,
}
use acton_reactive.Protocol.{
  Format, json, to_byte, format_from_byte, IpcError, protocol_error, unsupported_protocol_version,
  unknown_format, frame_too_large, over_hard_limit, payload_too_large, unexpected_message_type,
  ◌>>=◌, ◌>>◌, ensure, validate_message_type, is_supported, Reader, short_read, max_frame_size,
  protocol_version, msg_type_request, msg_type_response, msg_type_error, msg_type_heartbeat,
}

-- `u32::to_be_bytes` and `u32::from_be_bytes`.
abbrev pub to_be_bytes : ℕ → List ℕ
to_be_bytes n = (n / 2 ^ 24 % 256) ∷ (n / 2 ^ 16 % 256) ∷ (n / 2 ^ 8 % 256) ∷ (n % 256) ∷ []

abbrev pub from_be_bytes : ℕ → ℕ → ℕ → ℕ → ℕ
from_be_bytes a b c d = a * 2 ^ 24 + b * 2 ^ 16 + c * 2 ^ 8 + d

abbrev pub take_bytes : ℕ → List ℕ → Option (List ℕ × List ℕ)
take_bytes zero bs = some ([], bs)
take_bytes (suc n) [] = none
take_bytes (suc n) (b ∷ bs) = elim (take_bytes n bs) [
  | none ↦ none
  | some (xs, rest) ↦ some (b ∷ xs, rest)
]

-- `AsyncReadExt::read_exact` with the error that every caller makes of its failure.
unfoldable pub read_exact : ℕ → Reader → Result IpcError (List ℕ × Reader)
read_exact n r = elim (take_bytes n r.bytes) [
  | none ↦ err (short_read r.ending)
  | some (xs, rest) ↦ ok (xs, record r { bytes = rest })
]

pub record Header : Type 0 where
  pub length : ℕ
  pub version : ℕ
  pub msg_type : ℕ
  pub format : Format

-- The length, the version and the message type of the six bytes; `read_exact` returns no others.
abbrev pub base_header : List ℕ → ℕ × ℕ × ℕ
base_header (a ∷ b ∷ c ∷ d ∷ version ∷ msg_type ∷ []) = (from_be_bytes a b c d, version, msg_type)
base_header _ = (0, 0, 0)

abbrev pub first_byte : List ℕ → ℕ
first_byte [] = 0
first_byte (b ∷ bs) = b

abbrev pub known_format : Option Format → ℕ → Result IpcError Format
known_format (some format) byte = ok format
known_format none byte = err (protocol_error (unknown_format byte))

-- The format byte that follows from version 2 on; version 1 is JSON only.
unfoldable pub read_format : Bool → ℕ → Reader → Result IpcError (Format × Reader)
unfolding read_exact
read_format feature version r =
    if leb 0x02 version
    then (do
      (byte, r') ← read_exact 1 r
      format ← known_format (format_from_byte feature (first_byte byte)) (first_byte byte)
      ok (format, r'))
    else ok (json, r)

unfoldable pub read_header : Bool → Reader → Result IpcError (Header × Reader)
unfolding read_exact
read_header feature r = do
  (base, r1) ← read_exact 6 r
  let (length, version, msg_type) = base_header base
  ensure (is_supported version) (unsupported_protocol_version version)
  validate_message_type version msg_type
  (format, r2) ← read_format feature version r1
  ok (record { length = length; version = version; msg_type = msg_type; format = format }, r2)

unfoldable pub write_header_with_version : ℕ → ℕ → Format → ℕ → List ℕ
write_header_with_version payload_length msg_type format version =
    if leb 0x02 version
    then to_be_bytes payload_length ++ version ∷ msg_type ∷ to_byte format ∷ []
    else to_be_bytes payload_length ++ version ∷ msg_type ∷ []

unfoldable pub read_frame : Bool → ℕ → Reader → Result IpcError ((ℕ × Format × List ℕ) × Reader)
unfolding read_exact
read_frame feature max_size r = do
  (header, r1) ← read_header feature r
  ensure (leb header.length max_size) (protocol_error (frame_too_large header.length max_size))
  ensure (leb header.length max_frame_size) (protocol_error (over_hard_limit header.length))
  (payload, r2) ← read_exact header.length r1
  ok ((header.msg_type, header.format, payload), r2)

-- `try_into` fails from 2 ^ 32 on.
unfoldable pub write_frame : ℕ → Format → List ℕ → Result IpcError (List ℕ)
write_frame msg_type format payload =
    if ltb (length payload) (2 ^ 32)
    then ok (write_header_with_version (length payload) msg_type format protocol_version ++ payload)
    else err (protocol_error payload_too_large)

-- `read_envelope` and `read_response`, up to the payload that is to be deserialized.
unfoldable pub read_envelope : Bool → ℕ → Reader → Result IpcError ((Format × List ℕ) × Reader)
read_envelope feature max_size r = do
  ((msg_type, format, payload), r') ← read_frame feature max_size r
  ensure (msg_type == msg_type_request) (protocol_error (unexpected_message_type msg_type))
  ok ((format, payload), r')

unfoldable pub read_response : Bool → ℕ → Reader → Result IpcError ((Format × List ℕ) × Reader)
read_response feature max_size r = do
  ((msg_type, format, payload), r') ← read_frame feature max_size r
  ensure (msg_type == msg_type_response || msg_type == msg_type_error)
      (protocol_error (unexpected_message_type msg_type))
  ok ((format, payload), r')

-- From the payload that serialization gave.
unfoldable pub write_envelope : Format → List ℕ → Result IpcError (List ℕ)
write_envelope format payload = write_frame msg_type_request format payload

unfoldable pub write_response : Bool → Format → List ℕ → Result IpcError (List ℕ)
write_response success format payload =
    write_frame (if success then msg_type_response else msg_type_error) format payload

unfoldable pub write_heartbeat : Result IpcError (List ℕ)
write_heartbeat = write_frame msg_type_heartbeat json []
