-- ===== src/Protocol/Limits.antt =====
-- What comes off the wire is within the limits.
use acton_reactive.Shared.{ℕ, ◌≤◌, ◌≡◌, true, List, ◌++◌, length, ok}
use acton_reactive.Protocol.{Reader, validate_message_type, is_supported}
use acton_reactive.Protocol.Frames.{Header}

-- What the reader of a header promises of it.
record IsHeader (r r' : Reader) (h : Header) : Type 0 where
  version_ok : is_supported h.version ≡ true
  type_ok : validate_message_type h.version h.msg_type ≡ ok tt
  head : List ℕ
  parts : r.bytes ≡ head ++ r'.bytes
  few : length head ≤ 7
