-- ===== src/Protocol/RoundTrip.antt =====
-- What is written is read back, and what is read is within the limits.
use acton_reactive.Shared.{
  ℕ, ◌+◌, ◌/◌, ◌%◌, ◌^◌, ◌≤◌, ◌<◌, ◌≡◌, refl, ◌∙◌, sym, inl, inr, Bool, some, List, [], ◌∷◌, ◌++◌,
  arith, ltb, ltb→lt, le→leb, lt→leb, leb, leb→le, leb→lt, ◌⊎◌, Bool-cases, length, ok, err,
}
use mathlib.Core.List.{append-nil}
use acton_reactive.Protocol.{
  protocol_error, frame_too_large, over_hard_limit, payload_too_large, Format, to_byte,
  format_from_byte, Ending, validate_message_type, max_frame_size, is_supported,
}
use acton_reactive.Protocol.Frames.{
  take_bytes, read_exact, read_header, read_format, read_frame, write_frame,
  write_header_with_version, from_be_bytes,
}

take_bytes-append : (xs rest : List ℕ) → take_bytes (length xs) (xs ++ rest) ≡ some (xs, rest)
take_bytes-append [] rest = refl
take_bytes-append (x ∷ xs) rest = rw (take_bytes, take_bytes-append xs rest) refl

be_bytes_inv :
    (n : ℕ)
    → n < 2 ^ 32
    → from_be_bytes (n / 2 ^ 24 % 256) (n / 2 ^ 16 % 256) (n / 2 ^ 8 % 256) (n % 256) ≡ n
be_bytes_inv n h = omega arith

-- The header of the current version for a payload of `n` bytes, before what follows it.
abbrev pub headed : ℕ → Format → ℕ → List ℕ → List ℕ
headed t f n tail =
    (n / 2 ^ 24 % 256)
    ∷ (n / 2 ^ 16 % 256)
    ∷ (n / 2 ^ 8 % 256)
    ∷ (n % 256)
    ∷ 2
    ∷ t
    ∷ to_byte f
    ∷ tail

-- The bytes of a frame of the current version, before what follows it.
abbrev pub frame_bytes : ℕ → Format → List ℕ → List ℕ → List ℕ
frame_bytes t f p rest = headed t f (length p) (p ++ rest)

pub write_frame-bytes :
    (t : ℕ) (f : Format) (p rest frame : List ℕ)
    → write_frame t f p ≡ ok frame
    → (frame ++ rest ≡ frame_bytes t f p rest) × (length p < 2 ^ 32)
unfolding write_frame write_header_with_version
write_frame-bytes t f p rest frame h = elim (Bool-cases (ltb (length p) (2 ^ 32))) [
  | inl e ↦
      let done : write_frame t f p ≡ ok (frame_bytes t f p []) = rw (e, append-nil p) refl in
      let same : frame ≡ frame_bytes t f p [] = cc (sym h ∙ done) in
      (rw (same, append-nil p) refl, ltb→lt _ _ e)
  | inr e ↦
      let refused : write_frame t f p ≡ err (protocol_error payload_too_large) = rw e refl in
      absurd (cc (sym refused ∙ h))
]

pub read_header-headed :
    (feature : Bool) (t n : ℕ) (f : Format) (tail : List ℕ) (ending : Ending)
    → n < 2 ^ 32
    → validate_message_type 2 t ≡ ok tt
    → format_from_byte feature (to_byte f) ≡ some f
    → read_header feature (record { bytes = headed t f n tail; ending = ending })
      ≡ ok (
        record { length = n; version = 2; msg_type = t; format = f },
        record { bytes = tail; ending = ending },
      )
unfolding read_header read_format is_supported
read_header-headed feature t n f tail ending small valid known =
    rw (valid, known, be_bytes_inv n small) refl

read_exact-append :
    (p rest : List ℕ) (ending : Ending)
    → read_exact (length p) (record { bytes = p ++ rest; ending = ending })
      ≡ ok (p, record { bytes = rest; ending = ending })
unfolding read_exact
read_exact-append p rest ending = rw (read_exact, take_bytes-append p rest) refl

-- A frame that was written is read back as it was, and the reader stands behind it, for every
-- message type of the protocol and every format that is compiled in, if the payload is within the
-- reader's limit and the hard limit.
pub read_frame-write_frame :
    (feature : Bool) (max_size t : ℕ) (f : Format) (p rest frame : List ℕ) (ending : Ending)
    → validate_message_type 2 t ≡ ok tt
    → format_from_byte feature (to_byte f) ≡ some f
    → length p ≤ max_size
    → length p ≤ max_frame_size
    → write_frame t f p ≡ ok frame
    → read_frame feature max_size (record { bytes = frame ++ rest; ending = ending })
      ≡ ok ((t, f, p), record { bytes = rest; ending = ending })
unfolding read_frame
read_frame-write_frame feature max_size t f p rest frame ending valid known fits hard h =
    let (same, small) = write_frame-bytes t f p rest frame h in
    rw
      (
        same,
        read_header-headed feature t (length p) f (p ++ rest) ending small valid known,
        le→leb (length p) max_size fits,
        le→leb (length p) max_frame_size hard,
        read_exact-append p rest ending,
      )
      refl

-- A frame of a payload beyond the reader's limit, or beyond the hard limit, is written all the
-- same as long as a u32 can tell its length, but no reader takes it: the one who reads it is told
-- which limit it breaks, the reader's own first.
pub read_frame-oversized :
    (feature : Bool) (max_size t : ℕ) (f : Format) (p rest frame : List ℕ) (ending : Ending)
    → validate_message_type 2 t ≡ ok tt
    → format_from_byte feature (to_byte f) ≡ some f
    → write_frame t f p ≡ ok frame
    → (max_size < length p) ⊎ (max_frame_size < length p)
    → let result =
        read_frame feature max_size (record { bytes = frame ++ rest; ending = ending }) in
      ((max_size < length p)
        × (result ≡ err (protocol_error (frame_too_large (length p) max_size))))
      ⊎ ((length p ≤ max_size) × (result ≡ err (protocol_error (over_hard_limit (length p)))))
unfolding read_frame
read_frame-oversized feature max_size t f p rest frame ending valid known h over =
    let (same, small) = write_frame-bytes t f p rest frame h in
    let header = read_header-headed feature t (length p) f (p ++ rest) ending small valid known in
    elim (Bool-cases (leb (length p) max_size)) [
      | inr e ↦ inl (leb→lt _ _ e, rw (same, header, e) refl)
      | inl fits ↦
          let hard : max_frame_size < length p = omega (arith, leb→le _ _ fits) in
          inr (leb→le _ _ fits, rw (same, header, fits, lt→leb max_frame_size (length p) hard) refl)
    ]

-- A payload that fits a u32 is always written, behind a header of seven bytes, and a longer one
-- never.
pub write_frame_total :
    (t : ℕ) (f : Format) (p : List ℕ)
    → ((length p < 2 ^ 32)
        × ((frame : List ℕ) × (write_frame t f p ≡ ok frame) × (length frame ≡ 7 + length p)))
      ⊎ ((2 ^ 32 ≤ length p) × (write_frame t f p ≡ err (protocol_error payload_too_large)))
unfolding write_frame write_header_with_version
write_frame_total t f p = elim (Bool-cases (ltb (length p) (2 ^ 32))) [
  | inl e ↦ inl (
    ltb→lt _ _ e,
    (frame_bytes t f p [], rw (e, append-nil p) refl, rw (append-nil p) (omega arith)),
  )
  | inr e ↦ inr (ground arith, rw e refl)
]
