-- ===== src/Examples/Wire.antt =====
-- Frames, versions and capabilities at work.
use acton_reactive.Shared.{
  get_elem?, ◌⊎◌, none, length, inl, ℕ, ◌≤◌, ◌≡◌, refl, true, List, [], ◌∷◌, ◌++◌, ok, err, some,
  none, arith, ◌<◌, length, take, ◌↔◌, ◌⊎◌, ◌+◌, ◌^◌, ℕ_discrete,
}
use acton_reactive.Protocol.{
  messagepack, to_byte, format_from_byte, validate_message_type, closed, supports, as_array,
  streaming, negotiate, is_supported, protocol_error, short_read, payload_too_large,
  frame_too_large, over_hard_limit,
}
use acton_reactive.Protocol.Frames.{read_frame, write_frame, write_header_with_version}
use acton_reactive.Protocol.RoundTrip.{
  read_frame-write_frame, read_frame-oversized, write_frame_total,
}
use acton_reactive.Protocol.Broken.{read_frame-take}
use acton_reactive.Protocol.Version.{negotiate_newest, supports-as_array, digit}

abbrev hello : List ℕ
hello = 0 ∷ 0 ∷ 0 ∷ 3 ∷ 2 ∷ 5 ∷ 2 ∷ 104 ∷ 105 ∷ 33 ∷ []

hello-write_frame : write_frame 5 messagepack (104 ∷ 105 ∷ 33 ∷ []) ≡ ok hello
unfolding write_frame write_header_with_version to_byte
hello-write_frame = refl

request_valid : validate_message_type 2 5 ≡ ok tt
unfolding validate_message_type ℕ_discrete
request_valid = refl

messagepack_known : format_from_byte true (to_byte messagepack) ≡ some messagepack
unfolding format_from_byte to_byte
messagepack_known = refl

read_frame-write_frame_example :
    read_frame true 100 (record { bytes = hello ++ (7 ∷ []); ending = closed })
    ≡ ok ((5, messagepack, 104 ∷ 105 ∷ 33 ∷ []), record { bytes = 7 ∷ []; ending = closed })
read_frame-write_frame_example =
    read_frame-write_frame true 100 5 messagepack (104 ∷ 105 ∷ 33 ∷ []) (7 ∷ []) hello closed
      request_valid messagepack_known (omega arith) (omega arith) hello-write_frame

read_frame-oversized_example :
    ((2 < 3)
      × (read_frame true 2 (record { bytes = hello ++ []; ending = closed })
          ≡ err (protocol_error (frame_too_large 3 2))))
    ⊎ ((3 ≤ 2)
        × (read_frame true 2 (record { bytes = hello ++ []; ending = closed })
            ≡ err (protocol_error (over_hard_limit 3))))
read_frame-oversized_example =
    read_frame-oversized true 2 5 messagepack (104 ∷ 105 ∷ 33 ∷ []) [] hello closed request_valid
      messagepack_known hello-write_frame (inl (omega arith))

write_frame_total_example :
    ((3 < 2 ^ 32)
      × ((frame : List ℕ) × (write_frame 5 messagepack (104 ∷ 105 ∷ 33 ∷ []) ≡ ok frame)
          × (length frame ≡ 7 + 3)))
    ⊎ ((2 ^ 32 ≤ 3)
        × (write_frame 5 messagepack (104 ∷ 105 ∷ 33 ∷ [])
            ≡ err (protocol_error payload_too_large)))
write_frame_total_example = write_frame_total 5 messagepack (104 ∷ 105 ∷ 33 ∷ [])

negotiate_newest_example :
    (negotiate 2 7 ≡ negotiate 7 2)
    × ((((2 < 1) ⊎ (7 < 1)) × (negotiate 2 7 ≡ none))
        ⊎ ((1 ≤ 2)
            × (1 ≤ 7)
            × ((v : ℕ) × (negotiate 2 7 ≡ some v)
                × (is_supported v ≡ true)
                × (v ≤ 2)
                × (v ≤ 7)
                × ((u : ℕ) → is_supported u ≡ true → u ≤ 2 → u ≤ 7 → u ≤ v))))
negotiate_newest_example = negotiate_newest 2 7

supports-as_array_example :
    ((supports 6 streaming ≡ true) ↔ (digit 6 2 ≡ 1))
    × (length (as_array 6) ≡ 5)
    × (((digit 6 2 ≡ 1) × (get_elem? (as_array 6) 2 ≡ some (some streaming)))
        ⊎ ((digit 6 2 ≡ 0) × (get_elem? (as_array 6) 2 ≡ some none)))
supports-as_array_example = supports-as_array 6 streaming (omega arith)

read_frame-take_example :
    read_frame true 100 (record { bytes = take 8 hello; ending = closed }) ≡ err (short_read closed)
read_frame-take_example =
    read_frame-take true 100 5 messagepack (104 ∷ 105 ∷ 33 ∷ []) hello closed 8 request_valid
      messagepack_known (omega arith) (omega arith) hello-write_frame (omega arith)
