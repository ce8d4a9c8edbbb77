-- ===== src/Protocol/Version.antt =====
-- Version negotiation and capabilities.
use Prim.Native.Nat.{bit_and}
use acton_reactive.Shared.{
  refl, zero, suc, Bool, ◌==◌, ◌&&◌, ℕ_discrete, ◌/◌, ◌%◌, ◌*◌, ◌^◌, length, get_elem?, Bool-cases,
  ltb, ◌||◌, inl, inr, ℕ, ◌≤◌, ◌<◌, ◌≡◌, ◌↔◌, ◌⊎◌, true, some, none, arith, min,
}
use acton_reactive.Protocol.{
  ProtocolCapability, supports, as_array, is_supported, negotiate, format_byte, message_pack,
  streaming, push, discovery,
}

-- Two peers that both speak a version at all agree, whichever of them asks, on the newest version
-- that both speak and this build supports; one that speaks none is refused.
pub negotiate_newest :
    (client server : ℕ)
    → (negotiate client server ≡ negotiate server client)
      × ((((client < 1) ⊎ (server < 1)) × (negotiate client server ≡ none))
          ⊎ ((1 ≤ client)
              × (1 ≤ server)
              × ((v : ℕ) × (negotiate client server ≡ some v)
                  × (is_supported v ≡ true)
                  × (v ≤ client)
                  × (v ≤ server)
                  × ((u : ℕ) → is_supported u ≡ true → u ≤ client → u ≤ server → u ≤ v))))
unfolding negotiate is_supported
negotiate_newest client server = (
  ground arith,
  elim (Bool-cases (ltb client 1 || ltb server 1)) [
    | inl e ↦ inl (ground arith, ground arith)
    | inr e ↦ inr (
      ground arith,
      ground arith,
      (
        min (min client server) 2,
        ground arith,
        ground arith,
        omega arith,
        omega arith,
        λ u k a b. ground arith,
      ),
    )
  ],
)

-- The place of a capability in the order in which they are declared.
abbrev pub position : ProtocolCapability → ℕ
position format_byte = 0
position message_pack = 1
position streaming = 2
position push = 3
position discovery = 4

-- One binary digit of a number.
abbrev pub digit : ℕ → ℕ → ℕ
digit n place = n / 2 ^ place % 2

-- What each of the five bits leaves of a byte, checked byte by byte.
abbrev is_masked : ℕ → Bool
is_masked n =
    bit_and n 1 == digit n 0
    && bit_and n 2 == digit n 1 * 2
    && bit_and n 4 == digit n 2 * 4
    && bit_and n 8 == digit n 3 * 8
    && bit_and n 16 == digit n 4 * 16

are_masked : ℕ → Bool
are_masked zero = true
are_masked (suc n) = is_masked n && are_masked n

is_masked-lt : (top n : ℕ) → are_masked top ≡ true → n < top → is_masked n ≡ true
unfolding are_masked
is_masked-lt zero n h lt = absurd (omega arith)
is_masked-lt (suc top) n h lt = elim (ℕ_discrete n top) [
  | yes e ↦ rw e (ground arith)
  | no ne ↦ is_masked-lt top n (ground arith) (omega (arith, ne))
]

bytes_masked : are_masked 256 ≡ true
unfolding are_masked
bytes_masked = refl

-- For a byte of flags, a capability is supported exactly if the digit at its place is set, counting
-- from the lowest in the order of declaration; and the array has five entries, the one at its place
-- being the capability if that digit is set, and none if it is not.
pub supports-as_array :
    (flags : ℕ) (c : ProtocolCapability)
    → flags < 256
    → ((supports flags c ≡ true) ↔ (digit flags (position c) ≡ 1))
      × (length (as_array flags) ≡ 5)
      × (((digit flags (position c) ≡ 1)
            × (get_elem? (as_array flags) (position c) ≡ some (some c)))
          ⊎ ((digit flags (position c) ≡ 0)
              × (get_elem? (as_array flags) (position c) ≡ some none)))
unfolding supports as_array
supports-as_array flags c byte = by_capability c (is_masked-lt 256 flags bytes_masked byte)
  where
    by_capability :
        (c : ProtocolCapability)
        → is_masked flags ≡ true
        → ((supports flags c ≡ true) ↔ (digit flags (position c) ≡ 1))
          × (length (as_array flags) ≡ 5)
          × (((digit flags (position c) ≡ 1)
                × (get_elem? (as_array flags) (position c) ≡ some (some c)))
              ⊎ ((digit flags (position c) ≡ 0)
                  × (get_elem? (as_array flags) (position c) ≡ some none)))
    by_capability format_byte h = (ground arith, refl, ground arith)
    by_capability message_pack h = (ground arith, refl, ground arith)
    by_capability streaming h = (ground arith, refl, ground arith)
    by_capability push h = (ground arith, refl, ground arith)
    by_capability discovery h = (ground arith, refl, ground arith)
