-- ===== src/Protocol/Broken.antt =====
-- A frame that breaks off: the connection ends inside it.
use acton_reactive.Shared.{
  ℕ, zero, suc, ◌≤◌, ◌<◌, ◌^◌, ◌≡◌, refl, ◌∙◌, sym, Bool, none, some, List, [], ◌∷◌, ◌++◌, arith,
  le→leb, length, take, subst, ok, err,
}
use mathlib.Core.List.{append-nil}
use acton_reactive.Protocol.{
  Format, to_byte, format_from_byte, Ending, short_read, validate_message_type, max_frame_size,
  is_supported,
}
use acton_reactive.Protocol.Frames.{
  take_bytes, read_exact, read_header, read_format, read_frame, write_frame,
}
use acton_reactive.Protocol.RoundTrip.{headed, frame_bytes, write_frame-bytes, read_header-headed}

take_bytes_short : (k : ℕ) (xs : List ℕ) → k < length xs → take_bytes (length xs) (take k xs) ≡ none
take_bytes_short k [] h = absurd (omega (arith, h))
take_bytes_short zero (x ∷ xs) h = refl
take_bytes_short (suc k) (x ∷ xs) h = rw (take_bytes, take_bytes_short k xs (omega arith)) refl

read_frame-broken :
    (feature : Bool) (max_size t : ℕ) (f : Format) (p : List ℕ) (ending : Ending) (k : ℕ)
    → length p < 2 ^ 32
    → validate_message_type 2 t ≡ ok tt
    → format_from_byte feature (to_byte f) ≡ some f
    → length p ≤ max_size
    → length p ≤ max_frame_size
    → k < length (frame_bytes t f p [])
    → read_frame feature max_size
        (record { bytes = take k (frame_bytes t f p []); ending = ending })
      ≡ err (short_read ending)
unfolding read_frame read_header read_format read_exact is_supported
read_frame-broken feature max_size t f p ending zero small valid known fits hard h = refl
read_frame-broken feature max_size t f p ending (suc zero) small valid known fits hard h = refl
read_frame-broken feature max_size t f p ending (suc (suc zero)) small valid known fits hard h =
    refl
read_frame-broken feature max_size t f p ending (suc (suc (suc zero))) small valid known fits hard
      h =
    refl
read_frame-broken feature max_size t f p ending (suc (suc (suc (suc zero)))) small valid known fits
      hard h =
    refl
read_frame-broken feature max_size t f p ending (suc (suc (suc (suc (suc zero))))) small valid known
      fits hard h =
    refl
read_frame-broken feature max_size t f p ending (suc (suc (suc (suc (suc (suc zero)))))) small valid
      known fits hard h =
    rw valid refl
read_frame-broken feature max_size t f p ending (suc (suc (suc (suc (suc (suc (suc k))))))) small
      valid known fits hard h =
    rw
      (
        read_header-headed feature t (length p) f (take k (p ++ [])) ending small valid known,
        le→leb (length p) max_size fits,
        le→leb (length p) max_frame_size hard,
        append-nil p,
        read_exact,
        take_bytes_short k p (
            omega (
              arith,
              subst
                  (λ q.
                    suc (suc (suc (suc (suc (suc (suc k)))))) < length (headed t f (length p) q))
                  (append-nil p) h,
            )),
      )
      refl

-- A connection that ends inside a frame, wherever that is, gives no message: the reader reports
-- how the connection ended. This holds for every frame within the limits.
pub read_frame-take :
    (feature : Bool) (max_size t : ℕ) (f : Format) (p frame : List ℕ) (ending : Ending) (k : ℕ)
    → validate_message_type 2 t ≡ ok tt
    → format_from_byte feature (to_byte f) ≡ some f
    → length p ≤ max_size
    → length p ≤ max_frame_size
    → write_frame t f p ≡ ok frame
    → k < length frame
    → read_frame feature max_size (record { bytes = take k frame; ending = ending })
      ≡ err (short_read ending)
read_frame-take feature max_size t f p frame ending k valid known fits hard written inside =
    let (same, small) = write_frame-bytes t f p [] frame written in
    let whole : frame ≡ frame_bytes t f p [] = sym (append-nil frame) ∙ same in
    rw whole (
      read_frame-broken feature max_size t f p ending k small valid known fits hard
        (subst (λ x. k < length x) whole inside))
