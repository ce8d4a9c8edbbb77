-- ===== src/World.antt =====
-- What the program takes from outside its repository and from the machine: the names of actors
-- (crate acton_ern), actor handles and child spawners
-- (acton-reactive/src/actor/supervision/spawner.rs) as opaque values, the watch channel of tokio,
-- and the f64 arithmetic. Each is a parameter; the documented behaviour that a theorem needs is a
-- record of laws beside it. `Instant` and `Duration` are numbers of nanoseconds.
use acton_reactive.Shared.{ℕ, ◌≤◌, ◌^◌, ◌≡◌, Bool}
use acton_reactive.Policy.{RestartPolicy}

-- The f64 operations of acton-reactive/src/actor/restart_limiter.rs. `powi` is only called with
-- an exponent that is not negative. `to_u64` is the saturating cast `as u64`.
pub record F64 : Type 1 where
  pub Float : Type 0
  pub of_u64 : ℕ → Float
  pub zero : Float
  pub mul : Float → Float → Float
  pub powi : Float → ℕ → Float
  pub fmin : Float → Float → Float
  pub fmax : Float → Float → Float
  pub to_u64 : Float → ℕ

-- An integer up to 2 ^ 53 is a float exactly, the cast keeps the order `fle`, and `fmin` and
-- `fmax` are the bounds of it where no operand is a NaN that came from an integer.
pub record F64Laws (F : F64) : Type 1 where
  pub fle : F.Float → F.Float → Type 0
  pub cast_exact : (n : ℕ) → n ≤ 2 ^ 53 → F.to_u64 (F.of_u64 n) ≡ n
  pub cast_mono : (x y : F.Float) → fle x y → F.to_u64 x ≤ F.to_u64 y
  pub zero_fle : (n : ℕ) → fle F.zero (F.of_u64 n)
  pub fmin_fle : (x : F.Float) (n : ℕ) → fle (F.fmin x (F.of_u64 n)) (F.of_u64 n)
  pub fmax_fle : (x y z : F.Float) → fle x z → fle y z → fle (F.fmax x y) z

pub record World : Type 1 where
  pub Ern : Type 0
  pub ern_discrete : Discrete Ern
  pub Handle : Type 0
  pub handle_id : Handle → Ern
  pub Spawner : Type 0
  pub child_id : Spawner → Ern
  pub spawner_policy : Spawner → RestartPolicy
  pub f64 : F64
  pub Sender : Type 0 → Type 0
  pub channel : (A : Type 0) → A → Sender A
  pub borrow : (A : Type 0) → Sender A → A
  pub send_if_modified : (A : Type 0) → Sender A → (A → Bool × A) → Bool × Sender A

-- `tokio::sync::watch::Sender::send_if_modified`: the closure runs once on the current value, its
-- result is what the call returns, and the channel holds the value that it leaves.
pub record WatchLaws (W : World) : Type 1 where
  pub borrow-channel : (A : Type 0) (a : A) → W.borrow A (W.channel A a) ≡ a
  pub borrow-send :
      (A : Type 0) (s : W.Sender A) (f : A → Bool × A)
      → W.borrow A (W.send_if_modified A s f).1 ≡ (f (W.borrow A s)).1
  pub send-result :
      (A : Type 0) (s : W.Sender A) (f : A → Bool × A)
      → (W.send_if_modified A s f).0 ≡ (f (W.borrow A s)).0
