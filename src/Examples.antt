-- ===== src/Examples.antt =====
-- A small concrete world, and each theorem at an input that meets its hypotheses.
mod Broadcasting
mod Buckets
mod Limits
mod Plans
mod Subscribers
mod Supervision
mod Watching
mod Wire
use Prim.Native.Nat.{min, max}
use acton_reactive.Shared.{ℕ, zero, ◌^◌, ◌*◌, ◌≤◌, ◌≡◌, refl, Bool, ℕ_discrete, arith}
use acton_reactive.World.{F64, F64Laws, World, WatchLaws}
use acton_reactive.Policy.{permanent}

-- Exact numbers in place of floats.
abbrev pub exact : F64
exact = record {
  Float = ℕ;
  of_u64 = λ n. n;
  zero = 0;
  mul = ◌*◌;
  powi = ◌^◌;
  fmin = min;
  fmax = max;
  to_u64 = λ n. n;
}

pub exact_laws : F64Laws exact
exact_laws = record {
  fle = ◌≤◌;
  cast_exact = λ n h. refl;
  cast_mono = λ x y h. h;
  zero_fle = λ n. omega arith;
  fmin_fle = λ x n. omega arith;
  fmax_fle = λ x y z h k. omega arith;
}

-- Numbers in place of names, handles and spawners; a channel is its value.
abbrev pub small : World
small = record {
  Ern = ℕ;
  ern_discrete = ℕ_discrete;
  Handle = ℕ;
  handle_id = λ h. h;
  Spawner = ℕ;
  child_id = λ s. s;
  spawner_policy = λ s. permanent;
  f64 = exact;
  Sender = λ A. A;
  channel = λ A a. a;
  borrow = λ A a. a;
  send_if_modified = λ A a f. f a;
}

pub small_laws : WatchLaws small
small_laws = record {
  borrow-channel = λ A a. refl;
  borrow-send = λ A s f. refl;
  send-result = λ A s f. refl;
}
