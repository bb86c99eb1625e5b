-- ===== src/Base/Usize.antt =====
-- Rust's `usize` and `u64` counters of a 64-bit target, with the wrap-around of a release build.
use Prim.Native.Nat.{ℕ, ◌+◌, ◌-◌, ◌%◌, ◌^◌, ◌<◌}
use mathlib.Core.Path.{◌≡◌}
use native.Mathlib.Omega.{arith}

abbrev pub word : ℕ
word = 2 ^ 64

-- `n += 1`
unfoldable pub increment : ℕ → ℕ
increment n = (n + 1) % word

-- `n -= 1`
unfoldable pub decrement : ℕ → ℕ
decrement n = (n + word - 1) % word

pub increment-eq_of_lt : (n : ℕ) → n + 1 < word → increment n ≡ n + 1
unfolding increment
increment-eq_of_lt n h = omega arith

pub decrement-eq_of_pos : (n : ℕ) → 0 < n → n < word → decrement n ≡ n - 1
unfolding decrement
decrement-eq_of_pos n h k = omega arith

pub decrement-increment : (n : ℕ) → n < word → decrement (increment n) ≡ n
unfolding decrement increment
decrement-increment n h = omega arith
