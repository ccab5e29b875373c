-- ===== src/Prelude/Int.antt =====
-- Differences of native numbers that may be negative; `negsuc n` is -(n + 1).
use Prim.Native.Nat.{ℕ, ◌+◌, ◌-◌, ◌<◌}
use mathlib.Core.Path.{◌≡◌}
use mathlib.Core.Logic.{◌≢◌}
use native.Mathlib.Omega.{arith}
use omnimemory.Prelude.Conditions.{leb, if◌then◌else◌}

pub data ℤ : Type 0 where
  pos : ℕ → ℤ
  negsuc : ℕ → ℤ

-- a - b
abbrev pub sub_ℕ : ℕ → ℕ → ℤ
sub_ℕ a b = if leb b a then pos (a - b) else negsuc (b - a - 1)

pub sub_ℕ-ne : (a b : ℕ) → 0 < b → sub_ℕ a b ≢ pos a
sub_ℕ-ne a b h e = ground arith

pub sub_ℕ-shift : (a b k : ℕ) → sub_ℕ (a + k) (b + k) ≡ sub_ℕ a b
sub_ℕ-shift a b k = ground arith

-- n + 1 and n - 1.
abbrev pub up : ℤ → ℤ
up (pos n) = pos (n + 1)
up (negsuc n) = sub_ℕ 0 n

abbrev pub down : ℤ → ℤ
down (pos n) = sub_ℕ n 1
down (negsuc n) = negsuc (n + 1)

pub up-sub_ℕ : (a b : ℕ) → up (sub_ℕ a b) ≡ sub_ℕ (a + 1) b
up-sub_ℕ a b = ground arith

pub down-sub_ℕ : (a b : ℕ) → down (sub_ℕ a b) ≡ sub_ℕ a (b + 1)
down-sub_ℕ a b = ground arith

pub sub_ℕ-up : (a b : ℕ) → sub_ℕ (a + 1) (b + 1) ≡ sub_ℕ a b
sub_ℕ-up a b = ground arith
