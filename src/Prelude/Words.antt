-- ===== src/Prelude/Words.antt =====
-- Unsigned machine words: `fetch_add` on an `AtomicU64` wraps, `saturating_add` stops at the top.
use Prim.Native.Nat.{ℕ, ◌+◌, ◌%◌}
use stalky.Prelude.Tests.{leb, if◌then◌else◌}

-- 2^64
abbrev pub u64_mod : ℕ
u64_mod = 18446744073709551616

abbrev pub u64_max : ℕ
u64_max = 18446744073709551615

abbrev pub wrapping_add : ℕ → ℕ → ℕ
wrapping_add a b = (a + b) % u64_mod

-- `u64::saturating_add` and `usize::saturating_add` (64-bit targets).
abbrev pub saturating_add : ℕ → ℕ → ℕ
saturating_add a b = if leb (a + b) u64_max then a + b else u64_max
