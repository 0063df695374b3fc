-- ===== src/Prelude/Words.antt =====
-- Go's unsigned words: conversions and shifts reduce by the width.
use Prim.Native.Nat.{ℕ, ◌-◌, ◌*◌, ◌/◌, ◌%◌, ◌^◌}
use f.Prelude.Int.{ℤ, pos, negsuc, two64}

abbrev pub two32 : ℕ
two32 = 4294967296

abbrev pub u32 : ℕ → ℕ
u32 n = n % two32

abbrev pub u64 : ℕ → ℕ
u64 n = n % two64

-- `uint32(x)` and `uint64(x)` of a signed x.
abbrev pub to_u32 : ℤ → ℕ
to_u32 (pos n) = n % two32
to_u32 (negsuc n) = two32 - 1 - n % two32

abbrev pub to_u64 : ℤ → ℕ
to_u64 (pos n) = n % two64
to_u64 (negsuc n) = two64 - 1 - n % two64

-- `x << k` and `x >> k`.
abbrev pub shl32 : ℕ → ℕ → ℕ
shl32 x k = (x * 2 ^ k) % two32

abbrev pub shl64 : ℕ → ℕ → ℕ
shl64 x k = (x * 2 ^ k) % two64

abbrev pub shr : ℕ → ℕ → ℕ
shr x k = x / 2 ^ k
