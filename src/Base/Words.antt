-- ===== src/Base/Words.antt =====
-- Casts to the fixed widths of AArch64 Linux (the target of the checked-in binaries), and shifts.
use Prim.Native.Nat.{ℕ, ◌*◌, ◌/◌, ◌%◌, ◌^◌}

-- `unsigned char`, and `char`, which is unsigned on this target.
abbrev pub u8 : ℕ → ℕ
u8 n = n % 2 ^ 8

-- `unsigned short`, `uint16_t`
abbrev pub u16 : ℕ → ℕ
u16 n = n % 2 ^ 16

-- `unsigned int`, `RK_U32`, and the bit pattern of an `int`
abbrev pub u32 : ℕ → ℕ
u32 n = n % 2 ^ 32

-- `unsigned long`, `size_t`, `uint64_t`
abbrev pub u64 : ℕ → ℕ
u64 n = n % 2 ^ 64

infixl 75 ◌<<<◌ ◌>>>◌
abbrev pub ◌<<<◌ : ℕ → ℕ → ℕ
x <<< k = x * 2 ^ k

abbrev pub ◌>>>◌ : ℕ → ℕ → ℕ
x >>> k = x / 2 ^ k
