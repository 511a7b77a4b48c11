-- ===== src/Prelude/Words.antt =====
-- Machine words: a word of w bits is a number below 2 ^ w, and every operation that may leave the
-- range is cut off by `% 2 ^ w`. An `int8_t` is its bit pattern, a number below 256.
use Prim.Native.Nat.{ℕ, ◌+◌, ◌-◌, ◌%◌}
use skibios.Prelude.Tests.{ltb, if◌then◌else◌}

abbrev pub u8 : ℕ → ℕ
u8 n = n % 256

abbrev pub u16 : ℕ → ℕ
u16 n = n % 65536

abbrev pub u32 : ℕ → ℕ
u32 n = n % 4294967296

-- a - b in `uint8_t`, `uint16_t` and `uint32_t`, for operands in range.
abbrev pub sub8 : ℕ → ℕ → ℕ
sub8 a b = (a + 256 - b) % 256

abbrev pub sub16 : ℕ → ℕ → ℕ
sub16 a b = (a + 65536 - b) % 65536

abbrev pub sub32 : ℕ → ℕ → ℕ
sub32 a b = (a + 4294967296 - b) % 4294967296

-- The pattern of an `int8_t`, sign-extended to 32 bits by the integer promotions.
abbrev pub sext8 : ℕ → ℕ
sext8 b = if ltb b 128 then b else b + 4294967040
