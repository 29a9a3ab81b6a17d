-- ===== src/Primitives/Words.antt =====
-- Machine words of crates/miot-primitives/src/lib.rs and of the code that uses them: `u8`, `u16` and
-- `u32` are numbers, with the wrap-around or the saturation of each operation written out.
use akuma_miot.Prelude.{ℕ, ◌+◌, ◌-◌, ◌%◌, ◌^◌, min}

abbrev pub u8_max : ℕ
u8_max = 255

abbrev pub u32_max : ℕ
u32_max = 4294967295

-- `u32::saturating_add`, `u8::saturating_add`
abbrev pub saturating_add_u32 : ℕ → ℕ → ℕ
saturating_add_u32 a b = min (a + b) u32_max

abbrev pub saturating_add_u8 : ℕ → ℕ → ℕ
saturating_add_u8 a b = min (a + b) u8_max

-- `saturating_sub` stops at 0, as `-` on ℕ does.
abbrev pub saturating_sub : ℕ → ℕ → ℕ
saturating_sub a b = a - b

-- `as u32`, `as u16`, and `+` on a `u32` in a release build.
abbrev pub wrap_u32 : ℕ → ℕ
wrap_u32 a = a % 2 ^ 32

abbrev pub wrap_u16 : ℕ → ℕ
wrap_u16 a = a % 2 ^ 16
