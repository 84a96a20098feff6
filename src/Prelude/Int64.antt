-- ===== src/Prelude/Int64.antt =====
-- Go's int64 as its bit pattern, a native number below 2 ^ 64: wrap-around, sign and division.
use Prim.Native.Nat.{ℕ, ◌+◌, ◌-◌, ◌*◌, ◌/◌, ◌%◌, ◌<◌}
use mathlib.Core.Path.{◌≡◌}
use mathlib.Core.Bool.{Bool, ◌&&◌}
use native.Mathlib.Omega.{arith}
use agent_os_backend.Prelude.Tests.{ltb, leb, if◌then◌else◌}

abbrev pub Int64 : Type 0
Int64 = ℕ

abbrev pub modulus : ℕ
modulus = 18446744073709551616

-- the patterns from here on are those of negative numbers
abbrev pub sign_bit : ℕ
sign_bit = 9223372036854775808

abbrev pub IsInt64 : Int64 → Type 0
IsInt64 a = a < modulus

infixl 60 ◌+ᵢ◌ ◌-ᵢ◌
infixl 70 ◌*ᵢ◌
abbrev pub ◌+ᵢ◌ : Int64 → Int64 → Int64
a +ᵢ b = (a + b) % modulus

abbrev pub ◌-ᵢ◌ : Int64 → Int64 → Int64
a -ᵢ b = (a + (modulus - b % modulus)) % modulus

abbrev pub ◌*ᵢ◌ : Int64 → Int64 → Int64
a *ᵢ b = (a * b) % modulus

abbrev pub negate : Int64 → Int64
negate a = (modulus - a % modulus) % modulus

abbrev pub is_negative : Int64 → Bool
is_negative a = leb sign_bit a

abbrev pub is_positive : Int64 → Bool
is_positive a = ltb 0 a && ltb a sign_bit

-- a < b: the patterns with their sign bit flipped are in the numbers' order
abbrev pub less_than : Int64 → Int64 → Bool
less_than a b = ltb ((a + sign_bit) % modulus) ((b + sign_bit) % modulus)

-- a / 10, which truncates toward zero
abbrev pub tenth : Int64 → Int64
tenth a = if is_negative a then negate (negate a / 10) else a / 10

-- What is left beside a tenth makes the amount up again, for every bit pattern.
pub tenth_split : (a : Int64) → IsInt64 a → tenth a +ᵢ (a -ᵢ tenth a) ≡ a
tenth_split a h = ground arith

-- Two sums are added part by part.
pub sums_add : (a b c x y z : Int64) → a +ᵢ b ≡ c → x +ᵢ y ≡ z → (a +ᵢ x) +ᵢ (b +ᵢ y) ≡ c +ᵢ z
sums_add a b c x y z h k = ground arith
