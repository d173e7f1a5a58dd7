-- ===== src/Prelude/Numbers.antt =====
-- The C library's number conversions on byte lists.
use php_pecl_memcache_zynga.Prelude.Tests.{◌==◌, ltb, leb, if◌then◌else◌}
use php_pecl_memcache_zynga.Prelude.Int.{ℤ, pos, negsuc}
use php_pecl_memcache_zynga.Prelude.Bytes.{Bytes, is_space, is_digit}
use Prim.Native.Nat.{ℕ, zero, suc, ◌+◌, ◌-◌, ◌*◌, ◌/◌, ◌%◌, ◌^◌}
use mathlib.Core.List.{[], ◌∷◌}

-- The value of the leading digits, behind an accumulator.
unfoldable pub digits_value : ℕ → Bytes → ℕ
digits_value acc [] = acc
digits_value acc (c ∷ cs) =
    let rest = digits_value (acc * 10 + (c - 48)) cs in if is_digit c then rest else acc

unfoldable pub skip_spaces : Bytes → Bytes
skip_spaces [] = []
skip_spaces (c ∷ cs) = let rest = skip_spaces cs in if is_space c then rest else c ∷ cs

pub negate : ℕ → ℤ
negate zero = pos 0
negate (suc n) = negsuc n

unfoldable pub signed_value : Bytes → ℤ
unfolding digits_value negate
signed_value [] = pos 0
signed_value (c ∷ cs) =
    if c == b'-'
    then negate (digits_value 0 cs)
    else if c == b'+'
    then pos (digits_value 0 cs)
    else pos (digits_value 0 (c ∷ cs))

-- The number that a text begins with: blanks, a sign, the leading digits.
unfoldable pub decimal : Bytes → ℤ
unfolding skip_spaces signed_value
decimal s = signed_value (skip_spaces s)

-- `strtol(s, NULL, 10)` and `atol` of a 64-bit `long`, which stop at its bounds
unfoldable pub clamp_long : ℤ → ℤ
clamp_long (pos n) = if ltb n (2 ^ 63) then pos n else pos (2 ^ 63 - 1)
clamp_long (negsuc n) = if ltb n (2 ^ 63) then negsuc n else negsuc (2 ^ 63 - 1)

unfoldable pub strtol : Bytes → ℤ
unfolding decimal clamp_long
strtol s = clamp_long (decimal s)

-- A `long` stored in a 32-bit `int`.
unfoldable pub signed_int : ℕ → ℤ
signed_int m = if ltb m (2 ^ 31) then pos m else negsuc (2 ^ 32 - 1 - m)

unfoldable pub int_of_long : ℤ → ℤ
unfolding signed_int
int_of_long (pos n) = signed_int (n % 2 ^ 32)
int_of_long (negsuc n) = signed_int (2 ^ 32 - 1 - n % 2 ^ 32)

-- `atoi`: outside `int` what glibc gives, `(int) strtol(s, NULL, 10)`
unfoldable pub atoi : Bytes → ℤ
unfolding strtol int_of_long
atoi s = int_of_long (strtol s)

-- `strtoul(s, NULL, 10)`: it stops at 2 ^ 64 - 1, and negates modulo 2 ^ 64.
unfoldable pub unsigned_long : ℤ → ℕ
unsigned_long (pos n) = if ltb n (2 ^ 64) then n else 2 ^ 64 - 1
unsigned_long (negsuc n) = if ltb (n + 1) (2 ^ 64) then 2 ^ 64 - (n + 1) else 2 ^ 64 - 1

unfoldable pub strtoul : Bytes → ℕ
unfolding decimal unsigned_long
strtoul s = unsigned_long (decimal s)

-- The decimal digits of a number, by a fuel that is at least the number.
unfoldable pub print_from : ℕ → ℕ → Bytes → Bytes
print_from zero n acc = acc
print_from (suc fuel) n acc =
    let digit = 48 + n % 10 in
    let rest = print_from fuel (n / 10) (digit ∷ acc) in if leb n 9 then digit ∷ acc else rest

-- `sprintf("%d")` of a number that is not negative, `%u`, `%lu`
unfoldable pub print_ℕ : ℕ → Bytes
unfolding print_from
print_ℕ n = print_from (suc n) n []

unfoldable pub print_ℤ : ℤ → Bytes
unfolding print_ℕ
print_ℤ (pos n) = print_ℕ n
print_ℤ (negsuc n) = b'-' ∷ print_ℕ (suc n)
