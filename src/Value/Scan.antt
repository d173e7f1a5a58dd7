-- ===== src/Value/Scan.antt =====
-- Numbers in base 16 as `strtol` and `sscanf` read them.
use php_pecl_memcache_zynga.Prelude.{
  ℕ, zero, suc, ◌+◌, ◌-◌, ◌*◌, ◌%◌, ◌^◌, Bool, true, false, ◌&&◌, ◌||◌, [], ◌∷◌, Option, none, some,
  ltb, leb, ◌==◌, if◌then◌else◌,
}
use php_pecl_memcache_zynga.Prelude.Int.{ℤ, pos, negsuc}
use php_pecl_memcache_zynga.Prelude.Bytes.{Bytes, is_digit}
use php_pecl_memcache_zynga.Prelude.Numbers.{skip_spaces}

-- The value of a hexadecimal digit.
unfoldable pub digit_of : ℕ → Option ℕ
digit_of c =
    if is_digit c
    then some (c - 48)
    else if leb 97 c && leb c 102
    then some (c - 87)
    else if leb 65 c && leb c 70
    then some (c - 55)
    else none

abbrev pub if_digit : {A : Type 0} → Option ℕ → A → (ℕ → A) → A
if_digit none stop next = stop
if_digit (some d) stop next = next d

-- The leading digits behind an accumulator, and the text behind them.
unfoldable pub scan_digits : ℕ → Bytes → ℕ × Bytes
unfolding digit_of
scan_digits acc [] = (acc, [])
scan_digits acc (c ∷ cs) = if_digit (digit_of c) (acc, c ∷ cs) (λ d. scan_digits (acc * 16 + d) cs)

-- A text that begins with a digit.
unfoldable pub scan_number : Bytes → Option (ℕ × Bytes)
unfolding scan_digits digit_of
scan_number [] = none
scan_number (c ∷ cs) = if_digit (digit_of c) none (λ d. some (scan_digits d cs))

unfoldable pub is_x : ℕ → Bool
is_x c = c == b'x' || c == b'X'

-- Behind "0x".
unfoldable pub strip_base : Bytes → Bytes
unfolding is_x
strip_base [] = []
strip_base (a ∷ []) = a ∷ []
strip_base (a ∷ b ∷ cs) = if a == b'0' && is_x b then cs else a ∷ b ∷ cs

-- The sign, and the text behind it.
unfoldable pub take_sign : Bytes → Bool × Bytes
take_sign [] = (false, [])
take_sign (c ∷ cs) =
    if c == b'-' then (true, cs) else if c == b'+' then (false, cs) else (false, c ∷ cs)

-- An `unsigned int` of a number read as `unsigned long`, which stops at its bound.
unfoldable pub to_uint : Bool → ℕ → ℕ
to_uint negative n =
    if leb (2 ^ 64) n then 2 ^ 32 - 1 else if negative then (2 ^ 64 - n) % 2 ^ 32 else n % 2 ^ 32

unfoldable pub signed_scan : Bool → Option (ℕ × Bytes) → Option (ℕ × Bytes)
unfolding to_uint
signed_scan negative none = none
signed_scan negative (some (n, rest)) = some (to_uint negative n, rest)

-- `%x`
unfoldable pub scan_hex : Bytes → Option (ℕ × Bytes)
unfolding signed_scan scan_number strip_base take_sign skip_spaces
scan_hex s = let t = take_sign (skip_spaces s) in signed_scan t.0 (scan_number (strip_base t.1))

-- `:%x` behind a number
unfoldable pub scan_next : Bytes → Option (ℕ × Bytes)
unfolding scan_hex
scan_next [] = none
scan_next (c ∷ cs) = if c == b':' then scan_hex cs else none

unfoldable pub signed_long : Bool → ℕ → ℤ
signed_long true zero = pos 0
signed_long true (suc n) = if ltb n (2 ^ 63) then negsuc n else negsuc (2 ^ 63 - 1)
signed_long false n = if ltb n (2 ^ 63) then pos n else pos (2 ^ 63 - 1)

unfoldable pub number_or_zero : Bool → Option (ℕ × Bytes) → ℤ
unfolding signed_long
number_or_zero negative none = pos 0
number_or_zero negative (some (n, rest)) = signed_long negative n

-- `strtol(s, NULL, 16)`
unfoldable pub strtol_16 : Bytes → ℤ
unfolding number_or_zero scan_number strip_base take_sign skip_spaces
strtol_16 s = let t = take_sign (skip_spaces s) in number_or_zero t.0 (scan_number (strip_base t.1))
