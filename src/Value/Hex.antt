-- ===== src/Value/Hex.antt =====
-- What `%x` reads of a number that `%.4x` or `%.8x` printed.
use php_pecl_memcache_zynga.Prelude.{
  ℕ, zero, suc, ◌+◌, ◌-◌, ◌*◌, ◌/◌, ◌%◌, ◌^◌, ◌≤◌, ◌<◌, ◌≡◌, refl, sym, ap, ◌∙◌, Bool, true, false,
  ◌&&◌, ◌||◌, [], ◌∷◌, ◌++◌, Option, none, some, arith, leb, ◌==◌, if◌then◌else◌, length,
}
use mathlib.Core.Path.{subst}
use native.Mathlib.Nat.{pow-suc}
use php_pecl_memcache_zynga.Prelude.Bytes.{Bytes, is_digit, is_space}
use php_pecl_memcache_zynga.Prelude.Numbers.{skip_spaces}
use php_pecl_memcache_zynga.Store.Request.{hex_digit, hex_digits, print_hex}
use php_pecl_memcache_zynga.Header.Decimal.{NoBlank}
use php_pecl_memcache_zynga.Value.Scan.{
  if_digit, digit_of, scan_digits, scan_number, is_x, strip_base, take_sign, to_uint, signed_scan,
  scan_hex,
}

abbrev is_hex : ℕ → Bool
is_hex c = (leb 48 c && leb c 57) || (leb 97 c && leb c 102)

hex_digit-is_hex : (d : ℕ) → d < 16 → is_hex (hex_digit d) ≡ true
unfolding hex_digit
hex_digit-is_hex d h = ground arith

digit_of-hex_digit : (d : ℕ) → d < 16 → digit_of (hex_digit d) ≡ some d
unfolding digit_of hex_digit
digit_of-hex_digit d h = ground arith

hex_no_space : (c : ℕ) → is_hex c ≡ true → is_space c ≡ false
hex_no_space c h = ground arith

hex_no_minus : (c : ℕ) → is_hex c ≡ true → (c == 45) ≡ false
hex_no_minus c h = ground arith

hex_no_plus : (c : ℕ) → is_hex c ≡ true → (c == 43) ≡ false
hex_no_plus c h = ground arith

hex_no_x : (c : ℕ) → is_hex c ≡ true → is_x c ≡ false
unfolding is_x
hex_no_x c h = ground arith

-- Hexadecimal digits.
abbrev AllHex : Bytes → Type 0
AllHex [] = Unit {0}
AllHex (c ∷ cs) = (is_hex c ≡ true) × AllHex cs

hex_digits-AllHex : (count n : ℕ) (acc : Bytes) → AllHex acc → AllHex (hex_digits count n acc)
unfolding hex_digits
hex_digits-AllHex zero n acc h = h
hex_digits-AllHex (suc count) n acc h =
    hex_digits-AllHex count (n / 16) (hex_digit (n % 16) ∷ acc)
      (hex_digit-is_hex (n % 16) (omega arith), h)

length-hex_digits :
    (count n : ℕ) (acc : Bytes) → length (hex_digits count n acc) ≡ count + length acc
unfolding hex_digits
length-hex_digits zero n acc = omega arith
length-hex_digits (suc count) n acc =
    length-hex_digits count (n / 16) (hex_digit (n % 16) ∷ acc) ∙ omega arith

-- The text ends the number before it.
abbrev pub EndsHex : Bytes → Type 0
EndsHex [] = Unit {0}
EndsHex (c ∷ cs) = digit_of c ≡ none

scan_digits-ends : (n : ℕ) (rest : Bytes) → EndsHex rest → scan_digits n rest ≡ (n, rest)
unfolding scan_digits
scan_digits-ends n [] h = refl
scan_digits-ends n (c ∷ cs) h =
    ap (λ (o : Option ℕ). if_digit o (n, c ∷ cs) (λ d. scan_digits (n * 16 + d) cs)) h

less : (n p : ℕ) → n < p * 16 → n / 16 < p
less n p h = omega arith

scan_digits-hex_digits :
    (count n : ℕ) (acc rest : Bytes)
    → n < 16 ^ count
    → scan_digits 0 (hex_digits count n acc ++ rest) ≡ scan_digits n (acc ++ rest)
unfolding hex_digits scan_digits
scan_digits-hex_digits zero n acc rest h =
    ap (λ (k : ℕ). scan_digits k (acc ++ rest)) (omega (arith, h))
scan_digits-hex_digits (suc count) n acc rest h =
    scan_digits-hex_digits count (n / 16) (hex_digit (n % 16) ∷ acc) rest
      (less n (16 ^ count) (subst (λ (p : ℕ). n < p) (pow-suc 16 count) h))
    ∙ (ap
          (λ (o : Option ℕ).
            if_digit o (n / 16, hex_digit (n % 16) ∷ (acc ++ rest))
              (λ d. scan_digits (n / 16 * 16 + d) (acc ++ rest)))
          (digit_of-hex_digit (n % 16) (omega arith))
        ∙ ap (λ (k : ℕ). scan_digits k (acc ++ rest)) (omega arith))

abbrev hex_value : ℕ → ℕ
hex_value c = if is_digit c then c - 48 else c - 87

digit_of-is_hex : (c : ℕ) → is_hex c ≡ true → digit_of c ≡ some (hex_value c)
unfolding digit_of
digit_of-is_hex c h = ground arith

scan_number-digits :
    (c : ℕ) (cs : Bytes) → is_hex c ≡ true → scan_number (c ∷ cs) ≡ some (scan_digits 0 (c ∷ cs))
unfolding scan_number scan_digits
scan_number-digits c cs h =
    let e = digit_of-is_hex c h in
    ap (λ (o : Option ℕ). if_digit o none (λ d. some (scan_digits d cs))) e
    ∙ (ap (λ (k : ℕ). some (scan_digits k cs)) (omega arith)
        ∙ sym (
            ap (λ (o : Option ℕ). some (if_digit o (0, c ∷ cs) (λ d. scan_digits (0 * 16 + d) cs)))
              e))

if_and_false : {A : Type 0} → (b : Bool) → (x y : A) → (if b && false then x else y) ≡ y
if_and_false true x y = refl
if_and_false false x y = refl

-- A text of two digits or more is scanned as it stands.
scan_hex-digits :
    (t rest : Bytes)
    → AllHex t
    → 2 ≤ length t
    → scan_hex (t ++ rest) ≡ signed_scan false (some (scan_digits 0 (t ++ rest)))
unfolding scan_hex skip_spaces take_sign strip_base
scan_hex-digits [] rest h l = absurd (omega (arith, l))
scan_hex-digits (a ∷ []) rest h l = absurd (omega (arith, l))
scan_hex-digits (a ∷ b ∷ cs) rest h l =
    rw (hex_no_space a h.0, hex_no_minus a h.0, hex_no_plus a h.0, hex_no_x b h.1.0)
      (ap (λ (t : Bytes). signed_scan false (scan_number t))
          (if_and_false (a == 48) (cs ++ rest) (a ∷ b ∷ (cs ++ rest)))
        ∙ ap (signed_scan false) (scan_number-digits a (b ∷ (cs ++ rest)) h.0))

to_uint-small : (n : ℕ) → n < 2 ^ 32 → to_uint false n ≡ n
unfolding to_uint
to_uint-small n h = ground arith

-- `%x` reads what `%.<count>x` printed.
pub scan_hex-print_hex :
    (count n : ℕ) (rest : Bytes)
    → 2 ≤ count
    → n < 16 ^ count
    → n < 2 ^ 32
    → EndsHex rest
    → scan_hex (print_hex count n ++ rest) ≡ some (n, rest)
unfolding print_hex signed_scan
scan_hex-print_hex count n rest big fits word h =
    scan_hex-digits (hex_digits count n []) rest (hex_digits-AllHex count n [] tt)
      (subst (λ (k : ℕ). 2 ≤ k) (sym (length-hex_digits count n [])) (omega (arith, big)))
    ∙ (ap (λ (p : ℕ × Bytes). signed_scan false (some p))
          (scan_digits-hex_digits count n [] rest fits ∙ scan_digits-ends n rest h)
        ∙ ap (λ (k : ℕ). some (k, rest)) (to_uint-small n word))

hex_no_blank : (c : ℕ) → is_hex c ≡ true → (c == 32) ≡ false
hex_no_blank c h = ground arith

AllHex-NoBlank : (cs : Bytes) → AllHex cs → NoBlank cs
AllHex-NoBlank [] h = tt
AllHex-NoBlank (c ∷ cs) h = (hex_no_blank c h.0, AllHex-NoBlank cs h.1)

-- What `%x` prints has no blank.
pub print_hex-NoBlank : (count n : ℕ) → NoBlank (print_hex count n)
unfolding print_hex
print_hex-NoBlank count n = AllHex-NoBlank (hex_digits count n []) (hex_digits-AllHex count n [] tt)
