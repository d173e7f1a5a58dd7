-- ===== src/Header/Decimal.antt =====
-- Decimal texts and `atoi`.
use php_pecl_memcache_zynga.Prelude.{
  ℕ, zero, suc, ◌+◌, ◌*◌, ◌/◌, ◌%◌, ◌<◌, ◌≤◌, ◌≡◌, refl, sym, ap, ◌∙◌, Bool, true, false, [], ◌∷◌,
  ◌++◌, arith, leb, ◌==◌, if◌then◌else◌, Bool-cases, inl, inr, leb→le,
}
use php_pecl_memcache_zynga.Prelude.Int.{pos}
use php_pecl_memcache_zynga.Prelude.Bytes.{Bytes, is_digit, is_space}
use php_pecl_memcache_zynga.Prelude.Numbers.{
  decimal, print_ℕ, print_from, digits_value, skip_spaces, signed_value,
}

-- The text ends the number before it.
abbrev pub EndsNumber : Bytes → Type 0
EndsNumber [] = Unit {0}
EndsNumber (c ∷ cs) = is_digit c ≡ false

digit_IsDigit : (d : ℕ) → d < 10 → is_digit (48 + d) ≡ true
digit_IsDigit d h = ground arith

digit_step :
    (a d : ℕ) (cs : Bytes) → d < 10 → digits_value a ((48 + d) ∷ cs) ≡ digits_value (a * 10 + d) cs
unfolding digits_value
digit_step a d cs h =
    rw (digit_IsDigit d h) (ap (λ (k : ℕ). digits_value (a * 10 + k) cs) (omega arith))

nothing_below : (n : ℕ) → n < 0 → ⊥
nothing_below n h = omega arith

-- The digits of `n` before `acc` are worth `n`.
digits-print_from :
    (fuel n : ℕ) (acc rest : Bytes)
    → n < fuel
    → digits_value 0 (print_from fuel n acc ++ rest) ≡ digits_value n (acc ++ rest)
unfolding print_from
digits-print_from zero n acc rest h = elim (nothing_below n h) [ ]
digits-print_from (suc fuel) n acc rest h = elim (Bool-cases (leb n 9)) [
  | inl e ↦ rw e (
      digit_step 0 (n % 10) (acc ++ rest) (omega arith)
      ∙ ap (λ (k : ℕ). digits_value k (acc ++ rest)) (small (leb→le n 9 e)))
  | inr e ↦ rw e (
      digits-print_from fuel (n / 10) ((48 + n % 10) ∷ acc) rest (less (not_small e))
      ∙ (digit_step (n / 10) (n % 10) (acc ++ rest) (omega arith)
          ∙ ap (λ (k : ℕ). digits_value k (acc ++ rest)) (omega arith)))
]
  where
    small : n ≤ 9 → 0 * 10 + n % 10 ≡ n
    small l = omega arith

    not_small : leb n 9 ≡ false → 9 < n
    not_small e = ground arith

    less : 9 < n → n / 10 < fuel
    less l = omega arith

-- The text begins with a digit.
record DigitFirst (xs : Bytes) : Type 0 where
  c : ℕ
  cs : Bytes
  shape : xs ≡ c ∷ cs
  digit : is_digit c ≡ true

print_from-DigitFirst : (fuel n : ℕ) (acc : Bytes) → n < fuel → DigitFirst (print_from fuel n acc)
unfolding print_from
print_from-DigitFirst zero n acc h = elim (nothing_below n h) [ ]
print_from-DigitFirst (suc fuel) n acc h = elim (Bool-cases (leb n 9)) [
  | inl e ↦ rw e (record {
    c = 48 + n % 10;
    cs = acc;
    shape = refl;
    digit = digit_IsDigit (n % 10) (omega arith);
  })
  | inr e ↦ rw e (print_from-DigitFirst fuel (n / 10) ((48 + n % 10) ∷ acc) (less (not_small e)))
]
  where
    not_small : leb n 9 ≡ false → 9 < n
    not_small e = ground arith

    less : 9 < n → n / 10 < fuel
    less l = omega arith

digits_value-ends : (n : ℕ) (rest : Bytes) → EndsNumber rest → digits_value n rest ≡ n
unfolding digits_value
digits_value-ends n [] h = refl
digits_value-ends n (c ∷ cs) h = rw h refl

digit_no_space : (c : ℕ) → is_digit c ≡ true → is_space c ≡ false
digit_no_space c h = ground arith

digit_no_minus : (c : ℕ) → is_digit c ≡ true → (c == 45) ≡ false
digit_no_minus c h = ground arith

digit_no_plus : (c : ℕ) → is_digit c ≡ true → (c == 43) ≡ false
digit_no_plus c h = ground arith

decimal-digits :
    (c : ℕ) (cs : Bytes)
    → is_digit c ≡ true
    → decimal (32 ∷ (c ∷ cs)) ≡ pos (digits_value 0 (c ∷ cs))
unfolding decimal skip_spaces signed_value
decimal-digits c cs h = rw (digit_no_space c h, digit_no_minus c h, digit_no_plus c h) refl

-- `atoi` behind a blank reads what `%d` printed.
pub decimal-print :
    (n : ℕ) (rest : Bytes) → EndsNumber rest → decimal (32 ∷ (print_ℕ n ++ rest)) ≡ pos n
unfolding print_ℕ
decimal-print n rest h =
    ap (λ (t : Bytes). decimal (32 ∷ t)) shaped
    ∙ (decimal-digits d.c (d.cs ++ rest) d.digit
        ∙ ap pos (
            ap (digits_value 0) (sym shaped)
            ∙ (digits-print_from (suc n) n [] rest (omega arith) ∙ digits_value-ends n rest h)))
  where
    d : DigitFirst (print_ℕ n)
    d = print_from-DigitFirst (suc n) n [] (omega arith)

    shaped : print_ℕ n ++ rest ≡ d.c ∷ (d.cs ++ rest)
    shaped = ap (λ (t : Bytes). t ++ rest) d.shape

-- No blank among the bytes.
abbrev pub NoBlank : Bytes → Type 0
NoBlank [] = Unit {0}
NoBlank (c ∷ cs) = ((c == 32) ≡ false) × NoBlank cs

print_from-NoBlank : (fuel n : ℕ) (acc : Bytes) → NoBlank acc → NoBlank (print_from fuel n acc)
unfolding print_from
print_from-NoBlank zero n acc h = h
print_from-NoBlank (suc fuel) n acc h =
    by_case (leb n 9) (print_from-NoBlank fuel (n / 10) ((48 + n % 10) ∷ acc) (digit, h))
  where
    digit : ((48 + n % 10) == 32) ≡ false
    digit = ground arith

    by_case :
        (b : Bool)
        → NoBlank (print_from fuel (n / 10) ((48 + n % 10) ∷ acc))
        → NoBlank
            (if b then (48 + n % 10) ∷ acc else print_from fuel (n / 10) ((48 + n % 10) ∷ acc))
    by_case true k = (digit, h)
    by_case false k = k

pub print-NoBlank : (n : ℕ) → NoBlank (print_ℕ n)
unfolding print_ℕ
print-NoBlank n = print_from-NoBlank (suc n) n [] tt
