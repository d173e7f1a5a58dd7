-- ===== src/Config/Printed.antt =====
-- What the handlers make of a number that is written out in decimal.
use php_pecl_memcache_zynga.Prelude.{
  ℕ, ◌-◌, ◌%◌, ◌^◌, ◌<◌, ◌≡◌, refl, sym, ap, ◌∙◌, Bool, true, false, not, ◌&&◌, [], some, arith,
  ltb, leb, if◌then◌else◌, append-nil, inl, inr, Bool-cases, lt→ltb,
}
use php_pecl_memcache_zynga.Prelude.Int.{ℤ, pos, negsuc}
use php_pecl_memcache_zynga.Prelude.Bytes.{Bytes}
use php_pecl_memcache_zynga.Prelude.Numbers.{decimal, print_ℕ, skip_spaces}
use php_pecl_memcache_zynga.Header.Decimal.{decimal-print}
use php_pecl_memcache_zynga.Config.{
  Globals, default_timeout_ms, compression_level, retry_interval, Update, accepted, refused,
  unless_refused, not_positive, outside, on_text, on_update, on_update_default_timeout,
  on_update_compression_level, on_update_retry_interval,
}
use php_pecl_memcache_zynga.Prelude.Numbers.{strtol, clamp_long, int_of_long, signed_int}

decimal-print_all : (n : ℕ) → decimal (print_ℕ n) ≡ pos n
unfolding decimal skip_spaces
decimal-print_all n = ap decimal (sym (append-nil (print_ℕ n))) ∙ decimal-print n [] tt

strtol-print : (n : ℕ) → n < 2 ^ 63 → strtol (print_ℕ n) ≡ pos n
unfolding strtol clamp_long
strtol-print n h = ap clamp_long (decimal-print_all n) ∙ rw (lt→ltb n (2 ^ 63) h) refl

outside-pos :
    (low high n : ℕ) → outside (pos low) (pos high) (pos n) ≡ not (leb low n && leb n high)
outside-pos low high n = ground arith

outside-zero_pos : (high n : ℕ) → outside (pos 0) (pos high) (pos n) ≡ not (leb n high)
outside-zero_pos high n = ground arith

-- A handler's answer where its test is `not b`.
abbrev pub accept_if : Bool → Globals → Update
accept_if b g = if b then accepted g else refused

unless-not : (b : Bool) (g : Globals) → unless_refused (not b) g ≡ accept_if b g
unfolding unless_refused
unless-not true g = refl
unless-not false g = refl

positive-pos : (n : ℕ) → not_positive (pos n) ≡ not (leb 1 n)
positive-pos n = ground arith

outside-negsuc : (n : ℕ) → outside (pos 3) (pos 30) (negsuc n) ≡ true
outside-negsuc n = ground arith

large_test : (m : ℕ) → ltb m (2 ^ 31) ≡ false → (leb 3 m && leb m 30) ≡ false
large_test m h = ground arith

interval-signed :
    (g : Globals) (m : ℕ)
    → unless_refused
        (outside (pos 3) (pos 30) (signed_int m))
        (record g { retry_interval = signed_int m })
      ≡ accept_if (leb 3 m && leb m 30) (record g { retry_interval = pos m })
unfolding signed_int unless_refused
interval-signed g m = elim (Bool-cases (ltb m (2 ^ 31))) [
  | inl e ↦ rw e (
      ap (λ (b : Bool). unless_refused b (record g { retry_interval = pos m })) (outside-pos 3 30 m)
      ∙ unless-not (leb 3 m && leb m 30) (record g { retry_interval = pos m }))
  | inr e ↦
      rw (e, large_test m e)
        (ap (λ (b : Bool). unless_refused b (record g { retry_interval = negsuc (2 ^ 32 - 1 - m) }))
          (outside-negsuc (2 ^ 32 - 1 - m)))
]

module _ (zend_atol : Bytes → ℤ) (g : Globals) (n : ℕ) where
  -- A number below 2^63 that is written in decimal: as the compression level it is accepted and kept
  -- exactly when it is at most 9, as the default timeout exactly when it is not 0; as the retry
  -- interval what counts is its rest modulo 2^32, which is accepted and kept exactly when it is
  -- between 3 and 30.
  pub on_update-print :
      n < 2 ^ 63
      → (on_update zend_atol g compression_level (some (print_ℕ n))
          ≡ accept_if (leb n 9) (record g { compression_level = pos n }))
        × ((on_update zend_atol g default_timeout_ms (some (print_ℕ n))
              ≡ accept_if (leb 1 n) (record g { default_timeout_ms = pos n }))
            × (on_update zend_atol g retry_interval (some (print_ℕ n))
                ≡ accept_if
                    (leb 3 (n % 2 ^ 32) && leb (n % 2 ^ 32) 30)
                    (record g { retry_interval = pos (n % 2 ^ 32) })))
  unfolding on_update on_text on_update_default_timeout on_update_compression_level
      on_update_retry_interval int_of_long
  on_update-print h = (
    ap (λ (z : ℤ). unless_refused (outside (pos 0) (pos 9) z) (record g { compression_level = z }))
          read
        ∙ (ap (λ (b : Bool). unless_refused b (record g { compression_level = pos n }))
              (outside-zero_pos 9 n)
            ∙ unless-not (leb n 9) (record g { compression_level = pos n })),
    (
      ap (λ (z : ℤ). unless_refused (not_positive z) (record g { default_timeout_ms = z })) read
          ∙ (ap (λ (b : Bool). unless_refused b (record g { default_timeout_ms = pos n }))
                (positive-pos n)
              ∙ unless-not (leb 1 n) (record g { default_timeout_ms = pos n })),
      ap
            (λ (z : ℤ).
              unless_refused (outside (pos 3) (pos 30) (int_of_long z))
                (record g { retry_interval = int_of_long z }))
            read
          ∙ interval-signed g (n % 2 ^ 32),
    ),
  )
    where
      read : strtol (print_ℕ n) ≡ pos n
      read = strtol-print n h
