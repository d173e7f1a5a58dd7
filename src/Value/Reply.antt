-- ===== src/Value/Reply.antt =====
-- The reply to a read of a stored value: its line, and the `int`s of its fields.
use php_pecl_memcache_zynga.Prelude.{
  ℕ, ◌≡◌, refl, Bool, true, false, ◌∷◌, [], ◌++◌, none, some, ◌==◌, if◌then◌else◌, length,
}
use php_pecl_memcache_zynga.Prelude.Bytes.{Bytes, bytes}
use php_pecl_memcache_zynga.Store.Request.{print_hex, checksum_header}
use php_pecl_memcache_zynga.Store.Pack.{StoreEnv, Packed, pack, complete_checksum}
use php_pecl_memcache_zynga.Header.Decimal.{NoBlank}
use php_pecl_memcache_zynga.Header.Line.{cas_part, header_line}
use php_pecl_memcache_zynga.Prelude.{Option, none, some, ◌<◌, ◌^◌, Bool-cases, inl, inr, arith}
use mathlib.Core.Path.{subst}
use mathlib.Core.Option.{some-injective}
use php_pecl_memcache_zynga.Header.{Fields, parsed}
use php_pecl_memcache_zynga.Header.Line.{read_as}
use php_pecl_memcache_zynga.Store.Request.{set_flag, clear_flag}
use php_pecl_memcache_zynga.Store.Pack.{
  without_lzo, clear_compressed, keep_compressed, if_compressed,
}
use php_pecl_memcache_zynga.Value.Scan.{digit_of}
use php_pecl_memcache_zynga.Value.Hex.{EndsHex, print_hex-NoBlank}

NoBlank-append : (xs ys : Bytes) → NoBlank xs → NoBlank ys → NoBlank (xs ++ ys)
NoBlank-append [] ys h k = k
NoBlank-append (x ∷ xs) ys h k = (h.0, NoBlank-append xs ys h.1 k)

two_sums-NoBlank :
    (b : Bool) (crc uncrc : ℕ)
    → NoBlank (if b then print_hex 8 uncrc else print_hex 8 crc ++ (bytes ":" ++ print_hex 8 uncrc))
two_sums-NoBlank true crc uncrc = print_hex-NoBlank 8 uncrc
two_sums-NoBlank false crc uncrc =
    NoBlank-append (print_hex 8 crc) (58 ∷ print_hex 8 uncrc) (print_hex-NoBlank 8 crc)
      (refl, print_hex-NoBlank 8 uncrc)

pub checksum_header-NoBlank : (crc uncrc : ℕ) → NoBlank (checksum_header 2 crc uncrc)
unfolding checksum_header
checksum_header-NoBlank crc uncrc =
    let sums : Bytes =
      if crc == 0 then print_hex 8 uncrc else print_hex 8 crc ++ (bytes ":" ++ print_hex 8 uncrc) in
    NoBlank-append (print_hex 4 2) (58 ∷ sums) (print_hex-NoBlank 4 2)
      (refl, two_sums-NoBlank (crc == 0) crc uncrc)

pub cas_part-EndsHex : (with_cas : Bool) (cas : ℕ) → EndsHex (cas_part with_cas cas)
unfolding digit_of
cas_part-EndsHex true cas = refl
cas_part-EndsHex false cas = refl

-- The text of the sums, and the line of the reply.
abbrev pub sums_text : Packed → Bytes
sums_text q = checksum_header 2 q.packed_crc32 q.packed_uncrc32

abbrev pub reply_line : Bool → Bytes → Packed → ℕ → Bytes
reply_line with_cas key q cas =
    header_line true with_cas key q.packed_flags (length q.text) (sums_text q) cas

without_lzo-int :
    (e : StoreEnv) (b : Bool) (flags : ℕ) → flags < 2 ^ 31 → without_lzo e b flags < 2 ^ 31
unfolding without_lzo set_flag clear_flag
without_lzo-int e true flags h = h
without_lzo-int e false flags h = ground arith

clear_compressed-int :
    (e : StoreEnv) (flags : ℕ) → flags < 2 ^ 31 → clear_compressed e flags < 2 ^ 31
unfolding clear_compressed clear_flag
clear_compressed-int e flags h = ground arith

kept-int :
    (e : StoreEnv) (b : Bool) (value code : Bytes) (flags : ℕ)
    → flags < 2 ^ 31
    → (keep_compressed e b true true value code flags 0 0).packed_flags < 2 ^ 31
unfolding keep_compressed
kept-int e true value code flags h = h
kept-int e false value code flags h = clear_compressed-int e flags h

compressed-int :
    (e : StoreEnv) (o : Option Bytes) (saves : ℕ → ℕ → Bool) (value : Bytes) (flags : ℕ)
    (p : Packed)
    → flags < 2 ^ 31
    → if_compressed e o saves true true value flags 0 0 ≡ some p
    → p.packed_flags < 2 ^ 31
unfolding if_compressed
compressed-int e none saves value flags p h k = absurd (ground arith)
compressed-int e (some code) saves value flags p h k =
    subst (λ (p : Packed). p.packed_flags < 2 ^ 31) (some-injective _ _ k)
      (kept-int e (saves (length code) (length value)) value code flags h)

-- The flags stay an `int`.
pub pack-int :
    (e : StoreEnv) (b : Bool) (saves : ℕ → ℕ → Bool) (value : Bytes) (flags : ℕ) (p : Packed)
    → flags < 2 ^ 31
    → pack e b saves true true value flags 0 0 ≡ some p
    → p.packed_flags < 2 ^ 31
unfolding pack
pack-int e false saves value flags p h k =
    subst (λ (p : Packed). p.packed_flags < 2 ^ 31) (some-injective _ _ k) h
pack-int e true saves value flags p h k =
    compressed-int e _ saves value (without_lzo e e.lzo_enabled flags) p
      (without_lzo-int e e.lzo_enabled flags h) k

pub complete-same :
    (e : StoreEnv) (p : Packed)
    → ((complete_checksum e true true p).packed_flags ≡ p.packed_flags)
      × ((complete_checksum e true true p).text ≡ p.text)
unfolding complete_checksum
complete-same e p = elim (Bool-cases (p.packed_uncrc32 == 0)) [
  | inl z ↦ rw z (refl, refl)
  | inr z ↦ rw z (refl, refl)
]

pub below_31 :
    (f l : ℕ) (fields : Fields) → f < 2 ^ 31 → l < 2 ^ 31 → read_as fields f l ≡ parsed fields
below_31 f l fields a b = ground arith

pub wide : (n : ℕ) → n < 2 ^ 31 → n < 2 ^ 32
wide n h = omega arith
