-- ===== src/Value/Round.antt =====
-- Reading back what `mmc_pool_store` sends: the checksums' header, the flags and the compression.
use php_pecl_memcache_zynga.Prelude.{
  ℕ, ◌*◌, ◌^◌, ◌≤◌, ◌≡◌, refl, sym, ◌∙◌, Bool, true, false, not, ◌&&◌, ◌++◌, Option, none, some,
  arith, ltb, ◌==◌, length, inr,
}
use mathlib.Core.Option.{some-injective}
use mathlib.Core.Path.{subst}
use php_pecl_memcache_zynga.Prelude.Bytes.{Bytes}
use php_pecl_memcache_zynga.Compress.{
  has_flag, mmc_compressed_lzo, mmc_compressed_bzip2, mmc_compress,
}
use php_pecl_memcache_zynga.Store.Request.{checksum_header}
use php_pecl_memcache_zynga.Store.Pack.{
  StoreEnv, Packed, any_compressed, without_lzo, clear_compressed, new_checksum, keep_compressed,
  if_compressed, pack, complete_checksum,
}
use php_pecl_memcache_zynga.Value.Hex.{EndsHex}
use php_pecl_memcache_zynga.Value.Check.{accepted, check_value}
use php_pecl_memcache_zynga.Compress.Round.{Lossless, if_fits, mmc_uncompress-compress}
use php_pecl_memcache_zynga.Value.Checks.{
  clear_compressed-old, clear_compressed-plain, without_lzo-old, without_lzo-known,
  without_lzo-compressed, reader, check_plain, check_compressed,
}

-- What a read needs of a compressed text: neither sum is 0, and 2 ^ 15 times its length is room enough.
pub record Recoverable (value : Bytes) (p : Packed) : Type 0 where
  pub sum : (p.packed_crc32 == 0) ≡ false
  pub value_sum : (p.packed_uncrc32 == 0) ≡ false
  pub room : length value ≤ length p.text * 2 ^ 15

without_lzo-bzip2 :
    (e : StoreEnv) (b : Bool) (flags : ℕ)
    → has_flag 16 flags ≡ false
    → has_flag 16 (without_lzo e b flags) ≡ false
unfolding without_lzo
without_lzo-bzip2 e true flags h = h
without_lzo-bzip2 e false flags h = ground arith

fits :
    (value code : Bytes)
    → length value ≤ length code * 2 ^ 15
    → if_fits (length code * 2 ^ 15) value ≡ some value
fits value code h = ground arith

-- What is sent is read back.
abbrev ReadBack : StoreEnv → Bytes → Bytes → Packed → Type 0
ReadBack e value rest q =
    check_value (reader e) 2 q.packed_flags
      (some (checksum_header 2 q.packed_crc32 q.packed_uncrc32 ++ rest)) q.text
    ≡ accepted value

module _ (e : StoreEnv) (value rest : Bytes) (h : EndsHex rest) where
  plain-ReadBack :
      (flags : ℕ)
      → has_flag 8 flags ≡ false
      → any_compressed flags ≡ false
      → ReadBack e value rest (
          complete_checksum e true true (record {
            text = value;
            is_data = false;
            packed_flags = flags;
            packed_crc32 = 0;
            packed_uncrc32 = 0;
          }))
  unfolding complete_checksum new_checksum
  plain-ReadBack flags old plain = check_plain e flags old value rest plain h

  kept-ReadBack :
      (b : Bool) (code : Bytes) (flags : ℕ)
      → Lossless e.codecs
      → has_flag 8 flags ≡ false
      → any_compressed flags ≡ true
      → has_flag 16 flags ≡ false
      → (not e.lzo_enabled && (has_flag mmc_compressed_lzo flags && ltb 0 (length code))) ≡ false
      → mmc_compress e.codecs e.compression_level value flags ≡ some code
      → ((keep_compressed e b true true value code flags 0 0).is_data ≡ true
          → Recoverable value (keep_compressed e b true true value code flags 0 0))
      → ReadBack e value rest
          (complete_checksum e true true (keep_compressed e b true true value code flags 0 0))
  unfolding complete_checksum keep_compressed new_checksum
  kept-ReadBack true code flags l old c bz known m r =
      let k = r refl in
      rw (k.value_sum) (
        check_compressed e flags old value code rest c known
          (mmc_uncompress-compress e.codecs e.compression_level value code flags l (inr bz) m
            ∙ fits value code k.room)
          k.sum h)
  kept-ReadBack false code flags l old c bz known m r =
      plain-ReadBack (clear_compressed e flags) (clear_compressed-old e flags old)
        (clear_compressed-plain e flags)

  if_compressed-ReadBack :
      (saves : ℕ → ℕ → Bool) (flags : ℕ) (o : Option Bytes) (p : Packed)
      → Lossless e.codecs
      → has_flag 8 flags ≡ false
      → any_compressed flags ≡ true
      → has_flag 16 flags ≡ false
      → ((len : ℕ)
          → (not e.lzo_enabled && (has_flag mmc_compressed_lzo flags && ltb 0 len)) ≡ false)
      → mmc_compress e.codecs e.compression_level value flags ≡ o
      → if_compressed e o saves true true value flags 0 0 ≡ some p
      → (p.is_data ≡ true → Recoverable value p)
      → ReadBack e value rest (complete_checksum e true true p)
  unfolding if_compressed
  if_compressed-ReadBack saves flags none p l old c bz known m q r = absurd (ground arith)
  if_compressed-ReadBack saves flags (some code) p l old c bz known m q r =
      let kept : Packed =
        keep_compressed e (saves (length code) (length value)) true true value code flags 0 0 in
      let same : kept ≡ p = some-injective _ _ q in
      subst (λ (p : Packed). ReadBack e value rest (complete_checksum e true true p)) same
        (kept-ReadBack (saves (length code) (length value)) code flags l old c bz
          (known (length code)) m
          (subst (λ (p : Packed). p.is_data ≡ true → Recoverable value p) (sym same) r))

  packed-ReadBack :
      (b : Bool) (saves : ℕ → ℕ → Bool) (flags : ℕ) (p : Packed)
      → Lossless e.codecs
      → has_flag 8 flags ≡ false
      → any_compressed flags ≡ b
      → has_flag 16 flags ≡ false
      → pack e b saves true true value flags 0 0 ≡ some p
      → (p.is_data ≡ true → Recoverable value p)
      → ReadBack e value rest (complete_checksum e true true p)
  unfolding pack
  packed-ReadBack false saves flags p l old c bz q r =
      subst (λ (p : Packed). ReadBack e value rest (complete_checksum e true true p))
        (some-injective _ _ q) (plain-ReadBack flags old c)
  packed-ReadBack true saves flags p l old c bz q r =
      let kept : ℕ = without_lzo e e.lzo_enabled flags in
      if_compressed-ReadBack saves kept (mmc_compress e.codecs e.compression_level value kept) p l
        (without_lzo-old e e.lzo_enabled flags old) (without_lzo-compressed e e.lzo_enabled flags c)
        (without_lzo-bzip2 e e.lzo_enabled flags bz) (without_lzo-known e e.lzo_enabled flags) refl
        q r

-- What `mmc_pool_store` packs and sends with checksums (algorithm 2), `mmc_read_value` accepts and
-- gives back as the value, whether it was compressed, was not worth it, or is not to be compressed. The
-- flags have neither bzip2's bit nor that of the old checksums; zlib and lzo give back what they
-- compressed; of a text that stays compressed, neither sum is 0, and the value is at most 2 ^ 15 times
-- as long; and behind the header no hexadecimal digit follows.
pub check_value-pack :
    (e : StoreEnv) (value rest : Bytes) (saves : ℕ → ℕ → Bool) (flags : ℕ) (p : Packed)
    → Lossless e.codecs
    → has_flag 8 flags ≡ false
    → has_flag mmc_compressed_bzip2 flags ≡ false
    → EndsHex rest
    → pack e (any_compressed flags) saves true true value flags 0 0 ≡ some p
    → (p.is_data ≡ true → Recoverable value p)
    → (let q = complete_checksum e true true p in
        check_value
          (reader e)
          2
          q.packed_flags
          (some (checksum_header 2 q.packed_crc32 q.packed_uncrc32 ++ rest))
          q.text
        ≡ accepted value)
check_value-pack e value rest saves flags p l old bz h q r =
    packed-ReadBack e value rest h (any_compressed flags) saves flags p l old refl bz q r
