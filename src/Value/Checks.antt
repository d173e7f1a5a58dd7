-- ===== src/Value/Checks.antt =====
-- A read of the sums that were sent: of a value as it is, and of its compressed text.
use php_pecl_memcache_zynga.Prelude.{
  ℕ, zero, suc, ◌≡◌, refl, ap, ◌∙◌, Bool, true, false, not, ◌&&◌, ◌++◌, some, arith, ltb, ◌==◌,
  length,
}
use php_pecl_memcache_zynga.Prelude.Int.{pos}
use php_pecl_memcache_zynga.Prelude.Bytes.{Bytes}
use php_pecl_memcache_zynga.Hash.{
  get_checksum, get_checksum_extra, get_checksum-bound, get_checksum_extra-bound,
}
use php_pecl_memcache_zynga.Compress.{has_flag, mmc_compressed_lzo, mmc_uncompress}
use php_pecl_memcache_zynga.Store.Request.{checksum_header, set_flag, clear_flag}
use php_pecl_memcache_zynga.Store.Pack.{StoreEnv, any_compressed, without_lzo, clear_compressed}
use php_pecl_memcache_zynga.Value.Hex.{EndsHex}
use php_pecl_memcache_zynga.Value.Check.{
  ValueEnv, accepted, Sums, found, new_sums, find_sums, differs, checksum_of, check_uncompressed,
  check_sums, check_if_found, check_value,
}
use php_pecl_memcache_zynga.Value.Sent.{new_sums_of, new_sums-two, new_sums-one}

differs-same : (n : ℕ) → differs (pos n) n ≡ false
unfolding differs
differs-same zero = refl
differs-same (suc n) = ground arith

set_flag-old : (flags : ℕ) → has_flag 8 flags ≡ false → has_flag 8 (set_flag 2 flags) ≡ false
unfolding set_flag
set_flag-old flags h = ground arith

clear_flag-old : (flags : ℕ) → has_flag 8 flags ≡ false → has_flag 8 (clear_flag 4 flags) ≡ false
unfolding clear_flag
clear_flag-old flags h = ground arith

clear_flag-lzo : (flags : ℕ) → has_flag 4 (clear_flag 4 flags) ≡ false
unfolding clear_flag
clear_flag-lzo flags = ground arith

set_flag-lzo : (flags : ℕ) → has_flag 4 flags ≡ false → has_flag 4 (set_flag 2 flags) ≡ false
unfolding set_flag
set_flag-lzo flags h = ground arith

set_flag-set : (flags : ℕ) → has_flag 2 (set_flag 2 flags) ≡ true
unfolding set_flag
set_flag-set flags = ground arith

pub clear_compressed-old :
    (e : StoreEnv) (flags : ℕ)
    → has_flag 8 flags ≡ false
    → has_flag 8 (clear_compressed e flags) ≡ false
unfolding clear_compressed
clear_compressed-old e flags h = ground arith

pub clear_compressed-plain :
    (e : StoreEnv) (flags : ℕ) → any_compressed (clear_compressed e flags) ≡ false
unfolding clear_compressed
clear_compressed-plain e flags = ground arith

pub without_lzo-old :
    (e : StoreEnv) (b : Bool) (flags : ℕ)
    → has_flag 8 flags ≡ false
    → has_flag 8 (without_lzo e b flags) ≡ false
unfolding without_lzo
without_lzo-old e true flags h = h
without_lzo-old e false flags h = ground arith

-- What is left of lzo's flag is known to a read.
pub without_lzo-known :
    (e : StoreEnv) (b : Bool) (flags len : ℕ)
    → (not b && (has_flag mmc_compressed_lzo (without_lzo e b flags) && ltb 0 len)) ≡ false
unfolding without_lzo
without_lzo-known e true flags len = refl
without_lzo-known e false flags len = ground arith

pub without_lzo-compressed :
    (e : StoreEnv) (b : Bool) (flags : ℕ)
    → any_compressed flags ≡ true
    → any_compressed (without_lzo e b flags) ≡ true
unfolding without_lzo
without_lzo-compressed e true flags h = h
without_lzo-compressed e false flags h = ground arith

plain-known :
    (b : Bool) (flags len : ℕ)
    → any_compressed flags ≡ false
    → (not b && (has_flag mmc_compressed_lzo flags && ltb 0 len)) ≡ false
plain-known b flags len h = ground arith

-- A reader with the settings and the library of the sender.
abbrev pub reader : StoreEnv → ValueEnv
reader e = record {
  env = e.env;
  codecs = e.codecs;
  crc_step = e.crc_step;
  flag_bytes = e.flag_bytes;
  lzo_enabled = e.lzo_enabled;
}

module _ (e : StoreEnv) (flags : ℕ) (old : has_flag 8 flags ≡ false) where
  -- A read whose header holds the sums.
  check_headed :
      (b : Bool) (header text : Bytes) (s : Sums)
      → (not e.lzo_enabled && (has_flag mmc_compressed_lzo flags && ltb 0 (length text))) ≡ false
      → any_compressed flags ≡ b
      → new_sums 2 b text (some header) ≡ found s
      → check_value (reader e) 2 flags (some header) text ≡ check_sums (reader e) b flags text s
  unfolding check_value check_if_found find_sums
  check_headed b header text s known c n =
      rw (known, old)
        (ap (λ (b : Bool). check_if_found (reader e) flags text (new_sums 2 b text (some header))) c
          ∙ (ap (check_if_found (reader e) flags text) n
              ∙ ap (λ (b : Bool). check_sums (reader e) b flags text s) c))

  pub check_plain :
      (value rest : Bytes)
      → any_compressed flags ≡ false
      → EndsHex rest
      → check_value
          (reader e)
          2
          flags
          (some (
            checksum_header 2 0 (get_checksum_extra e.crc_step (e.flag_bytes flags) value) ++ rest))
          value
        ≡ accepted value
  unfolding check_sums checksum_of
  check_plain value rest plain h =
      let uncrc = get_checksum_extra e.crc_step (e.flag_bytes flags) value in
      check_headed false (checksum_header 2 0 uncrc ++ rest) value (new_sums_of 0 uncrc)
        (plain-known e.lzo_enabled flags (length value) plain) plain
        (new_sums-one uncrc value rest
          (get_checksum_extra-bound e.crc_step (e.flag_bytes flags) value) h)
      ∙ rw (differs-same uncrc) refl

  pub check_compressed :
      (value code rest : Bytes)
      → any_compressed flags ≡ true
      → (not e.lzo_enabled && (has_flag mmc_compressed_lzo flags && ltb 0 (length code))) ≡ false
      → mmc_uncompress e.codecs code flags ≡ some value
      → (get_checksum_extra e.crc_step (e.flag_bytes flags) code == 0) ≡ false
      → EndsHex rest
      → check_value
          (reader e)
          2
          flags
          (some (
            checksum_header 2
              (get_checksum_extra e.crc_step (e.flag_bytes flags) code)
              (get_checksum e.crc_step value)
            ++ rest))
          code
        ≡ accepted value
  unfolding check_sums checksum_of check_uncompressed
  check_compressed value code rest c known u n h =
      let crc = get_checksum_extra e.crc_step (e.flag_bytes flags) code in
      let uncrc = get_checksum e.crc_step value in
      check_headed true (checksum_header 2 crc uncrc ++ rest) code (new_sums_of crc uncrc) known c (
        new_sums-two crc uncrc code rest
          (get_checksum_extra-bound e.crc_step (e.flag_bytes flags) code)
          (get_checksum-bound e.crc_step value) n h)
      ∙ rw (differs-same crc, u, differs-same uncrc) refl
