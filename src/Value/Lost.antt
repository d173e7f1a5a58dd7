-- ===== src/Value/Lost.antt =====
-- A compressed text whose sum is 0, which a store sends and no read accepts.
use php_pecl_memcache_zynga.Prelude.{
  ℕ, ◌^◌, ◌<◌, ◌≡◌, refl, ap, ◌∙◌, Bool, true, false, not, ◌&&◌, ◌∷◌, ◌++◌, Option, none, some,
  arith, ltb, ◌==◌, length, Bool-cases, inl, inr,
}
use mathlib.Core.Path.{subst}
use mathlib.Core.Option.{some-injective}
use php_pecl_memcache_zynga.Prelude.Bytes.{Bytes}
use php_pecl_memcache_zynga.Hash.{get_checksum-bound, get_checksum_extra-bound}
use php_pecl_memcache_zynga.Compress.{has_flag, mmc_compressed_lzo, mmc_compress}
use php_pecl_memcache_zynga.Store.Request.{print_hex, checksum_header}
use php_pecl_memcache_zynga.Store.Pack.{
  StoreEnv, Packed, any_compressed, without_lzo, new_checksum, keep_compressed, if_compressed, pack,
  complete_checksum,
}
use php_pecl_memcache_zynga.Value.Scan.{scan_hex, scan_next}
use php_pecl_memcache_zynga.Value.Hex.{EndsHex}
use php_pecl_memcache_zynga.Value.Check.{
  mismatch, pair_of, second_of, ends, with_sums, with_metadata, new_sums, find_sums, check_if_found,
  check_value,
}
use php_pecl_memcache_zynga.Value.Sent.{print_hex_word, one_sum_text, algo_read}
use php_pecl_memcache_zynga.Value.Checks.{
  reader, without_lzo-old, without_lzo-known, without_lzo-compressed,
}

-- One sum where two are read.
lost_sum :
    (uncrc : ℕ) (text header behind rest : Bytes)
    → scan_hex header ≡ some (2, 58 ∷ behind)
    → scan_hex behind ≡ some (uncrc, rest)
    → scan_next rest ≡ none
    → new_sums 2 true text (some header) ≡ ends (mismatch text (some 133))
unfolding new_sums with_metadata
lost_sum uncrc text header behind rest a b c =
    ap (with_metadata 2 true text) a
    ∙ (ap (λ (o : Option (ℕ × Bytes)). with_sums 2 2 text 133 (second_of o)) b
        ∙ ap (λ (o : Option (ℕ × Bytes)). with_sums 2 2 text 133 (pair_of uncrc o)) c)

-- No read accepts what is sent.
abbrev Lost : StoreEnv → Bytes → Packed → Type 0
Lost e rest q =
    check_value (reader e) 2 q.packed_flags
      (some (checksum_header 2 q.packed_crc32 q.packed_uncrc32 ++ rest)) q.text
    ≡ mismatch q.text (some 133)

module _ (e : StoreEnv) (rest : Bytes) (h : EndsHex rest) (n : scan_next rest ≡ none) where
  lost-check :
      (flags uncrc : ℕ) (text : Bytes)
      → has_flag 8 flags ≡ false
      → any_compressed flags ≡ true
      → (not e.lzo_enabled && (has_flag mmc_compressed_lzo flags && ltb 0 (length text))) ≡ false
      → uncrc < 2 ^ 32
      → check_value (reader e) 2 flags (some (checksum_header 2 0 uncrc ++ rest)) text
        ≡ mismatch text (some 133)
  unfolding check_value check_if_found find_sums
  lost-check flags uncrc text old c known l =
      let header : Bytes = checksum_header 2 0 uncrc ++ rest in
      rw (known, old)
        (ap (λ (b : Bool). check_if_found (reader e) flags text (new_sums 2 b text (some header))) c
          ∙ (ap
                (λ (t : Bytes).
                  check_if_found (reader e) flags text (new_sums 2 true text (some t)))
                (one_sum_text uncrc rest)
              ∙ ap (check_if_found (reader e) flags text) (
                  lost_sum uncrc text (print_hex 4 2 ++ (58 ∷ (print_hex 8 uncrc ++ rest)))
                    (print_hex 8 uncrc ++ rest) rest (algo_read (print_hex 8 uncrc ++ rest))
                    (print_hex_word uncrc rest l h) n)))

  completed-Lost :
      (p : Packed)
      → has_flag 8 p.packed_flags ≡ false
      → any_compressed p.packed_flags ≡ true
      → ((len : ℕ)
          → (not e.lzo_enabled && (has_flag mmc_compressed_lzo p.packed_flags && ltb 0 len))
            ≡ false)
      → p.packed_uncrc32 < 2 ^ 32
      → p.packed_crc32 ≡ 0
      → Lost e rest (complete_checksum e true true p)
  unfolding complete_checksum new_checksum
  completed-Lost p old c known l z = elim (Bool-cases (p.packed_uncrc32 == 0)) [
    | inl k ↦
        rw (k, z)
          (lost-check p.packed_flags _ p.text old c (known (length p.text))
            (get_checksum_extra-bound e.crc_step (e.flag_bytes p.packed_flags) p.text))
    | inr k ↦
        rw (k, z)
          (lost-check p.packed_flags p.packed_uncrc32 p.text old c (known (length p.text)) l)
  ]

  kept-Lost :
      (b : Bool) (value code : Bytes) (flags : ℕ)
      → has_flag 8 flags ≡ false
      → any_compressed flags ≡ true
      → ((len : ℕ)
          → (not e.lzo_enabled && (has_flag mmc_compressed_lzo flags && ltb 0 len)) ≡ false)
      → (keep_compressed e b true true value code flags 0 0).is_data ≡ true
      → (keep_compressed e b true true value code flags 0 0).packed_crc32 ≡ 0
      → Lost e rest
          (complete_checksum e true true (keep_compressed e b true true value code flags 0 0))
  unfolding keep_compressed
  kept-Lost true value code flags old c known d z =
      completed-Lost (keep_compressed e true true true value code flags 0 0) old c known
        (get_checksum-bound e.crc_step value) z
  kept-Lost false value code flags old c known d z = absurd (ground arith)

  compressed-Lost :
      (value : Bytes) (saves : ℕ → ℕ → Bool) (flags : ℕ) (o : Option Bytes) (p : Packed)
      → has_flag 8 flags ≡ false
      → any_compressed flags ≡ true
      → ((len : ℕ)
          → (not e.lzo_enabled && (has_flag mmc_compressed_lzo flags && ltb 0 len)) ≡ false)
      → if_compressed e o saves true true value flags 0 0 ≡ some p
      → p.is_data ≡ true
      → p.packed_crc32 ≡ 0
      → Lost e rest (complete_checksum e true true p)
  unfolding if_compressed
  compressed-Lost value saves flags none p old c known q d z = absurd (ground arith)
  compressed-Lost value saves flags (some code) p old c known q d z =
      let b : Bool = saves (length code) (length value) in
      let same : keep_compressed e b true true value code flags 0 0 ≡ p = some-injective _ _ q in
      subst (λ (p : Packed). Lost e rest (complete_checksum e true true p)) same
        (kept-Lost b value code flags old c known (ap (λ (p : Packed). p.is_data) same ∙ d)
          (ap (λ (p : Packed). p.packed_crc32) same ∙ z))

  packed-Lost :
      (b : Bool) (value : Bytes) (saves : ℕ → ℕ → Bool) (flags : ℕ) (p : Packed)
      → has_flag 8 flags ≡ false
      → any_compressed flags ≡ b
      → pack e b saves true true value flags 0 0 ≡ some p
      → p.is_data ≡ true
      → p.packed_crc32 ≡ 0
      → Lost e rest (complete_checksum e true true p)
  unfolding pack
  packed-Lost false value saves flags p old c q d z =
      let e : false ≡ true = ap (λ (p : Packed). p.is_data) (some-injective _ _ q) ∙ d in
      absurd (ground arith)
  packed-Lost true value saves flags p old c q d z =
      let kept : ℕ = without_lzo e e.lzo_enabled flags in
      compressed-Lost value saves kept (mmc_compress e.codecs e.compression_level value kept) p
        (without_lzo-old e e.lzo_enabled flags old) (without_lzo-compressed e e.lzo_enabled flags c)
        (without_lzo-known e e.lzo_enabled flags) q d z

-- What `mmc_pool_store` sends of a value that stays compressed to a text whose checksum is 0 is refused
-- by `mmc_read_value` as a mismatch, for checksums of algorithm 2 and flags without the bit of the old
-- ones, where the header ends with the one sum that was sent.
pub check_value-lost :
    (e : StoreEnv) (value rest : Bytes) (saves : ℕ → ℕ → Bool) (flags : ℕ) (p : Packed)
    → has_flag 8 flags ≡ false
    → EndsHex rest
    → scan_next rest ≡ none
    → pack e (any_compressed flags) saves true true value flags 0 0 ≡ some p
    → p.is_data ≡ true
    → p.packed_crc32 ≡ 0
    → (let q = complete_checksum e true true p in
        check_value
          (reader e)
          2
          q.packed_flags
          (some (checksum_header 2 q.packed_crc32 q.packed_uncrc32 ++ rest))
          q.text
        ≡ mismatch q.text (some 133))
check_value-lost e value rest saves flags p old h n q d z =
    packed-Lost e rest h n (any_compressed flags) value saves flags p old refl q d z
