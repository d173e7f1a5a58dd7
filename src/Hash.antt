-- ===== src/Hash.antt =====
-- The hash functions of memcache.cpp, and what both distributions of keys over servers share.
use Prim.Native.Nat.{bit_xor}
use php_pecl_memcache_zynga.Prelude.{
  ℕ, ◌+◌, ◌-◌, ◌*◌, ◌%◌, ◌^◌, ◌<◌, arith, List, [], ◌∷◌, ltb, if◌then◌else◌,
}
use php_pecl_memcache_zynga.Prelude.Bytes.{Bytes}

-- FNV_32_PRIME and FNV_32_INIT
abbrev pub fnv_32_prime : ℕ
fnv_32_prime = 0x01000193

abbrev pub fnv_32_init : ℕ
fnv_32_init = 0x811c9dc5

-- `(unsigned int)key[i]` of a signed `char`: a byte from 128 on is extended by its sign.
pub widen : ℕ → ℕ
widen c = if ltb c 128 then c else c + (2 ^ 32 - 256)

pub fnv1a_step : ℕ → ℕ → ℕ
unfolding widen
fnv1a_step hval c = bit_xor hval (widen c) * fnv_32_prime % 2 ^ 32

pub fnv1a_from : ℕ → Bytes → ℕ
unfolding fnv1a_step
fnv1a_from hval [] = hval
fnv1a_from hval (c ∷ cs) = fnv1a_from (fnv1a_step hval c) cs

-- `mmc_hash_fnv1a`
pub mmc_hash_fnv1a : Bytes → ℕ
unfolding fnv1a_from
mmc_hash_fnv1a key = fnv1a_from fnv_32_init key

-- `~0` of an `unsigned int`, and `~`
abbrev pub ones : ℕ
ones = 2 ^ 32 - 1

unfoldable pub complement : ℕ → ℕ
complement a = ones - a % 2 ^ 32

-- The macro CRC32 comes with PHP: `update crc byte` is the new value of its first argument.
module _ (update : ℕ → ℕ → ℕ) where
  pub crc32_from : ℕ → Bytes → ℕ
  crc32_from crc [] = crc
  crc32_from crc (c ∷ cs) = crc32_from (update crc c) cs

  -- `mmc_hash_crc32`
  unfoldable pub mmc_hash_crc32 : Bytes → ℕ
  unfolding crc32_from complement
  mmc_hash_crc32 key = complement (crc32_from ones key)

  crc32_parts : ℕ → List Bytes → ℕ
  unfolding crc32_from
  crc32_parts crc [] = crc
  crc32_parts crc (s ∷ ss) = crc32_parts (crc32_from crc s) ss

  -- `checksum_crc32` over several strings
  unfoldable pub checksum_crc32 : List Bytes → ℕ
  unfolding crc32_parts complement
  checksum_crc32 ss = complement (crc32_parts ones ss)

  -- `get_checksum`
  unfoldable pub get_checksum : Bytes → ℕ
  unfolding checksum_crc32
  get_checksum value = checksum_crc32 (value ∷ [])

  -- `get_checksum_extra`: the bytes of the flags stand before the value. `flag_bytes` are the bytes
  -- of the `int` in memory.
  unfoldable pub get_checksum_extra : Bytes → Bytes → ℕ
  unfolding checksum_crc32
  get_checksum_extra flag_bytes value = checksum_crc32 (flag_bytes ∷ value ∷ [])

-- The checksums are `unsigned int`s.
pub get_checksum-bound : (step : ℕ → ℕ → ℕ) (text : Bytes) → get_checksum step text < 2 ^ 32
unfolding get_checksum complement
get_checksum-bound step text = omega arith

pub get_checksum_extra-bound :
    (step : ℕ → ℕ → ℕ) (flag_bytes text : Bytes) → get_checksum_extra step flag_bytes text < 2 ^ 32
unfolding get_checksum_extra complement
get_checksum_extra-bound step flag_bytes text = omega arith
