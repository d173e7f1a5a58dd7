-- ===== src/Value/Check.antt =====
-- What `mmc_read_value` does with the bytes of a value: the checksums and the compression.
use Prim.Native.Nat.{bit_and}
use php_pecl_memcache_zynga.Prelude.{
  ℕ, zero, suc, ◌+◌, ◌-◌, ◌^◌, Bool, true, false, not, ◌&&◌, [], ◌∷◌, Option, none, some, ltb, ◌==◌,
  if◌then◌else◌, length, drop,
}
use php_pecl_memcache_zynga.Prelude.Int.{ℤ, pos, negsuc}
use php_pecl_memcache_zynga.Prelude.Bytes.{Bytes, bytes}
use php_pecl_memcache_zynga.Net.{Env}
use php_pecl_memcache_zynga.Hash.{get_checksum, get_checksum_extra}
use php_pecl_memcache_zynga.Compress.{Codecs, has_flag, mmc_compressed_lzo, mmc_uncompress}
use php_pecl_memcache_zynga.Store.Pack.{any_compressed}
use php_pecl_memcache_zynga.Value.Scan.{scan_hex, scan_next, strtol_16}

-- The outside of a read.
pub record ValueEnv : Type 0 where
  pub env : Env
  pub codecs : Codecs
  pub crc_step : ℕ → ℕ → ℕ
  pub flag_bytes : ℕ → Bytes
  pub lzo_enabled : Bool

-- The value; -2 with a code and the server's error; CHKSUM_MISMATCH_DETECTED with what `value` is.
pub data ValueCheck : Type 0 where
  accepted : Bytes → ValueCheck
  refused : Option ℕ → Option Bytes → ValueCheck
  mismatch : Bytes → Option ℕ → ValueCheck

-- `crc_value`, `uncrc_value`, `crc_hdr_len`, `has_chksum` and `has_new_checksum`
pub record Sums : Type 0 where
  pub crc : ℤ
  pub uncrc : ℤ
  pub hdr_len : ℕ
  pub has_chksum : Bool
  pub is_new : Bool

abbrev pub no_sums : Sums
no_sums = record { crc = pos 0; uncrc = pos 0; hdr_len = 0; has_chksum = false; is_new = false }

-- The sums, or the end of the check.
pub data Found : Type 0 where
  found : Sums → Found
  ends : ValueCheck → Found

-- LONG_MAX or LONG_MIN
unfoldable pub overflows : ℤ → Bool
overflows (pos n) = n == 2 ^ 63 - 1
overflows (negsuc n) = n == 2 ^ 63 - 1

-- The first bytes up to a carriage return, `limit` at most. `limit` bytes fill the code's buffer, and
-- `strtol` then reads past its end; here the text ends there.
unfoldable pub up_to_return : ℕ → Bytes → Bytes
up_to_return zero cs = []
up_to_return (suc limit) [] = []
up_to_return (suc limit) (c ∷ cs) =
    let rest = up_to_return limit cs in if c == 13 then [] else c ∷ rest

abbrev chksum_len : ℕ
chksum_len = 50

abbrev pub begins_return : Bytes → Bool
begins_return [] = false
begins_return (c ∷ cs) = c == 13

abbrev pub begins_line_end : Bytes → Bool
begins_line_end [] = false
begins_line_end (c ∷ []) = false
begins_line_end (c ∷ d ∷ cs) = c == 13 && d == 10

unfoldable pub old_sums : ℤ → ℤ → ℕ → Found
unfolding overflows
old_sums crc uncrc i =
    if overflows uncrc
    then ends (refused none none)
    else found
        (record { crc = crc; uncrc = uncrc; hdr_len = i + 2; has_chksum = true; is_new = false })

-- The checksum of the value, from position `i` on, in the old header.
unfoldable pub old_uncrc : ℤ → ℕ → Bytes → Found
unfolding old_sums up_to_return strtol_16
old_uncrc crc i text =
    let digits = up_to_return chksum_len (drop i text) in
    let at = i + length digits in
    if at == length text
    then ends (refused (some 120) none)
    else if ltb (at + 2) (length text) && begins_line_end (drop at text)
    then old_sums crc (strtol_16 digits) at
    else ends (refused (some 121) none)

-- Before it, that of the compressed value.
unfoldable pub old_crc : Bool → Bytes → Found
unfolding old_uncrc up_to_return overflows strtol_16
old_crc false text = old_uncrc (pos 0) 0 text
old_crc true text =
    let digits = up_to_return chksum_len text in
    let crc = strtol_16 digits in
    if length digits == length text
    then ends (refused (some 118) none)
    else if begins_return (drop (length digits) text)
    then (if overflows crc
        then ends (refused none none)
        else old_uncrc crc (length digits + 1) text)
    else ends (refused (some 119) none)

-- The sums that the header holds: of the compressed value and the value, or of the value.
unfoldable pub pair_of : ℕ → Option (ℕ × Bytes) → Option (ℤ × ℤ)
pair_of crc none = none
pair_of crc (some (uncrc, rest)) = some (pos crc, pos uncrc)

unfoldable pub second_of : Option (ℕ × Bytes) → Option (ℤ × ℤ)
unfolding pair_of scan_next
second_of none = none
second_of (some (crc, rest)) = pair_of crc (scan_next rest)

unfoldable pub header_sums : Bool → Bytes → Option (ℤ × ℤ)
unfolding second_of pair_of scan_next
header_sums true rest = second_of (scan_next rest)
header_sums false rest = pair_of 0 (scan_next rest)

-- A mismatch that was found downstream.
unfoldable pub downstream_code : ℕ → Option ℕ
downstream_code errors =
    if errors == 8
    then some 136
    else if errors == 32
    then some 135
    else if errors == 16
    then some 137
    else none

unfoldable pub downstream : ℕ → Bytes → ℤ → ℤ → Found
unfolding downstream_code
downstream metadata text crc uncrc =
    let errors = bit_and metadata 56 in
    if errors == 0
    then found (record { crc = crc; uncrc = uncrc; hdr_len = 0; has_chksum = true; is_new = true })
    else ends (mismatch text (downstream_code errors))

unfoldable pub with_sums : ℕ → ℕ → Bytes → ℕ → Option (ℤ × ℤ) → Found
unfolding downstream
with_sums algo metadata text code none = ends (mismatch text (some code))
with_sums algo metadata text code (some (crc, uncrc)) =
    if bit_and metadata algo == 0
    then ends (mismatch text (some 134))
    else downstream metadata text crc uncrc

-- The header behind its metadata.
unfoldable pub with_metadata : ℕ → Bool → Bytes → Option (ℕ × Bytes) → Found
unfolding with_sums header_sums downstream
with_metadata algo compressed text none = ends (mismatch text (some 132))
with_metadata algo compressed text (some (metadata, rest)) =
    if not (has_flag 1 algo) && not (has_flag 1 metadata)
    then with_sums algo metadata text (if compressed then 133 else 134)
        (header_sums compressed rest)
    else downstream metadata text (pos 0) (pos 0)

unfoldable pub new_sums : ℕ → Bool → Bytes → Option Bytes → Found
unfolding with_metadata scan_hex
new_sums algo compressed text none = ends (mismatch text (some 131))
new_sums algo compressed text (some chksum) = with_metadata algo compressed text (scan_hex chksum)

-- The two styles of checksums.
unfoldable pub find_sums : ℕ → ℕ → Option Bytes → Bytes → Found
unfolding old_crc new_sums
find_sums algo flags chksum text =
    if has_flag 8 flags
    then old_crc (any_compressed flags) text
    else if algo == 0
    then found no_sums
    else new_sums algo (any_compressed flags) text chksum

-- `value && crc != value`
unfoldable pub differs : ℤ → ℕ → Bool
differs (pos zero) crc = false
differs (pos n) crc = not (crc == n)
differs (negsuc n) crc = true

module _ (e : ValueEnv) where
  unfoldable pub checksum_of : Bool → ℕ → Bytes → ℕ
  checksum_of true flags text = get_checksum_extra e.crc_step (e.flag_bytes flags) text
  checksum_of false flags text = get_checksum e.crc_step text

  unfoldable pub check_uncompressed : Sums → Option Bytes → ValueCheck
  unfolding differs
  check_uncompressed s none = refused (some 126) (some (bytes "Failed to uncompress data"))
  check_uncompressed s (some value) =
      if differs s.uncrc (get_checksum e.crc_step value)
      then mismatch value (some 123)
      else accepted value

  -- The value behind its old header.
  unfoldable pub check_sums : Bool → ℕ → Bytes → Sums → ValueCheck
  unfolding differs checksum_of check_uncompressed mmc_uncompress
  check_sums true flags text s =
      let value = drop s.hdr_len text in
      if differs s.crc (checksum_of s.is_new flags value)
      then mismatch text (some 122)
      else check_uncompressed s (mmc_uncompress e.codecs value flags)
  check_sums false flags text s =
      let value = drop s.hdr_len text in
      if s.has_chksum && differs s.uncrc (checksum_of s.is_new flags value)
      then mismatch text (some 124)
      else accepted value

  unfoldable pub check_if_found : ℕ → Bytes → Found → ValueCheck
  unfolding check_sums
  check_if_found flags text (ends c) = c
  check_if_found flags text (found s) = check_sums (any_compressed flags) flags text s

  -- What the function does behind the read; `algo` is `di_algo_in_use`.
  unfoldable pub check_value : ℕ → ℕ → Option Bytes → Bytes → ValueCheck
  unfolding check_if_found find_sums
  check_value algo flags chksum text =
      if not e.lzo_enabled && (has_flag mmc_compressed_lzo flags && ltb 0 (length text))
      then refused (some 126) (some (bytes "Failed to uncompress data - lzo init failed"))
      else check_if_found flags text (find_sums algo flags chksum text)
