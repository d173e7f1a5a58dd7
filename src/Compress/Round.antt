-- ===== src/Compress/Round.antt =====
-- Reading back what was compressed.
use php_pecl_memcache_zynga.Prelude.{
  ℕ, zero, suc, ◌+◌, ◌*◌, ◌^◌, ◌≤◌, ◌<◌, ◌≡◌, ◌⊎◌, refl, sym, ap, ◌∙◌, Bool, true, false, Option,
  none, some, arith, leb, if◌then◌else◌, length, Bool-cases, inl, inr, leb→le,
}
use native.Mathlib.Nat.{add-zero, mul-le-mul_left, pow-le-pow_right}
use php_pecl_memcache_zynga.Prelude.Int.{ℤ}
use php_pecl_memcache_zynga.Prelude.Bytes.{Bytes}
use php_pecl_memcache_zynga.Compress.{
  ZStatus, z_ok, z_mem_error, z_buf_error, z_stream_error, z_data_error, LzoStatus, lzo_ok,
  lzo_output_overrun, lzo_error, lzo_compress_status, zlib_compress, Codecs, has_flag,
  mmc_compressed, mmc_compressed_bzip2, if_z_ok, uncompress_by, uncompress_loop, mmc_compress,
  mmc_uncompress, compress_by, compress_room,
}

-- What is relied on of a library's decoder, for the code of a value: it needs the room of the value,
-- and reports a buffer that is too small.
pub record Decodes (attempt : ℕ → ZStatus × Bytes) (value : Bytes) : Type 0 where
  pub enough : (room : ℕ) → length value ≤ room → attempt room ≡ (z_ok, value)
  pub small : (room : ℕ) → room < length value → (attempt room).0 ≡ z_buf_error

-- The value, if it has room in the last buffer.
abbrev pub if_fits : ℕ → Bytes → Option Bytes
if_fits room value = if leb (length value) room then some value else none

room_grows : (len f k : ℕ) → len * 2 ^ f ≤ len * 2 ^ (f + k)
room_grows len f k = mul-le-mul_left len (pow-le-pow_right (omega arith) (omega arith))

no_room-none : (t : ZStatus × Bytes) → t.0 ≡ z_buf_error → if_z_ok t ≡ none
unfolding if_z_ok
no_room-none (z_ok, v) e = absurd (ground arith)
no_room-none (z_mem_error, v) e = refl
no_room-none (z_buf_error, v) e = refl
no_room-none (z_stream_error, v) e = refl
no_room-none (z_data_error, v) e = refl

overrun_status :
    (t : LzoStatus × Bytes) → t.0 ≡ lzo_output_overrun → (lzo_compress_status t).0 ≡ z_buf_error
unfolding lzo_compress_status
overrun_status (lzo_ok, v) e = absurd (ground arith)
overrun_status (lzo_output_overrun, v) e = refl
overrun_status (lzo_error, v) e = absurd (ground arith)

module _ (attempt : ℕ → ZStatus × Bytes) (value : Bytes) (h : Decodes attempt value) where
  last_attempt : (room : ℕ) → if_z_ok (attempt room) ≡ if_fits room value
  unfolding if_z_ok
  last_attempt room = elim (Bool-cases (leb (length value) room)) [
    | inl e ↦ rw (e, h.enough room (leb→le (length value) room e)) refl
    | inr e ↦ rw e (no_room-none (attempt room) (h.small room (ground arith)))
  ]

  fits_later : (r s : ℕ) → r ≤ s → leb (length value) r ≡ true → if_fits s value ≡ some value
  fits_later r s l e = ground arith

  shifted : (factor left : ℕ) → suc factor + left ≡ factor + suc left
  shifted factor left = omega arith

  loop_lem :
      (len left factor : ℕ)
      → if_z_ok (uncompress_loop attempt len left factor)
        ≡ if_fits (len * 2 ^ (factor + left)) value
  unfolding uncompress_loop if_z_ok
  loop_lem len zero factor =
      last_attempt (len * 2 ^ factor)
      ∙ ap (λ (k : ℕ). if_fits (len * 2 ^ k) value) (sym (add-zero factor))
  loop_lem len (suc left) factor = elim (Bool-cases (leb (length value) (len * 2 ^ factor))) [
    | inl e ↦ rw (h.enough (len * 2 ^ factor) (leb→le (length value) (len * 2 ^ factor) e)) (
        sym (
          fits_later (len * 2 ^ factor) (len * 2 ^ (factor + suc left))
            (room_grows len factor (suc left)) e))
    | inr e ↦ rw (h.small (len * 2 ^ factor) (ground arith)) (
        loop_lem len left (suc factor)
        ∙ ap (λ (k : ℕ). if_fits (len * 2 ^ k) value) (shifted factor left))
  ]

-- What is relied on of the libraries: zlib's decoder and lzo's give back what was compressed, and tell
-- of a buffer that is too small.
pub record Lossless (codecs : Codecs) : Type 0 where
  pub zlib_levelled :
      (value : Bytes) (room : ℕ) (level : ℤ) (code : Bytes)
      → codecs.compress2 value room level ≡ (z_ok, code)
      → Decodes (codecs.uncompress code) value
  pub zlib :
      (value : Bytes) (room : ℕ) (code : Bytes)
      → codecs.compress value room ≡ (z_ok, code)
      → Decodes (codecs.uncompress code) value
  pub lzo_enough :
      (value code : Bytes) (room : ℕ)
      → codecs.lzo_compress value ≡ (lzo_ok, code)
      → length value ≤ room
      → codecs.lzo_decompress code room ≡ (lzo_ok, value)
  pub lzo_small :
      (value code : Bytes) (room : ℕ)
      → codecs.lzo_compress value ≡ (lzo_ok, code)
      → room < length value
      → (codecs.lzo_decompress code room).0 ≡ lzo_output_overrun

is_ok : (t : ZStatus × Bytes) (code : Bytes) → if_z_ok t ≡ some code → t ≡ (z_ok, code)
unfolding if_z_ok
is_ok (z_ok, value) code e = cc
is_ok (z_mem_error, value) code e = absurd (ground arith)
is_ok (z_buf_error, value) code e = absurd (ground arith)
is_ok (z_stream_error, value) code e = absurd (ground arith)
is_ok (z_data_error, value) code e = absurd (ground arith)

lzo_is_ok :
    (t : LzoStatus × Bytes) (code : Bytes)
    → lzo_compress_status t ≡ (z_ok, code)
    → t ≡ (lzo_ok, code)
unfolding lzo_compress_status
lzo_is_ok (lzo_ok, value) code e = cc
lzo_is_ok (lzo_output_overrun, value) code e = absurd (ground arith)
lzo_is_ok (lzo_error, value) code e = absurd (ground arith)

module _ (codecs : Codecs) (h : Lossless codecs) (value code : Bytes) (room : ℕ) (level : ℤ) where
  zlib-Decodes :
      (b : Bool) (level : ℤ)
      → zlib_compress codecs b value room level ≡ (z_ok, code)
      → Decodes (codecs.uncompress code) value
  unfolding zlib_compress
  zlib-Decodes true level e = h.zlib value room code e
  zlib-Decodes false level e = h.zlib_levelled value room level code e

  lzo-Decodes :
      codecs.lzo_compress value ≡ (lzo_ok, code)
      → Decodes (λ room. lzo_compress_status (codecs.lzo_decompress code room)) value
  unfolding lzo_compress_status
  lzo-Decodes e = record {
    enough = λ room l. ap lzo_compress_status (h.lzo_enough value code room e l);
    small = λ room l.
        overrun_status (codecs.lzo_decompress code room) (h.lzo_small value code room e l);
  }

  compressed-Decodes :
      (zlib bzip2 : Bool)
      → (zlib ≡ true) ⊎ (bzip2 ≡ false)
      → compress_by codecs zlib bzip2 value room level ≡ (z_ok, code)
      → Decodes (uncompress_by codecs zlib bzip2 code) value
  unfolding compress_by uncompress_by
  compressed-Decodes true bzip2 k e = zlib-Decodes _ _ e
  compressed-Decodes false false k e = lzo-Decodes (lzo_is_ok (codecs.lzo_compress value) code e)
  compressed-Decodes false true (inl q) e = absurd (ground arith)
  compressed-Decodes false true (inr q) e = absurd (ground arith)

-- What zlib or lzo compressed is read back as the value, if that is at most 2^15 times as long as its
-- code; the code of a longer value is not read back at all.
pub mmc_uncompress-compress :
    (codecs : Codecs) (level : ℤ) (value code : Bytes) (flags : ℕ)
    → Lossless codecs
    → (has_flag mmc_compressed flags ≡ true) ⊎ (has_flag mmc_compressed_bzip2 flags ≡ false)
    → mmc_compress codecs level value flags ≡ some code
    → mmc_uncompress codecs code flags ≡ if_fits (length code * 2 ^ 15) value
unfolding mmc_compress mmc_uncompress
mmc_uncompress-compress codecs level value code flags h k e =
    loop_lem (uncompress_by codecs zlib bzip2 code) value
      (compressed-Decodes codecs h value code room level zlib bzip2 k
        (is_ok (compress_by codecs zlib bzip2 value room level) code e))
      (length code) 14 1
  where
    zlib : Bool
    zlib = has_flag mmc_compressed flags

    bzip2 : Bool
    bzip2 = has_flag mmc_compressed_bzip2 flags

    room : ℕ
    room = compress_room (length value)
