-- ===== src/Compress/Storing.antt =====
-- A library that stores a value behind a byte.
use php_pecl_memcache_zynga.Prelude.{
  ℕ, ◌≡◌, sym, ap, [], ◌∷◌, none, arith, leb, if◌then◌else◌, length,
}
use php_pecl_memcache_zynga.Prelude.Bytes.{Bytes}
use php_pecl_memcache_zynga.Compress.{
  ZStatus, z_ok, z_buf_error, z_data_error, LzoStatus, lzo_ok, lzo_output_overrun, Codecs,
}
use php_pecl_memcache_zynga.Compress.Round.{Decodes, Lossless}

abbrev pub unpack : Bytes → ℕ → ZStatus × Bytes
unpack [] room = (z_data_error, [])
unpack (c ∷ cs) room = if leb (length cs) room then (z_ok, cs) else (z_buf_error, [])

abbrev pub unpack_lzo : Bytes → ℕ → LzoStatus × Bytes
unpack_lzo [] room = (lzo_output_overrun, [])
unpack_lzo (c ∷ cs) room = if leb (length cs) room then (lzo_ok, cs) else (lzo_output_overrun, [])

abbrev pub storing : Codecs
storing = record {
  compress2 = λ v room level. (z_ok, 120 ∷ v);
  compress = λ v room. (z_ok, 120 ∷ v);
  uncompress = unpack;
  bz2_compress = λ v room. none;
  bz2_decompress_safe = λ v room. (z_data_error, []);
  lzo_compress = λ v. (lzo_ok, 120 ∷ v);
  lzo_decompress = unpack_lzo;
}

unpack-Decodes : (v code : Bytes) → code ≡ 120 ∷ v → Decodes (unpack code) v
unpack-Decodes v code e =
    rw e (record { enough = λ room l. ground arith; small = λ room l. ground arith })

second : {A : Type 0} (p q : A × Bytes) → p ≡ q → q.1 ≡ p.1
second {A = A} p q e = sym (ap (λ (t : A × Bytes). t.1) e)

pub storing-Lossless : Lossless storing
storing-Lossless = record {
  zlib_levelled =
      λ v room level code e. unpack-Decodes v code (second (z_ok, 120 ∷ v) (z_ok, code) e);
  zlib = λ v room code e. unpack-Decodes v code (second (z_ok, 120 ∷ v) (z_ok, code) e);
  lzo_enough = λ v code room e l. rw (second (lzo_ok, 120 ∷ v) (lzo_ok, code) e) (ground arith);
  lzo_small = λ v code room e l. rw (second (lzo_ok, 120 ∷ v) (lzo_ok, code) e) (ground arith);
}
