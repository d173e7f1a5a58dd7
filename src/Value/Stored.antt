-- ===== src/Value/Stored.antt =====
-- What `mmc_pool_store` stores, `mmc_read_value` reads back from the server's reply.
use php_pecl_memcache_zynga.Prelude.{ℕ, suc, ◌≡◌, refl, Bool, true, false, ◌++◌, none, some, length}
use php_pecl_memcache_zynga.Prelude.Int.{pos}
use php_pecl_memcache_zynga.Prelude.Bytes.{Bytes, bytes}
use php_pecl_memcache_zynga.Net.{FindsFirst, World}
use php_pecl_memcache_zynga.Compress.{has_flag, mmc_compressed_bzip2}
use php_pecl_memcache_zynga.Compress.Round.{Lossless}
use php_pecl_memcache_zynga.Server.{stream_of}
use php_pecl_memcache_zynga.Store.Pack.{StoreEnv, Packed, any_compressed, pack, complete_checksum}
use php_pecl_memcache_zynga.Header.Decimal.{NoBlank}
use php_pecl_memcache_zynga.Header.Round.{parse_header-line}
use php_pecl_memcache_zynga.Header.Line.{cas_part, header_fields}
use php_pecl_memcache_zynga.Prelude.{sym, ◌∙◌, none, some, ◌<◌, ◌^◌}
use mathlib.Core.Path.{subst}
use php_pecl_memcache_zynga.Value.Arrives.{Arrives}
use php_pecl_memcache_zynga.Value.Round.{Recoverable, check_value-pack}
use php_pecl_memcache_zynga.Value.Checks.{reader}
use php_pecl_memcache_zynga.Value.Whole.{read-got}
use php_pecl_memcache_zynga.Value.{mmc_read_value}
use php_pecl_memcache_zynga.Value.Reply.{
  checksum_header-NoBlank, cas_part-EndsHex, sums_text, reply_line, pack-int, complete-same,
  below_31, wide,
}

-- A value that `mmc_pool_store` packs with checksums (algorithm 2) is read back by `mmc_read_value`
-- when the server replies with what was sent: a line of the key, the flags, the length, the sums and
-- the cas, and then the bytes of the text and the line's end, in pieces however they are cut. The
-- result is 1 with the value, compressed or not, and with the key and the cas. The conditions: the key
-- has no blank; the flags have neither bzip2's bit nor that of the old checksums; zlib and lzo give
-- back what they compressed; of a text that stays compressed, neither sum is 0, and the value is at
-- most 2 ^ 15 times as long; flags and length are an `int` and the cas an `unsigned long`; the
-- connection is open and agreed on algorithm 2.
pub mmc_read_value-stored :
    (e : StoreEnv) (value : Bytes) (saves : ℕ → ℕ → Bool) (flags : ℕ) (p : Packed)
    → Lossless e.codecs
    → FindsFirst e.env.memnstr
    → has_flag 8 flags ≡ false
    → has_flag mmc_compressed_bzip2 flags ≡ false
    → pack e (any_compressed flags) saves true true value flags 0 0 ≡ some p
    → (p.is_data ≡ true → Recoverable value p)
    → (in_multi with_cas : Bool) (key : Bytes) (cas i st : ℕ) (w : World) → flags < 2 ^ 31
    → length p.text < 2 ^ 31
    → cas < 2 ^ 64
    → NoBlank key
    → stream_of i w ≡ some st
    → (w.servers i).di_algo_in_use ≡ 2
    → e.env.line w.calls ≡ some (reply_line with_cas key (complete_checksum e true true p) cas)
    → Arrives e.env (suc w.calls) ((complete_checksum e true true p).text ++ bytes "\r\n")
    → (mmc_read_value (reader e) in_multi with_cas i w).0 ≡ (
        let q = complete_checksum e true true p in
        record {
          result = pos 1;
          code = none;
          value = some value;
          header =
              some
                (header_fields true with_cas key q.packed_flags (length q.text) (sums_text q) cas);
        })
mmc_read_value-stored e value saves flags p l ff old bz k r in_multi with_cas key cas i st w fl le
      ca nb s al line a =
    let q : Packed = complete_checksum e true true p in
    let same = complete-same e p in
    let small_flags : q.packed_flags < 2 ^ 31 =
      subst (λ (n : ℕ). n < 2 ^ 31) (sym same.0)
        (pack-int e (any_compressed flags) saves value flags p fl k) in
    let small_len : length q.text < 2 ^ 31 =
      subst (λ (t : Bytes). length t < 2 ^ 31) (sym same.1) le in
    read-got (reader e) i value in_multi with_cas st (reply_line with_cas key q cas)
      (header_fields true with_cas key q.packed_flags (length q.text) (sums_text q) cas) q.text w ff
      s al line refl
      (parse_header-line true with_cas key q.packed_flags (length q.text) (sums_text q) cas nb
          (checksum_header-NoBlank q.packed_crc32 q.packed_uncrc32)
          (wide q.packed_flags small_flags) (wide (length q.text) small_len) ca
        ∙ below_31 q.packed_flags (length q.text) _ small_flags small_len)
      refl a
      (check_value-pack e value (cas_part with_cas cas) saves flags p l old bz
        (cas_part-EndsHex with_cas cas) k r)
