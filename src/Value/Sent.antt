-- ===== src/Value/Sent.antt =====
-- The checksums' header that `mmc_pool_store` prints, as a read scans it.
use php_pecl_memcache_zynga.Prelude.{
  ℕ, ◌^◌, ◌<◌, ◌≡◌, refl, ap, ◌∙◌, true, false, ◌∷◌, ◌++◌, Option, some, arith, ◌==◌,
}
use php_pecl_memcache_zynga.Prelude.Int.{pos}
use php_pecl_memcache_zynga.Prelude.Bytes.{Bytes}
use php_pecl_memcache_zynga.Store.Request.{print_hex, checksum_header}
use php_pecl_memcache_zynga.Value.Scan.{digit_of, scan_hex, scan_next}
use php_pecl_memcache_zynga.Value.Hex.{EndsHex, scan_hex-print_hex}
use php_pecl_memcache_zynga.Value.Check.{
  Sums, found, pair_of, second_of, with_sums, with_metadata, new_sums,
}

-- The sums of a header in the new style.
abbrev pub new_sums_of : ℕ → ℕ → Sums
new_sums_of crc uncrc = record {
  crc = pos crc;
  uncrc = pos uncrc;
  hdr_len = 0;
  has_chksum = true;
  is_new = true;
}

pub print_hex_word :
    (n : ℕ) (rest : Bytes)
    → n < 2 ^ 32
    → EndsHex rest
    → scan_hex (print_hex 8 n ++ rest) ≡ some (n, rest)
print_hex_word n rest l h = scan_hex-print_hex 8 n rest (omega arith) l l h

-- A header whose numbers are read one after the other.
two_sums_read :
    (crc uncrc : ℕ) (text header behind next rest : Bytes)
    → scan_hex header ≡ some (2, 58 ∷ behind)
    → scan_hex behind ≡ some (crc, 58 ∷ next)
    → scan_hex next ≡ some (uncrc, rest)
    → new_sums 2 true text (some header) ≡ found (new_sums_of crc uncrc)
unfolding new_sums with_metadata scan_next
two_sums_read crc uncrc text header behind next rest a b c =
    ap (with_metadata 2 true text) a
    ∙ (ap (λ (o : Option (ℕ × Bytes)). with_sums 2 2 text 133 (second_of o)) b
        ∙ ap (λ (o : Option (ℕ × Bytes)). with_sums 2 2 text 133 (pair_of crc o)) c)

one_sum_read :
    (uncrc : ℕ) (text header behind rest : Bytes)
    → scan_hex header ≡ some (2, 58 ∷ behind)
    → scan_hex behind ≡ some (uncrc, rest)
    → new_sums 2 false text (some header) ≡ found (new_sums_of 0 uncrc)
unfolding new_sums with_metadata scan_next
one_sum_read uncrc text header behind rest a c =
    ap (with_metadata 2 false text) a
    ∙ ap (λ (o : Option (ℕ × Bytes)). with_sums 2 2 text 134 (pair_of 0 o)) c

two_sums_text :
    (crc uncrc : ℕ) (rest : Bytes)
    → (crc == 0) ≡ false
    → checksum_header 2 crc uncrc ++ rest
      ≡ print_hex 4 2 ++ (58 ∷ (print_hex 8 crc ++ (58 ∷ (print_hex 8 uncrc ++ rest))))
unfolding checksum_header
two_sums_text crc uncrc rest n = rw n refl

pub one_sum_text :
    (uncrc : ℕ) (rest : Bytes)
    → checksum_header 2 0 uncrc ++ rest ≡ print_hex 4 2 ++ (58 ∷ (print_hex 8 uncrc ++ rest))
unfolding checksum_header
one_sum_text uncrc rest = refl

pub algo_read : (rest : Bytes) → scan_hex (print_hex 4 2 ++ (58 ∷ rest)) ≡ some (2, 58 ∷ rest)
unfolding digit_of
algo_read rest = scan_hex-print_hex 4 2 (58 ∷ rest) (omega arith) (omega arith) (omega arith) refl

pub new_sums-two :
    (crc uncrc : ℕ) (text rest : Bytes)
    → crc < 2 ^ 32
    → uncrc < 2 ^ 32
    → (crc == 0) ≡ false
    → EndsHex rest
    → new_sums 2 true text (some (checksum_header 2 crc uncrc ++ rest))
      ≡ found (new_sums_of crc uncrc)
unfolding digit_of
new_sums-two crc uncrc text rest a b n h =
    ap (λ (t : Bytes). new_sums 2 true text (some t)) (two_sums_text crc uncrc rest n)
    ∙ two_sums_read crc uncrc text _ _ _ rest (algo_read _)
        (print_hex_word crc (58 ∷ (print_hex 8 uncrc ++ rest)) a refl)
        (print_hex_word uncrc rest b h)

pub new_sums-one :
    (uncrc : ℕ) (text rest : Bytes)
    → uncrc < 2 ^ 32
    → EndsHex rest
    → new_sums 2 false text (some (checksum_header 2 0 uncrc ++ rest)) ≡ found (new_sums_of 0 uncrc)
new_sums-one uncrc text rest b h =
    ap (λ (t : Bytes). new_sums 2 false text (some t)) (one_sum_text uncrc rest)
    ∙ one_sum_read uncrc text _ _ rest (algo_read _) (print_hex_word uncrc rest b h)
