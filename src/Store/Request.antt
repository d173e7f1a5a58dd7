-- ===== src/Store/Request.antt =====
-- The texts of a store: flags, the checksums' header and the request line.
use php_pecl_memcache_zynga.Prelude.{
  ℕ, zero, suc, ◌+◌, ◌-◌, ◌/◌, ◌%◌, List, [], ◌∷◌, ◌++◌, Option, none, some, ltb, ◌==◌,
  if◌then◌else◌, length,
}
use php_pecl_memcache_zynga.Prelude.Int.{ℤ}
use php_pecl_memcache_zynga.Prelude.Bytes.{Bytes, bytes, bytes_eq}
use php_pecl_memcache_zynga.Prelude.Numbers.{print_ℤ, print_ℕ}
use php_pecl_memcache_zynga.Compress.{has_flag}

-- `flags |= bit` and `flags &= ~bit`
unfoldable pub set_flag : ℕ → ℕ → ℕ
set_flag bit flags = if has_flag bit flags then flags else flags + bit

unfoldable pub clear_flag : ℕ → ℕ → ℕ
clear_flag bit flags = if has_flag bit flags then flags - bit else flags

unfoldable pub hex_digit : ℕ → ℕ
hex_digit d = if ltb d 10 then 48 + d else 87 + d

-- The last digits of a number in base 16.
unfoldable pub hex_digits : ℕ → ℕ → Bytes → Bytes
unfolding hex_digit
hex_digits zero n acc = acc
hex_digits (suc count) n acc = hex_digits count (n / 16) (hex_digit (n % 16) ∷ acc)

-- `sprintf("%.4x")` of a number below 2^16, `sprintf("%.8x")` of one below 2^32
unfoldable pub print_hex : ℕ → ℕ → Bytes
unfolding hex_digits
print_hex count n = hex_digits count n []

-- `crc_in_hdr` where the server takes checksums.
unfoldable pub checksum_header : ℕ → ℕ → ℕ → Bytes
unfolding print_hex
checksum_header algo crc32 uncrc32 =
    print_hex 4 algo
    ++ (bytes ":"
        ++ (if has_flag 1 algo
            then []
            else if crc32 == 0
            then print_hex 8 uncrc32
            else print_hex 8 crc32 ++ (bytes ":" ++ print_hex 8 uncrc32)))

-- The request line and the value behind it.
unfoldable pub store_request : Bytes → Bytes → ℕ → ℤ → Bytes → ℕ → Bytes → Bytes
store_request command key flags expire crc_in_hdr cas value =
    let sizes =
      bytes " "
      ++ (print_ℕ flags
          ++ (bytes " "
              ++ (print_ℤ expire
                  ++ (bytes " " ++ (print_ℕ (length value) ++ (bytes " " ++ crc_in_hdr)))))) in
    (if cas == 0
      then command ++ (bytes " " ++ (key ++ (sizes ++ (13 ∷ 10 ∷ []))))
      else bytes "cas "
        ++ (key
            ++ (sizes ++ (bytes " " ++ (print_ℕ cas ++ (bytes " returncas" ++ (13 ∷ 10 ∷ [])))))))
    ++ (value ++ (13 ∷ 10 ∷ []))

-- `zend_hash_find` and `zend_hash_del`
unfoldable pub lookup_cas : Bytes → List (Bytes × ℕ) → Option ℕ
lookup_cas key [] = none
lookup_cas key ((k, v) ∷ rest) =
    let later = lookup_cas key rest in if bytes_eq k key then some v else later

unfoldable pub remove_cas : Bytes → List (Bytes × ℕ) → List (Bytes × ℕ)
remove_cas key [] = []
remove_cas key ((k, v) ∷ rest) =
    let later = remove_cas key rest in if bytes_eq k key then later else (k, v) ∷ later
