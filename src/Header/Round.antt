-- ===== src/Header/Round.antt =====
-- Header lines as a server prints them, and what is read back.
use php_pecl_memcache_zynga.Prelude.{
  ℕ, suc, ◌+◌, ◌-◌, ◌≡◌, refl, ap, ◌∙◌, Bool, true, false, List, ◌∷◌, ◌++◌, Option, none, some,
  arith, ◌<◌, ◌^◌, ◌==◌, if◌then◌else◌, length, take, drop,
}
use php_pecl_memcache_zynga.Prelude.Int.{ℤ, pos}
use php_pecl_memcache_zynga.Prelude.Bytes.{Bytes, bytes}
use php_pecl_memcache_zynga.Prelude.Numbers.{atoi, strtoul, signed_int, print_ℕ}
use php_pecl_memcache_zynga.Header.{
  empty_response, spaces_from, parse_header, parse_fields, fields_at, blanks,
}
use php_pecl_memcache_zynga.Header.Decimal.{EndsNumber, NoBlank, print-NoBlank}
use php_pecl_memcache_zynga.Header.Words.{spaces_from-word, drop-word, drop-blank, take-append}
use php_pecl_memcache_zynga.Header.Line.{
  last_parts, header_line, header_fields, make, make_cong, read_as, make-parsed, atoi-print,
  strtoul-print,
}

-- The places of a line's blanks, and the texts behind them.
module _ (checked with_cas : Bool) (key : Bytes) (flags len : ℕ) (chksum : Bytes) (cas : ℕ) where
  line : Bytes
  line = header_line checked with_cas key flags len chksum cas

  tail : Bytes
  tail = last_parts checked with_cas chksum cas

  p1 : ℕ
  p1 = 6 + length key

  p2 : ℕ
  p2 = p1 + 1 + length (print_ℕ flags)

  p3 : ℕ
  p3 = p2 + 1 + length (print_ℕ len)

  p4 : ℕ
  p4 = p3 + 1 + length chksum

  three_spaces :
      (n : ℕ)
      → NoBlank key
      → spaces_from (suc (suc (suc n))) 0 line
        ≡ 5 ∷ (p1 ∷ (p2 ∷ spaces_from n (p2 + 1) (print_ℕ len ++ tail)))
  unfolding line tail p1 p2
  three_spaces n h =
      spaces_from-word (suc (suc n)) 0 (bytes "VALUE") _ (refl, (refl, (refl, (refl, (refl, tt)))))
      ∙ ap (λ l. 5 ∷ l)
          (spaces_from-word (suc n) 6 key _ h
            ∙ ap (λ l. (6 + length key) ∷ l)
                (spaces_from-word n (6 + length key + 1) (print_ℕ flags) _ (print-NoBlank flags)))

  behind_key : drop p1 line ≡ 32 ∷ (print_ℕ flags ++ (32 ∷ (print_ℕ len ++ tail)))
  unfolding line tail p1
  behind_key = drop-word line 6 key _ refl

  behind_flags : drop p2 line ≡ 32 ∷ (print_ℕ len ++ tail)
  unfolding line tail p1 p2
  behind_flags = drop-word line (p1 + 1) (print_ℕ flags) _ (drop-blank line p1 _ behind_key)

  behind_len : drop p3 line ≡ tail
  unfolding line tail p1 p2 p3
  behind_len = drop-word line (p2 + 1) (print_ℕ len) _ (drop-blank line p2 _ behind_flags)

  key_read : take (p1 - 5 - 1) (drop (5 + 1) line) ≡ key
  unfolding line p1
  key_read = ap (λ (k : ℕ). take k (drop 6 line)) (counted) ∙ take-append key _
    where
      counted : 6 + length key - 5 - 1 ≡ length key
      counted = omega arith

  tail-EndsNumber : EndsNumber tail
  unfolding tail
  tail-EndsNumber = ends checked with_cas
    where
      ends : (b c : Bool) → EndsNumber (last_parts b c chksum cas)
      ends true c = refl
      ends false true = refl
      ends false false = refl

  flags_read : flags < 2 ^ 32 → atoi (drop p1 line) ≡ signed_int flags
  flags_read l = ap atoi behind_key ∙ atoi-print flags _ l refl

  len_read : len < 2 ^ 32 → atoi (drop p2 line) ≡ signed_int len
  len_read l = ap atoi behind_flags ∙ atoi-print len tail l tail-EndsNumber

  line_nonempty : (length line == 0) ≡ false
  unfolding line
  line_nonempty = ground arith

  -- The fields at the places found, before the checksum and the cas.
  parse_found :
      (spaces : List ℕ)
      → spaces_from (blanks checked with_cas) 0 line ≡ spaces
      → parse_fields line checked with_cas spaces
        ≡ read_as (header_fields checked with_cas key flags len chksum cas) flags len
      → parse_header checked with_cas line
        ≡ read_as (header_fields checked with_cas key flags len chksum cas) flags len
  unfolding parse_header line
  parse_found spaces e f =
      ap
        (λ (b : Bool).
          if b
          then empty_response
          else parse_fields line checked with_cas (spaces_from (blanks checked with_cas) 0 line))
        line_nonempty
      ∙ (ap (parse_fields line checked with_cas) e ∙ f)

  -- What is read at the places, with the checksum and the cas given.
  read_at :
      (c c' : Option Bytes) (s s' : Option ℤ)
      → c ≡ c'
      → s ≡ s'
      → flags < 2 ^ 32
      → len < 2 ^ 32
      → make (take (p1 - 5 - 1) (drop (5 + 1) line)) (atoi (drop p1 line)) (atoi (drop p2 line)) c s
        ≡ read_as
            (record { key = key; flags = pos flags; value_len = pos len; chksum = c'; cas = s' })
            flags
            len
  read_at c c' s s' e f a b =
      make_cong key_read (flags_read a) (len_read b) e f ∙ make-parsed key flags len c' s'

  -- One more word behind the length.
  four_spaces :
      (n : ℕ) (rest : Bytes)
      → NoBlank key
      → tail ≡ 32 ∷ rest
      → spaces_from (suc (suc (suc (suc n)))) 0 line
        ≡ 5 ∷ (p1 ∷ (p2 ∷ (p3 ∷ spaces_from n (p3 + 1) rest)))
  unfolding p3
  four_spaces n rest h e =
      three_spaces (suc n) h
      ∙ ap (λ (l : List ℕ). 5 ∷ (p1 ∷ (p2 ∷ l)))
          (ap (λ (t : Bytes). spaces_from (suc n) (p2 + 1) (print_ℕ len ++ t)) e
            ∙ spaces_from-word n (p2 + 1) (print_ℕ len) rest (print-NoBlank len))

  behind_chksum : (rest : Bytes) → tail ≡ 32 ∷ (chksum ++ rest) → drop p4 line ≡ rest
  unfolding p4
  behind_chksum rest e =
      drop-word line (p3 + 1) chksum rest (drop-blank line p3 (chksum ++ rest) (behind_len ∙ e))

-- The header line that a server prints for a value, with a checksum where one is in use and a cas
-- where one is asked for, is read back if flags and length are below 2 ^ 31: the key, the flags, the
-- length, the cas, and the text from the checksum on. If one of them is from 2 ^ 31 on, the line is
-- refused as malformed, though 32 bits hold it. Key and checksum have no blank in them; flags and length
-- are below 2 ^ 32, and the cas below 2 ^ 64.
pub parse_header-line :
    (checked with_cas : Bool) (key : Bytes) (flags len : ℕ) (chksum : Bytes) (cas : ℕ)
    → NoBlank key
    → NoBlank chksum
    → flags < 2 ^ 32
    → len < 2 ^ 32
    → cas < 2 ^ 64
    → parse_header checked with_cas (header_line checked with_cas key flags len chksum cas)
      ≡ read_as (header_fields checked with_cas key flags len chksum cas) flags len
unfolding line tail p1 p2 p3 p4 parse_fields fields_at make spaces_from
parse_header-line false false key flags len chksum cas h g a b d =
    parse_found false false key flags len chksum cas _
      (three_spaces false false key flags len chksum cas 0 h)
      (read_at false false key flags len chksum cas none none none none refl refl a b)
parse_header-line false true key flags len chksum cas h g a b d =
    parse_found false true key flags len chksum cas _
      (four_spaces false true key flags len chksum cas 0 _ h refl)
      (read_at false true key flags len chksum cas none none _ _ refl
        (ap some (
          ap (λ (t : Bytes). pos (strtoul t)) (behind_len false true key flags len chksum cas)
          ∙ ap pos (strtoul-print cas _ d refl)))
        a b)
parse_header-line true false key flags len chksum cas h g a b d =
    parse_found true false key flags len chksum cas _
      (four_spaces true false key flags len chksum cas 0 _ h refl)
      (read_at true false key flags len chksum cas _ _ none none
        (ap some (
          drop-blank _ (p3 true false key flags len chksum cas) _
            (behind_len true false key flags len chksum cas)))
        refl a b)
parse_header-line true true key flags len chksum cas h g a b d =
    parse_found true true key flags len chksum cas _
      (four_spaces true true key flags len chksum cas 1 _ h refl
        ∙ ap
            (λ (l : List ℕ).
              5
              ∷ (p1 true true key flags len chksum cas
                  ∷ (p2 true true key flags len chksum cas
                      ∷ (p3 true true key flags len chksum cas ∷ l))))
            (spaces_from-word 0 _ chksum _ g))
      (read_at true true key flags len chksum cas _ _ _ _
        (ap some (
          drop-blank _ (p3 true true key flags len chksum cas) _
            (behind_len true true key flags len chksum cas)))
        (ap some (
          ap (λ (t : Bytes). pos (strtoul t))
            (behind_chksum true true key flags len chksum cas _ refl)
          ∙ ap pos (strtoul-print cas _ d refl)))
        a b)
