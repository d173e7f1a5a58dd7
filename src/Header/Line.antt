-- ===== src/Header/Line.antt =====
-- A header line as a server prints it, and what its numbers are read as.
use php_pecl_memcache_zynga.Prelude.{
  ℕ, ◌≡◌, refl, ap, ◌∙◌, Bool, true, false, [], ◌∷◌, ◌++◌, Option, none, some, arith, ◌<◌, ◌^◌, ltb,
  not, ◌&&◌, Bool-cases, inl, inr, if◌then◌else◌,
}
use php_pecl_memcache_zynga.Prelude.Int.{ℤ, pos, ltb_ℤ}
use php_pecl_memcache_zynga.Prelude.Bytes.{Bytes, bytes}
use php_pecl_memcache_zynga.Prelude.Numbers.{
  atoi, strtol, strtoul, clamp_long, int_of_long, signed_int, unsigned_long, print_ℕ,
}
use php_pecl_memcache_zynga.Header.{Fields, Parsed, parsed, malformed, checked_fields}
use php_pecl_memcache_zynga.Header.Decimal.{EndsNumber, decimal-print}

-- "VALUE <key> <flags> <bytes>[ <checksum>][ <cas>]\r\n"
abbrev pub cas_part : Bool → ℕ → Bytes
cas_part true cas = 32 ∷ (print_ℕ cas ++ (13 ∷ 10 ∷ []))
cas_part false cas = 13 ∷ 10 ∷ []

abbrev pub last_parts : Bool → Bool → Bytes → ℕ → Bytes
last_parts true with_cas chksum cas = 32 ∷ (chksum ++ cas_part with_cas cas)
last_parts false with_cas chksum cas = cas_part with_cas cas

abbrev pub header_line : Bool → Bool → Bytes → ℕ → ℕ → Bytes → ℕ → Bytes
header_line checked with_cas key flags len chksum cas =
    bytes "VALUE "
    ++ (key
        ++ (32 ∷ (print_ℕ flags ++ (32 ∷ (print_ℕ len ++ last_parts checked with_cas chksum cas)))))

-- What the line says.
abbrev pub header_fields : Bool → Bool → Bytes → ℕ → ℕ → Bytes → ℕ → Fields
header_fields checked with_cas key flags len chksum cas = record {
  key = key;
  flags = pos flags;
  value_len = pos len;
  chksum = if checked then some (chksum ++ cas_part with_cas cas) else none;
  cas = if with_cas then some (pos cas) else none;
}

unfoldable pub make : Bytes → ℤ → ℤ → Option Bytes → Option ℤ → Parsed
make k f v c s = checked_fields (record { key = k; flags = f; value_len = v; chksum = c; cas = s })

pub make_cong :
    {k k' : Bytes} {f f' v v' : ℤ} {c c' : Option Bytes} {s s' : Option ℤ}
    → k ≡ k'
    → f ≡ f'
    → v ≡ v'
    → c ≡ c'
    → s ≡ s'
    → make k f v c s ≡ make k' f' v' c' s'
make_cong {k' = k'} {f} {f'} {v} {v'} {c} {c'} {s} e1 e2 e3 e4 e5 =
    ap (λ x. make x f v c s) e1
    ∙ (ap (λ x. make k' x v c s) e2
        ∙ (ap (λ x. make k' f' x c s) e3
            ∙ (ap (λ x. make k' f' v' x s) e4 ∙ ap (λ x. make k' f' v' c' x) e5)))

-- What a line with the fields is read as: a number from 2 ^ 31 on is a negative `int`.
abbrev pub read_as : Fields → ℕ → ℕ → Parsed
read_as fields flags len =
    if ltb flags (2 ^ 31) && ltb len (2 ^ 31) then parsed fields else malformed

signed_int-less : (n : ℕ) → ltb_ℤ (signed_int n) (pos 0) ≡ not (ltb n (2 ^ 31))
unfolding signed_int
signed_int-less n = ground arith

signed_int-small : (n : ℕ) → ltb n (2 ^ 31) ≡ true → signed_int n ≡ pos n
unfolding signed_int
signed_int-small n h = rw h refl

pub make-parsed :
    (k : Bytes) (f v : ℕ) (c : Option Bytes) (s : Option ℤ)
    → make k (signed_int f) (signed_int v) c s
      ≡ read_as (record { key = k; flags = pos f; value_len = pos v; chksum = c; cas = s }) f v
unfolding make checked_fields
make-parsed k f v c s =
    rw (signed_int-less f, signed_int-less v)
      (elim (Bool-cases (ltb f (2 ^ 31))) [
        | inl a ↦ elim (Bool-cases (ltb v (2 ^ 31))) [
          | inl b ↦ rw (a, b, signed_int-small f a, signed_int-small v b) refl
          | inr b ↦ rw (a, b) refl
        ]
        | inr a ↦ rw a refl
      ])

clamp-small : (n : ℕ) → n < 2 ^ 32 → clamp_long (pos n) ≡ pos n
unfolding clamp_long
clamp-small n l = ground arith

unsigned-small : (n : ℕ) → n < 2 ^ 64 → unsigned_long (pos n) ≡ n
unfolding unsigned_long
unsigned-small n l = ground arith

-- `atoi` and `strtoul` behind a blank.
pub atoi-print :
    (n : ℕ) (rest : Bytes)
    → n < 2 ^ 32
    → EndsNumber rest
    → atoi (32 ∷ (print_ℕ n ++ rest)) ≡ signed_int n
unfolding atoi strtol int_of_long
atoi-print n rest l h =
    ap (λ (z : ℤ). int_of_long (clamp_long z)) (decimal-print n rest h)
    ∙ (ap int_of_long (clamp-small n l) ∙ ap signed_int (omega (arith, l)))

pub strtoul-print :
    (n : ℕ) (rest : Bytes) → n < 2 ^ 64 → EndsNumber rest → strtoul (32 ∷ (print_ℕ n ++ rest)) ≡ n
unfolding strtoul
strtoul-print n rest l h = ap unsigned_long (decimal-print n rest h) ∙ unsigned-small n l
