-- ===== src/Prelude/Bytes.antt =====
-- C strings and std::string as lists of bytes.
use Prim.Native.Char.{code}
use Prim.Native.String.{String}
use mathlib.Core.Path.{◌≡◌, refl, ap₂}
use mathlib.Core.Logic.{◌↔◌}
use mathlib.Core.Bool.{Bool, true, false, ◌||◌, ◌&&◌}
use mathlib.Core.List.{List, [], ◌∷◌, ◌++◌}
use Prim.Native.Nat.{ℕ}
use native.Mathlib.Omega.{arith}
use php_pecl_memcache_zynga.Prelude.Tests.{◌==◌, leb}

abbrev pub Bytes : Type 0
Bytes = List ℕ

-- The bytes of an ASCII literal.
abbrev pub bytes : String → Bytes
bytes String.[] = []
bytes (String.◌∷◌ c s) = code c ∷ bytes s

-- `strcmp(a, b) == 0`
abbrev pub bytes_eq : Bytes → Bytes → Bool
bytes_eq [] [] = true
bytes_eq [] (y ∷ ys) = false
bytes_eq (x ∷ xs) [] = false
bytes_eq (x ∷ xs) (y ∷ ys) = x == y && bytes_eq xs ys

-- `strncmp(a, b, strlen(b)) == 0`: the text begins with `b`
abbrev pub starts_with : Bytes → Bytes → Bool
starts_with [] xs = true
starts_with (y ∷ ys) [] = false
starts_with (y ∷ ys) (x ∷ xs) = x == y && starts_with ys xs

-- `haystack.find(needle) != npos`
abbrev pub has_infix : Bytes → Bytes → Bool
has_infix needle [] = starts_with needle []
has_infix needle (x ∷ xs) = starts_with needle (x ∷ xs) || has_infix needle xs

pub bytes_eq_iff : (a b : Bytes) → (bytes_eq a b ≡ true) ↔ (a ≡ b)
bytes_eq_iff [] [] = (λ h. refl, λ h. refl)
bytes_eq_iff [] (y ∷ ys) = (λ h. cc, λ h. cc)
bytes_eq_iff (x ∷ xs) [] = (λ h. cc, λ h. cc)
bytes_eq_iff (x ∷ xs) (y ∷ ys) = ground (arith, bytes_eq_iff xs ys)

-- A text begins with `b` exactly when it is `b` and a rest.
pub starts_with_sound : (b xs : Bytes) → starts_with b xs ≡ true → (rest : Bytes) × (xs ≡ b ++ rest)
starts_with_sound [] xs h = (xs, refl)
starts_with_sound (y ∷ ys) [] h = cc
starts_with_sound (y ∷ ys) (x ∷ xs) h =
    let e : x ≡ y = ground arith in
    let t : starts_with ys xs ≡ true = ground arith in
    let (rest, r) = starts_with_sound ys xs t in (rest, ap₂ ◌∷◌ e r)

pub starts_with-append : (b rest : Bytes) → starts_with b (b ++ rest) ≡ true
starts_with-append [] rest = refl
starts_with-append (y ∷ ys) rest = ground (arith, starts_with-append ys rest)

-- `isspace` in the C locale
abbrev pub is_space : ℕ → Bool
is_space c = c == 32 || leb 9 c && leb c 13

abbrev pub is_digit : ℕ → Bool
is_digit c = leb b'0' c && leb c b'9'
