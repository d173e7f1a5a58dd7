-- ===== src/Header/Words.antt =====
-- The blanks of a line of words, and the words between them.
use php_pecl_memcache_zynga.Prelude.{
  ℕ, zero, suc, ◌+◌, ◌≡◌, refl, sym, ap, ap₂, ◌∙◌, List, [], ◌∷◌, ◌++◌, arith, length, take, drop,
}
use php_pecl_memcache_zynga.Prelude.Bytes.{Bytes}
use php_pecl_memcache_zynga.Header.{spaces_from}
use php_pecl_memcache_zynga.Header.Decimal.{NoBlank}

cons_eq : {a b : ℕ} {xs ys : List ℕ} → a ≡ b → xs ≡ ys → a ∷ xs ≡ b ∷ ys
cons_eq e f = ap₂ (λ (k : ℕ) (l : List ℕ). k ∷ l) e f

-- The first blank stands behind the first word.
pub spaces_from-word :
    (n i : ℕ) (word rest : Bytes)
    → NoBlank word
    → spaces_from (suc n) i (word ++ (32 ∷ rest))
      ≡ (i + length word) ∷ spaces_from n (i + length word + 1) rest
unfolding spaces_from
spaces_from-word n i [] rest h = cons_eq (omega arith) (shift (omega arith))
  where
    shift : {a b : ℕ} → a ≡ b → spaces_from n a rest ≡ spaces_from n b rest
    shift e = ap (λ (k : ℕ). spaces_from n k rest) e
spaces_from-word n i (c ∷ cs) rest (b, h) =
    rw b (spaces_from-word n (i + 1) cs rest h ∙ cons_eq (omega arith) (shift (omega arith)))
  where
    shift : {a b : ℕ} → a ≡ b → spaces_from n a rest ≡ spaces_from n b rest
    shift e = ap (λ (k : ℕ). spaces_from n k rest) e

drop-nil : (n : ℕ) → drop {A = ℕ} n [] ≡ []
drop-nil zero = refl
drop-nil (suc n) = refl

drop_cong : {a b : ℕ} (xs : Bytes) → a ≡ b → drop a xs ≡ drop b xs
drop_cong xs e = ap (λ (k : ℕ). drop k xs) e

drop-add : (a b : ℕ) (xs : Bytes) → drop (a + b) xs ≡ drop b (drop a xs)
drop-add zero b xs = drop_cong xs (omega arith)
drop-add (suc a) b [] = drop-nil (suc a + b) ∙ sym (drop-nil b)
drop-add (suc a) b (x ∷ xs) = drop_cong {b = suc (a + b)} (x ∷ xs) (omega arith) ∙ drop-add a b xs

drop-append : (xs ys : Bytes) → drop (length xs) (xs ++ ys) ≡ ys
drop-append [] ys = refl
drop-append (x ∷ xs) ys = drop-append xs ys

-- What stands behind a word of the line.
pub drop-word :
    (line : Bytes) (i : ℕ) (word rest : Bytes)
    → drop i line ≡ word ++ rest
    → drop (i + length word) line ≡ rest
drop-word line i word rest e =
    drop-add i (length word) line ∙ (ap (drop (length word)) e ∙ drop-append word rest)

pub drop-blank :
    (line : Bytes) (i : ℕ) (rest : Bytes) → drop i line ≡ 32 ∷ rest → drop (i + 1) line ≡ rest
drop-blank line i rest e = drop-add i 1 line ∙ ap (drop 1) e

pub take-append : (xs ys : Bytes) → take (length xs) (xs ++ ys) ≡ xs
take-append [] ys = refl
take-append (x ∷ xs) ys = ap (λ (l : Bytes). x ∷ l) (take-append xs ys)
