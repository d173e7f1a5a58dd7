-- ===== src/Net/Search.antt =====
-- The first occurrence of a text, as `php_memnstr` finds it.
use php_pecl_memcache_zynga.Prelude.{
  ℕ, suc, ◌≡◌, refl, ◌↔◌, Bool, true, false, ◌||◌, [], ◌∷◌, Option, none, some, arith,
  if◌then◌else◌,
}
use php_pecl_memcache_zynga.Prelude.Bytes.{Bytes, starts_with, has_infix}
use php_pecl_memcache_zynga.Net.{FindsFirst}

cons_place : Option ℕ → Option ℕ
cons_place none = none
cons_place (some n) = some (suc n)

unfoldable pub search_text : Bytes → Bytes → Option ℕ
unfolding cons_place
search_text needle [] = if starts_with needle [] then some 0 else none
search_text needle (x ∷ xs) =
    let rest = cons_place (search_text needle xs) in
    if starts_with needle (x ∷ xs) then some 0 else rest

at_start_or : (b : Bool) (o : Option ℕ) → (if b then some 0 else cons_place o) ≡ some 0 → b ≡ true
unfolding cons_place
at_start_or true o h = refl
at_start_or false none h = cc h
at_start_or false (some n) h = ground arith

nothing_left :
    (b c : Bool) (o : Option ℕ)
    → (o ≡ none) ↔ (c ≡ false)
    → ((if b then some 0 else cons_place o) ≡ none) ↔ (b || c ≡ false)
unfolding cons_place
nothing_left true c o h = (λ e. cc e, λ e. cc e)
nothing_left false c none h = (λ e. h.0 refl, λ e. refl)
nothing_left false c (some n) h = (λ e. cc e, λ e. cc (h.1 e))

found_start : (b : Bool) (o : Option ℕ) → b ≡ true → (if b then some 0 else cons_place o) ≡ some 0
unfolding cons_place
found_start true o h = refl
found_start false o h = cc h

abbrev zero_if : Bool → Option ℕ
zero_if b = if b then some 0 else none

empty_start : (b : Bool) → (zero_if b ≡ some 0) ↔ (b ≡ true)
empty_start true = (λ e. refl, λ e. refl)
empty_start false = (λ e. cc e, λ e. cc e)

empty_absent : (b : Bool) → (zero_if b ≡ none) ↔ (b ≡ false)
empty_absent true = (λ e. cc e, λ e. cc e)
empty_absent false = (λ e. refl, λ e. refl)

search_text-start :
    (needle text : Bytes) → (search_text needle text ≡ some 0) ↔ (starts_with needle text ≡ true)
unfolding search_text
search_text-start needle [] = empty_start (starts_with needle [])
search_text-start needle (x ∷ xs) =
    (λ h. at_start_or _ (search_text needle xs) h, λ h. found_start _ (search_text needle xs) h)

search_text-absent :
    (needle text : Bytes) → (search_text needle text ≡ none) ↔ (has_infix needle text ≡ false)
unfolding search_text
search_text-absent needle [] = empty_absent (starts_with needle [])
search_text-absent needle (x ∷ xs) =
    nothing_left _ (has_infix needle xs) (search_text needle xs) (search_text-absent needle xs)

pub search_text-FindsFirst : FindsFirst search_text
search_text-FindsFirst = record { at_start = search_text-start; absent = search_text-absent }
