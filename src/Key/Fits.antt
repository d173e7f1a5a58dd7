-- ===== src/Key/Fits.antt =====
-- What a prepared key reads as, and the size of the callers' buffers.
use php_pecl_memcache_zynga.Prelude.{
  ℕ, zero, suc, ◌<◌, ◌≤◌, ◌≡◌, refl, sym, ap, Bool, true, false, List, [], ◌∷◌, map, none, some,
  arith, ltb, ◌==◌, if◌then◌else◌, length,
}
use mathlib.Core.Path.{subst}
use php_pecl_memcache_zynga.Prelude.Bytes.{Bytes}
use php_pecl_memcache_zynga.Key.{
  clean, cons_to, store_at, fill, fill_terminated, Prepared, prepared, overrun, prepare_key_ex,
  key_max_size,
}

-- The C string in a buffer: its bytes before the first zero.
pub c_string : List ℕ → Bytes
c_string [] = []
c_string (x ∷ xs) = let rest = x ∷ c_string xs in if x == 0 then [] else rest

clean_pos : (c : ℕ) → (clean c == 0) ≡ false
unfolding clean
clean_pos c = ground arith

-- A buffer that takes the end of the key.
record Taken (key : Bytes) (buffer : List ℕ) : Type 0 where
  terminated : List ℕ
  stored : store_at buffer (length key) 0 ≡ some terminated
  reads : c_string (fill (length key) key terminated) ≡ map clean key

Taken-cons : (c x : ℕ) (cs xs : List ℕ) → Taken cs xs → Taken (c ∷ cs) (x ∷ xs)
unfolding store_at cons_to fill c_string
Taken-cons c x cs xs t = record {
  terminated = x ∷ t.terminated;
  stored = ap (cons_to x) t.stored;
  reads = read (clean c == 0) (clean_pos c);
}
  where
    filled : List ℕ
    filled = fill (length cs) cs t.terminated

    read :
        (b : Bool)
        → b ≡ false
        → (if b then [] else clean c ∷ c_string filled) ≡ clean c ∷ map clean cs
    read true e = cc e
    read false e = ap (λ (ys : List ℕ). clean c ∷ ys) t.reads

not_below : (n : ℕ) → n < 0 → ⊥
not_below n h = omega arith

length-Taken : (key : Bytes) (buffer : List ℕ) → length key < length buffer → Taken key buffer
unfolding store_at cons_to fill c_string
length-Taken [] [] h = elim (not_below 0 h) [ ]
length-Taken [] (x ∷ xs) h = record { terminated = 0 ∷ xs; stored = refl; reads = refl }
length-Taken (c ∷ cs) [] h = elim (not_below (length (c ∷ cs)) h) [ ]
length-Taken (c ∷ cs) (x ∷ xs) h = Taken-cons c x cs xs (length-Taken cs xs (omega arith))

not_empty : {n : ℕ} → suc n ≤ 0 → ⊥
not_empty h = omega arith

store_at-outside : (buffer : List ℕ) (i c : ℕ) → length buffer ≤ i → store_at buffer i c ≡ none
unfolding store_at cons_to
store_at-outside [] i c h = refl
store_at-outside (x ∷ xs) zero c h = elim (not_empty h) [ ]
store_at-outside (x ∷ xs) (suc i) c h = ap (cons_to x) (store_at-outside xs i c (omega arith))

-- What is left in the buffer reads as the key with its blanks and control characters replaced.
pub record Reads (key : Bytes) (p : Prepared) : Type 0 where
  pub buffer : List ℕ
  pub same : p ≡ prepared buffer (length key)
  pub reads : c_string buffer ≡ map clean key

-- A key that is not empty and has fewer than 250 bytes is written into a buffer of 250 bytes as a
-- C string that reads as the key, each byte up to the blank replaced by `_`; its length is kept.
pub prepare_key_ex-Reads :
    (key : Bytes) (buffer : List ℕ)
    → 0 < length key
    → length key < key_max_size
    → length buffer ≡ key_max_size
    → Reads key (prepare_key_ex key buffer)
unfolding prepare_key_ex fill_terminated
prepare_key_ex-Reads key buffer pos short size =
    subst (Reads key) (sym path)
      (record { buffer = fill (length key) key t.terminated; same = refl; reads = t.reads })
  where
    t : Taken key buffer
    t = length-Taken key buffer (omega arith)

    is_nonempty : (length key == 0) ≡ false
    is_nonempty = ground arith

    is_short : ltb (length key) key_max_size ≡ true
    is_short = ground arith

    path : prepare_key_ex key buffer ≡ prepared (fill (length key) key t.terminated) (length key)
    path = rw (is_nonempty, is_short, t.stored) refl

-- A key of 250 bytes or more ends one byte behind a buffer of 250 bytes.
pub prepare_key_ex-overrun :
    (key : Bytes) (buffer : List ℕ)
    → key_max_size ≤ length key
    → length buffer ≡ key_max_size
    → prepare_key_ex key buffer ≡ overrun
unfolding prepare_key_ex fill_terminated
prepare_key_ex-overrun key buffer long size =
    rw (is_nonempty, is_long, store_at-outside buffer key_max_size 0 (omega arith)) refl
  where
    is_nonempty : (length key == 0) ≡ false
    is_nonempty = ground arith

    is_long : ltb (length key) key_max_size ≡ false
    is_long = ground arith
