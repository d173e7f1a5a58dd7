-- ===== src/Key.antt =====
-- The keys sent to the servers: `mmc_prepare_key_ex` of memcache.cpp, which writes a key into the
-- caller's buffer.
pub mod Fits
mod Tests
use php_pecl_memcache_zynga.Prelude.{
  ℕ, zero, suc, ◌+◌, ◌<◌, ◌≤◌, Bool, true, false, List, [], ◌∷◌, Option, none, some, ltb, ◌==◌,
  if◌then◌else◌, length,
}
use php_pecl_memcache_zynga.Prelude.Bytes.{Bytes}

-- MMC_KEY_MAX_SIZE: the most bytes of a key, and the size of every caller's buffer
abbrev pub key_max_size : ℕ
key_max_size = 250

-- One byte of the key: blanks and control characters become `_`.
unfoldable pub clean : ℕ → ℕ
clean c = if ltb 32 c then c else b'_'

unfoldable pub cons_to : ℕ → Option (List ℕ) → Option (List ℕ)
cons_to x none = none
cons_to x (some xs) = some (x ∷ xs)

-- `buffer[i] = c`, `none` outside the buffer
unfoldable pub store_at : List ℕ → ℕ → ℕ → Option (List ℕ)
unfolding cons_to
store_at [] i c = none
store_at (x ∷ xs) zero c = some (c ∷ xs)
store_at (x ∷ xs) (suc i) c = cons_to x (store_at xs i c)

-- The loop: the first `n` bytes of the key, each in its place.
unfoldable pub fill : ℕ → Bytes → List ℕ → List ℕ
unfolding clean
fill zero key buffer = buffer
fill (suc n) [] buffer = buffer
fill (suc n) (c ∷ cs) [] = []
fill (suc n) (c ∷ cs) (x ∷ xs) = clean c ∷ fill n cs xs

-- MMC_OK with the buffer and `*result_len`, MMC_REQUEST_FAILURE, or a write behind the buffer
pub data Prepared : Type 0 where
  prepared : List ℕ → ℕ → Prepared
  request_failure : Prepared
  overrun : Prepared

unfoldable pub fill_terminated : Bytes → ℕ → Option (List ℕ) → Prepared
unfolding fill
fill_terminated key len none = overrun
fill_terminated key len (some buffer) = prepared (fill len key buffer) len

-- `mmc_prepare_key_ex`
unfoldable pub prepare_key_ex : Bytes → List ℕ → Prepared
unfolding fill_terminated store_at
prepare_key_ex key buffer =
    if length key == 0
    then request_failure
    else let len = if ltb (length key) key_max_size then length key else key_max_size in
      fill_terminated key len (store_at buffer len 0)
