-- ===== src/Value/Body.antt =====
-- The loop that reads a value's bytes.
use php_pecl_memcache_zynga.Prelude.{
  ℕ, zero, suc, ◌-◌, [], ◌∷◌, ◌++◌, Option, none, some, length, take,
}
use php_pecl_memcache_zynga.Prelude.Bytes.{Bytes}
use php_pecl_memcache_zynga.Net.{Env, World, tick}

module _ (env : Env) where
  -- A call gives no bytes, or some of those that are left; then the rest is read.
  unfoldable pub read_more :
      (ℕ → Bytes → World → Option Bytes × World) → ℕ → Bytes → Bytes → World → Option Bytes × World
  read_more again left [] acc w = (none, w)
  read_more again left (c ∷ cs) acc w = again (left - suc (length cs)) (acc ++ (c ∷ cs)) w

  -- The loop with the bytes that are left, on as much fuel: every call but the last gives a byte.
  unfoldable pub read_from : ℕ → ℕ → Bytes → World → Option Bytes × World
  unfolding read_more
  read_from fuel zero acc w = (some acc, w)
  read_from zero (suc left) acc w = (none, w)
  read_from (suc fuel) (suc left) acc w =
      read_more (read_from fuel) (suc left) (take (suc left) (env.read w.calls (suc left))) acc
        (tick w)

  unfoldable pub read_body : ℕ → Bytes → World → Option Bytes × World
  unfolding read_from
  read_body size acc w = read_from size size acc w
