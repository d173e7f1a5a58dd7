-- ===== src/Value/Arrives.antt =====
-- The loop that reads a value's bytes: what arrives in pieces is put together.
use php_pecl_memcache_zynga.Prelude.{
  ℕ, zero, suc, ◌-◌, ◌≤◌, ◌≡◌, refl, sym, ap, ◌∙◌, [], ◌∷◌, ◌++◌, some, arith, length, take,
  append-nil, append_assoc, length-append,
}
use mathlib.Core.Path.{subst}
use php_pecl_memcache_zynga.Prelude.Bytes.{Bytes}
use php_pecl_memcache_zynga.Net.{Env, World, tick}
use php_pecl_memcache_zynga.Value.Body.{read_more, read_from, read_body}

-- The calls from the `k`-th on give the text in pieces, each of a byte or more.
pub data Arrives (env : Env) : ℕ → Bytes → Type 0 where
  nothing : (k : ℕ) → Arrives env k []
  piece :
      (k c : ℕ) (cs rest : Bytes)
      → env.read k (length (c ∷ (cs ++ rest))) ≡ c ∷ cs
      → Arrives env (suc k) rest
      → Arrives env k (c ∷ (cs ++ rest))

take-part : (cs rest : Bytes) → take (length (cs ++ rest)) cs ≡ cs
take-part [] rest = take-nil (length rest)
  where
    take-nil : (n : ℕ) → take {A = ℕ} n [] ≡ []
    take-nil zero = refl
    take-nil (suc n) = refl
take-part (c ∷ cs) rest = ap (λ (t : Bytes). c ∷ t) (take-part cs rest)

left_of : (cs rest : Bytes) → suc (length (cs ++ rest)) - suc (length cs) ≡ length rest
left_of cs rest = omega (arith, length-append cs rest)

read_from-Arrives :
    (env : Env) (fuel k : ℕ) (text acc : Bytes) (w : World)
    → length text ≤ fuel
    → k ≡ w.calls
    → Arrives env k text
    → (read_from env fuel (length text) acc w).0 ≡ some (acc ++ text)
unfolding read_from read_more
read_from-Arrives env zero k _ acc w l e (nothing _) = ap some (sym (append-nil acc))
read_from-Arrives env (suc fuel) k _ acc w l e (nothing _) = ap some (sym (append-nil acc))
read_from-Arrives env zero k _ acc w l e (piece _ c cs rest r a) = absurd (omega (arith, l))
read_from-Arrives env (suc fuel) k _ acc w l e (piece _ c cs rest r a) =
    let size : ℕ = length (cs ++ rest) in
    ap (λ (t : Bytes). (read_more env (read_from env fuel) (suc size) t acc (tick w)).0)
      (ap (take (suc size)) (subst (λ (n : ℕ). env.read n (suc size) ≡ c ∷ cs) e r)
        ∙ ap (λ (t : Bytes). c ∷ t) (take-part cs rest))
    ∙ (ap (λ (n : ℕ). (read_from env fuel n (acc ++ (c ∷ cs)) (tick w)).0) (left_of cs rest)
        ∙ (read_from-Arrives env fuel (suc k) rest (acc ++ (c ∷ cs)) (tick w)
              (omega (arith, l, length-append cs rest)) (ap suc e) a
            ∙ ap some (append_assoc acc (c ∷ cs) rest)))

-- If the stream gives the bytes of a text in pieces, of a byte or more each and however they are cut,
-- then the loop of `mmc_read_value` that reads as many bytes ends with that text.
pub read_body-Arrives :
    (env : Env) (text : Bytes) (w : World)
    → Arrives env w.calls text
    → (read_body env (length text) [] w).0 ≡ some text
unfolding read_body
read_body-Arrives env text w a =
    read_from-Arrives env (length text) w.calls text [] w (omega arith) refl a
