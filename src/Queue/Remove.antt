-- ===== src/Queue/Remove.antt =====
-- `mmc_queue_remove`: the loop that pops every item and pushes back those that stay.
use php_pecl_memcache_zynga.Prelude.{
  ℕ, zero, suc, ◌+◌, ◌<◌, ◌≡◌, ◌≢◌, refl, sym, ◌∙◌, ap, inl, inr, ◌++◌, List, [], ◌∷◌, arith, Bool,
  true, false, ◌==◌, if◌then◌else◌, Bool-cases, append-nil, append_assoc,
}
use php_pecl_memcache_zynga.Queue.{Queue, push, pop, release, remove, remove_loop}
use php_pecl_memcache_zynga.Queue.Ends.{IsValid, push-IsValid, pop-IsValid, release-IsValid}
use php_pecl_memcache_zynga.Queue.Refine.{contents, contents-push, pop_nil, pop_cons}
use php_pecl_memcache_zynga.Queue.Cells.{len-pop}

-- The items before the first NULL.
abbrev pub up_to_null : List ℕ → List ℕ
up_to_null [] = []
up_to_null (x ∷ xs) = if x == 0 then [] else x ∷ up_to_null xs

-- All items but those that equal `ptr`.
abbrev pub without : ℕ → List ℕ → List ℕ
without ptr [] = []
without ptr (x ∷ xs) = let rest = without ptr xs in if x == ptr then rest else x ∷ rest

module _ (junk ptr : ℕ) where
  -- What one round of the loop does to the new queue.
  keep : ℕ → Queue → Queue
  keep x q = if x == ptr then q else push junk q x

  keep-IsValid : (x : ℕ) (q : Queue) → IsValid q → IsValid (keep x q)
  unfolding keep
  keep-IsValid x q v = elim (Bool-cases (x == ptr)) [
    | inl e ↦ rw e v
    | inr e ↦ rw e (push-IsValid junk x v)
  ]

  contents-keep :
      (x : ℕ) (q : Queue) → IsValid q → contents (keep x q) ≡ contents q ++ without ptr (x ∷ [])
  unfolding keep
  contents-keep x q v = elim (Bool-cases (x == ptr)) [
    | inl e ↦ rw (e, append-nil)
    | inr e ↦ rw e (contents-push junk q x v)
  ]

  contents-keep_list :
      (x : ℕ) (q : Queue) (xs : List ℕ)
      → IsValid q
      → (x == 0) ≡ false
      → contents (keep x q) ++ without ptr (up_to_null xs)
        ≡ contents q ++ without ptr (up_to_null (x ∷ xs))
  contents-keep_list x q xs v e =
      ap (λ l. l ++ without ptr (up_to_null xs)) (contents-keep x q v)
      ∙ append_assoc (contents q) _ _
      ∙ ap (λ l. contents q ++ l) (rw e (step (x == ptr)))
    where
      step :
          (b : Bool)
          → (if b then [] else x ∷ []) ++ without ptr (up_to_null xs)
            ≡ (if b then without ptr (up_to_null xs) else x ∷ without ptr (up_to_null xs))
      step true = refl
      step false = refl

  -- The statement of the loop, at the pointer that `pop` gives and the items that are left.
  Moves : ℕ → Queue → Queue → Type 0
  Moves fuel o q =
      IsValid (remove_loop junk ptr fuel o q)
      × (contents (remove_loop junk ptr fuel o q)
          ≡ contents q ++ without ptr (up_to_null (contents o)))

  remove_loop-null :
      (fuel : ℕ) (o q : Queue) → ((pop o).0 == 0) ≡ true → remove_loop junk ptr (suc fuel) o q ≡ q
  unfolding remove_loop
  remove_loop-null fuel o q e = rw e

  remove_loop-next :
      (fuel : ℕ) (o q : Queue)
      → ((pop o).0 == 0) ≡ false
      → remove_loop junk ptr (suc fuel) o q ≡ remove_loop junk ptr fuel (pop o).1 (keep (pop o).0 q)
  unfolding remove_loop keep
  remove_loop-next fuel o q e = rw e

  len-pop_lt : (o : Queue) (fuel : ℕ) → o.len ≢ 0 → o.len < suc fuel → (pop o).1.len < fuel
  len-pop_lt o fuel h k = omega (arith, len-pop o)

  -- The loop has popped all items up to the first NULL, and pushed those that stay, in order.
  remove_loop-Moves :
      (fuel : ℕ) (o q : Queue) → IsValid o → IsValid q → o.len < fuel → Moves fuel o q
  unfolding Moves
  remove_loop-Moves zero o q v w h = absurd (omega arith)
  remove_loop-Moves (suc fuel) o q v w h = go (contents o) refl (λ ne.
      remove_loop-Moves fuel (pop o).1 (keep (pop o).0 q) (pop-IsValid v)
        (keep-IsValid (pop o).0 q w) (len-pop_lt o fuel ne h))
    where
      stop :
          ((pop o).0 == 0) ≡ true
          → without ptr (up_to_null (contents o)) ≡ []
          → Moves (suc fuel) o q
      stop e nil =
          rw (remove_loop-null fuel o q e)
            (w, sym (ap (λ l. contents q ++ l) nil ∙ append-nil (contents q)))

      go :
          (xs : List ℕ)
          → contents o ≡ xs
          → (o.len ≢ 0 → Moves fuel (pop o).1 (keep (pop o).0 q))
          → Moves (suc fuel) o q
      go [] e ih = stop (rw (pop_nil o v e)) (rw e)
      go (x ∷ xs) e ih =
          let (p, l, ne) = pop_cons o x xs v e in
          elim (Bool-cases (x == 0)) [
            | inl z ↦ stop (rw p z) (rw (e, z))
            | inr z ↦
                let more : ((pop o).0 == 0) ≡ false = rw p z in
                let (w', c) = ih ne in
                rw (remove_loop-next fuel o q more) (
                  w',
                  c
                      ∙ ap (λ k. contents (keep (pop o).0 q) ++ without ptr (up_to_null k)) l
                      ∙ contents-keep_list (pop o).0 q xs w more
                      ∙ ap (λ k. contents q ++ without ptr (up_to_null k))
                          (ap (λ y. y ∷ xs) p ∙ sym e),
                )
          ]

-- `mmc_queue_remove` keeps the order of the items and drops every one that equals the pointer; a NULL
-- among the items ends it, and what stands behind is lost. The new queue is valid.
pub remove_refines :
    (junk : ℕ) (q : Queue) (ptr : ℕ)
    → IsValid q
    → IsValid (remove junk q ptr)
      × (contents (remove junk q ptr) ≡ without ptr (up_to_null (contents q)))
unfolding remove Moves
remove_refines junk q ptr v =
    remove_loop-Moves junk ptr (q.len + 1) q release v release-IsValid (omega arith)
