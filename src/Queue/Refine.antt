-- ===== src/Queue/Refine.antt =====
-- The list that a ring buffer holds, oldest item first.
use php_pecl_memcache_zynga.Prelude.{
  ℕ, zero, suc, ◌+◌, ◌≡◌, refl, sym, ap, ap₂, ◌∙◌, ◌≢◌, ◌++◌, List, [], ◌∷◌, arith, Bool, true,
  false, ◌==◌, if◌then◌else◌, tabulate, tabulate-cong, tabulate-snoc,
}
use php_pecl_memcache_zynga.Queue.{Queue, item, push, pop, contains, contains_from}
use php_pecl_memcache_zynga.Queue.Ends.{IsValid, len-push}
use php_pecl_memcache_zynga.Queue.Cells.{item-push, item-push_last, pop_first, item-pop, len-pop}

-- The items in the order in which `mmc_queue_pop` gives them.
abbrev pub contents : Queue → List ℕ
contents q = tabulate q.len (item q)

-- `mmc_queue_push` appends the pointer to the items, growing the block where it is full.
pub contents-push :
    (junk : ℕ) (q : Queue) (x : ℕ) → IsValid q → contents (push junk q x) ≡ contents q ++ (x ∷ [])
contents-push junk q x v =
    ap (λ n. tabulate n (item (push junk q x))) {y = suc q.len} (omega (arith, len-push junk q x))
    ∙ tabulate-snoc q.len (item (push junk q x))
    ∙ ap₂ (λ xs y. xs ++ (y ∷ [])) (tabulate-cong q.len _ _ (λ i h. item-push junk q x i v h))
        (item-push_last junk q x v)

-- FIFO `pop` of a list, NULL for the empty one
abbrev pub pop_list : List ℕ → ℕ × List ℕ
pop_list [] = (0, [])
pop_list (x ∷ xs) = (x, xs)

contents-pop_of_suc :
    (q : Queue) (n : ℕ) → IsValid q → q.len ≡ suc n → contents q ≡ (pop q).0 ∷ contents (pop q).1
contents-pop_of_suc q n v e =
    ap (λ m. tabulate m (item q)) e
    ∙ ap₂ ◌∷◌ (sym (pop_first q v (omega arith))) (
        tabulate-cong n _ _ (λ i h. sym (item-pop q i v (omega arith)))
        ∙ ap (λ m. tabulate m (item (pop q).1)) (omega (arith, len-pop q)))

pop_empty : (q : Queue) → q.len ≡ 0 → pop q ≡ (0, q)
unfolding pop
pop_empty q e = ground arith

-- `mmc_queue_pop` takes the oldest item, and leaves the others in order; of an empty queue it gives
-- NULL and keeps it empty.
pub pop_refines : (q : Queue) → IsValid q → ((pop q).0, contents (pop q).1) ≡ pop_list (contents q)
pop_refines q v = go q.len refl
  where
    go : (n : ℕ) → q.len ≡ n → ((pop q).0, contents (pop q).1) ≡ pop_list (contents q)
    go zero e =
        let nil : contents q ≡ [] = ap (λ m. tabulate m (item q)) e in rw (pop_empty q e, nil)
    go (suc n) e = rw (contents-pop_of_suc q n v e)

pub pop_nil : (q : Queue) → IsValid q → contents q ≡ [] → (pop q).0 ≡ 0
pop_nil q v e = ap (λ r. r.0) (pop_refines q v) ∙ ap (λ xs. (pop_list xs).0) e

pub pop_cons :
    (q : Queue) (x : ℕ) (xs : List ℕ)
    → IsValid q
    → contents q ≡ x ∷ xs
    → ((pop q).0 ≡ x) × (contents (pop q).1 ≡ xs) × (q.len ≢ 0)
pop_cons q x xs v e = (
  ap (λ r. r.0) (pop_refines q v) ∙ ap (λ l. (pop_list l).0) e,
  ap (λ r. r.1) (pop_refines q v) ∙ ap (λ l. (pop_list l).1) e,
  λ z. cc (sym (ap (λ m. tabulate m (item q)) z) ∙ e),
)

-- Whether a list has an item.
abbrev pub elem : ℕ → List ℕ → Bool
elem x [] = false
elem x (y ∷ ys) = if y == x then true else elem x ys

contains_from-elem :
    (q : Queue) (x i n : ℕ) (f : ℕ → ℕ)
    → ((j : ℕ) → f j ≡ item q (i + j))
    → contains_from q x i n ≡ elem x (tabulate n f)
unfolding contains_from
contains_from-elem q x i zero f h = refl
contains_from-elem q x i (suc n) f h =
    let first : f 0 ≡ item q i = h 0 ∙ ap (item q) (omega arith) in
    let rest : contains_from q x (i + 1) n ≡ elem x (tabulate n (λ j. f (suc j))) =
      contains_from-elem q x (i + 1) n (λ j. f (suc j))
        (λ j. h (suc j) ∙ ap (item q) (omega arith)) in
    rw (first, rest)

-- `mmc_queue_contains` finds a pointer exactly when it is one of the items.
pub contains_refines : (q : Queue) (x : ℕ) → contains q x ≡ elem x (contents q)
unfolding contains
contains_refines q x = contains_from-elem q x 0 q.len (item q) (λ j. ap (item q) (omega arith))
