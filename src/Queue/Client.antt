-- ===== src/Queue/Client.antt =====
-- Sequences of calls on a queue, against a plain list.
use php_pecl_memcache_zynga.Prelude.{ℕ, ◌≡◌, refl, ap, ap₂, ◌∙◌, ◌++◌, List, [], ◌∷◌, Bool}
use php_pecl_memcache_zynga.Queue.{Queue, push, pop, contains, remove}
use php_pecl_memcache_zynga.Queue.Ends.{IsValid, push-IsValid, pop-IsValid}
use php_pecl_memcache_zynga.Queue.Refine.{
  contents, contents-push, pop_list, pop_refines, elem, contains_refines,
}
use php_pecl_memcache_zynga.Queue.Remove.{up_to_null, without, remove_refines}

-- What the callers of the queue do.
pub data Op : Type 0 where
  push_op remove_op contains_op : ℕ → Op
  pop_op : Op

-- What a caller sees of a call.
pub data Reply : Type 0 where
  done : Reply
  popped : ℕ → Reply
  found : Bool → Reply

pub run : ℕ → Queue → List Op → List Reply
run junk q [] = []
run junk q (push_op x ∷ ops) = done ∷ run junk (push junk q x) ops
run junk q (remove_op x ∷ ops) = done ∷ run junk (remove junk q x) ops
run junk q (contains_op x ∷ ops) = found (contains q x) ∷ run junk q ops
run junk q (pop_op ∷ ops) = let (x, q') = pop q in popped x ∷ run junk q' ops

-- The same calls on a list, oldest item first.
pub run_list : List ℕ → List Op → List Reply
run_list xs [] = []
run_list xs (push_op x ∷ ops) = done ∷ run_list (xs ++ (x ∷ [])) ops
run_list xs (remove_op x ∷ ops) = done ∷ run_list (without x (up_to_null xs)) ops
run_list xs (contains_op x ∷ ops) = found (elem x xs) ∷ run_list xs ops
run_list xs (pop_op ∷ ops) = let (x, xs') = pop_list xs in popped x ∷ run_list xs' ops

-- No sequence of calls tells a valid ring buffer from the list of its items, whatever the cells that
-- `erealloc` adds hold.
pub run_refines :
    (junk : ℕ) (ops : List Op) (q : Queue) → IsValid q → run junk q ops ≡ run_list (contents q) ops
unfolding run run_list
run_refines junk [] q v = refl
run_refines junk (push_op x ∷ ops) q v =
    ap (λ r. done ∷ r)
      (run_refines junk ops (push junk q x) (push-IsValid junk x v)
        ∙ ap (λ xs. run_list xs ops) (contents-push junk q x v))
run_refines junk (remove_op x ∷ ops) q v =
    let (w, c) = remove_refines junk q x v in
    ap (λ r. done ∷ r) (run_refines junk ops (remove junk q x) w ∙ ap (λ xs. run_list xs ops) c)
run_refines junk (contains_op x ∷ ops) q v =
    ap₂ (λ b r. found b ∷ r) (contains_refines q x) (run_refines junk ops q v)
run_refines junk (pop_op ∷ ops) q v =
    ap (λ r. popped (pop q).0 ∷ r) (run_refines junk ops (pop q).1 (pop-IsValid v))
    ∙ ap (λ (r : ℕ × List ℕ). popped r.0 ∷ run_list r.1 ops) (pop_refines q v)
