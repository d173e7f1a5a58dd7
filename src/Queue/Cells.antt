-- ===== src/Queue/Cells.antt =====
-- Which cells `mmc_queue_push` and `mmc_queue_pop` touch: the items seen by `mmc_queue_item`.
use php_pecl_memcache_zynga.Prelude.{
  ℕ, suc, ◌+◌, ◌-◌, ◌≤◌, ◌<◌, ◌≡◌, sym, ◌∙◌, ap, ◌≢◌, ◌++◌, arith, length, length-append,
  length-take, length-drop, List, take, drop, replicate, get_or, get_or-append_left,
  get_or-append_right, get_or-take, get_or-drop, get_or-set_self, get_or-set_ne, length-replicate,
}
use php_pecl_memcache_zynga.Queue.{Queue, item, memmove, grow, make_room, advance, put, push, pop}
use php_pecl_memcache_zynga.Queue.Ends.{IsValid, make_room-IsValid, make_room_lem}

-- `memmove` puts cell `src + j` at `dst + j`, and leaves what stands before `dst`.
get_or-memmove_at :
    (dst src n j : ℕ) (xs : List ℕ)
    → dst ≤ length xs
    → src + n ≤ length xs
    → j < n
    → get_or (memmove dst src n xs) (dst + j) 0 ≡ get_or xs (src + j) 0
unfolding memmove
get_or-memmove_at dst src n j xs h k l =
    let e : length (take dst xs) ≡ dst = omega (arith, length-take dst xs) in
    ap (λ (m : ℕ). get_or (take dst xs ++ (take n (drop src xs) ++ drop (dst + n) xs)) (m + j) 0)
      (omega arith)
    ∙ get_or-append_right (take dst xs) (take n (drop src xs) ++ drop (dst + n) xs) j 0
    ∙ get_or-append_left (take n (drop src xs)) (drop (dst + n) xs) j 0
        (omega (arith, length-take n (drop src xs), length-drop src xs))
    ∙ get_or-take n (drop src xs) j 0 l
    ∙ get_or-drop src xs j 0

get_or-memmove_below :
    (dst src n i : ℕ) (xs : List ℕ)
    → dst ≤ length xs
    → i < dst
    → get_or (memmove dst src n xs) i 0 ≡ get_or xs i 0
unfolding memmove
get_or-memmove_below dst src n i xs h k =
    get_or-append_left (take dst xs) (take n (drop src xs) ++ drop (dst + n) xs) i 0
      (omega (arith, length-take dst xs))
    ∙ get_or-take dst xs i 0 k

module _ (junk : ℕ) where
  -- Growing keeps every item in its place as `mmc_queue_item` counts.
  item-grow :
      (q : Queue) (i : ℕ)
      → IsValid q
      → q.len ≡ q.alloc
      → i < q.len
      → item (grow junk q) i ≡ item q i
  unfolding item grow
  item-grow q i v full h = ground (
    arith,
    length-append q.items (replicate 26 junk),
    length-replicate 26 junk,
    ap (λ (m : ℕ). get_or q.items m 0) wrapped,
    get_or-memmove_at (q.tail + 26) q.tail (q.alloc + 26 - q.tail - 26) i
        (q.items ++ replicate 26 junk),
    get_or-memmove_below (q.tail + 26) q.tail (q.alloc + 26 - q.tail - 26) (i - (q.alloc - q.tail))
        (q.items ++ replicate 26 junk),
    get_or-append_left q.items (replicate 26 junk) (q.tail + i) 0,
    get_or-append_left q.items (replicate 26 junk) (i - (q.alloc - q.tail)) 0,
  )
    where
      wrapped : i - (q.alloc + 26 - (q.tail + 26)) ≡ i - (q.alloc - q.tail)
      wrapped = omega arith

  item-make_room :
      (q : Queue) (i : ℕ) → IsValid q → i < q.len → item (make_room junk q) i ≡ item q i
  unfolding make_room
  item-make_room q i v h = ground (arith, item-grow q i v)

  -- Writing past the last item leaves the others, and the new one is the last.
  item-put-advance :
      (q : Queue) (x i : ℕ)
      → IsValid q
      → q.len < q.alloc
      → i < q.len
      → item (put junk (advance junk q) x) i ≡ item q i
  unfolding item put advance
  item-put-advance q x i v h l = ground (
    arith,
    get_or-set_ne q.items (q.head + 1) (q.tail + i) x 0,
    get_or-set_ne q.items 0 (q.tail + i) x 0,
    get_or-set_ne q.items (q.head + 1) (i - (q.alloc - q.tail)) x 0,
    get_or-set_ne q.items 0 (i - (q.alloc - q.tail)) x 0,
  )

  item-put-advance_last :
      (q : Queue) (x n : ℕ)
      → IsValid q
      → q.len < q.alloc
      → n ≡ q.len
      → item (put junk (advance junk q) x) n ≡ x
  unfolding item put advance
  item-put-advance_last q x n v h e = ground (
    arith,
    get_or-set_self q.items q.head x 0,
    get_or-set_self q.items (q.head + 1) x 0,
    get_or-set_self q.items 0 x 0,
  )

  -- `mmc_queue_push` keeps the items that are there.
  pub item-push : (q : Queue) (x i : ℕ) → IsValid q → i < q.len → item (push junk q x) i ≡ item q i
  unfolding push
  item-push q x i v h =
      let (e, r) = make_room_lem junk q v in
      item-put-advance (make_room junk q) x i (make_room-IsValid junk v) (omega arith) (omega arith)
      ∙ item-make_room q i v h

  -- The pushed pointer is the last item.
  pub item-push_last : (q : Queue) (x : ℕ) → IsValid q → item (push junk q x) q.len ≡ x
  unfolding push
  item-push_last q x v =
      let (e, r) = make_room_lem junk q v in
      item-put-advance_last (make_room junk q) x q.len (make_room-IsValid junk v) (omega arith)
        (sym e)

-- `mmc_queue_pop` gives the first item.
pub pop_first : (q : Queue) → IsValid q → q.len ≢ 0 → (pop q).0 ≡ item q 0
unfolding pop item
pop_first q v h = ground arith

-- The items that are left move up by one.
pub item-pop : (q : Queue) (i : ℕ) → IsValid q → suc i < q.len → item (pop q).1 i ≡ item q (suc i)
unfolding pop item
item-pop q i v h = ground arith

pub len-pop : (q : Queue) → (pop q).1.len ≡ q.len - 1
unfolding pop
len-pop q = ground arith
