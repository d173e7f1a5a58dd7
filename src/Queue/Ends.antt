-- ===== src/Queue/Ends.antt =====
-- The representation invariant of `mmc_queue_t`: where head and tail stand.
use php_pecl_memcache_zynga.Prelude.{
  ℕ, ◌+◌, ◌-◌, ◌≤◌, ◌<◌, ◌≡◌, ◌⊎◌, ◌++◌, arith, length, length-set, length-append, length-take,
  length-drop, length-replicate, max, List, take, drop, replicate,
}
use php_pecl_memcache_zynga.Queue.{
  Queue, queue_prealloc, release, memmove, grow, make_room, advance, put, push, pop,
}

-- The block has `alloc` cells; the items stand from `tail` up to `head`, round the end of the block.
pub record IsValid (q : Queue) : Type 0 where
  pub sized : length q.items ≡ q.alloc
  pub fits : q.len ≤ q.alloc
  pub tail_in : q.tail < max q.alloc 1
  pub ends :
      (q.len ≡ 0) × (q.head ≡ q.tail)
      ⊎ (0 < q.len) × (q.head + 1 ≡ q.tail + q.len) × (q.tail + q.len ≤ q.alloc)
      ⊎ (0 < q.len) × (q.head + 1 + q.alloc ≡ q.tail + q.len) × (q.alloc < q.tail + q.len)

pub release-IsValid : IsValid release
release-IsValid = ground arith

length-memmove :
    (dst src n : ℕ) (xs : List ℕ)
    → dst + n ≤ length xs
    → src + n ≤ length xs
    → length (memmove dst src n xs) ≡ length xs
unfolding memmove
length-memmove dst src n xs h k = omega (
  arith,
  length-append (take dst xs) (take n (drop src xs) ++ drop (dst + n) xs),
  length-append (take n (drop src xs)) (drop (dst + n) xs),
  length-take dst xs,
  length-take n (drop src xs),
  length-drop src xs,
  length-drop (dst + n) xs,
)

module _ (junk : ℕ) where
  grown : Queue → List ℕ
  grown q = q.items ++ replicate (1 + queue_prealloc) junk

  length-grown : (q : Queue) → length (grown q) ≡ length q.items + 26
  unfolding grown
  length-grown q = omega (
    arith,
    length-append q.items (replicate (1 + queue_prealloc) junk),
    length-replicate (1 + queue_prealloc) junk,
  )

  -- A full queue grows by 26 cells and keeps its length.
  pub grow-IsValid : {q : Queue} → IsValid q → q.len ≡ q.alloc → IsValid (grow junk q)
  unfolding grow grown
  grow-IsValid {q} v full = ground (
    arith,
    length-grown q,
    length-memmove (q.tail + 26) q.tail (q.alloc + 26 - q.tail - 26) (grown q),
  )

  pub make_room-IsValid : {q : Queue} → IsValid q → IsValid (make_room junk q)
  unfolding make_room
  make_room-IsValid {q} v = ground (arith, grow-IsValid v)

  pub make_room_lem :
      (q : Queue)
      → IsValid q
      → ((make_room junk q).len ≡ q.len) × (q.len < (make_room junk q).alloc)
  unfolding make_room grow
  make_room_lem q v = ground arith

  put-advance-IsValid :
      {q : Queue} (x : ℕ) → IsValid q → q.len < q.alloc → IsValid (put junk (advance junk q) x)
  unfolding put advance
  put-advance-IsValid {q} x v h = ground (
    arith,
    length-set q.items q.head x,
    length-set q.items (q.head + 1) x,
    length-set q.items 0 x,
  )

  -- `mmc_queue_push` keeps the invariant.
  pub push-IsValid : {q : Queue} (x : ℕ) → IsValid q → IsValid (push junk q x)
  unfolding push
  push-IsValid {q} x v =
      put-advance-IsValid x (make_room-IsValid v) (ground (arith, make_room_lem q v))

  pub len-push : (q : Queue) (x : ℕ) → (push junk q x).len ≡ q.len + 1
  unfolding push put advance make_room grow
  len-push q x = ground arith

-- `mmc_queue_pop` keeps the invariant.
pub pop-IsValid : {q : Queue} → IsValid q → IsValid (pop q).1
unfolding pop
pop-IsValid v = ground arith
