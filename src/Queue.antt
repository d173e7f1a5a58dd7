-- ===== src/Queue.antt =====
-- memcache_queue.c and memcache_queue.h: the ring buffer of pointers.
pub mod Ends
pub mod Cells
pub mod Refine
pub mod Remove
pub mod Client
mod Tests
use php_pecl_memcache_zynga.Prelude.{
  ℕ, zero, suc, ◌+◌, ◌-◌, Bool, true, false, ◌&&◌, List, [], ◌++◌, Option, none, some, ltb, leb,
  ◌==◌, if◌then◌else◌, get_or, set, take, drop, replicate,
}

-- `MMC_QUEUE_PREALLOC`
abbrev pub queue_prealloc : ℕ
queue_prealloc = 25

-- `mmc_queue_t`. An item is an address; 0 is NULL. `items` is the block behind the pointer.
pub record Queue : Type 0 where
  pub items : List ℕ
  pub alloc : ℕ
  pub head : ℕ
  pub tail : ℕ
  pub len : ℕ

-- `mmc_queue_release`: all fields zero, the block is forgotten
abbrev pub release : Queue
release = record { items = []; alloc = 0; head = 0; tail = 0; len = 0 }

-- `mmc_queue_reset`
pub reset : Queue → Queue
reset q = record q { len = 0; head = 0; tail = 0 }

-- `mmc_queue_item`
pub item : Queue → ℕ → ℕ
item q i =
    if ltb (q.tail + i) q.alloc
    then get_or q.items (q.tail + i) 0
    else get_or q.items (i - (q.alloc - q.tail)) 0

-- `memmove(p + dst, p + src, n)` within one block
pub memmove : ℕ → ℕ → ℕ → List ℕ → List ℕ
memmove dst src n xs = take dst xs ++ (take n (drop src xs) ++ drop (dst + n) xs)

-- `erealloc` leaves the new cells undefined: each of them reads `junk`.
module _ (junk : ℕ) where
  -- The block is full: it grows by 26 cells, and a tail segment that stands behind the head moves
  -- to the end.
  pub grow : Queue → Queue
  grow q =
      let increase = 1 + queue_prealloc in
      let alloc = q.alloc + increase in
      let items = q.items ++ replicate increase junk in
      if ltb q.head q.tail
      then record q {
        alloc = alloc;
        items = memmove (q.tail + increase) q.tail (alloc - q.tail - increase) items;
        tail = q.tail + increase;
      }
      else record q { alloc = alloc; items = items }

  pub make_room : Queue → Queue
  unfolding grow
  make_room q = if leb q.alloc q.len then grow q else q

  pub advance : Queue → Queue
  advance q =
      if q.len == 0
      then q
      else record q { head = if leb q.alloc (q.head + 1) then 0 else q.head + 1 }

  pub put : Queue → ℕ → Queue
  put q ptr = record q { items = set q.items q.head ptr; len = q.len + 1 }

  -- `mmc_queue_push`
  pub push : Queue → ℕ → Queue
  unfolding make_room advance put
  push q ptr = put (advance (make_room q)) ptr

-- `mmc_queue_pop`: the item, NULL for an empty queue
pub pop : Queue → ℕ × Queue
pop q =
    if q.len == 0
    then (0, q)
    else if q.len == 1
    then (get_or q.items q.tail 0, record q { len = 0 })
    else (
      get_or q.items q.tail 0,
      record q { len = q.len - 1; tail = if leb q.alloc (q.tail + 1) then 0 else q.tail + 1 },
    )

pub contains_from : Queue → ℕ → ℕ → ℕ → Bool
contains_from q ptr i zero = false
contains_from q ptr i (suc n) =
    let rest = contains_from q ptr (i + 1) n in if item q i == ptr then true else rest

-- `mmc_queue_contains` of a queue that is not NULL
pub contains : Queue → ℕ → Bool
unfolding contains_from item
contains q ptr = contains_from q ptr 0 q.len

-- `mmc_queue_free`
abbrev pub free : Queue → Queue
free q = release

-- `mmc_queue_copy`. The result of `erealloc` is dropped: where the allocator moves the block
-- (`moved`), `target->items` is a dangling address and `memcpy` writes through it.
pub copy : Bool → Queue → Queue → Option Queue
copy moved source target =
    if target.alloc == source.alloc
    then some (record source { items = take source.alloc source.items })
    else if moved
    then none
    else some (record source { items = take source.alloc source.items })

-- The loop of `mmc_queue_remove`: it ends at the first NULL that `pop` gives.
pub remove_loop : ℕ → ℕ → ℕ → Queue → Queue → Queue
remove_loop junk ptr zero original q = q
remove_loop junk ptr (suc fuel) original q =
    let (x, rest) = pop original in
    let more = remove_loop junk ptr fuel rest (if x == ptr then q else push junk q x) in
    if x == 0 then q else more

-- `mmc_queue_remove`; one more round than there are items always meets a NULL.
pub remove : ℕ → Queue → ℕ → Queue
unfolding remove_loop
remove junk q ptr = remove_loop junk ptr (q.len + 1) q release
