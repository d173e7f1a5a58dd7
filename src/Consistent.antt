-- ===== src/Consistent.antt =====
-- memcache_consistent_hash.c: points on a circle, and the precomputed buckets. Servers are numbers that
-- stand for their `mmc_t`; failover is in Failover.antt.
pub mod Sorted
pub mod Search
pub mod Buckets
pub mod Servers
pub mod Insertion
mod Tests
use php_pecl_memcache_zynga.Prelude.{
  ℕ, zero, suc, ◌+◌, ◌-◌, ◌*◌, ◌/◌, ◌%◌, ◌≤◌, Bool, true, false, ◌||◌, ◌&&◌, List, [], ◌∷◌, ◌++◌,
  map, Option, none, some, ltb, leb, ◌==◌, if◌then◌else◌, length, get_or, tabulate,
}
use php_pecl_memcache_zynga.Prelude.Bytes.{Bytes, bytes}
use php_pecl_memcache_zynga.Prelude.Numbers.{print_ℕ}

-- MMC_CONSISTENT_POINTS and MMC_CONSISTENT_BUCKETS
abbrev pub consistent_points : ℕ
consistent_points = 160

abbrev pub consistent_buckets : ℕ
consistent_buckets = 1024

-- `mmc_consistent_point_t`
pub record Point : Type 0 where
  pub server : ℕ
  pub point : ℕ

abbrev pub no_point : Point
no_point = record { server = 0; point = 0 }

abbrev pub point_at : List Point → ℕ → ℕ
point_at ps i = (get_or ps i no_point).point

abbrev pub server_at : List Point → ℕ → ℕ
server_at ps i = (get_or ps i no_point).server

-- `mmc_consistent_state_t`; `num_points` is the length of `points`, and the hash function a parameter.
pub record State : Type 0 where
  pub num_servers : ℕ
  pub points : List Point
  pub buckets : List ℕ
  pub buckets_populated : Bool

-- `mmc_consistent_create_state`
abbrev pub create_state : State
create_state = record { num_servers = 0; points = []; buckets = []; buckets_populated = false }

-- `mmc_consistent_compare`: -1, 1 and 0
pub data Sign : Type 0 where
  minus zero_sign plus : Sign

pub consistent_compare : Point → Point → Sign
consistent_compare a b =
    if ltb a.point b.point then minus else if ltb b.point a.point then plus else zero_sign

-- The loop of `mmc_consistent_find`. Where `mid` is 0 the code tests `point > 0`. `mid - 1` is reached
-- at a positive `mid` only.
module _ (ps : List Point) (p : ℕ) where
  pub before : ℕ → ℕ
  before mid = if mid == 0 then 0 else point_at ps (mid - 1)

  pub find_loop : ℕ → ℕ → ℕ → Option ℕ
  unfolding before
  find_loop zero lo hi = none
  find_loop (suc fuel) lo hi =
      let mid = lo + (hi - lo) / 2 in
      let up = find_loop fuel (mid + 1) hi in
      let down = find_loop fuel lo (mid - 1) in
      if leb p (point_at ps lo) || ltb (point_at ps hi) p
      then some (server_at ps lo)
      else if leb p (point_at ps mid) && ltb (before mid) p
      then some (server_at ps mid)
      else if ltb (point_at ps mid) p
      then up
      else down

-- `mmc_consistent_find`, with a round for every point. `none` stands for a read outside `points`
-- where there are none.
pub consistent_find : List Point → ℕ → Option ℕ
unfolding find_loop
consistent_find [] p = none
consistent_find (q ∷ qs) p = find_loop (q ∷ qs) p (length (q ∷ qs)) 0 (length qs)

all_some : List (Option ℕ) → Option (List ℕ)
all_some [] = some []
all_some (none ∷ xs) = none
all_some (some x ∷ xs) = elim (all_some xs) [ none ↦ none | some ys ↦ some (x ∷ ys) ]

-- `step` of `mmc_consistent_populate_buckets`
abbrev pub bucket_step : ℕ
bucket_step = 0xffffffff / consistent_buckets

-- The buckets from number `i` on.
pub fill_buckets : List Point → ℕ → ℕ → Option (List ℕ)
unfolding all_some
fill_buckets ps n i = all_some (tabulate n (λ j. consistent_find ps (bucket_step * (i + j))))

with_buckets : State → List Point → Option (List ℕ) → Option State
with_buckets s ps none = none
with_buckets s ps (some bs) =
    some (record s { points = ps; buckets = bs; buckets_populated = true })

-- `mmc_consistent_populate_buckets`; `qsort` is the C library's.
pub populate_buckets : (List Point → List Point) → State → Option State
unfolding with_buckets
populate_buckets qsort s =
    let ps = qsort s.points in with_buckets s ps (fill_buckets ps consistent_buckets 0)

-- "host:port-i"
pub point_key : Bytes → ℕ → ℕ → Bytes
point_key host port i = host ++ (bytes ":" ++ (print_ℕ port ++ (bytes "-" ++ print_ℕ i)))

-- `mmc_consistent_add_server` of the server `id`
pub add_server : (Bytes → ℕ) → State → ℕ → Bytes → ℕ → ℕ → State
unfolding point_key
add_server hash s id host port weight = record s {
  num_servers = s.num_servers + 1;
  points =
      s.points
      ++ tabulate (weight * consistent_points)
          (λ i. record { server = id; point = hash (point_key host port i) });
  buckets_populated = false;
}
