-- ===== src/Consistent/Tests.antt =====
-- The circle at concrete inputs, with insertion sort as `qsort`.
use mathlib.Core.Logic.Or
use php_pecl_memcache_zynga.Prelude.{ℕ, ◌≡◌, refl, ◌≢◌, List, [], ◌∷◌, some, arith, false, length}
use php_pecl_memcache_zynga.Prelude.Bytes.{Bytes, bytes}
use php_pecl_memcache_zynga.Prelude.Numbers.{print_ℕ}
use php_pecl_memcache_zynga.Consistent.{Point, State, consistent_find, populate_buckets, point_key}
use php_pecl_memcache_zynga.Consistent.Sorted.{IsSorted, successor}
use php_pecl_memcache_zynga.Consistent.Insertion.{arrange, insertion}
use php_pecl_memcache_zynga.Consistent.Search.{consistent_find_lem}
use php_pecl_memcache_zynga.Consistent.Buckets.{Populated, populate_buckets_lem}

abbrev two : List Point
two = record { server = 1; point = 100 } ∷ record { server = 2; point = 900 } ∷ []

two-IsSorted : IsSorted two
two-IsSorted = omega arith

abbrev circle : State
circle = record { num_servers = 2; points = two; buckets = []; buckets_populated = false }

circle_points : circle.points ≢ []
circle_points e = cc

-- the length of the key as a hash
abbrev by_length : Bytes → ℕ
by_length key = length key

search : (consistent_find two 101 ≡ some 2) × (consistent_find two 901 ≡ some 1)
unfolding consistent_find
search = (refl, refl)

keys : point_key (bytes "10.0.0.1") 11211 7 ≡ bytes "10.0.0.1:11211-7"
unfolding point_key print_ℕ
keys = refl

consistent_find_lem_example : consistent_find two 101 ≡ some (successor two 101 1)
consistent_find_lem_example =
    consistent_find_lem (record { server = 1; point = 100 })
      (record { server = 2; point = 900 } ∷ []) 101 two-IsSorted

populate_buckets_lem_example :
    (t : State) × (populate_buckets arrange circle ≡ some t) × Populated insertion circle t
populate_buckets_lem_example = populate_buckets_lem insertion circle circle_points

abbrev filled : State
filled = populate_buckets_lem_example.0
