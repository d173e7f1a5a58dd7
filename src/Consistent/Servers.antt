-- ===== src/Consistent/Servers.antt =====
-- `mmc_consistent_add_server`, and the owners of the circle's places before and after it.
use mathlib.Core.List.{Mem}
use mathlib.Core.List.Perm
use mathlib.Core.Logic.Or
use php_pecl_memcache_zynga.Prelude.{
  ℕ, ◌*◌, ◌≤◌, ◌<◌, ◌≡◌, refl, ap, ◌∙◌, ◌⊎◌, List, [], ◌∷◌, false, leb, if◌then◌else◌, tabulate,
  ◌+◌, length, get_or, length-append, length-tabulate, get_or-append_right, get_or-tabulate,
}
use php_pecl_memcache_zynga.Prelude.Bytes.{Bytes}
use php_pecl_memcache_zynga.Consistent.{Point, no_point, State, server_at, add_server, point_key}
use php_pecl_memcache_zynga.Consistent.Sorted.{Sorter, successor}

-- The point that `mmc_consistent_find` stops at.
pick : List Point → ℕ → Point → Point
pick [] p d = d
pick (q ∷ qs) p d = if leb p q.point then q else pick qs p d

-- All points of the list lie below `p`, or `q` is the least that does not.
Below : List Point → ℕ → Type 0
Below ps p = (r : Point) → Mem r ps → r.point < p

Least : List Point → ℕ → Point → Type 0
Least ps p q = Mem q ps × (p ≤ q.point) × ((r : Point) → Mem r ps → p ≤ r.point → q.point ≤ r.point)

-- `q` is the point of the circle that a key at `p` goes to.
Owns : List Point → ℕ → Point → Type 0
Owns ps p q = Least ps p q ⊎ Mem q ps × Below ps p × ((r : Point) → Mem r ps → q.point ≤ r.point)

-- No two servers share a point.
abbrev pub NoCollision : List Point → Type 0
NoCollision ps = (q r : Point) → Mem q ps → Mem r ps → q.point ≡ r.point → q.server ≡ r.server

-- The server that the points of a state, sorted, give for `p`.
pub owner : Sorter → State → ℕ → ℕ
owner o s p = successor (o.sort s.points) p (server_at (o.sort s.points) 0)

-- `mmc_consistent_add_server` puts 160 points for each unit of weight behind those that are there, all
-- of them of the new server, counts it, and marks the buckets stale.
pub add_server_lem :
    (hash : Bytes → ℕ) (s : State) (id : ℕ) (host : Bytes) (port weight i : ℕ)
    → let t = add_server hash s id host port weight in
      (length t.points ≡ length s.points + weight * 160)
      × (t.num_servers ≡ s.num_servers + 1)
      × (t.buckets_populated ≡ false)
      × (i < weight * 160
          → get_or t.points (length s.points + i) no_point
            ≡ record { server = id; point = hash (point_key host port i) })
unfolding add_server
add_server_lem hash s id host port weight i =
    let f : ℕ → Point = λ i. record { server = id; point = hash (point_key host port i) } in
    (
      length-append s.points (tabulate (weight * 160) f)
          ∙ ap (λ n. length s.points + n) (length-tabulate (weight * 160) f),
      refl,
      refl,
      λ h.
          get_or-append_right s.points (tabulate (weight * 160) f) i no_point
          ∙ get_or-tabulate (weight * 160) f i no_point h,
    )
