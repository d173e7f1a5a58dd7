-- ===== src/Consistent/Buckets.antt =====
-- The precomputed buckets of `mmc_consistent_populate_buckets`.
use mathlib.Core.List.{Mem, mem-cons}
use mathlib.Core.List.Perm
use mathlib.Core.Logic.Or
use php_pecl_memcache_zynga.Prelude.{
  ℕ, zero, suc, ◌*◌, ◌<◌, ◌≡◌, refl, sym, ap, ◌∙◌, ◌≢◌, ◌⊎◌, List, [], ◌∷◌, Option, some, true, leb,
  get_or, tabulate, get_or-tabulate, Bool-cases, inl, inr,
}
use php_pecl_memcache_zynga.Consistent.{
  Point, State, server_at, consistent_find, bucket_step, consistent_buckets, all_some, fill_buckets,
  with_buckets, populate_buckets,
}
use php_pecl_memcache_zynga.Consistent.Sorted.{IsSorted, Sorter, successor}
use native.Mathlib.Nat.{zero-add}
use php_pecl_memcache_zynga.Consistent.Search.{consistent_find_lem}

all_some-tabulate :
    (n : ℕ) (f : ℕ → Option ℕ) (g : ℕ → ℕ)
    → ((j : ℕ) → f j ≡ some (g j))
    → all_some (tabulate n f) ≡ some (tabulate n g)
unfolding all_some
all_some-tabulate zero f g h = refl
all_some-tabulate (suc n) f g h =
    rw (h 0, all_some-tabulate n (λ j. f (suc j)) (λ j. g (suc j)) (λ j. h (suc j)))

-- The server that bucket `i` ought to have.
pub bucket_server : List Point → ℕ → ℕ
bucket_server ps i = successor ps (bucket_step * i) (server_at ps 0)

bucket_servers : List Point → ℕ → List ℕ
bucket_servers ps n = tabulate n (bucket_server ps)

fill_buckets_lem :
    (ps : List Point) (n : ℕ)
    → IsSorted ps
    → ps ≢ []
    → fill_buckets ps n 0 ≡ some (bucket_servers ps n)
unfolding fill_buckets bucket_servers bucket_server
fill_buckets_lem [] n s h = absurd (h refl)
fill_buckets_lem (q ∷ qs) n s h = all_some-tabulate n _ _ (λ j.
    ap (λ m. consistent_find (q ∷ qs) (bucket_step * m)) (zero-add j)
    ∙ consistent_find_lem q qs (bucket_step * j) s)

get_or-bucket_servers :
    (ps : List Point) (n i : ℕ) → i < n → get_or (bucket_servers ps n) i 0 ≡ bucket_server ps i
unfolding bucket_servers
get_or-bucket_servers ps n i h = get_or-tabulate n (bucket_server ps) i 0 h

successor_mem :
    (ps : List Point) (p d : ℕ)
    → ((q : Point) × Mem q ps × (q.server ≡ successor ps p d)) ⊎ (successor ps p d ≡ d)
unfolding successor
successor_mem [] p d = inr refl
successor_mem (q ∷ qs) p d = elim (Bool-cases (leb p q.point)) [
  | inl e ↦ inl (q, mem-cons.1 (Or.inl refl), rw e)
  | inr e ↦ elim (successor_mem qs p d) [
    | inl (r, m, s) ↦ inl (r, mem-cons.1 (Or.inr m), rw e s)
    | inr s ↦ inr (rw e s)
  ]
]

pub sort-ne_nil : (o : Sorter) (ps : List Point) → ps ≢ [] → o.sort ps ≢ []
sort-ne_nil o ps h e = h (Perm.eq-nil (Perm.symm (rw e at (o.permutes ps))))

-- What `mmc_consistent_populate_buckets` leaves of a state with points.
pub record Populated (o : Sorter) (s t : State) : Type 0 where
  pub flag : t.buckets_populated ≡ true
  pub servers : t.num_servers ≡ s.num_servers
  pub points_sorted : t.points ≡ o.sort s.points
  pub bucket :
      (i : ℕ) → i < consistent_buckets → get_or t.buckets i 0 ≡ bucket_server (o.sort s.points) i

-- For a state with points the buckets are filled: bucket `i` of 1024 holds the server of the first
-- point from `i * (0xffffffff / 1024)` on, going round the circle; the points are sorted, the number of
-- servers stays.
pub populate_buckets_lem :
    (o : Sorter) (s : State)
    → s.points ≢ []
    → (t : State) × (populate_buckets o.sort s ≡ some t) × Populated o s t
unfolding populate_buckets with_buckets
populate_buckets_lem o s h =
    let ps = o.sort s.points in
    (
      record s {
        points = ps;
        buckets = bucket_servers ps consistent_buckets;
        buckets_populated = true;
      },
      ap (with_buckets s ps)
          (fill_buckets_lem ps consistent_buckets (o.sorts s.points) (sort-ne_nil o s.points h)),
      record {
        flag = refl;
        servers = refl;
        points_sorted = refl;
        bucket = λ i k. get_or-bucket_servers ps consistent_buckets i k;
      },
    )

-- Every bucket holds the server of a point that was added.
pub bucket_mem :
    (o : Sorter) (s t : State) (i : ℕ)
    → s.points ≢ []
    → Populated o s t
    → i < consistent_buckets
    → (q : Point) × Mem q s.points × (q.server ≡ get_or t.buckets i 0)
unfolding bucket_server
bucket_mem o s t i ne h k = go (o.sort s.points) refl
  where
    go :
        (ps : List Point)
        → o.sort s.points ≡ ps
        → (q : Point) × Mem q s.points × (q.server ≡ get_or t.buckets i 0)
    go [] e = absurd (sort-ne_nil o s.points ne e)
    go (q ∷ qs) e =
        let b : get_or t.buckets i 0 ≡ successor (q ∷ qs) (bucket_step * i) q.server =
          h.bucket i k ∙ ap (λ ps. successor ps (bucket_step * i) (server_at ps 0)) e in
        let back : (r : Point) → Mem r (o.sort s.points) → Mem r s.points =
          λ r m. (Perm.mem_iff (o.permutes s.points)).0 m in
        elim (successor_mem (q ∷ qs) (bucket_step * i) q.server) [
          | inl (r, m, z) ↦ (r, back r (rw e m), z ∙ sym b)
          | inr z ↦ (q, back q (rw e (mem-cons.1 (Or.inl refl))), sym (b ∙ z))
        ]
