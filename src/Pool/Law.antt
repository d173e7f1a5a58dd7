-- ===== src/Pool/Law.antt =====
-- The two strategies keep the promises of the interface.
use php_pecl_memcache_zynga.Prelude.{
  ℕ, ◌≡◌, refl, sym, ap, ◌⊎◌, inl, inr, ◌≢◌, Bool, true, false, List, [], Option, none, some, ltb,
  if◌then◌else◌, get_or,
}
use mathlib.Core.Path.{subst}
use php_pecl_memcache_zynga.Prelude.Bytes.{Bytes}
use php_pecl_memcache_zynga.Net.{Status, failed_status, Server, Env, World, servers-update_self}
use php_pecl_memcache_zynga.Server.{Run, ret, ◌>>=◌}
use php_pecl_memcache_zynga.Server.Open.{mmc_open}
use php_pecl_memcache_zynga.Server.Live.{HasStream, LiveStatus, AllLive, AllLive-update}
use php_pecl_memcache_zynga.Server.Failure.{Ends, Ends->>=, Ends-map}
use php_pecl_memcache_zynga.Server.Ready.{StatusAfter, Answered, mmc_open-Answered}
use php_pecl_memcache_zynga.Consistent.{Point, no_point, State, populate_buckets}
use php_pecl_memcache_zynga.Consistent.Sorted.{Sorter}
use php_pecl_memcache_zynga.Consistent.Buckets.{Populated, sort-ne_nil}
use php_pecl_memcache_zynga.Failover.{
  Settings, settle, set_proxy, only_server, settle_consistent, usable_or_null, with_proxy,
}
use php_pecl_memcache_zynga.Failover.Find.{
  StandardState, consistent_find_server, standard_find_server, populated, find_in,
  consistent_choose, standard_choose, settle_standard,
}
use php_pecl_memcache_zynga.Failover.Choice.{
  Found, FoundIn, consistent_find_server-Found, standard_find_server-Found,
}
use php_pecl_memcache_zynga.Pool.Options.{ReadyAt, LiveReady, Lawful}
use php_pecl_memcache_zynga.Pool.Strategies.{
  HashState, standard_hash, consistent_hash, hash_of, find_by_state, pool_strategy, ValidState,
}
use php_pecl_memcache_zynga.Failover.Choice.{Ends-unless_empty}
use php_pecl_memcache_zynga.Failover.Find.{with_points}
use php_pecl_memcache_zynga.Prelude.{◌≢◌, []}

pub not_false : true ≡ false → ⊥
not_false q = cc q

opened_stream :
    (b : Bool) (s : Status) (st : Option ℕ)
    → StatusAfter b false s
    → LiveStatus s st
    → (s ≡ failed_status) ⊎ HasStream st
opened_stream false s st e l = inl e
opened_stream true s st (inl e) l = inr (subst (λ (t : Status). LiveStatus t st) e l)
opened_stream true s st (inr (e, u)) l = inr (subst (λ (t : Status). LiveStatus t st) e l)

Answered-LiveReady :
    (i : ℕ) (b : Bool) (w : World)
    → Answered i false b w
    → (w.servers i).proxy ≡ none
    → LiveReady i w
Answered-LiveReady i b w a p = record {
  live = a.live;
  ready = record {
    no_proxy = p;
    streamed =
        opened_stream b (w.servers i).status (w.servers i).stream a.status_after (a.live.at i);
  };
}

pub otherwise :
    {A : Type 0} (P : A → World → Type 0) (b : Bool) (x y : Run A)
    → b ≡ false
    → Ends P y
    → Ends P (if b then x else y)
otherwise P true x y e h = elim (not_false e) [ ]
otherwise P false x y e h = h

abbrev LiveAt : Option ℕ → World → Type 0
LiveAt r w = AllLive w × ReadyAt r w

module _ (env : Env) (cfg : Settings) where
  pub settle-Answered :
      (i : ℕ) (b : Bool) (w : World)
      → Answered i false b w
      → Answered i false b (settle env cfg none i w)
  unfolding settle set_proxy
  settle-Answered i b w a = record {
    status_after =
        subst (λ (t : Server). StatusAfter b false t.status)
          (sym (servers-update_self i (record (w.servers i) { proxy = none }) w)) a.status_after;
    live = AllLive-update i (record (w.servers i) { proxy = none }) w (a.live.at i) a.live;
  }

  settle-LiveReady :
      (i : ℕ) (b : Bool) (w : World) → Answered i false b w → LiveReady i (settle env cfg none i w)
  unfolding settle set_proxy
  settle-LiveReady i b w a =
      Answered-LiveReady i b (settle env cfg none i w) (settle-Answered i b w a) (
        ap (λ (t : Server). t.proxy)
          (servers-update_self i (record (w.servers i) { proxy = none }) w))

  one_of : (i : ℕ) (b : Bool) (w : World) → LiveReady i w → LiveAt (if b then some i else none) w
  one_of i true w r = (r.live, r.ready)
  one_of i false w r = (r.live, tt)

  consistent-LiveAt :
      (i : ℕ) (b : Bool) (w : World)
      → Answered i false b w
      → Ends LiveAt (settle_consistent env cfg none (some i) w)
  unfolding settle_consistent usable_or_null
  consistent-LiveAt i b w a = one_of i _ (settle env cfg none i w) (settle-LiveReady i b w a)

  standard-LiveAt :
      (hashing : Bytes → ℕ) (i : ℕ) (b : Bool) (w : World)
      → Answered i false b w
      → Ends LiveAt (settle_standard env cfg hashing none (some i) w)
  unfolding settle_standard
  standard-LiveAt hashing i b w a = let r = settle-LiveReady i b w a in (r.live, r.ready)

  -- The only server of a pool.
  only-LiveAt :
      (finish : Option ℕ → World → Run (Option ℕ)) (i : ℕ) (w : World)
      → AllLive w
      → ((b : Bool) (w' : World) → Answered i false b w' → Ends LiveAt (finish (some i) w'))
      → Ends LiveAt (only_server env cfg none i w >>= finish)
  unfolding only_server
  only-LiveAt finish i w l f =
      Ends->>= (λ r w'. (b : Bool) × (r ≡ some i) × Answered i false b w') LiveAt
        (mmc_open env cfg.connection_retry_count i false w >>= (λ opened. ret (some i))) finish
        (λ r w' q. subst (λ (o : Option ℕ). Ends LiveAt (finish o w')) (sym q.1) (f q.0 w' q.2))
        (Ends->>= (λ b. Answered i false b)
          (λ r w'. (b : Bool) × (r ≡ some i) × Answered i false b w')
          (mmc_open env cfg.connection_retry_count i false w) (λ opened. ret (some i))
          (λ b w' a. (b, refl, a))
          (mmc_open-Answered env cfg.connection_retry_count i false w (inl refl) l))

  choice_of :
      (m : ℕ) (opened null : Bool) (w : World)
      → LiveReady m w
      → LiveAt (if opened then some m else if null then none else some m) w
  choice_of m true null w r = (r.live, r.ready)
  choice_of m false true w r = (r.live, tt)
  choice_of m false false w r = (r.live, r.ready)

  Found-LiveAt :
      (next : ℕ → ℕ → ℕ) (server_of : ℕ → ℕ) (hash : ℕ) (null : Bool) (r : Option ℕ) (w : World)
      → Found env cfg next server_of hash null r w
      → LiveAt r w
  Found-LiveAt next server_of hash null r w f =
      subst (λ (o : Option ℕ). LiveAt o w) (sym f.answer)
        (choice_of f.m f.opened null w (
          Answered-LiveReady f.m f.settled.chosen.opened w f.settled.chosen.answered
            f.settled.no_proxy))

  standard_find-LiveAt :
      (hashing : Bytes → ℕ) (s : StandardState) (key : Bytes) (w : World) (b : Bool)
      → ltb 1 s.num_servers ≡ b
      → s.buckets ≢ []
      → AllLive w
      → Ends LiveAt (standard_find_server env cfg hashing s key false w)
  unfolding standard_find_server with_proxy standard_choose
  standard_find-LiveAt hashing s key w true e ne l =
      Ends-map _ LiveAt (standard_find_server env cfg hashing s key false w)
        (λ r w' f. Found-LiveAt _ _ _ false r w' f)
        (standard_find_server-Found env cfg hashing s key w e ne l)
  standard_find-LiveAt hashing s key w false e ne l = Ends-unless_empty LiveAt s.buckets _ ne (
      otherwise LiveAt (ltb 1 s.num_servers) _ _ e (
        only-LiveAt (settle_standard env cfg hashing none) (get_or s.buckets 0 0) w l
          (λ b w' a. standard-LiveAt hashing _ b w' a)))

  pub consistent_one :
      (hashing : Bytes → ℕ) (o : Sorter) (s : State) (key : Bytes) (w : World)
      → ltb 1 s.num_servers ≡ false
      → consistent_find_server env cfg hashing o.sort s key false w
        ≡ (s, with_points s (consistent_choose env cfg hashing s key none w))
  unfolding consistent_find_server populated find_in with_proxy
  consistent_one hashing o s key w e =
      ap (λ (m : Option State). find_in env cfg hashing m s key false w)
        (ap
          (λ (b : Bool).
            if b then if s.buckets_populated then some s else populate_buckets o.sort s else some s)
          e)

  consistent_choose-LiveAt :
      (hashing : Bytes → ℕ) (s : State) (key : Bytes) (w : World)
      → ltb 1 s.num_servers ≡ false
      → AllLive w
      → Ends LiveAt (consistent_choose env cfg hashing s key none w)
  unfolding consistent_choose
  consistent_choose-LiveAt hashing s key w e l = otherwise LiveAt (ltb 1 s.num_servers) _ _ e (
      only-LiveAt (settle_consistent env cfg none) (get_or s.points 0 no_point).server w l
        (λ b w' a. consistent-LiveAt _ b w' a))

  -- The lookup's state stays one with points, and its answer is live.
  record GoodFind (r : State × Run (Option ℕ)) : Type 0 where
    points_left : r.0.points ≢ []
    good : Ends LiveAt r.1

  consistent_find-Good :
      (hashing : Bytes → ℕ) (o : Sorter) (s : State) (key : Bytes) (w : World) (b : Bool)
      → ltb 1 s.num_servers ≡ b
      → s.points ≢ []
      → AllLive w
      → GoodFind (consistent_find_server env cfg hashing o.sort s key false w)
  consistent_find-Good hashing o s key w false e v l =
      subst GoodFind (sym (consistent_one hashing o s key w e)) (record {
        points_left = v;
        good =
            otherwise LiveAt (ltb 1 s.num_servers) _ _ e (
              Ends-unless_empty LiveAt s.points _ v (consistent_choose-LiveAt hashing s key w e l));
      })
  consistent_find-Good hashing o s key w true e v l = record {
    points_left = stay _ f.filled;
    good =
        Ends-map _ LiveAt (consistent_find_server env cfg hashing o.sort s key false w).1
          (λ r w' g. Found-LiveAt _ _ _ true r w' g) f.found;
  }
    where
      f :
          FoundIn env cfg hashing o s key
            (consistent_find_server env cfg hashing o.sort s key false w)
      f = consistent_find_server-Found env cfg hashing o s key w e v l

      stay : (t : State) → (t ≡ s) ⊎ Populated o s t → t.points ≢ []
      stay t (inl q) = subst (λ (u : State). u.points ≢ []) (sym q) v
      stay t (inr p) =
          subst (λ (ps : List Point). ps ≢ []) (sym p.points_sorted) (sort-ne_nil o s.points v)

  module _ (crc_step : ℕ → ℕ → ℕ) (o : Sorter) where
    -- Both strategies, whichever the settings choose, keep what the interface of a strategy promises
    -- to the pool, without a proxy: from a state with a bucket, or a point, and a live store, every
    -- lookup comes to its end, in a live store, with NULL, with a failed server, or with one that has
    -- a stream and no proxy; and its state has a bucket, or a point, again. `qsort` sorts and keeps
    -- the points.
    pub pool_strategy-Lawful :
        (hash_strategy hash_function : ℕ)
        → Lawful (pool_strategy crc_step env cfg o.sort hash_strategy hash_function) ValidState
    unfolding pool_strategy find_by_state
    pool_strategy-Lawful hash_strategy hash_function = record {
      stays_valid = λ s key w v l. keep s key w v l;
      finds = λ s key w v l. find s key w v l;
    }
      where
        keep :
            (s : HashState) (key : Bytes) (w : World)
            → ValidState s
            → AllLive w
            → ValidState (find_by_state crc_step env cfg o.sort s key false w).0
        keep (standard_hash h s) key w v l = v
        keep (consistent_hash h s) key w v l =
            (consistent_find-Good (hash_of crc_step h) o s key w (ltb 1 s.num_servers) refl v
              l).points_left

        find :
            (s : HashState) (key : Bytes) (w : World)
            → ValidState s
            → AllLive w
            → Ends LiveAt (find_by_state crc_step env cfg o.sort s key false w).1
        find (standard_hash h s) key w v l =
            standard_find-LiveAt (hash_of crc_step h) s key w (ltb 1 s.num_servers) refl v l
        find (consistent_hash h s) key w v l =
            (consistent_find-Good (hash_of crc_step h) o s key w (ltb 1 s.num_servers) refl v
              l).good
