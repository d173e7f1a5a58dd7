-- ===== src/Failover/Choice.antt =====
-- The answers of the two strategies for a pool of several servers, without a proxy.
use php_pecl_memcache_zynga.Prelude.{
  ℕ, ◌+◌, ◌%◌, ◌^◌, ◌≡◌, refl, sym, ap, ◌∙◌, inl, inr, ◌≢◌, ◌⊎◌, Bool-cases, List, [], ◌∷◌, Bool,
  true, false, Option, none, some, if◌then◌else◌, ltb, length, get_or,
}
use mathlib.Core.Path.{subst}
use php_pecl_memcache_zynga.Prelude.Bytes.{Bytes}
use php_pecl_memcache_zynga.Net.{Status, Env, World}
use php_pecl_memcache_zynga.Server.{Run, ◌>>=◌}
use php_pecl_memcache_zynga.Server.Live.{AllLive}
use php_pecl_memcache_zynga.Server.Failure.{Ends, Ends->>=}
use php_pecl_memcache_zynga.Server.Ready.{StatusAfter}
use php_pecl_memcache_zynga.Consistent.Sorted.{Sorter}
use php_pecl_memcache_zynga.Consistent.Buckets.{Populated, populate_buckets_lem}
use php_pecl_memcache_zynga.Consistent.{no_point, State, consistent_buckets, populate_buckets}
use php_pecl_memcache_zynga.Failover.{
  Settings, failover_loop, settle, settle_consistent, usable_or_null, is_usable, with_proxy,
  only_server,
}
use php_pecl_memcache_zynga.Failover.Find.{
  StandardState, unless_empty, with_points, bucket_of, consistent_choose, consistent_key, mmc_hash,
  standard_key, standard_choose, settle_standard, standard_find_server, consistent_find_server,
  populated, find_in,
}
use php_pecl_memcache_zynga.Failover.Usable.{Chosen, Settled, settle-Settled, failover_loop-Chosen}

pub Ends-unless_empty :
    {A B : Type 0} (P : B → World → Type 0) (xs : List A) (r : Run B)
    → xs ≢ []
    → Ends P r
    → Ends P (unless_empty xs r)
Ends-unless_empty P [] r ne h = elim (ne refl) [ ]
Ends-unless_empty P (x ∷ xs) r ne h = h

Ends-with_points :
    {B : Type 0} (P : B → World → Type 0) (s : State) (r : Run B)
    → ltb 1 s.num_servers ≡ true
    → Ends P r
    → Ends P (with_points s r)
Ends-with_points P s r e h =
    subst (λ (b : Bool). Ends P (if b then r else unless_empty s.points r)) (sym e) h

module _ (env : Env) (cfg : Settings) where
  is_usable-opened : (b : Bool) (s : Status) → StatusAfter b false s → is_usable env cfg s ≡ b
  unfolding is_usable
  is_usable-opened true s (inl e) = ap (is_usable env cfg) e
  is_usable-opened true s (inr (e, u)) = ap (is_usable env cfg) e
  is_usable-opened false s e = ap (is_usable env cfg) e

  -- The answer `r` is the server settled on, where it was opened.
  pub record Found (next : ℕ → ℕ → ℕ) (server_of : ℕ → ℕ) (hash : ℕ) (null : Bool) (r : Option ℕ)
      (w' : World) : Type 0 where
    pub m : ℕ
    pub opened : Bool
    pub settled : Settled env cfg next server_of cfg.max_failover_attempts hash m opened w'
    pub answer : r ≡ (if opened then some m else if null then none else some m)

  module _ (next : ℕ → ℕ → ℕ) (server_of : ℕ → ℕ) (hash : ℕ) where
    consistent-Found :
        (m : ℕ) (w : World)
        → Chosen env cfg next server_of cfg.max_failover_attempts 0 hash m w
        → Ends (Found next server_of hash true) (settle_consistent env cfg none (some m) w)
    unfolding settle_consistent usable_or_null
    consistent-Found m w c = record {
      m = m;
      opened = c.opened;
      settled = t;
      answer =
          ap (λ (b : Bool). if b then some m else none)
            (is_usable-opened t.chosen.opened ((settle env cfg none m w).servers m).status
                t.chosen.answered.status_after
              ∙ t.same);
    }
      where
        t :
            Settled env cfg next server_of cfg.max_failover_attempts hash m c.opened
              (settle env cfg none m w)
        t = settle-Settled env cfg next server_of cfg.max_failover_attempts hash m w c

    standard-Found :
        (hashing : Bytes → ℕ) (m : ℕ) (w : World)
        → Chosen env cfg next server_of cfg.max_failover_attempts 0 hash m w
        → Ends (Found next server_of hash false) (settle_standard env cfg hashing none (some m) w)
    unfolding settle_standard
    standard-Found hashing m w c = record {
      m = m;
      opened = c.opened;
      settled = settle-Settled env cfg next server_of _ hash m w c;
      answer = always c.opened;
    }
      where
        always : (b : Bool) → some m ≡ (if b then some m else if false then none else some m)
        always true = refl
        always false = refl

  module _ (hashing : Bytes → ℕ) where
    choose-Found :
        (s : State) (key : Bytes) (w : World)
        → ltb 1 s.num_servers ≡ true
        → AllLive w
        → Ends
            (Found
              (λ i h. hashing (consistent_key key i))
              (bucket_of s.buckets consistent_buckets)
              (hashing key)
              true)
            (consistent_choose env cfg hashing s key none w)
    unfolding consistent_choose
    choose-Found s key w many l =
        subst (λ (b : Bool). Ends found (if b then several else only)) (sym many)
          (Ends->>= (Chosen env cfg next server_of cfg.max_failover_attempts 0 (hashing key)) found
            (failover_loop env cfg next server_of none cfg.max_failover_attempts 0 (hashing key) w)
            (λ i. settle_consistent env cfg none (some i))
            (λ m w' c. consistent-Found next server_of (hashing key) m w' c)
            (failover_loop-Chosen env cfg next server_of cfg.max_failover_attempts 0 (hashing key) w
              l))
      where
        next : ℕ → ℕ → ℕ
        next i h = hashing (consistent_key key i)

        server_of : ℕ → ℕ
        server_of = bucket_of s.buckets consistent_buckets

        found : Option ℕ → World → Type 0
        found = Found next server_of (hashing key) true

        several : Run (Option ℕ)
        several =
            failover_loop env cfg next server_of none cfg.max_failover_attempts 0 (hashing key) w
            >>= (λ i. settle_consistent env cfg none (some i))

        only : Run (Option ℕ)
        only =
            only_server env cfg none (get_or s.points 0 no_point).server w
            >>= settle_consistent env cfg none

    -- The state left, populated if it was not, and the answer in it.
    pub record FoundIn (o : Sorter) (s : State) (key : Bytes) (r : State × Run (Option ℕ))
        : Type 0 where
      pub populated_flag : r.0.buckets_populated ≡ true
      pub filled : (r.0 ≡ s) ⊎ Populated o s r.0
      pub found :
          Ends
            (Found
              (λ i h. hashing (consistent_key key i))
              (bucket_of r.0.buckets consistent_buckets)
              (hashing key)
              true)
            r.1

    find_in-FoundIn :
        (o : Sorter) (s t : State) (m : Option State) (key : Bytes) (w : World)
        → m ≡ some t
        → ltb 1 t.num_servers ≡ true
        → t.buckets_populated ≡ true
        → (t ≡ s) ⊎ Populated o s t
        → AllLive w
        → FoundIn o s key (find_in env cfg hashing m s key false w)
    unfolding find_in with_proxy
    find_in-FoundIn o s t m key w e many flag filled l =
        subst (λ (m : Option State). FoundIn o s key (find_in env cfg hashing m s key false w))
          (sym e)
          (record {
            populated_flag = flag;
            filled = filled;
            found =
                Ends-with_points
                  (Found (λ i h. hashing (consistent_key key i))
                    (bucket_of t.buckets consistent_buckets) (hashing key) true)
                  t _ many (choose-Found t key w many l);
          })

    populated_by :
        (o : Sorter) (s : State) (b : Bool)
        → ltb 1 s.num_servers ≡ true
        → s.buckets_populated ≡ b
        → populated env cfg hashing o.sort s ≡ (if b then some s else populate_buckets o.sort s)
    unfolding populated
    populated_by o s b many flag =
        ap
          (λ (c : Bool).
            if c then if s.buckets_populated then some s else populate_buckets o.sort s else some s)
          many
        ∙ ap (λ (c : Bool). if c then some s else populate_buckets o.sort s) flag

    -- `mmc_consistent_find_server` without a proxy, of several servers with points, in a live store:
    -- nothing crashes; the state left is the one given or that with its buckets populated; and the
    -- answer is the server of one of the key's attempts, at most `max_failover_attempts` behind the
    -- first and the first itself where failover is not allowed, with its connection open; or NULL,
    -- where the server of the last attempt allowed has failed. The server's proxy is cleared. `qsort`
    -- sorts and keeps the points.
    pub consistent_find_server-Found :
        (o : Sorter) (s : State) (key : Bytes) (w : World)
        → ltb 1 s.num_servers ≡ true
        → s.points ≢ []
        → AllLive w
        → FoundIn o s key (consistent_find_server env cfg hashing o.sort s key false w)
    unfolding consistent_find_server
    consistent_find_server-Found o s key w many ne l = elim (Bool-cases s.buckets_populated) [
      | inl full ↦
          find_in-FoundIn o s s (populated env cfg hashing o.sort s) key w
            (populated_by o s true many full) many full (inl refl) l
      | inr empty ↦
          let (t, e, p) = populate_buckets_lem o s ne in
          find_in-FoundIn o s t (populated env cfg hashing o.sort s) key w
            (populated_by o s false many empty ∙ e) (ap (λ (n : ℕ). ltb 1 n) p.servers ∙ many)
            p.flag (inr p) l
    ]

    -- `mmc_standard_find_server` without a proxy, of several servers that have a bucket, in a live store: nothing
    -- crashes, and the answer is the server of one of the key's attempts, at most
    -- `max_failover_attempts` behind the first and the first itself where failover is not allowed: with
    -- its connection open, or that of the last attempt allowed, though it has failed. It is never
    -- NULL. The server's proxy is cleared.
    pub standard_find_server-Found :
        (s : StandardState) (key : Bytes) (w : World)
        → ltb 1 s.num_servers ≡ true
        → s.buckets ≢ []
        → AllLive w
        → Ends
            (Found
              (λ i h. (h + mmc_hash hashing (standard_key key i)) % 2 ^ 32)
              (bucket_of s.buckets (length s.buckets))
              (mmc_hash hashing key)
              false)
            (standard_find_server env cfg hashing s key false w)
    unfolding standard_find_server with_proxy standard_choose
    standard_find_server-Found s key w many ne l = Ends-unless_empty found s.buckets _ ne (
        subst (λ (b : Bool). Ends found (if b then several else only)) (sym many)
          (Ends->>=
            (Chosen env cfg next server_of cfg.max_failover_attempts 0 (mmc_hash hashing key)) found
            (failover_loop env cfg next server_of none cfg.max_failover_attempts 0
              (mmc_hash hashing key) w)
            (λ i. settle_standard env cfg hashing none (some i))
            (λ m w' c. standard-Found next server_of (mmc_hash hashing key) hashing m w' c)
            (failover_loop-Chosen env cfg next server_of cfg.max_failover_attempts 0
              (mmc_hash hashing key) w l)))
      where
        next : ℕ → ℕ → ℕ
        next i h = (h + mmc_hash hashing (standard_key key i)) % 2 ^ 32

        server_of : ℕ → ℕ
        server_of = bucket_of s.buckets (length s.buckets)

        found : Option ℕ → World → Type 0
        found = Found next server_of (mmc_hash hashing key) false

        several : Run (Option ℕ)
        several =
            failover_loop env cfg next server_of none cfg.max_failover_attempts 0
              (mmc_hash hashing key) w
            >>= (λ i. settle_standard env cfg hashing none (some i))

        only : Run (Option ℕ)
        only =
            only_server env cfg none (get_or s.buckets 0 0) w
            >>= settle_standard env cfg hashing none
