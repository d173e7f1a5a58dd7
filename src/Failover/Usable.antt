-- ===== src/Failover/Usable.antt =====
-- The loop over the attempts without a proxy: whose server it chooses, in which state.
use php_pecl_memcache_zynga.Prelude.{
  ℕ, zero, suc, ◌≤◌, ◌≡◌, refl, sym, ap, ◌⊎◌, inl, inr, Bool, true, false, not, ◌&&◌, none, arith,
  if◌then◌else◌,
}
use mathlib.Core.Path.{subst}
use php_pecl_memcache_zynga.Net.{Server, Env, World, update, servers-update_self}
use php_pecl_memcache_zynga.Server.{ret}
use php_pecl_memcache_zynga.Server.Open.{mmc_open}
use php_pecl_memcache_zynga.Server.Live.{AllLive, AllLive-update}
use php_pecl_memcache_zynga.Server.Failure.{Ends, Ends->>=, Ends-map}
use php_pecl_memcache_zynga.Server.Ready.{StatusAfter, Answered, mmc_open-Answered}
use php_pecl_memcache_zynga.Failover.{Settings, should_failover, failover_loop, settle, set_proxy}

-- The hash after `k` more attempts, from attempt `i`.
pub hash_after : (ℕ → ℕ → ℕ) → ℕ → ℕ → ℕ → ℕ
hash_after next i hash zero = hash
hash_after next i hash (suc k) = hash_after next (suc i) (next i hash) k

module _ (env : Env) (cfg : Settings) where
  should_failover-Answered :
      (i : ℕ) (w : World)
      → AllLive w
      → Ends (λ down. Answered i false (not down)) (should_failover env cfg none i w)
  unfolding should_failover
  should_failover-Answered i w l =
      Ends->>= (λ b. Answered i false b) (λ down. Answered i false (not down))
        (mmc_open env cfg.connection_retry_count i false w) (λ opened. ret (not opened))
        (λ b w' a. doubled b w' a)
        (mmc_open-Answered env cfg.connection_retry_count i false w (inl refl) l)
    where
      doubled : (b : Bool) (w' : World) → Answered i false b w' → Answered i false (not (not b)) w'
      doubled true w' a = a
      doubled false w' a = a

  module _ (next : ℕ → ℕ → ℕ) (server_of : ℕ → ℕ) where
    -- The loop chose the server of attempt `attempt`; it is open, or failed, and then it was the
    -- last allowed.
    pub record Chosen (left i hash m : ℕ) (w' : World) : Type 0 where
      pub attempt : ℕ
      pub in_bounds : attempt ≤ left
      pub server : m ≡ server_of (hash_after next i hash attempt)
      pub no_failover : cfg.allow_failover ≡ false → attempt ≡ 0
      pub opened : Bool
      pub answered : Answered m false opened w'
      pub until : (opened ≡ true) ⊎ ((cfg.allow_failover ≡ false) ⊎ (attempt ≡ left))

    here-Chosen :
        (left i hash : ℕ) (opened : Bool) (w' : World)
        → Answered (server_of hash) false opened w'
        → (opened ≡ true) ⊎ ((cfg.allow_failover ≡ false) ⊎ (0 ≡ left))
        → Chosen left i hash (server_of hash) w'
    unfolding hash_after
    here-Chosen left i hash opened w' a u = record {
      attempt = 0;
      in_bounds = omega arith;
      server = refl;
      no_failover = λ e. refl;
      opened = opened;
      answered = a;
      until = u;
    }

    later-Chosen :
        (left i hash m : ℕ) (w' : World)
        → cfg.allow_failover ≡ true
        → Chosen left (suc i) (next i hash) m w'
        → Chosen (suc left) i hash m w'
    unfolding hash_after
    later-Chosen left i hash m w' allowed c = record {
      attempt = suc c.attempt;
      in_bounds = grind arith;
      server = c.server;
      no_failover = λ e. cc (allowed, e);
      opened = c.opened;
      answered = c.answered;
      until = go c.until;
    }
      where
        go :
            (c.opened ≡ true) ⊎ ((cfg.allow_failover ≡ false) ⊎ (c.attempt ≡ left))
            → (c.opened ≡ true) ⊎ ((cfg.allow_failover ≡ false) ⊎ (suc c.attempt ≡ suc left))
        go (inl e) = inl e
        go (inr (inl e)) = inr (inl e)
        go (inr (inr e)) = inr (inr (ap suc e))

    branch-Chosen :
        (left i hash : ℕ) (down allowed : Bool) (w' : World)
        → cfg.allow_failover ≡ allowed
        → Answered (server_of hash) false (not down) w'
        → Ends
            (Chosen left (suc i) (next i hash))
            (failover_loop env cfg next server_of none left (suc i) (next i hash) w')
        → Ends (Chosen (suc left) i hash) (
            if down && allowed
            then failover_loop env cfg next server_of none left (suc i) (next i hash) w'
            else ret (server_of hash) w')
    branch-Chosen left i hash true true w' e a m =
        Ends-map (Chosen left (suc i) (next i hash)) (Chosen (suc left) i hash)
          (failover_loop env cfg next server_of none left (suc i) (next i hash) w')
          (λ n w1. later-Chosen left i hash n w1 e) m
    branch-Chosen left i hash true false w' e a m = here-Chosen _ i hash false w' a (inr (inl e))
    branch-Chosen left i hash false allowed w' e a m = here-Chosen _ i hash true w' a (inl refl)

    pub failover_loop-Chosen :
        (left i hash : ℕ) (w : World)
        → AllLive w
        → Ends (Chosen left i hash) (failover_loop env cfg next server_of none left i hash w)
    unfolding failover_loop
    failover_loop-Chosen zero i hash w l =
        Ends->>= (λ down. Answered (server_of hash) false (not down)) (Chosen zero i hash)
          (should_failover env cfg none (server_of hash) w) (λ down. ret (server_of hash))
          (λ down w' a. here-Chosen zero i hash (not down) w' a (inr (inr refl)))
          (should_failover-Answered (server_of hash) w l)
    failover_loop-Chosen (suc left) i hash w l =
        Ends->>= (λ down. Answered (server_of hash) false (not down)) (Chosen (suc left) i hash)
          (should_failover env cfg none (server_of hash) w) _
          (λ down w' a.
            branch-Chosen left i hash down cfg.allow_failover w' refl a
              (failover_loop-Chosen left (suc i) (next i hash) w' a.live))
          (should_failover-Answered (server_of hash) w l)

    -- The choice, once the server's proxy is cleared.
    pub record Settled (left hash m : ℕ) (b : Bool) (w' : World) : Type 0 where
      pub chosen : Chosen left 0 hash m w'
      pub same : chosen.opened ≡ b
      pub no_proxy : (w'.servers m).proxy ≡ none

    pub settle-Settled :
        (left hash m : ℕ) (w' : World) (c : Chosen left 0 hash m w')
        → Settled left hash m c.opened (settle env cfg none m w')
    unfolding settle set_proxy
    settle-Settled left hash m w' c = record {
      chosen = record {
        attempt = c.attempt;
        in_bounds = c.in_bounds;
        server = c.server;
        no_failover = c.no_failover;
        opened = c.opened;
        answered = cleared;
        until = c.until;
      };
      same = refl;
      no_proxy = ap (λ (s : Server). s.proxy) (servers-update_self m _ w');
    }
      where
        v : Server
        v = record (w'.servers m) { proxy = none }

        cleared : Answered m false c.opened (update m v w')
        cleared = record {
          status_after =
              subst (StatusAfter c.opened false)
                (sym (ap (λ (s : Server). s.status) (servers-update_self m v w')))
                c.answered.status_after;
          live = AllLive-update m v w' (c.answered.live.at m) c.answered.live;
        }
