-- ===== src/Server/Connect.antt =====
-- The loop of connection attempts of `_mmc_open`, and what opening comes to.
use php_pecl_memcache_zynga.Prelude.{
  ℕ, zero, suc, ◌+◌, ◌≤◌, ◌<◌, ◌≡◌, refl, ap, ◌∙◌, ◌⊎◌, inl, inr, Bool, true, false, Option, none,
  some, arith, if◌then◌else◌,
}
use php_pecl_memcache_zynga.Net.{
  failed_status, connected, Server, Answer, Env, World, tick, update, servers-update_self,
}
use php_pecl_memcache_zynga.Server.{server_seterror}
use php_pecl_memcache_zynga.Server.Open.{
  connect_loop, is_some, open_now, opened_or_error, close_open_stream, error_text,
}
use php_pecl_memcache_zynga.Server.Live.{
  AllLive, AllLive-update, AllLive-same, seterror-AllLive, disconnect-AllLive, deactivate-AllLive,
  deactivate-status, deactivate-stream,
}

-- Connections were tried from call `w.calls`: the last gave `a`, those before it gave nothing, and
-- it is the last of `ntries + 1` or one that gave a stream.
pub record Attempts (env : Env) (ntries : ℕ) (w : World) (a : Answer) (w' : World) : Type 0 where
  pub failures : ℕ
  pub in_bounds : failures ≤ ntries
  pub all_failed : (j : ℕ) → j < failures → (env.connect (w.calls + j)).opened ≡ none
  pub last_answer : a ≡ env.connect (w.calls + failures)
  pub until : (failures ≡ ntries) ⊎ (is_some env a.opened ≡ true)
  pub calls_after : w'.calls ≡ w.calls + suc failures
  pub same_servers : w'.servers ≡ w.servers
  pub same_events : w'.events ≡ w.events

-- What `_mmc_open` leaves: a fresh connection, or a failed server without a stream.
pub data Opened (s : Server) : Bool → Type 0 where
  is_open :
      (st : ℕ)
      → s.stream ≡ some st
      → s.status ≡ connected
      → s.got_options ≡ false
      → s.error ≡ none
      → Opened s true
  is_failed : s.stream ≡ none → s.status ≡ failed_status → Opened s false

module _ (env : Env) where
  is_some-none : (o : Option ℕ) → is_some env o ≡ false → o ≡ none
  unfolding is_some
  is_some-none none h = refl
  is_some-none (some st) h = cc h

  first-Attempts :
      (n : ℕ) (w : World)
      → (0 ≡ n) ⊎ (is_some env (env.connect w.calls).opened ≡ true)
      → Attempts env n w (env.connect w.calls) (tick w)
  first-Attempts n w h = record {
    failures = 0;
    in_bounds = omega arith;
    all_failed = λ j l. elim (nothing j l) [ ];
    last_answer = ap env.connect (omega arith);
    until = h;
    calls_after = omega arith;
    same_servers = refl;
    same_events = refl;
  }
    where
      nothing : (j : ℕ) → j < 0 → ⊥
      nothing j l = omega arith

  next-Attempts :
      (n : ℕ) (w : World) (a : Answer) (w' : World)
      → (env.connect w.calls).opened ≡ none
      → Attempts env n (tick w) a w'
      → Attempts env (suc n) w a w'
  next-Attempts n w a w' h t = record {
    failures = suc t.failures;
    in_bounds = grind arith;
    all_failed = λ j l. at_call j l;
    last_answer = t.last_answer ∙ ap env.connect (omega arith);
    until = counted t.until;
    calls_after = t.calls_after ∙ omega arith;
    same_servers = t.same_servers;
    same_events = t.same_events;
  }
    where
      counted :
          (t.failures ≡ n) ⊎ (is_some env a.opened ≡ true)
          → (suc t.failures ≡ suc n) ⊎ (is_some env a.opened ≡ true)
      counted (inl e) = inl (ap suc e)
      counted (inr e) = inr e

      at_call : (j : ℕ) → j < suc t.failures → (env.connect (w.calls + j)).opened ≡ none
      at_call zero l = ap (λ (k : ℕ). (env.connect k).opened) (omega arith) ∙ h
      at_call (suc j) l =
          ap (λ (k : ℕ). (env.connect k).opened) (omega arith) ∙ t.all_failed j (omega arith)

  -- The loop of `_mmc_open` with `ntries` retries makes at least one and at most `ntries + 1`
  -- attempts, each after the last one failed; it ends at the first that gives a stream, or after
  -- the last; and it changes no server.
  pub connect_loop_lem :
      (ntries : ℕ) (w : World)
      → Attempts env ntries w (connect_loop env ntries w).0 (connect_loop env ntries w).1
  unfolding connect_loop
  connect_loop_lem zero w = first-Attempts 0 w (inl refl)
  connect_loop_lem (suc n) w =
      go (is_some env (env.connect w.calls).opened) refl (connect_loop_lem n (tick w))
    where
      go :
          (b : Bool)
          → is_some env (env.connect w.calls).opened ≡ b
          → Attempts env n (tick w) (connect_loop env n (tick w)).0 (connect_loop env n (tick w)).1
          → let r : Answer × World =
              if b then (env.connect w.calls, tick w) else connect_loop env n (tick w) in
            Attempts env (suc n) w r.0 r.1
      go true e more = first-Attempts (suc n) w (inr e)
      go false e more = next-Attempts n w _ _ (is_some-none _ e) more

  or_error-Opened :
      (o : Option ℕ) (a : Answer) (i : ℕ) (w : World)
      → let r : Bool × World = opened_or_error env o a i w in Opened (r.1.servers i) r.0
  unfolding opened_or_error
  or_error-Opened none a i w =
      let w' = server_seterror i (error_text env a.errstr) a.err w in
      is_failed (deactivate-stream env i w') (deactivate-status env i w')
  or_error-Opened (some st) a i w =
      is_open st (ap (λ (s : Server). s.stream) e) (ap (λ (s : Server). s.status) e)
        (ap (λ (s : Server). s.got_options) e) (ap (λ (s : Server). s.error) e)
    where
      e :
          ((update i
              (record (w.servers i) {
                stream = some st;
                status = connected;
                got_options = false;
                error = none;
              })
              w).servers
            i)
          ≡ record (w.servers i) {
            stream = some st;
            status = connected;
            got_options = false;
            error = none;
          }
      e =
          servers-update_self i
            (record (w.servers i) {
              stream = some st;
              status = connected;
              got_options = false;
              error = none;
            })
            w

  or_error-AllLive :
      (o : Option ℕ) (a : Answer) (i : ℕ) (w : World)
      → AllLive w
      → AllLive (opened_or_error env o a i w).1
  unfolding opened_or_error
  or_error-AllLive none a i w l = deactivate-AllLive env i _ (seterror-AllLive i _ a.err w l)
  or_error-AllLive (some st) a i w l = AllLive-update i _ w tt l

  close_open-AllLive :
      (o : Option ℕ) (i : ℕ) (w : World) → AllLive w → AllLive (close_open_stream env o i w)
  unfolding close_open_stream
  close_open-AllLive none i w l = l
  close_open-AllLive (some st) i w l = disconnect-AllLive i w l

  -- `_mmc_open` gives true with a connected server that has a stream, no error, and its options yet
  -- to be asked for, and false with a failed server that has no stream.
  pub open_now-Opened :
      (retries i : ℕ) (w : World)
      → let r : Bool × World = open_now env retries i w in Opened (r.1.servers i) r.0
  unfolding open_now
  open_now-Opened retries i w = or_error-Opened _ _ i _

  pub open_now-AllLive :
      (retries i : ℕ) (w : World) → AllLive w → AllLive (open_now env retries i w).1
  unfolding open_now
  open_now-AllLive retries i w l =
      let w' = close_open_stream env (w.servers i).stream i w in
      or_error-AllLive _ _ i _ (
        AllLive-same w' _ (connect_loop_lem retries w').same_servers
          (close_open-AllLive (w.servers i).stream i w l))
