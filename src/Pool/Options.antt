-- ===== src/Pool/Options.antt =====
-- A server that is asked for its options: what `get_options` leaves of it.
use php_pecl_memcache_zynga.Prelude.{
  ℕ, ◌≡◌, sym, ap, ◌∙◌, ◌⊎◌, inl, inr, Bool, true, false, Option, none, some,
}
use mathlib.Core.Path.{subst}
use php_pecl_memcache_zynga.Prelude.Bytes.{Bytes}
use php_pecl_memcache_zynga.Net.{
  Status, failed_status, disconnected, unknown, connected, Server, Env, World, update,
  servers-update_self,
}
use php_pecl_memcache_zynga.Server.{
  ◌>>=◌, server_failure, failure_by_proxy, failure_by_status, server_deactivate, server_disconnect,
  close_stream, readline,
}
use php_pecl_memcache_zynga.Server.Live.{
  HasStream, LiveStatus, AllLive, AllLive-update, failure-AllLive, deactivate-status,
  deactivate-servers, failed_server,
}
use php_pecl_memcache_zynga.Server.Failure.{
  Ends, Ends->>=, Ends-map, Kept, Kept-trans, readline-Kept, life,
}
use php_pecl_memcache_zynga.Command.{write_prefix, write_request}
use php_pecl_memcache_zynga.Command.Live.{prefix-Kept, request-Kept, refl-Kept}
use php_pecl_memcache_zynga.Pool.{
  Strategy, options_text, take_options, read_options, options_sent, get_options, got_from_proxy,
  note_options, algo_in_use, use_algo, reply_algo,
}

-- A request can be sent to the server, or it has failed.
pub record Ready (i : ℕ) (w : World) : Type 0 where
  pub no_proxy : (w.servers i).proxy ≡ none
  pub streamed : ((w.servers i).status ≡ failed_status) ⊎ HasStream (w.servers i).stream

abbrev pub ReadyAt : Option ℕ → World → Type 0
ReadyAt none w = Unit {0}
ReadyAt (some i) w = Ready i w

-- What a strategy promises without a proxy, of the states that are valid: the lookup comes to its end,
-- in a live store, with a server that is ready, or none; and its state is valid again.
pub record Lawful {S : Type 0} (strategy : Strategy S) (Valid : S → Type 0) : Type 0 where
  pub stays_valid :
      (s : S) (key : Bytes) (w : World)
      → Valid s
      → AllLive w
      → Valid (strategy.find_server s key false w).0
  pub finds :
      (s : S) (key : Bytes) (w : World)
      → Valid s
      → AllLive w
      → Ends (λ r w'. AllLive w' × ReadyAt r w') (strategy.find_server s key false w).1

-- The server is not behind a proxy and has a stream.
pub record Sendable (i : ℕ) (w : World) : Type 0 where
  pub live : AllLive w
  pub no_proxy : (w.servers i).proxy ≡ none
  pub has_stream : HasStream (w.servers i).stream

pub Kept-Sendable : (i : ℕ) (w w' : World) → Kept i w w' → Sendable i w → Sendable i w'
Kept-Sendable i w w' k s = record {
  live = k.live;
  no_proxy = k.same_proxy ∙ s.no_proxy;
  has_stream = subst HasStream (sym k.same_stream) s.has_stream;
}

updated-Sendable :
    (i : ℕ) (v : Server) (w : World)
    → AllLive w
    → LiveStatus v.status v.stream
    → v.proxy ≡ none
    → HasStream v.stream
    → Sendable i (update i v w)
updated-Sendable i v w l s p h = record {
  live = AllLive-update i v w s l;
  no_proxy = ap (λ (t : Server). t.proxy) (servers-update_self i v w) ∙ p;
  has_stream = subst (λ (t : Server). HasStream t.stream) (sym (servers-update_self i v w)) h;
}

Sendable-Ready : (i : ℕ) (w : World) → Sendable i w → Ready i w
Sendable-Ready i w s = record { no_proxy = s.no_proxy; streamed = inr s.has_stream }

-- A live store with the server ready in it.
pub record LiveReady (i : ℕ) (w : World) : Type 0 where
  pub live : AllLive w
  pub ready : Ready i w

pub Sendable-LiveReady : (i : ℕ) (w : World) → Sendable i w → LiveReady i w
Sendable-LiveReady i w s = record { live = s.live; ready = Sendable-Ready i w s }

module _ (env : Env) where
  deactivate-Ready :
      (i : ℕ) (w : World) → (w.servers i).proxy ≡ none → Ready i (server_deactivate env i w)
  unfolding failed_server server_disconnect
  deactivate-Ready i w p = record {
    no_proxy =
        ap (λ (t : Server). t.proxy) (deactivate-servers env i w)
        ∙ (ap (λ (t : Server). t.proxy)
              (servers-update_self i (record (w.servers i) { stream = none; status = disconnected })
                (close_stream (w.servers i).stream w))
            ∙ p);
    streamed = inl (deactivate-status env i w);
  }

  by_status-Ready :
      (s : Status) (i : ℕ) (w : World) → Sendable i w → Ready i (failure_by_status env s i w).1
  unfolding failure_by_status
  by_status-Ready disconnected i w s = Sendable-Ready i w s
  by_status-Ready unknown i w s = Sendable-Ready i _ (
      updated-Sendable i (record (w.servers i) { status = disconnected }) w s.live tt s.no_proxy
        s.has_stream)
  by_status-Ready connected i w s = deactivate-Ready i w s.no_proxy
  by_status-Ready failed_status i w s = deactivate-Ready i w s.no_proxy

  -- A failure of a server that is not behind a proxy.
  pub failure-LiveReady :
      (i : ℕ) (w : World) → Sendable i w → LiveReady i (server_failure env i w).1
  unfolding server_failure failure_by_proxy
  failure-LiveReady i w s = record {
    live = failure-AllLive env i w s.live;
    ready =
        subst (λ (o : Option ℕ). Ready i (failure_by_proxy env o i w).1) (sym s.no_proxy)
          (by_status-Ready (w.servers i).status i w s);
  }

  take_options-Kept :
      (b : Bool) (len i : ℕ) (w : World)
      → AllLive w
      → Ends (λ ok. Kept i w) (take_options env b len i w)
  unfolding take_options
  take_options-Kept true len i w l = refl-Kept i w l
  take_options-Kept false len i w l = record {
    live = AllLive-update i v w (l.at i) l;
    same_proxy = ap (λ (t : Server). t.proxy) (servers-update_self i v w);
    same_stream = ap (λ (t : Server). t.stream) (servers-update_self i v w);
    same_life = ap life (servers-update_self i v w);
  }
    where
      v : Server
      v = record (w.servers i) { data_integrity_algo = reply_algo env len (w.servers i).inbuf }

  read_options-Kept :
      (i : ℕ) (o : Option ℕ) (w : World)
      → AllLive w
      → Ends (λ ok. Kept i w) (read_options env i (o, w))
  unfolding read_options
  read_options-Kept i none w l = refl-Kept i w l
  read_options-Kept i (some len) w l = take_options-Kept _ len i w l

  sent-Kept :
      (i : ℕ) (b : Bool) (w w' : World)
      → Kept i w w'
      → Ends (λ ok. Kept i w) (options_sent env i b w')
  unfolding options_sent
  sent-Kept i false w w' k = k
  sent-Kept i true w w' k =
      let r : Option ℕ × World = readline env i w' in
      let k' = readline-Kept env i w' k.live in
      Ends-map (λ ok. Kept i r.1) (λ ok. Kept i w) (read_options env i r)
        (λ ok w1. Kept-trans i w r.1 w1 (Kept-trans i w w' r.1 k k'))
        (read_options-Kept i r.0 r.1 k'.live)

  pub get_options-Kept :
      (algo : Bytes) (checked : Bool) (i : ℕ) (w : World)
      → Sendable i w
      → Ends (λ ok. Kept i w) (get_options env algo checked i w)
  unfolding get_options
  get_options-Kept algo checked i w s =
      Ends->>= (λ ok. Kept i w) (λ ok. Kept i w)
        (write_prefix env i w >>= write_request env (options_text algo checked) i)
        (options_sent env i) (λ b w' k. sent-Kept i b w w' k)
        (Ends->>= (λ _. Kept i w) (λ _. Kept i w) (write_prefix env i w)
          (write_request env (options_text algo checked) i)
          (λ b w' k.
            request-Kept env (options_text algo checked) i b w w' s.no_proxy s.has_stream k)
          (prefix-Kept env i w s.no_proxy s.live))

  pub note_options-LiveReady :
      (i : ℕ) (ok : Bool) (w : World) → Sendable i w → LiveReady i (note_options env false i ok w)
  unfolding note_options got_from_proxy
  note_options-LiveReady i true w s = Sendable-LiveReady i _ (
      updated-Sendable i (record (w.servers i) { got_options = true }) w s.live (s.live.at i)
        s.no_proxy s.has_stream)
  note_options-LiveReady i false w s = failure-LiveReady i w s

  pub use_algo-LiveReady :
      (checked : Bool) (i : ℕ) (w : World) → LiveReady i w → LiveReady i (use_algo checked i w)
  unfolding use_algo
  use_algo-LiveReady checked i w r = record {
    live = AllLive-update i v w (r.live.at i) r.live;
    ready = record {
      no_proxy = ap (λ (t : Server). t.proxy) (servers-update_self i v w) ∙ r.ready.no_proxy;
      streamed =
          subst (λ (t : Server). (t.status ≡ failed_status) ⊎ HasStream t.stream)
            (sym (servers-update_self i v w)) r.ready.streamed;
    };
  }
    where
      v : Server
      v = record (w.servers i) {
        di_algo_in_use = algo_in_use checked (w.servers i).data_integrity_algo;
      }
