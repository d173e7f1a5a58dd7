-- ===== src/Server.antt =====
-- The connection of one server: memcache.cpp, from `mmc_server_new` to `mmc_readline`.
pub mod Open
pub mod Live
pub mod Failure
pub mod Connect
pub mod Ready
pub mod Outcome
pub mod Steps
mod Tests
use php_pecl_memcache_zynga.Prelude.{
  ℕ, zero, suc, ◌+◌, ◌-◌, ◌*◌, Bool, true, false, not, ◌&&◌, ◌||◌, List, [], ◌∷◌, ◌++◌, Option,
  none, some, ltb, leb, ◌==◌, if◌then◌else◌, length,
}
use php_pecl_memcache_zynga.Prelude.Int.{ℤ, pos, negsuc}
use php_pecl_memcache_zynga.Prelude.Bytes.{Bytes, bytes, starts_with}
use php_pecl_memcache_zynga.Prelude.Numbers.{print_ℕ}
use php_pecl_memcache_zynga.Net.{
  Status, failed_status, disconnected, unknown, connected, Server, Answer, Env, Event, closed,
  wrote, called_back, noticed, World, update, emit, tick,
}

-- `mmc_server_new`, without the count of persistent connections
unfoldable pub server_new : Bytes → ℕ → Bool → ℕ → ℤ → Bool → Server
server_new host port persistent timeout retry_interval use_binary = record {
  stream = none;
  inbuf = [];
  host = host;
  proxy_str =
      (if use_binary then bytes "B:" else bytes "A:")
      ++ (host ++ (bytes ":" ++ (print_ℕ port ++ bytes " ")));
  port = port;
  timeout = timeout;
  timeoutms = timeout * 1000;
  connect_timeoutms = timeout * 1000;
  failed = 0;
  retry_interval = retry_interval;
  persistent = persistent;
  status = disconnected;
  error = none;
  errnum = 0;
  failure_callback = false;
  in_free = false;
  got_options = false;
  data_integrity_algo = 0;
  di_algo_in_use = 0;
  proxy = none;
}

-- `mmc_server_seterror` with a text
unfoldable pub server_seterror : ℕ → Bytes → ℕ → World → World
server_seterror i text num w = update i (record (w.servers i) { error = some text; errnum = num }) w

-- `mmc_server_sleep`, without the reference counts
unfoldable pub server_sleep : ℕ → World → World
server_sleep i w = update i (record (w.servers i) { failure_callback = false; error = none }) w

unfoldable pub close_stream : Option ℕ → World → World
unfolding emit
close_stream none w = w
close_stream (some st) w = emit (closed st) w

-- `mmc_server_disconnect`; `php_stream_pclose` and `php_stream_close` are one event.
unfoldable pub server_disconnect : ℕ → World → World
unfolding close_stream update
server_disconnect i w =
    update i (record (w.servers i) { stream = none; status = disconnected })
      (close_stream (w.servers i).stream w)

-- `mmc->proxy ? mmc->proxy->stream : mmc->stream`
abbrev pub stream_of : ℕ → World → Option ℕ
stream_of i w = elim (w.servers i).proxy [
  | some p ↦ (w.servers p).stream
  | none ↦ (w.servers i).stream
]

-- `response == false`: NULL is 0.
abbrev pub equals_false : Option Bytes → Bool
equals_false none = true
equals_false (some response) = false

unfoldable pub read_failed : ℕ → ℕ → World → Option ℕ × World
unfolding server_seterror
read_failed i retry_count w = (
  none,
  server_seterror i (bytes "Failed reeading line from stream. Retry count " ++ print_ℕ retry_count)
      0 w,
)

-- The failure callback is user code: the model records that it is called.
unfoldable pub report_failure : Bool → ℕ → World → World
unfolding emit
report_failure true i w = emit (called_back i) w
report_failure false i w = emit (noticed i) w

module _ (env : Env) where
  -- `mmc_server_deactivate`
  unfoldable pub server_deactivate : ℕ → World → World
  unfolding server_disconnect report_failure update
  server_deactivate i w =
      let w1 = server_disconnect i w in
      let w2 = tick (
        update i (record (w1.servers i) { status = failed_status; failed = env.time w1.calls })
          w1) in
      report_failure (w2.servers i).failure_callback i w2

  unfoldable pub failure_by_status : Status → ℕ → World → Bool × World
  unfolding server_deactivate update
  failure_by_status disconnected i w = (false, w)
  failure_by_status unknown i w =
      (false, update i (record (w.servers i) { status = disconnected }) w)
  failure_by_status _ i w = (true, server_deactivate i w)

  unfoldable pub failure_by_proxy : Option ℕ → ℕ → World → Bool × World
  unfolding failure_by_status server_disconnect server_deactivate
  failure_by_proxy (some p) i w = (true, server_deactivate i (server_disconnect p w))
  failure_by_proxy none i w = failure_by_status (w.servers i).status i w

  -- `mmc_server_failure`: true for a hard failure
  unfoldable pub server_failure : ℕ → World → Bool × World
  unfolding failure_by_proxy
  server_failure i w = failure_by_proxy (w.servers i).proxy i w

  -- One round of the loop of `mmc_readline`, and the rounds behind it.
  unfoldable pub read_round : Option Bytes → Option ℕ × World → ℕ → ℕ → World → Option ℕ × World
  unfolding read_failed update
  read_round (some response) more retry_count i w =
      (some (length response), update i (record (w.servers i) { inbuf = response }) w)
  read_round none more retry_count i w =
      if equals_false none then read_failed i retry_count w else more

  -- The loop, with the rounds left.
  unfoldable pub read_loop : ℕ → ℕ → ℕ → World → Option ℕ × World
  unfolding read_round read_failed
  read_loop zero retry_count i w = read_failed i (retry_count + 1) w
  read_loop (suc rounds) retry_count i w =
      let more = read_loop rounds (retry_count + 1) i (tick w) in
      read_round (env.line w.calls) more (retry_count + 1) i (tick w)

  unfoldable pub read_stream : Option ℕ → ℕ → World → Option ℕ × World
  unfolding read_loop server_seterror
  read_stream none i w = (none, server_seterror i (bytes "Socket is closed") 0 w)
  read_stream (some st) i w = read_loop 3 0 i w

  -- `mmc_readline`: the length of the line in `inbuf`, `none` for -1
  unfoldable pub readline : ℕ → World → Option ℕ × World
  unfolding read_stream
  readline i w = read_stream (stream_of i w) i w

  -- `php_stream_write(stream, text, len) == len`
  unfoldable pub stream_write : ℕ → Bytes → World → Bool × World
  unfolding emit
  stream_write st text w =
      (env.accept w.calls (length text) == length text, emit (wrote st text) (tick w))

-- A function that may read through a NULL stream.
pub data Run (A : Type 0) : Type 0 where
  ret : A → World → Run A
  crash : Run A

infixl 5 ◌>>=◌
abbrev pub ◌>>=◌ : {A B : Type 0} → Run A → (A → World → Run B) → Run B
ret a w >>= f = f a w
crash >>= f = crash

module _ (env : Env) where
  unfoldable pub proxy_prefix : ℕ → World → Bytes
  proxy_prefix i w = elim (w.servers i).proxy [ some p ↦ (w.servers i).proxy_str | none ↦ [] ]

  unfoldable pub sent_or_error : Bool × World → ℕ → Run Bool
  unfolding server_seterror
  sent_or_error (true, w) i = ret true w
  sent_or_error (false, w) i =
      ret false (server_seterror i (bytes "Failed writing command to stream") 0 w)

  unfoldable pub send_on : Option ℕ → ℕ → Bytes → World → Run Bool
  unfolding stream_write sent_or_error
  send_on none i text w = crash
  send_on (some st) i text w = sent_or_error (stream_write env st text w) i

  -- `mmc_sendcmd`: the command behind the proxy's prefix, in one write
  unfoldable pub sendcmd : ℕ → Bytes → World → Run Bool
  unfolding send_on proxy_prefix
  sendcmd i cmd w = send_on (stream_of i w) i (proxy_prefix i w ++ (cmd ++ (13 ∷ 10 ∷ []))) w
