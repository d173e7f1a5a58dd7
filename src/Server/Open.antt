-- ===== src/Server/Open.antt =====
-- `mmc_get_version`, `_mmc_open` and `mmc_open`.
use php_pecl_memcache_zynga.Prelude.{
  ℕ, zero, suc, ◌+◌, ◌-◌, Bool, true, false, ◌++◌, Option, none, some, ltb, leb, if◌then◌else◌,
  take, drop,
}
use php_pecl_memcache_zynga.Prelude.Int.{ℤ, pos, negsuc}
use php_pecl_memcache_zynga.Prelude.Bytes.{Bytes, bytes}
use php_pecl_memcache_zynga.Net.{
  Status, failed_status, disconnected, unknown, connected, Answer, Env, World, update, tick,
  str_left,
}
use php_pecl_memcache_zynga.Server.{
  server_seterror, server_disconnect, server_deactivate, readline, sendcmd, Run, ret, ◌>>=◌,
}

module _ (env : Env) where
  -- The text is copied without its end into a block of its length; the model ends it there.
  unfoldable pub malformed_version : ℕ → ℕ → World → Run (Option Bytes)
  unfolding server_seterror
  malformed_version i response_len w =
      let len = if ltb 256 response_len then 256 else response_len in
      ret none
        (server_seterror i (bytes "Malformed version string :" ++ take len (w.servers i).inbuf) 0 w)

  -- A line of less than the ten bytes of its frame, whose copy has a negative length, is cut to none.
  unfoldable pub version_text : Bool → ℕ → ℕ → World → Run (Option Bytes)
  unfolding malformed_version
  version_text true i response_len w =
      ret (some (take (response_len - 8 - 2) (drop 8 (w.servers i).inbuf))) w
  version_text false i response_len w = malformed_version i response_len w

  unfoldable pub read_version : ℕ → Option ℕ → World → Run (Option Bytes)
  unfolding version_text str_left
  read_version i none w = ret none w
  read_version i (some response_len) w =
      version_text (str_left env (w.servers i).inbuf (bytes "VERSION ")) i response_len w

  unfoldable pub version_answer : ℕ → Bool → World → Run (Option Bytes)
  unfolding read_version readline
  version_answer i false w = ret none w
  version_answer i true w = let (len, w') = readline env i w in read_version i len w'

  -- `mmc_get_version`
  unfoldable pub get_version : ℕ → World → Run (Option Bytes)
  unfolding version_answer sendcmd
  get_version i w = sendcmd env i (bytes "version") w >>= version_answer i

  unfoldable pub is_some : Option ℕ → Bool
  is_some none = false
  is_some (some st) = true

  -- `do { … } while (!mmc->stream && ntries-- > 0)`, with the last answer. Each round writes
  -- `mmc->stream`; the last one's, which alone stays, is written behind the loop here.
  unfoldable pub connect_loop : ℕ → World → Answer × World
  unfolding is_some
  connect_loop zero w = (env.connect w.calls, tick w)
  connect_loop (suc ntries) w =
      let more = connect_loop ntries (tick w) in
      if is_some (env.connect w.calls).opened then (env.connect w.calls, tick w) else more

  unfoldable pub error_text : Option Bytes → Bytes
  error_text none = bytes "Connection failed"
  error_text (some text) = text

  -- What follows the loop of `_mmc_open`.
  unfoldable pub opened_or_error : Option ℕ → Answer → ℕ → World → Bool × World
  unfolding error_text server_seterror server_deactivate update
  opened_or_error none a i w =
      (false, server_deactivate env i (server_seterror i (error_text a.errstr) a.err w))
  opened_or_error (some st) a i w = (
    true,
    update i
        (record (w.servers i) {
          stream = some st;
          status = connected;
          got_options = false;
          error = none;
        })
        w,
  )

  unfoldable pub close_open_stream : Option ℕ → ℕ → World → World
  unfolding server_disconnect
  close_open_stream none i w = w
  close_open_stream (some st) i w = server_disconnect i w

  -- `_mmc_open`; its out-parameters with the error of the last attempt are only printed.
  module _ (connection_retry_count : ℕ) where
    unfoldable pub open_now : ℕ → World → Bool × World
    unfolding close_open_stream connect_loop opened_or_error
    open_now i w =
        let (a, w') =
          connect_loop connection_retry_count (close_open_stream (w.servers i).stream i w) in
        opened_or_error a.opened a i w'

    unfoldable pub known_open : ℕ → Bool × World → Run Bool
    unfolding update
    known_open i (true, w) = ret true (update i (record (w.servers i) { status = connected }) w)
    known_open i (false, w) = ret false w

    -- The case MMC_STATUS_UNKNOWN with `force_connect`.
    unfoldable pub known_version : ℕ → Option Bytes → World → Run Bool
    unfolding open_now update known_open
    known_version i (some v) w = ret true (update i (record (w.servers i) { status = connected }) w)
    known_version i none w = known_open i (open_now i w)

    -- `mmc->retry_interval >= 0 && time(NULL) >= mmc->failed + mmc->retry_interval`; the clock is
    -- read only behind the first test.
    unfoldable pub due_at : ℤ → ℕ → World → Bool × World
    due_at (negsuc n) failed w = (false, w)
    due_at (pos n) failed w = (leb (failed + n) (env.time w.calls), tick w)

    unfoldable pub retry_due : ℕ → World → Bool × World
    unfolding due_at
    retry_due i w = due_at (w.servers i).retry_interval (w.servers i).failed w

    unfoldable pub retry_failed : ℕ → Bool × World → Run Bool
    unfolding open_now
    retry_failed i (false, w) = ret false w
    retry_failed i (true, w) = let (opened, w') = open_now i w in ret opened w'

    unfoldable pub open_by_status : Status → Bool → ℕ → World → Run Bool
    unfolding open_now get_version known_version retry_due retry_failed
    open_by_status disconnected force i w = let (opened, w') = open_now i w in ret opened w'
    open_by_status connected force i w = ret true w
    open_by_status unknown true i w = get_version i w >>= known_version i
    open_by_status unknown false i w = ret true w
    open_by_status failed_status force i w = retry_failed i (retry_due i w)

    -- `mmc_open`
    unfoldable pub mmc_open : ℕ → Bool → World → Run Bool
    unfolding open_by_status
    mmc_open i force w = open_by_status (w.servers i).status force i w
