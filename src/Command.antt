-- ===== src/Command.antt =====
-- The commands of one line's reply: `mmc_server_received_error`, `mmc_server_store`, `mmc_delete` and
-- `mmc_incr_decr` of memcache.cpp. The logger's host and the notices are left out.
pub mod Live
pub mod Replies
mod Tests
use php_pecl_memcache_zynga.Prelude.{
  ℕ, zero, suc, ◌+◌, ◌-◌, Bool, true, false, not, ◌&&◌, ◌||◌, List, [], ◌∷◌, ◌++◌, Option, none,
  some, ltb, leb, ◌==◌, if◌then◌else◌, length, take, drop,
}
use php_pecl_memcache_zynga.Prelude.Int.{ℤ, pos, negsuc}
use php_pecl_memcache_zynga.Prelude.Bytes.{Bytes, bytes}
use php_pecl_memcache_zynga.Prelude.Numbers.{print_ℤ, strtol, strtoul}
use php_pecl_memcache_zynga.Net.{Server, Env, World, update, str_left, mmc_str}
use php_pecl_memcache_zynga.Server.{
  server_seterror, stream_of, stream_write, readline, sendcmd, Run, ret, crash, ◌>>=◌,
}

-- What a command gives: its result, the log's status code where it sets one, and the value it reads,
-- a cas or a number.
pub record Done : Type 0 where
  pub result : ℤ
  pub code : Option ℕ
  pub number : Option ℤ

abbrev pub failure : ℤ → Done
failure r = record { result = r; code = none; number = none }

abbrev pub coded : ℤ → ℕ → Done
coded r c = record { result = r; code = some c; number = none }

-- The status codes of logger.h that are set here.
abbrev pub mc_stored : ℕ
mc_stored = 0x1

abbrev pub mc_not_stored : ℕ
mc_not_stored = 0x2

abbrev pub mc_not_found : ℕ
mc_not_found = 0x3

abbrev pub mc_exists : ℕ
mc_exists = 0x4

abbrev pub mc_tmp_fail : ℕ
mc_tmp_fail = 0x5

abbrev pub mc_server_mem_error : ℕ
mc_server_mem_error = 0x6

abbrev pub mc_lock_error : ℕ
mc_lock_error = 0x7

abbrev pub mc_error : ℕ
mc_error = 0x8

abbrev pub mc_non_numeric_value : ℕ
mc_non_numeric_value = 0x14

abbrev pub mc_deleted : ℕ
mc_deleted = 201

abbrev pub readline_failed : ℕ
readline_failed = 105

module _ (env : Env) where
  -- The received line cut to the buffer, as an error.
  unfoldable pub error_of_line : ℕ → ℕ → World → World
  unfolding server_seterror update
  error_of_line i response_len w =
      let text = take (if ltb response_len 4095 then response_len else 4095) (w.servers i).inbuf in
      let w' = update i (record (w.servers i) { inbuf = text }) w in server_seterror i text 0 w'

  unfoldable pub error_if : Bool → ℕ → ℕ → World → World
  unfolding error_of_line
  error_if true i response_len w = error_of_line i response_len w
  error_if false i response_len w = w

  -- The last test and its `else`s.
  unfoldable pub error_or_malformed : Bool → Bool → ℕ → ℕ → World → World
  unfolding error_of_line server_seterror
  error_or_malformed true not_found i response_len w = error_of_line i response_len w
  error_or_malformed false true i response_len w =
      server_seterror i (bytes "Key does not exist or the Queue specified is not a valid one") 0 w
  error_or_malformed false false i response_len w =
      server_seterror i (bytes "Received malformed response") 0 w

  abbrev begins : ℕ → World → Bytes → Bool
  begins i w text = str_left env (w.servers i).inbuf text

  -- `mmc_server_received_error`
  unfoldable pub received_error : ℕ → ℕ → World → World
  unfolding error_if error_or_malformed str_left
  received_error i response_len w =
      let w1 = error_if (begins i w (bytes "ERROR")) i response_len w in
      let w2 = error_if (begins i w1 (bytes "CLIENT_ERROR")) i response_len w1 in
      error_or_malformed (begins i w2 (bytes "SERVER_ERROR")) (begins i w2 (bytes "NOT_FOUND")) i
        response_len w2

  -- The replies to a store that is not done; `none` for an error.
  unfoldable pub store_refusal : Bytes → Option Done
  unfolding str_left mmc_str
  store_refusal inbuf =
      if str_left env inbuf (bytes "NOT_STORED")
      then some (coded (pos 0) mc_not_stored)
      else if str_left env inbuf (bytes "NOT_FOUND")
      then some (coded (pos 0) mc_not_found)
      else if str_left env inbuf (bytes "EXISTS")
      then some (coded (pos 0) mc_exists)
      else if mmc_str env inbuf (bytes "temporary failure")
      then some (coded (pos 0) mc_tmp_fail)
      else if str_left env inbuf (bytes "SERVER_ERROR out of memory")
          || str_left env inbuf (bytes "SERVER_ERROR object too large")
      then some (coded (pos 0) mc_server_mem_error)
      else if str_left env inbuf (bytes "LOCK_ERROR")
      then some (coded (pos 0) mc_lock_error)
      else if str_left env inbuf (bytes "SERVER_ERROR checksum failed")
      then some (failure (negsuc 1))
      else none

  unfoldable pub stored_reply : Bytes → Done
  unfolding strtoul
  stored_reply inbuf = record {
    result = pos 1;
    code = some mc_stored;
    number = some (pos (strtoul (drop 7 inbuf)));
  }

  -- The replies to a store: the cas behind "STORED ", or a refusal.
  unfoldable pub store_reply : Bytes → Option Done
  unfolding str_left store_refusal stored_reply
  store_reply inbuf =
      if str_left env inbuf (bytes "STORED") then some (stored_reply inbuf) else store_refusal inbuf

  unfoldable pub delete_reply : Bytes → Option Done
  unfolding str_left mmc_str
  delete_reply inbuf =
      if str_left env inbuf (bytes "DELETED")
      then some (coded (pos 1) mc_deleted)
      else if str_left env inbuf (bytes "NOT_FOUND")
      then some (coded (pos 0) mc_not_found)
      else if mmc_str env inbuf (bytes "temporary failure")
      then some (coded (pos 0) mc_tmp_fail)
      else none

  -- `none` for the error texts
  unfoldable pub incr_reply : Bytes → Option Done
  unfolding str_left mmc_str
  incr_reply inbuf =
      if str_left env inbuf (bytes "NOT_FOUND")
      then some (coded (pos 0) mc_not_found)
      else if mmc_str env inbuf (bytes "non-numeric value")
      then some (coded (pos 0) mc_non_numeric_value)
      else if mmc_str env inbuf (bytes "temporary failure")
      then some (coded (pos 0) mc_tmp_fail)
      else if str_left env inbuf (bytes "ERROR")
          || (str_left env inbuf (bytes "CLIENT_ERROR")
              || str_left env inbuf (bytes "SERVER_ERROR"))
      then none
      else some (record { result = pos 1; code = none; number = some (strtol inbuf) })

  -- The end of a command: a known reply, or an error with its code.
  unfoldable pub reply_or_error : Option Done → Done → ℕ → ℕ → World → Run Done
  unfolding received_error
  reply_or_error (some d) bad i response_len w = ret d w
  reply_or_error none bad i response_len w = ret bad (received_error i response_len w)

  unfoldable pub read_reply : (Bytes → Option Done) → Done → Done → ℕ → Option ℕ × World → Run Done
  unfolding reply_or_error
  read_reply classify lost bad i (none, w) = ret lost w
  read_reply classify lost bad i (some response_len, w) =
      reply_or_error (classify (w.servers i).inbuf) bad i response_len w

  unfoldable pub if_sent : (Bytes → Option Done) → Done → Done → ℕ → Bool → World → Run Done
  unfolding read_reply readline
  if_sent classify lost bad i false w = ret (failure (negsuc 0)) w
  if_sent classify lost bad i true w = read_reply classify lost bad i (readline env i w)

  -- `mmc_delete`
  unfoldable pub delete : ℕ → Bytes → ℤ → World → Run Done
  unfolding sendcmd if_sent delete_reply
  delete i key time w =
      sendcmd env i (bytes "delete " ++ (key ++ (bytes " " ++ print_ℤ time))) w
      >>= if_sent delete_reply (coded (negsuc 0) readline_failed) (failure (negsuc 0)) i

  -- `mmc_incr_decr`, with `cmd > 0` as a Boolean
  unfoldable pub incr_decr : ℕ → Bool → Bytes → ℤ → World → Run Done
  unfolding sendcmd if_sent incr_reply
  incr_decr i up key value w =
      sendcmd env i
        ((if up then bytes "incr " else bytes "decr ") ++ (key ++ (bytes " " ++ print_ℤ value))) w
      >>= if_sent incr_reply (failure (negsuc 0)) (coded (negsuc 0) mc_error) i

  unfoldable pub written_or_error : Bytes → ℕ → Bool × World → Run Bool
  unfolding server_seterror
  written_or_error error i (true, w) = ret true w
  written_or_error error i (false, w) = ret false (server_seterror i error 0 w)

  -- A write to a stream, with the error of a short one; the code reads a NULL stream.
  unfoldable pub write_or_error : Option ℕ → Bytes → Bytes → ℕ → World → Run Bool
  unfolding stream_write written_or_error
  write_or_error none text error i w = crash
  write_or_error (some st) text error i w = written_or_error error i (stream_write env st text w)

  unfoldable pub prefix_to : Option ℕ → ℕ → World → Run Bool
  unfolding write_or_error
  prefix_to none i w = ret true w
  prefix_to (some p) i w =
      write_or_error (w.servers p).stream (w.servers i).proxy_str
        (bytes "Failed sending proxy string") i w

  -- The proxy's prefix is a write of its own here.
  unfoldable pub write_prefix : ℕ → World → Run Bool
  unfolding prefix_to
  write_prefix i w = prefix_to (w.servers i).proxy i w

  unfoldable pub write_request : Bytes → ℕ → Bool → World → Run Bool
  unfolding write_or_error
  write_request request i false w = ret false w
  write_request request i true w =
      write_or_error (stream_of i w) request (bytes "Failed sending command and value to stream") i
        w

  -- `mmc_server_store`
  unfoldable pub server_store : ℕ → Bytes → World → Run Done
  unfolding write_prefix write_request if_sent store_reply
  server_store i request w =
      (write_prefix i w >>= write_request request i)
      >>= if_sent store_reply (failure (negsuc 0)) (failure (negsuc 0)) i
