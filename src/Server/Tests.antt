-- ===== src/Server/Tests.antt =====
-- The connection of a server, on one client with two servers.
use php_pecl_memcache_zynga.Prelude.{
  ◌+◌, ◌≡◌, refl, true, false, none, some, arith, inr, [], leb, if◌then◌else◌,
}
use php_pecl_memcache_zynga.Prelude.Int.{pos}
use php_pecl_memcache_zynga.Prelude.Bytes.{bytes}
use php_pecl_memcache_zynga.Net.{unknown, Server, Env, World, tick, emit, update}
use php_pecl_memcache_zynga.Server.{
  ret, server_new, server_deactivate, server_failure, server_disconnect, close_stream,
  report_failure,
}
use php_pecl_memcache_zynga.Server.Open.{connect_loop, open_now, mmc_open}
use php_pecl_memcache_zynga.Server.Live.{AllLive}
use php_pecl_memcache_zynga.Server.Failure.{Ends}
use php_pecl_memcache_zynga.Server.Connect.{Attempts, Opened, connect_loop_lem, open_now-Opened}
use php_pecl_memcache_zynga.Server.Ready.{Answered, mmc_open-Answered}
use php_pecl_memcache_zynga.Server.Outcome.{
  StatusAfterFailure, server_failure_lem, deactivate-backs_off,
}

-- Two connections are refused, then one is open; no line can be read; a second is four calls.
abbrev slow_net : Env
slow_net = record {
  connect = λ n. record {
    opened = if leb n 4 then none else some n;
    errstr = some (bytes "refused");
    err = 111;
  };
  accept = λ n len. len;
  line = λ n. none;
  read = λ n len. [];
  time = λ n. 1000 + n;
  memnstr = λ needle text. none;
}

abbrev first_server : Server
first_server = server_new (bytes "cache1") 11211 true 1 (pos 15) false

-- A server that sleeps with its stream, and one that is down.
abbrev sleeping : World
sleeping = record {
  servers = λ j. record first_server { stream = some 3; status = unknown };
  calls = 0;
  events = [];
}

sleeping-AllLive : AllLive sleeping
sleeping-AllLive = record { at = λ j. tt }

connect_loop_lem_example :
    Attempts slow_net 9 sleeping
      (connect_loop slow_net 9 sleeping).0
      (connect_loop slow_net 9 sleeping).1
connect_loop_lem_example = connect_loop_lem slow_net 9 sleeping

open_now-Opened_example :
    Opened ((open_now slow_net 9 0 sleeping).1.servers 0) (open_now slow_net 9 0 sleeping).0
open_now-Opened_example = open_now-Opened slow_net 9 0 sleeping

mmc_open-Answered_example : Ends (λ b. Answered 0 true b) (mmc_open slow_net 2 0 true sleeping)
unfolding server_new
mmc_open-Answered_example = mmc_open-Answered slow_net 2 0 true sleeping (inr refl) sleeping-AllLive

server_failure_lem_example :
    StatusAfterFailure
      (server_failure slow_net 0 sleeping).0
      ((server_failure slow_net 0 sleeping).1.servers 0).status
    × AllLive (server_failure slow_net 0 sleeping).1
server_failure_lem_example = server_failure_lem slow_net 0 sleeping sleeping-AllLive

deactivate-backs_off_example :
    mmc_open slow_net 2 0 true (server_deactivate slow_net 0 sleeping)
    ≡ ret false (tick (server_deactivate slow_net 0 sleeping))
unfolding server_new server_deactivate server_disconnect close_stream report_failure emit update
deactivate-backs_off_example = deactivate-backs_off slow_net 2 15 0 true sleeping refl (omega arith)
