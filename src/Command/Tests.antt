-- ===== src/Command/Tests.antt =====
-- The commands on a server whose every answer is a client error.
use php_pecl_memcache_zynga.Prelude.{
  ◌+◌, ◌≡◌, refl, ◌↔◌, true, false, [], none, some, arith, length,
}
use php_pecl_memcache_zynga.Prelude.Int.{pos}
use php_pecl_memcache_zynga.Prelude.Bytes.{bytes, starts_with}
use php_pecl_memcache_zynga.Net.{connected, Env, World}
use php_pecl_memcache_zynga.Net.Search.{search_text, search_text-FindsFirst}
use php_pecl_memcache_zynga.Server.{server_new}
use php_pecl_memcache_zynga.Server.Live.{AllLive}
use php_pecl_memcache_zynga.Server.Failure.{Ends, Kept}
use php_pecl_memcache_zynga.Command.{received_error, delete, incr_decr, server_store, store_reply}
use php_pecl_memcache_zynga.Command.Live.{commands-Kept}
use php_pecl_memcache_zynga.Command.Replies.{
  error_text_of, received_error_lem, result_of, store_reply-stored,
}

abbrev refusing_net : Env
refusing_net = record {
  connect = λ n. record { opened = none; errstr = none; err = 111 };
  accept = λ n len. len;
  line = λ n. some (bytes "CLIENT_ERROR bad data chunk");
  read = λ n len. [];
  time = λ n. 1000 + n;
  memnstr = search_text;
}

abbrev open_server : World
open_server = record {
  servers = λ j. record (server_new (bytes "cache") 11211 true 1 (pos 15) false) {
    stream = some 3;
    status = connected;
    inbuf = bytes "CLIENT_ERROR bad data chunk";
  };
  calls = 0;
  events = [];
}

open_server-AllLive : AllLive open_server
open_server-AllLive = record { at = λ j. tt }

commands-Kept_example :
    Ends (λ _. Kept 0 open_server) (delete refusing_net 0 (bytes "user") (pos 0) open_server)
    × (Ends
          (λ _. Kept 0 open_server)
          (incr_decr refusing_net 0 true (bytes "user") (pos 1) open_server)
        × Ends
            (λ _. Kept 0 open_server)
            (server_store refusing_net 0 (bytes "set user 0 0 1") open_server))
unfolding server_new
commands-Kept_example =
    commands-Kept refusing_net 0 (bytes "user") (bytes "set user 0 0 1") (pos 0) true (pos 1)
      open_server refl tt open_server-AllLive

received_error_lem_example :
    ((received_error refusing_net 0 (length (open_server.servers 0).inbuf) open_server).servers
      0).error
    ≡ some (error_text_of (open_server.servers 0).inbuf)
received_error_lem_example =
    received_error_lem refusing_net 0 open_server search_text-FindsFirst (omega arith)

store_reply-stored_example :
    (result_of (store_reply refusing_net (bytes "STORED 17")) ≡ pos 1)
    ↔ (starts_with (bytes "STORED") (bytes "STORED 17") ≡ true)
store_reply-stored_example =
    store_reply-stored refusing_net (bytes "STORED 17") search_text-FindsFirst
