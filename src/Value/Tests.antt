-- ===== src/Value/Tests.antt =====
-- A value that is stored and read with its checksums.
use php_pecl_memcache_zynga.Prelude.{
  ℕ, ◌+◌, ◌==◌, if◌then◌else◌, none, ◌≡◌, refl, false, true, [], ◌∷◌, some, arith,
}
use php_pecl_memcache_zynga.Prelude.Int.{pos}
use php_pecl_memcache_zynga.Prelude.Bytes.{Bytes, bytes}
use php_pecl_memcache_zynga.Hash.{get_checksum, get_checksum_extra}
use php_pecl_memcache_zynga.Compress.Storing.{storing, storing-Lossless}
use php_pecl_memcache_zynga.Pool.Tests.{sum_step}
use php_pecl_memcache_zynga.Net.{Env, World, connected}
use php_pecl_memcache_zynga.Net.Search.{search_text, search_text-FindsFirst}
use php_pecl_memcache_zynga.Server.{server_new}
use php_pecl_memcache_zynga.Header.Line.{header_fields}
use php_pecl_memcache_zynga.Value.Body.{read_body}
use php_pecl_memcache_zynga.Value.Arrives.{Arrives, nothing, piece, read_body-Arrives}
use php_pecl_memcache_zynga.Value.Stored.{mmc_read_value-stored}
use php_pecl_memcache_zynga.Value.Reply.{sums_text, reply_line}
use php_pecl_memcache_zynga.Value.{mmc_read_value}
use php_pecl_memcache_zynga.Store.Pack.{StoreEnv, Packed, pack, complete_checksum}
use php_pecl_memcache_zynga.Value.Round.{Recoverable}
use php_pecl_memcache_zynga.Value.Checks.{reader}
use php_pecl_memcache_zynga.Prelude.{◌^◌, ◌-◌, ◌++◌}
use php_pecl_memcache_zynga.Store.Request.{checksum_header}
use php_pecl_memcache_zynga.Value.Scan.{digit_of, scan_next}
use php_pecl_memcache_zynga.Value.Hex.{EndsHex}
use php_pecl_memcache_zynga.Value.Check.{mismatch, check_value}
use php_pecl_memcache_zynga.Value.Lost.{check_value-lost}

abbrev kept_text : Packed
kept_text = record {
  text = bytes "xabc";
  is_data = true;
  packed_flags = 2;
  packed_crc32 = get_checksum_extra sum_step (2 ∷ 0 ∷ 0 ∷ 0 ∷ []) (bytes "xabc");
  packed_uncrc32 = get_checksum sum_step (bytes "abc");
}

-- The text with its line's end comes in two pieces.
abbrev pieces : ℕ → Bytes
pieces k = if k == 1 then bytes "xa" else bytes "bc\r\n"

abbrev replying_net : Env
replying_net = record {
  connect = λ n. record { opened = none; errstr = none; err = 111 };
  accept = λ n len. len;
  line = λ n. some (reply_line true (bytes "user") kept_text 7);
  read = λ n len. pieces n;
  time = λ n. 1000 + n;
  memnstr = search_text;
}

abbrev lossless_env : StoreEnv
lossless_env = record {
  env = replying_net;
  algo = bytes "crc32";
  codecs = storing;
  crc_step = sum_step;
  flag_bytes = λ flags. flags ∷ 0 ∷ 0 ∷ 0 ∷ [];
  lzo_enabled = true;
  compression_level = pos 6;
}

abbrev agreed_server : World
agreed_server = record {
  servers = λ j. record (server_new (bytes "cache") 11211 true 1 (pos 15) false) {
    stream = some 3;
    status = connected;
    di_algo_in_use = 2;
  };
  calls = 0;
  events = [];
}

pieces-Arrives : Arrives replying_net 1 (bytes "xabc\r\n")
pieces-Arrives =
    piece 1 120 (bytes "a") (bytes "bc\r\n") refl (piece 2 98 (bytes "c\r\n") [] refl (nothing 3))

read_body-Arrives_example :
    (read_body replying_net 6 [] (record agreed_server { calls = 1 })).0 ≡ some (bytes "xabc\r\n")
read_body-Arrives_example =
    read_body-Arrives replying_net (bytes "xabc\r\n") (record agreed_server { calls = 1 })
      pieces-Arrives

kept_text-packed :
    pack lossless_env true (λ a b. true) true true (bytes "abc") 2 0 0 ≡ some kept_text
unfolding pack
kept_text-packed = refl

kept_text-Recoverable : Recoverable (bytes "abc") kept_text
unfolding get_checksum get_checksum_extra
kept_text-Recoverable = record { sum = refl; value_sum = refl; room = omega arith }

mmc_read_value-stored_example :
    (mmc_read_value (reader lossless_env) false true 0 agreed_server).0 ≡ record {
      result = pos 1;
      code = none;
      value = some (bytes "abc");
      header = some (header_fields true true (bytes "user") 2 4 (sums_text kept_text) 7);
    }
unfolding get_checksum get_checksum_extra complete_checksum server_new
mmc_read_value-stored_example =
    mmc_read_value-stored lossless_env (bytes "abc") (λ a b. true) 2 kept_text storing-Lossless
      search_text-FindsFirst refl refl kept_text-packed (λ e. kept_text-Recoverable) false true
      (bytes "user") 7 0 3 agreed_server (omega arith) (omega arith) (omega arith)
      (refl, (refl, (refl, (refl, tt)))) refl refl refl pieces-Arrives

-- Every sum is 0.
abbrev zero_env : StoreEnv
zero_env = record lossless_env { crc_step = λ h c. 2 ^ 32 - 1 }

abbrev zero_text : Packed
zero_text = record kept_text { packed_crc32 = 0; packed_uncrc32 = 0 }

zero_text-packed : pack zero_env true (λ a b. true) true true (bytes "abc") 2 0 0 ≡ some zero_text
unfolding pack get_checksum get_checksum_extra
zero_text-packed = refl

line_end-EndsHex : EndsHex (bytes "\r\n")
unfolding digit_of
line_end-EndsHex = refl

line_end-no_sum : scan_next (bytes "\r\n") ≡ none
unfolding scan_next
line_end-no_sum = refl

check_value-lost_example :
    (let q = complete_checksum zero_env true true zero_text in
      check_value
        (reader zero_env)
        2
        q.packed_flags
        (some (checksum_header 2 q.packed_crc32 q.packed_uncrc32 ++ bytes "\r\n"))
        q.text
      ≡ mismatch q.text (some 133))
check_value-lost_example =
    check_value-lost zero_env (bytes "abc") (bytes "\r\n") (λ a b. true) 2 zero_text refl
      line_end-EndsHex line_end-no_sum zero_text-packed refl refl
