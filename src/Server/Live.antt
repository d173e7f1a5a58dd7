-- ===== src/Server/Live.antt =====
-- The states of the servers and their streams, and the operations of memcache.cpp that keep them.
use php_pecl_memcache_zynga.Prelude.{
  ℕ, ◌≡◌, refl, sym, ap, ◌∙◌, Bool, true, false, Option, none, some, ◌==◌, if◌then◌else◌,
}
use mathlib.Core.Path.{subst}
use php_pecl_memcache_zynga.Prelude.Bytes.{Bytes}
use php_pecl_memcache_zynga.Net.{
  Status, failed_status, disconnected, unknown, connected, Server, Env, World, update, emit, tick,
  servers-update_self,
}
use php_pecl_memcache_zynga.Server.{
  server_seterror, server_sleep, server_disconnect, server_deactivate, server_failure,
  failure_by_proxy, failure_by_status, close_stream, report_failure,
}

abbrev pub HasStream : Option ℕ → Type 0
HasStream none = ⊥
HasStream (some st) = Unit {0}

abbrev pub LiveStatus : Status → Option ℕ → Type 0
LiveStatus connected st = HasStream st
LiveStatus unknown st = HasStream st
LiveStatus disconnected st = Unit {0}
LiveStatus failed_status st = st ≡ none

abbrev pub IsLive : Server → Type 0
IsLive s = LiveStatus s.status s.stream

-- Every server of the store.
pub record AllLive (w : World) : Type 0 where
  pub at : (i : ℕ) → IsLive (w.servers i)

pub AllLive-update :
    (i : ℕ) (v : Server) (w : World) → IsLive v → AllLive w → AllLive (update i v w)
unfolding update
AllLive-update i v w h a = record { at = λ j. go (j == i) j }
  where
    go : (b : Bool) (j : ℕ) → IsLive (if b then v else w.servers j)
    go true j = h
    go false j = a.at j

-- Only the store is looked at.
pub AllLive-same : (w w' : World) → w'.servers ≡ w.servers → AllLive w → AllLive w'
AllLive-same w w' e a = record {
  at = λ i. subst (λ (f : ℕ → Server). IsLive (f i)) (sym e) (a.at i);
}

pub seterror-AllLive :
    (i : ℕ) (text : Bytes) (num : ℕ) (w : World)
    → AllLive w
    → AllLive (server_seterror i text num w)
unfolding server_seterror
seterror-AllLive i text num w a = AllLive-update i _ w (a.at i) a

pub sleep-AllLive : (i : ℕ) (w : World) → AllLive w → AllLive (server_sleep i w)
unfolding server_sleep
sleep-AllLive i w a = AllLive-update i _ w (a.at i) a

close-AllLive : (st : Option ℕ) (w : World) → AllLive w → AllLive (close_stream st w)
unfolding close_stream
close-AllLive none w a = a
close-AllLive (some st) w a = AllLive-same w _ refl a

pub disconnect-AllLive : (i : ℕ) (w : World) → AllLive w → AllLive (server_disconnect i w)
unfolding server_disconnect
disconnect-AllLive i w a =
    AllLive-update i (record (w.servers i) { stream = none; status = disconnected }) _ tt
      (close-AllLive (w.servers i).stream w a)

pub disconnect-stream : (i : ℕ) (w : World) → ((server_disconnect i w).servers i).stream ≡ none
unfolding server_disconnect
disconnect-stream i w =
    ap (λ (s : Server). s.stream)
      (servers-update_self i (record (w.servers i) { stream = none; status = disconnected })
        (close_stream (w.servers i).stream w))

report-servers : (b : Bool) (i : ℕ) (w : World) → (report_failure b i w).servers ≡ w.servers
unfolding report_failure emit
report-servers true i w = refl
report-servers false i w = refl

report-AllLive : (b : Bool) (i : ℕ) (w : World) → AllLive w → AllLive (report_failure b i w)
unfolding report_failure
report-AllLive true i w a = AllLive-same w _ refl a
report-AllLive false i w a = AllLive-same w _ refl a

module _ (env : Env) where
  pub deactivate-AllLive : (i : ℕ) (w : World) → AllLive w → AllLive (server_deactivate env i w)
  unfolding server_deactivate
  deactivate-AllLive i w a =
      let w1 = server_disconnect i w in
      let v : Server = record (w1.servers i) {
        status = failed_status;
        failed = env.time w1.calls;
      } in
      report-AllLive _ i _ (
        AllLive-same (update i v w1) _ refl
          (AllLive-update i v w1 (disconnect-stream i w) (disconnect-AllLive i w a)))

  failure_by_status-AllLive :
      (s : Status) (i : ℕ) (w : World) → AllLive w → AllLive (failure_by_status env s i w).1
  unfolding failure_by_status
  failure_by_status-AllLive disconnected i w a = a
  failure_by_status-AllLive unknown i w a = AllLive-update i _ w tt a
  failure_by_status-AllLive failed_status i w a = deactivate-AllLive i w a
  failure_by_status-AllLive connected i w a = deactivate-AllLive i w a

  by_proxy-AllLive :
      (o : Option ℕ) (i : ℕ) (w : World) → AllLive w → AllLive (failure_by_proxy env o i w).1
  unfolding failure_by_proxy
  by_proxy-AllLive none i w a = failure_by_status-AllLive (w.servers i).status i w a
  by_proxy-AllLive (some p) i w a = deactivate-AllLive i _ (disconnect-AllLive p w a)

  pub failure-AllLive : (i : ℕ) (w : World) → AllLive w → AllLive (server_failure env i w).1
  unfolding server_failure
  failure-AllLive i w a = by_proxy-AllLive (w.servers i).proxy i w a

  -- The server a deactivation leaves.
  unfoldable pub failed_server : ℕ → World → Server
  failed_server i w =
      let w1 = server_disconnect i w in
      record (w1.servers i) { status = failed_status; failed = env.time w1.calls }

  pub deactivate-servers :
      (i : ℕ) (w : World) → (server_deactivate env i w).servers i ≡ failed_server i w
  unfolding server_deactivate failed_server
  deactivate-servers i w =
      ap (λ (f : ℕ → Server). f i)
        (report-servers _ i (tick (update i (failed_server i w) (server_disconnect i w))))
      ∙ servers-update_self i (failed_server i w) (server_disconnect i w)

  pub deactivate-status :
      (i : ℕ) (w : World) → ((server_deactivate env i w).servers i).status ≡ failed_status
  unfolding failed_server
  deactivate-status i w = ap (λ (s : Server). s.status) (deactivate-servers i w)

  pub deactivate-stream :
      (i : ℕ) (w : World) → ((server_deactivate env i w).servers i).stream ≡ none
  unfolding failed_server
  deactivate-stream i w =
      ap (λ (s : Server). s.stream) (deactivate-servers i w) ∙ disconnect-stream i w
