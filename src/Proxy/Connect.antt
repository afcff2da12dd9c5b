-- ===== src/Proxy/Connect.antt =====
-- proxy.go: how a connection to a server is made, directly or through a parent proxy. Durations
-- and times are nanoseconds. What dialling gives, and what `parentProxy.connect` gives, are
-- arguments; each path of `connectServer` calls the latter at most once.
pub mod Routed
pub mod Learned
use cow.Base.{ℕ, ◌*◌, Bool, true, false, not, ◌&&◌, Option, none, some, map, leb, if◌then◌else◌}
use mathlib.Core.Option
use cow.Url.{Url}
use cow.Site.Visit.{
  VisitCnt, second, always_direct, always_blocked, as_direct, as_blocked, as_temp_blocked,
  once_blocked,
}
use cow.Site.Stat.{SiteStat, temp_blocked_site}

abbrev pub min_dial_timeout : ℕ
min_dial_timeout = 3 * second

abbrev pub default_dial_timeout : ℕ
default_dial_timeout = 5 * second

abbrev pub max_timeout : ℕ
max_timeout = 15 * second

-- The variable `config` as far as connecting reads it, with `dialTimeout` and whether
-- `parentProxy` is empty.
pub record ConnectConfig : Type 0 where
  pub always_proxy : Bool
  pub no_parent : Bool
  pub dial_timeout : ℕ

-- The messages of the error page.
pub data Reason : Type 0 where
  always_parent_failed always_blocked_failed temp_blocked_failed both_failed : Reason
  no_parent_proxy always_direct_failed direct_and_parent_failed : Reason

-- What dialling a server or a parent gives.
pub data Dialled (Conn Err : Type 0) : Type 0 where
  dialled : Conn → Dialled Conn Err
  dial_error : Err → Dialled Conn Err

-- A `net.Conn` to the server, direct or of a parent.
pub data ServerNet (Conn : Type 0) : Type 0 where
  direct_conn parent_conn : Conn → ServerNet Conn

pub data Connected (Conn Err : Type 0) : Type 0 where
  connected : ServerNet Conn → Connected Conn Err
  connect_error : Err → Connected Conn Err
  page_sent : Reason → Err → Connected Conn Err

-- `none` is no timeout.
unfoldable pub direct_timeout : ConnectConfig → ℕ → VisitCnt → Option ℕ
unfolding always_direct once_blocked as_direct
direct_timeout c now vc =
    if always_direct vc
    then none
    else if once_blocked now vc && leb default_dial_timeout c.dial_timeout
    then some min_dial_timeout
    else if as_direct vc
    then some max_timeout
    else some c.dial_timeout

module _ {Conn Err : Type 0} where
  -- The second try, which is not followed by another.
  direct_again : Dialled Conn Err → Connected Conn Err
  direct_again (dialled s) = connected (direct_conn s)
  direct_again (dial_error e) = connect_error e

  -- The second try is for the error of too many open files.
  direct_result : (Err → Bool) → Dialled Conn Err → Dialled Conn Err → Connected Conn Err
  unfolding direct_again
  direct_result too_many_open_fd (dialled s) again = connected (direct_conn s)
  direct_result too_many_open_fd (dial_error e) again =
      if too_many_open_fd e then direct_again again else connect_error e

  -- The label `fail`, with the error of the last attempt.
  unfoldable pub fail_page : Bool → Reason → Err → Connected Conn Err
  fail_page send_error reason e = if send_error then page_sent reason e else connect_error e

  module _ (too_many_open_fd : Err → Bool) (dial : Bool → Option ℕ → Dialled Conn Err) where
    -- `dial true` is what the second try gives.
    unfoldable pub connect_direct : ConnectConfig → ℕ → VisitCnt → Connected Conn Err
    unfolding direct_result direct_timeout
    connect_direct c now vc =
        direct_result too_many_open_fd (dial false (direct_timeout c now vc))
          (dial true (direct_timeout c now vc))

    module _ (parent : Dialled Conn Err) (c : ConnectConfig) (send_error : Bool) where
      only_parent : Dialled Conn Err → Connected Conn Err
      unfolding fail_page
      only_parent (dialled s) = connected (parent_conn s)
      only_parent (dial_error e) = fail_page send_error always_parent_failed e

      -- The last attempt on a site taken to be blocked.
      last_direct : Connected Conn Err → Connected Conn Err
      unfolding fail_page
      last_direct (connected s) = connected s
      last_direct (connect_error e) = fail_page send_error both_failed e
      last_direct (page_sent r e) = page_sent r e

      -- The parent could not be reached; `direct` is what `connectDirect` gives.
      without_parent : ℕ → VisitCnt → Err → Connected Conn Err → Connected Conn Err
      unfolding fail_page last_direct
      without_parent now vc e direct =
          if always_blocked vc
          then fail_page send_error always_blocked_failed e
          else if as_temp_blocked now vc
          then fail_page send_error temp_blocked_failed e
          else last_direct direct

      blocked_site : ℕ → VisitCnt → Dialled Conn Err → Connected Conn Err
      unfolding without_parent connect_direct
      blocked_site now vc (dialled s) = connected (parent_conn s)
      blocked_site now vc (dial_error e) = without_parent now vc e (connect_direct c now vc)

      -- The parent stands in for a direct connection that failed; the site is then blocked for a
      -- while. `none` is the panic of `TempBlocked`.
      parent_instead :
          ℕ → SiteStat → Url → Err → Dialled Conn Err → Option (Connected Conn Err × SiteStat)
      unfolding fail_page
      parent_instead now ss url e (dial_error socks_err) =
          some (fail_page send_error direct_and_parent_failed e, ss)
      parent_instead now ss url e (dialled s) =
          Option.map (λ ss'. (connected (parent_conn s), ss')) (temp_blocked_site now ss url)

      direct_site :
          ℕ
          → SiteStat
          → Url
          → VisitCnt
          → Connected Conn Err
          → Option (Connected Conn Err × SiteStat)
      unfolding fail_page parent_instead
      direct_site now ss url vc (connected s) = some (connected s, ss)
      direct_site now ss url vc (page_sent r e) = some (page_sent r e, ss)
      direct_site now ss url vc (connect_error e) =
          if c.no_parent
          then some (fail_page send_error no_parent_proxy e, ss)
          else if always_direct vc
          then some (fail_page send_error always_direct_failed e, ss)
          else parent_instead now ss url e parent

      -- `siteInfo` is the count `vc`, `draw` the random number of its `AsBlocked`.
      unfoldable pub connect_server :
          ℕ → ℕ → SiteStat → Url → VisitCnt → Option (Connected Conn Err × SiteStat)
      unfolding only_parent blocked_site direct_site connect_direct
      connect_server now draw ss url vc =
          if c.always_proxy
          then some (only_parent parent, ss)
          else if as_blocked now draw vc && not c.no_parent
          then some (blocked_site now vc parent, ss)
          else direct_site now ss url vc (connect_direct c now vc)
