-- ===== src/ConnPool/Sound/Steps.antt =====
-- conn_pool.go: every operation keeps the channels in order.
use cow.Base.{refl, Bool, Bytes}
use cow.ConnPool.{
  ServerConn, ConnPool, ChanRef, buffered, get, put, close_server_conn, close_all, final_drain,
}
use cow.ConnPool.Sound.{IsSound}
use cow.ConnPool.Sound.Get.{get-IsSound, close_rounds-IsSound, close_all-IsSound, drain-IsSound}
use cow.ConnPool.Sound.Put.{put-IsSound}

-- `Put`, `Get`, closing the stale connections of a channel or all of them, `CloseAll` and the
-- drain of a removed channel keep every channel in order: the shared one holds at most ten
-- connections, all to HTTP or COW parents, a site's at most five, none of them such and all to
-- that site, and the map gives each site a channel of its own.
pub step-IsSound :
    (may_be_closed : ServerConn → Bool) (p : ConnPool) (sv : ServerConn) (h : Bytes) (ch : ChanRef)
    (always_proxy as_direct force : Bool)
    → IsSound p
    → IsSound (put sv p)
      × IsSound (get may_be_closed always_proxy h as_direct p).1
      × IsSound (close_server_conn may_be_closed force ch h p).1
      × IsSound (close_all may_be_closed p)
      × IsSound (final_drain ch p)
unfolding close_server_conn final_drain
step-IsSound may_be_closed p sv h ch always_proxy as_direct force s = (
  put-IsSound sv p s,
  get-IsSound may_be_closed always_proxy h as_direct p s,
  close_rounds-IsSound may_be_closed force _ ch h p s,
  close_all-IsSound may_be_closed p s,
  drain-IsSound may_be_closed (buffered p ch) ch p s refl,
)
