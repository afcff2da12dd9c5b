-- ===== src/ConnPool/Closing.antt =====
-- conn_pool.go: what the closing operations of the pool leave in its channels.
use cow.Base.{◌≤◌, ◌≡◌, Bool, false, ◌||◌, List, length}
use cow.ConnPool.{ServerConn, ConnPool, ChanRef, buffered}

-- No channel has more connections than before.
unfoldable IsLess : ConnPool → ConnPool → Type 0
IsLess q p = (d : ChanRef) → length (buffered q d) ≤ length (buffered p d)

module _ (may_be_closed : ServerConn → Bool) (force : Bool) where
  -- What a pass over a channel leaves there.
  abbrev pub IsLeft : ServerConn → Type 0
  IsLeft sv = (force || may_be_closed sv) ≡ false
