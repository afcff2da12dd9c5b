-- ===== src/Parent/InOrder/Exhaust.antt =====
-- parent_proxy.go: `connectInOrder` fails only when every parent has.
use cow.Base.{ℕ, ◌≡◌, ◌⊎◌, Bool, true}
use cow.Proxy.Connect.{Dialled, dial_error}
use cow.Parent.InOrder.{Search}
use cow.Parent.InOrder.Rounds.{IsIn}

module _ {Conn Err : Type 0} (network_bad : Bool) (is_http : ℕ → Bool) (http : Dialled Conn Err)
    (dial : ℕ → Dialled Conn Err) (draw : ℕ → ℕ → ℕ) where
  -- The parent cannot be reached: an HTTP parent not through the pool, any other not itself.
  pub HasFailed : ℕ → Type 0
  HasFailed id =
      ((is_http id ≡ true) × (e : Err) × (http ≡ dial_error e))
      ⊎ ((e : Err) × (dial id ≡ dial_error e))

  -- Once the pool was asked, it had failed, and there is an error.
  PoolFailed : Search Err → Type 0
  PoolFailed st = st.tried_http ≡ true → (e : Err) × (http ≡ dial_error e)

  Visited : ℕ → Search Err → Type 0
  Visited id st = HasFailed id ⊎ IsIn id st.skipped
