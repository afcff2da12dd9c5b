-- ===== src/Socks/Session.antt =====
-- socks.go: the state of a client connection and its reads and writes. The reader `bufRd` gives
-- the bytes of `input` in order and ends where they end; `writes` more writes reach the client.
use cow.Base.{
  ℕ, zero, suc, ◌≡◌, refl, sym, ap₂, ◌∙◌, true, [], ◌++◌, arith, leb, if◌then◌else◌, length, take,
  drop, length-append, take-append, drop-append, Bytes,
}
use cow.Auth.{AuthState}

pub record Session : Type 0 where
  pub input : Bytes
  pub output : Bytes
  pub writes : ℕ
  pub auth : AuthState

-- `request_error` is a `socksRequestError` with its reply code, `panic` a panic.
pub data SocksError : Type 0 where
  io_error auth_needed panic protocol_error auth_failed invalid_port invalid_address : SocksError
  request_error : ℕ → SocksError

pub data Outcome (A : Type 0) : Type 0 where
  ok : A → Outcome A
  err : SocksError → Outcome A

abbrev pub M : Type 0 → Type 0
M A = Session → Outcome A × Session

abbrev pub and_then : {A B : Type 0} → Outcome A × Session → (A → M B) → Outcome B × Session
and_then (ok a, s) f = f a s
and_then (err e, s) f = (err e, s)

infixl 5 ◌>>=◌ ◌>>◌
abbrev pub ◌>>=◌ : {A B : Type 0} → M A → (A → M B) → M B
◌>>=◌ m f s = and_then (m s) f

abbrev pub ◌>>◌ : {B : Type 0} → M (Unit {0}) → M B → M B
◌>>◌ m k s = and_then (m s) (λ _. k)

abbrev pub pure : {A : Type 0} → A → M A
pure a s = (ok a, s)

abbrev pub fail : {A : Type 0} → SocksError → M A
fail e s = (err e, s)

unfoldable pub read_of : ℕ → Bytes → M Bytes
read_of n input s =
    if leb n (length input)
    then (ok (take n input), record s { input = drop n input })
    else (err io_error, record s { input = [] })

-- `io.ReadFull` of n bytes.
unfoldable pub read_full : ℕ → M Bytes
unfolding read_of
read_full n s = read_of n s.input s

unfoldable pub write_left : ℕ → Bytes → M (Unit {0})
write_left zero b s = (err io_error, s)
write_left (suc k) b s = (ok tt, record s { output = s.output ++ b; writes = k })

-- `c.Write`.
unfoldable pub write : Bytes → M (Unit {0})
unfolding write_left
write b s = write_left s.writes b s

read_of-append :
    (s : Session) (b rest : Bytes)
    → read_of (length b) (b ++ rest) s ≡ (ok b, record s { input = rest })
unfolding read_of
read_of-append s b rest = rw (fits, take-append b rest, drop-append b rest) refl
  where
    fits : leb (length b) (length (b ++ rest)) ≡ true
    fits = let l = length-append b rest in ground arith

-- A read of the bytes that come first takes them off.
pub read_full-append :
    (n : ℕ) (s : Session) (b rest : Bytes)
    → s.input ≡ b ++ rest
    → length b ≡ n
    → read_full n s ≡ (ok b, record s { input = rest })
unfolding read_full
read_full-append n s b rest e l = ap₂ (λ k i. read_of k i s) (sym l) e ∙ read_of-append s b rest
