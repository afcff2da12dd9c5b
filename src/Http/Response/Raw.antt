-- ===== src/Http/Response/Raw.antt =====
-- http.go: what a parsed response sends to the client.
use cow.Base.{
  ℕ, ◌≤◌, ◌≡◌, false, not, ◌&&◌, Option, none, some, List, ◌++◌, ltb, ◌==◌, length, All, Bytes,
}
use cow.Http.Response.First.{IsFirst}
use cow.Body.{crlf}
use cow.Http.Header.{Header}
use cow.Http.Header.Forwarded.{IsForwarded}
use cow.Http.Lines.{LineReader, IsLines}
use cow.Http.Lines.Ends.{all_of}
use cow.Http.Response.{
  Response, ResponseResult, response_ok, response_err, response_panics, Asked, framing,
  connection_lines, close_at_end,
}

-- What goes to the client in front of the body: a status line, lines that may be passed on, and
-- the proxy's own. A 100 that was not asked for and the code that the user set do not get there.
pub record IsAnswer {R : Type 0} (reader : LineReader R) (q : Asked) (p : Response) : Type 0 where
  pub first : Bytes
  pub is_first : IsFirst reader p.status p.reason first
  pub lines : List Bytes
  pub given : Header
  pub forwarded : All IsForwarded lines
  pub sends :
      p.raw
      ≡ first
        ++ (all_of lines
            ++ (framing q.method p.status given
                ++ (connection_lines q.connection_keep_alive given ++ crlf)))
  pub closes : p.header ≡ close_at_end given
  pub final : (p.status == 100 && not q.expect_continue) ≡ false
  pub allowed : (ltb 0 q.http_error_code && p.status == q.http_error_code) ≡ false

pub Answered : {R : Type 0} → LineReader R → Asked → Option (ResponseResult × R) → Type 0
Answered reader q none = ⊥
Answered reader q (some (response_panics, r)) = ⊥
Answered reader q (some (response_err e, r)) = Unit
Answered reader q (some (response_ok p, r)) = IsAnswer reader q p

module _ {R : Type 0} (reader : LineReader R) (left : R → Bytes) (law : IsLines reader left)
    (fuel : ℕ) (q : Asked) where
  Again : ℕ → (R → Option (ResponseResult × R)) → Type 0
  Again k again = (r : R) → length (left r) ≤ k → Answered reader q (again r)
