-- ===== src/Http/Response/First.antt =====
-- http.go: the status line that goes to the client is one line.
use cow.Base.{
  ℕ, zero, suc, ◌+◌, ◌-◌, ◌/◌, ◌%◌, ◌≡◌, refl, subst, ◌≢◌, ◌⊎◌, inl, inr, true, not, ◌||◌, none, [],
  ◌∷◌, arith, ◌==◌, if◌then◌else◌, Bool-cases, length, get_or, take, all, Bytes, codes, bytes_eq,
  signed_lt, int64_half, int64_mod,
}
use cow.Std.Strconv.{write_digits, itoa}
use cow.Util.OneLine.{IsOneLine, IsPart, IsOneLine-append}
use cow.Body.{crlf}
use cow.Http.Lines.{LineReader}
use cow.Http.Response.{itoa_signed, gen_status_line, line_ok, status_line}

write_digits-IsPart : (fuel n : ℕ) (acc : Bytes) → IsPart acc → IsPart (write_digits fuel n acc)
unfolding write_digits
write_digits-IsPart zero n acc a = a
write_digits-IsPart (suc fuel) n acc a =
    let digit : ◌≢◌ {A = ℕ} (b'0' + n % 10) 10 = λ e. absurd (omega (arith, e)) in
    elim (Bool-cases (n / 10 == 0)) [
      | inl y ↦ rw y (digit, a)
      | inr y ↦ rw y (write_digits-IsPart fuel (n / 10) ((b'0' + n % 10) ∷ acc) (digit, a))
    ]

itoa_signed-IsPart : (n : ℕ) → IsPart (itoa_signed n)
unfolding itoa_signed itoa
itoa_signed-IsPart n = elim (Bool-cases (signed_lt int64_half n 0)) [
  | inl y ↦
      let minus : ◌≢◌ {A = ℕ} b'-' 10 = λ e. absurd (omega (arith, e)) in
      rw y (minus, write_digits-IsPart 20 (int64_mod - n) [] tt)
  | inr y ↦ rw y (write_digits-IsPart 20 n [] tt)
]

spaced : Bytes → Bytes
spaced reason = if not (length reason == 0) then b' ' ∷ reason else []

spaced-IsPart : (reason : Bytes) → IsPart reason → IsPart (spaced reason)
unfolding spaced
spaced-IsPart reason a = elim (Bool-cases (not (length reason == 0))) [
  | inl y ↦ let blank : ◌≢◌ {A = ℕ} b' ' 10 = λ e. absurd (omega (arith, e)) in rw y (blank, a)
  | inr y ↦ rw y tt
]

none_is : (s : Bytes) → all (λ c. not (c == 10)) s ≡ true → IsPart s
none_is [] e = tt
none_is (c ∷ s) e = (ground arith, none_is s (ground arith))

crlf-IsOneLine : IsOneLine crlf
unfolding IsOneLine
crlf-IsOneLine = (13 ∷ [], none_is (13 ∷ []) refl, refl)

gen_status_line-IsOneLine :
    (status : ℕ) (reason : Bytes) → IsPart reason → IsOneLine (gen_status_line status reason)
unfolding gen_status_line spaced
gen_status_line-IsOneLine status reason a =
    IsOneLine-append (codes "HTTP/1.1 ") _ (none_is (codes "HTTP/1.1 ") refl) (
      IsOneLine-append (itoa_signed status) _ (itoa_signed-IsPart status)
        (IsOneLine-append (spaced reason) crlf (spaced-IsPart reason a) crlf-IsOneLine))

-- A status line: one line, which the proxy made from the status and the reason, or which a server
-- sent.
pub record IsFirst {R : Type 0} (reader : LineReader R) (status : ℕ) (reason first : Bytes)
    : Type 0 where
  pub is_line : IsOneLine first
  pub source :
      (first ≡ gen_status_line status reason)
      ⊎ ((r : R) × (r' : R) × (reader.read_slice r ≡ ((first, none), r')))

module _ {R : Type 0} (reader : LineReader R) where
  pub status_line-IsFirst :
      (s proto reason first : Bytes) (status : ℕ) (r r' : R)
      → reader.read_slice r ≡ ((s, none), r')
      → IsOneLine s
      → IsPart reason
      → status_line s proto status reason ≡ line_ok first
      → IsFirst reader status reason first
  unfolding status_line
  status_line-IsFirst s proto reason first status r r' g o a e =
      elim (Bool-cases
        (not (length proto == 8) || not (bytes_eq (take 7 proto) (codes "HTTP/1.")))) [
          | inl y ↦ absurd (cc (rw (y, status_line) at e))
          | inr n ↦ elim (Bool-cases (get_or proto 7 0 == b'1')) [
            | inl y ↦
                subst (IsFirst reader status reason)
                  (line_inj s first (rw (n, y, status_line) at e))
                  (record { is_line = o; source = inr (r, r', g) })
            | inr m ↦ elim (Bool-cases (get_or proto 7 0 == b'0')) [
              | inl y ↦
                  subst (IsFirst reader status reason)
                    (line_inj (gen_status_line status reason) first
                      (rw (n, m, y, status_line) at e))
                    (record {
                      is_line = gen_status_line-IsOneLine status reason a;
                      source = inl refl;
                    })
              | inr k ↦ absurd (cc (rw (n, m, k, status_line) at e))
            ]
          ]
        ]
    where
      line_inj : (b c : Bytes) → line_ok b ≡ line_ok c → b ≡ c
      line_inj b c h = cc
