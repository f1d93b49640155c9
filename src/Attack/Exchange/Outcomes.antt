-- ===== src/Attack/Exchange/Outcomes.antt =====
-- What a result says of the exchange that it stands for.
use vegeta.Prelude.{
  ℕ, zero, suc, ◌≤◌, ◌≡◌, ◌≢◌, ◌↔◌, inl, inr, refl, ap, ◌∙◌, true, some, [], ◌∷◌, length, take,
  arith, Option-cases,
}
use vegeta.Prelude.Int.{ℤ, pos}
use vegeta.Prelude.Text.{Text}
use vegeta.Outcome.{Fallible, ok, err, Fallible-cases}
use vegeta.Results.{Result}
use vegeta.Metrics.{is_success}
use vegeta.Targets.{Target}
use vegeta.Attack.{Hit}
use vegeta.Attack.Exchange.{
  Request, Response, Options, limited, failed, read_response, mark, target_request, exchange, fresh,
  hit,
}

-- Errors and statuses have a text.
abbrev pub IsNoisy : Response → Type 0
IsNoisy resp = (resp.status ≢ []) × (resp.broken ≢ some [])

-- The error is empty exactly with a status code of a success.
abbrev pub IsHonest : Result → Type 0
IsHonest r = (r.error ≡ []) ↔ (is_success r ≡ true)

failed-IsHonest : (e : Text) (r : Result) → e ≢ [] → r.code ≡ 0 → IsHonest (failed e r)
failed-IsHonest e r ne z = (λ h. absurd (ne h), λ h. absurd (ground (arith, z, h)))

read_response-IsHonest :
    (o : Options) (req : Request) (resp : Response) (r : Result)
    → IsNoisy resp
    → r.code ≡ 0
    → r.error ≡ []
    → IsHonest (read_response o req resp r)
unfolding read_response
read_response-IsHonest o req resp r noisy z e = ground (arith, noisy, z, e)

length-take : (n : ℕ) (s : Text) → length (take n s) ≤ n
length-take zero s = omega arith
length-take (suc n) [] = omega arith
length-take (suc n) (c ∷ s) = omega (arith, length-take n s)

-- The body keeps the limit, and its size is counted unless the exchange failed.
pub record IsLimited (limit : ℕ) (r : Result) : Type 0 where
  pub body : length r.body ≤ limit
  pub counted : r.bytes_in ≤ length r.body

limited-le : (n : ℕ) (s : Text) → length (limited (pos n) s) ≤ n
unfolding limited
limited-le n s = length-take n s

read_response-IsLimited :
    (o : Options) (n : ℕ) (req : Request) (resp : Response) (r : Result)
    → o.max_body ≡ pos n
    → r.bytes_in ≡ 0
    → IsLimited n (read_response o req resp r)
unfolding read_response
read_response-IsLimited o n req resp r limit z = elim (Option-cases (resp.broken)) [
  | inl e ↦ rw (e, limit) (record { body = limited-le n resp.bytes; counted = omega arith })
  | inr (t, e) ↦
      rw (e, limit) (record { body = limited-le n resp.bytes; counted = omega (arith, z) })
]

module _ (new_request : Text → Text → Text → Fallible Text Request)
    (client_do : Request → Fallible Text Response) where
  -- What the packages behind `hit` give: errors with a text, and answers with a status.
  pub record IsNoisyClient : Type 0 where
    pub new_errors : (m u b : Text) → new_request m u b ≢ err []
    pub do_errors : (q : Request) → client_do q ≢ err []
    pub answers : (q : Request) (resp : Response) → client_do q ≡ ok resp → IsNoisy resp

  exchange-IsHonest :
      (o : Options) (req : Fallible Text Request) (r : Result)
      → IsNoisyClient
      → req ≢ err []
      → r.code ≡ 0
      → r.error ≡ []
      → IsHonest (exchange new_request client_do o req r)
  unfolding exchange
  exchange-IsHonest o (err e) r noisy ne z clean = failed-IsHonest e r (λ h. ne (ap err h)) z
  exchange-IsHonest o (ok req) r noisy ne z clean =
      let sent = mark o r.seq req in
      elim (Fallible-cases (client_do sent)) [
        | inl (resp, e) ↦
            rw (exchange, e)
              (read_response-IsHonest o sent resp r (noisy.answers sent resp e) z clean)
        | inr (t, e) ↦
            rw (exchange, e) (failed-IsHonest t r (λ h. noisy.do_errors sent (e ∙ ap err h)) z)
      ]

  target_request-noisy :
      (t : Target) → IsNoisyClient → target_request new_request client_do t ≢ err []
  unfolding target_request
  target_request-noisy t noisy = elim (Fallible-cases (new_request t.method t.url t.body)) [
    | inl (req, e) ↦ rw (target_request, e) (λ h. cc)
    | inr (x, e) ↦ rw (target_request, e) (λ h. noisy.new_errors t.method t.url t.body (e ∙ h))
  ]

  -- With errors and statuses that have a text, the result of a hit has no error exactly when its
  -- status code is one of a success, from 200 to 399: every failure of the targeter, of the request,
  -- of the client and of the response's body is in the result.
  pub hit-IsHonest :
      (o : Options) (timestamp : ℤ) (h : Hit) (got : Fallible Text Target)
      → IsNoisyClient
      → got ≢ err []
      → IsHonest (hit new_request client_do o timestamp h got).0
  unfolding hit
  hit-IsHonest o timestamp h (err e) noisy ne =
      failed-IsHonest e (fresh new_request client_do o timestamp h) (λ x. ne (ap err x)) refl
  hit-IsHonest o timestamp h (ok t) noisy ne =
      exchange-IsHonest o (target_request new_request client_do t) _ noisy
        (target_request-noisy t noisy) refl refl

  exchange-IsLimited :
      (o : Options) (n : ℕ) (req : Fallible Text Request) (r : Result)
      → o.max_body ≡ pos n
      → r.bytes_in ≡ 0
      → r.body ≡ []
      → IsLimited n (exchange new_request client_do o req r)
  unfolding exchange
  exchange-IsLimited o n (err e) r limit z b = record {
    body = rw b (omega arith);
    counted = omega (arith, z);
  }
  exchange-IsLimited o n (ok req) r limit z b =
      let sent = mark o r.seq req in
      elim (Fallible-cases (client_do sent)) [
        | inl (resp, e) ↦ rw (exchange, e) (read_response-IsLimited o n sent resp r limit z)
        | inr (t, e) ↦
            rw (exchange, e) (record { body = rw b (omega arith); counted = omega (arith, z) })
      ]

  -- With a limit on the body that is not negative, no result holds more bytes of a body than it, nor
  -- counts more bytes in than it holds.
  pub hit-IsLimited :
      (o : Options) (n : ℕ) (timestamp : ℤ) (h : Hit) (got : Fallible Text Target)
      → o.max_body ≡ pos n
      → IsLimited n (hit new_request client_do o timestamp h got).0
  unfolding hit
  hit-IsLimited o n timestamp h (err e) limit = record { body = omega arith; counted = omega arith }
  hit-IsLimited o n timestamp h (ok t) limit =
      exchange-IsLimited o n (target_request new_request client_do t) _ limit refl refl
