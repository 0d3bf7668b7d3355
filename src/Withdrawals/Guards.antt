-- ===== src/Withdrawals/Guards.antt =====
-- What a request of a withdrawal asks for before it holds any funds.
use mathlib.Core.List.{Memᴰ}
use zentto_web.Prelude.{
  Bool, List, [], ◌∷◌, sym, ap, ◌∙◌, some_not_none, some_inj, ==_iff, ℕ, ◌≡◌, ◌⊎◌, true, false,
  ◌==◌, Option, none, some, inl, inr, Bool-cases, Option-cases, find,
}
use zentto_web.Prelude.Int.{pos, ◌<ℤ◌, ltb_ℤ, ltb_ℤ→lt}
use zentto_web.Errors.{
  Error, unknown_user, totp_disabled, totp_missing, totp_invalid, recent_password, bad_network,
}
use zentto_web.Database.{Database}
use zentto_web.Action.{returned, thrown, has_returned}
use zentto_web.Environment.{at_time, Environment, Network}
use zentto_web.Auth.{find_user, verify_totp}
use zentto_web.Auth.StepUp.{Proven}
use zentto_web.Payments.{find_payment, member}
use zentto_web.Withdrawals.{WithdrawRequest, cfg_of, changed_recently, assert_withdrawal, request}

assert_withdrawal_cases :
    (env : Environment) (now user_id : ℕ) (totp_code : Option ℕ) (db : Database)
    → (Proven (at_time now env) user_id totp_code db
        × (assert_withdrawal env now user_id totp_code db ≡ returned tt db))
      ⊎ ((e : Error) × (assert_withdrawal env now user_id totp_code db ≡ thrown e db))
unfolding assert_withdrawal
assert_withdrawal_cases env now user_id totp_code db = elim (Option-cases (find_user user_id db)) [
  | inl gone ↦ inr (unknown_user, rw gone)
  | inr (u, there) ↦ elim (Bool-cases u.totp_enabled) [
    | inr off ↦ elim (Bool-cases (changed_recently now u)) [
      | inl recent ↦ inr (recent_password, simp (there, off, recent))
      | inr calm ↦ inr (totp_disabled, simp (there, off, calm))
    ]
    | inl on ↦ elim (Option-cases totp_code) [
      | inl missing ↦ inr (totp_missing, simp (there, on, missing))
      | inr (c, given) ↦ elim (Bool-cases (verify_totp (at_time now env) u c)) [
        | inr bad ↦ inr (totp_invalid, simp (there, on, given, bad))
        | inl good ↦ inl (
          record {
            account = u;
            code = c;
            is_there = there;
            given = given;
            enabled = on;
            accepted = good;
          },
          simp (there, on, given, good),
        )
      ]
    ]
  ]
]

-- What is found is in the list and passes the test.
find-Memᴰ :
    {A : Type 0} (p : A → Bool) (l : List A) {x : A} → find p l ≡ some x → Memᴰ x l × (p x ≡ true)
find-Memᴰ p [] h = absurd (some_not_none (sym h))
find-Memᴰ p (a ∷ l) {x} h = elim (Bool-cases (p a)) [
  | inl hit ↦ let e : a ≡ x = some_inj (rw hit at h) in (Memᴰ.head (sym e), sym (ap p e) ∙ hit)
  | inr miss ↦ let (m, hit) = find-Memᴰ p l (rw miss at h) in (Memᴰ.tail m, hit)
]

cfg_of_cases :
    (env : Environment) (key : Option ℕ) (db : Database)
    → ((n : Network) × (cfg_of env key db ≡ returned n db)
        × Memᴰ n env.networks
        × ((k : ℕ) → key ≡ some k → n.key ≡ k))
      ⊎ (cfg_of env key db ≡ thrown bad_network db)
unfolding cfg_of
cfg_of_cases env none db = elim (Option-cases (find (λ (n : Network). true) env.networks)) [
  | inl gone ↦ inr (rw gone)
  | inr (n, there) ↦ inl (
    n,
    rw there,
    (find-Memᴰ (λ (n : Network). true) env.networks there).0,
    λ k e. absurd (some_not_none (sym e)),
  )
]
cfg_of_cases env (some k) db =
    elim (Option-cases (find (λ (n : Network). n.key == k) env.networks)) [
      | inl gone ↦ inr (rw gone)
      | inr (n, there) ↦
          let (mem, hit) = find-Memᴰ (λ (n : Network). n.key == k) env.networks there in
          inl (n, rw there, mem, λ j e. (==_iff n.key k).0 hit ∙ some_inj e)
    ]

-- A request under a new key that returns was for a withdrawable asset, an amount above zero, an
-- address that is one, and a configured network, the one of the key that it names if it names one; and
-- its user has the second factor enabled and gave a code that the authenticator accepts.
pub request_needs_totp :
    (env : Environment) (others : Database → Database) (now : ℕ) (req : WithdrawRequest)
    (db : Database)
    → find_payment req.user_id req.idempotency_key db.payments ≡ none
    → has_returned (request env others now req db) ≡ true
    → (member (env.upper req.asset) env.withdrawable ≡ true)
      × (pos 0 <ℤ req.amount.base)
      × (env.is_address req.to_address ≡ true)
      × ((n : Network) × Memᴰ n env.networks × ((k : ℕ) → req.network ≡ some k → n.key ≡ k))
      × Proven (at_time now env) req.user_id req.totp_code db
unfolding request
request_needs_totp env others now req db new h =
    elim (Bool-cases (member (env.upper req.asset) env.withdrawable)) [
      | inr bad ↦ absurd (false_not_true (rw bad at h))
      | inl listed ↦ elim (Bool-cases (ltb_ℤ (pos 0) req.amount.base)) [
        | inr low ↦ absurd (false_not_true (rw (listed, low) at h))
        | inl positive ↦ elim (Bool-cases (env.is_address req.to_address)) [
          | inr bad ↦ absurd (false_not_true (rw (listed, positive, bad) at h))
          | inl address ↦ elim (cfg_of_cases env req.network db) [
            | inr bad ↦ absurd (false_not_true (rw (listed, positive, address, bad) at h))
            | inl (n, there, mem, named) ↦
                elim (assert_withdrawal_cases env now req.user_id req.totp_code db) [
                  | inr (x, bad) ↦
                      absurd (false_not_true (rw (listed, positive, address, there, new, bad) at h))
                  | inl (proven, e) ↦ (
                    listed,
                    ltb_ℤ→lt (pos 0) req.amount.base positive,
                    address,
                    (n, mem, named),
                    proven,
                  )
                ]
          ]
        ]
      ]
    ]
  where
    false_not_true : false ≡ true → ⊥
    false_not_true b = cc
