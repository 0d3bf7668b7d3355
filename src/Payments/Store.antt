-- ===== src/Payments/Store.antt =====
-- The unique index of the payments: a key of a user names one row at most.
use zentto_web.Prelude.{ℕ, ◌≡◌, ◌≢◌, ◌⊎◌, ap, true, none, some, List, [], ◌∷◌, arith}
use zentto_web.Money.{Text}
use zentto_web.Environment.{Environment}
use zentto_web.Errors.{unique_violation, asset_not_supported}
use zentto_web.Action.{returned, thrown, after}
use zentto_web.Database.{Database, Payment}
use zentto_web.Payments.{assert_asset, find_payment, insert_payment}
use zentto_web.Prelude.Texts.{text_eq, text_eq_refl, text_eq_sound}

-- No two rows agree on the user and the key.
abbrev pub IsUnique : List Payment → Type 0
IsUnique [] = Unit
IsUnique (p ∷ ps) = (find_payment p.user_id p.idempotency_key ps ≡ none) × IsUnique ps

-- `save` of a new row keeps the index: it writes the row, or it throws and writes nothing.
pub insert_payment-IsUnique :
    (p : Payment) (db : Database)
    → IsUnique db.payments
    → IsUnique (after (insert_payment p db)).payments
unfolding insert_payment
insert_payment-IsUnique p db u = ground arith

pub insert_payment_new :
    (p : Payment) (db : Database)
    → find_payment p.user_id p.idempotency_key db.payments ≡ none
    → insert_payment p db ≡ returned tt (record db { payments = p ∷ db.payments })
unfolding insert_payment
insert_payment_new p db h = ground arith

pub insert_payment_dup :
    (p : Payment) (db : Database) {q : Payment}
    → find_payment p.user_id p.idempotency_key db.payments ≡ some q
    → insert_payment p db ≡ thrown unique_violation db
unfolding insert_payment
insert_payment_dup p db h = ground arith

-- The row that was saved is found.
pub find_payment_head :
    (p : Payment) (ps : List Payment) → find_payment p.user_id p.idempotency_key (p ∷ ps) ≡ some p
unfolding find_payment
find_payment_head p ps = ground (arith, text_eq_refl p.idempotency_key)

-- Another row in front does not matter to the search for a row of another user or another key.
pub find_payment_other :
    (user_id : ℕ) (key : Text) (p : Payment) (ps : List Payment)
    → p.user_id ≢ user_id
    → find_payment user_id key (p ∷ ps) ≡ find_payment user_id key ps
unfolding find_payment
find_payment_other user_id key p ps h = ground arith

find_payment_congr :
    (user_id : ℕ) (key other : Text) (ps : List Payment)
    → text_eq key other ≡ true
    → find_payment user_id key ps ≡ find_payment user_id other ps
find_payment_congr user_id key other ps h =
    ap (λ (t : Text). find_payment user_id t ps) (text_eq_sound key other h)

-- The asset test changes nothing.
pub assert_asset_cases :
    (env : Environment) (asset : ℕ) (db : Database)
    → (assert_asset env asset db ≡ returned (env.trim_upper asset) db)
      ⊎ (assert_asset env asset db ≡ thrown asset_not_supported db)
unfolding assert_asset
assert_asset_cases env asset db = ground arith
