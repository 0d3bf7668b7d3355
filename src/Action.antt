-- ===== src/Action.antt =====
-- A service call: it reads and changes the database, and returns or throws. What was written before
-- a throw stays written, unless a transaction encloses it.
use zentto_web.Prelude.{ℕ, suc, Bool, true, false, Option, none, some, if◌then◌else◌, ◌≡◌}
use zentto_web.Errors.{Error, Result, ok, err}
use zentto_web.Database.{Database}

-- How a call ends, with the database that it leaves.
pub data Outcome (A : Type 0) : Type 0 where
  returned : A → Database → Outcome A
  thrown : Error → Database → Outcome A

abbrev pub Action : Type 0 → Type 0
Action A = Database → Outcome A

-- The database after a call.
abbrev pub after : {A : Type 0} → Outcome A → Database
after (returned a db) = db
after (thrown e db) = db

abbrev pub has_returned : {A : Type 0} → Outcome A → Bool
has_returned (returned a db) = true
has_returned (thrown e db) = false

abbrev pub and_then : {A B : Type 0} → Outcome A → (A → Action B) → Outcome B
and_then (returned a db) f = f a db
and_then (thrown e db) f = thrown e db

infixl 5 ◌>>=◌ ◌>>◌
abbrev pub ◌>>=◌ : {A B : Type 0} → Action A → (A → Action B) → Action B
◌>>=◌ m f db = and_then (m db) f

abbrev pub ◌>>◌ : {B : Type 0} → Action (Unit {0}) → Action B → Action B
◌>>◌ m k db = and_then (m db) (λ _. k)

module _ {A : Type 0} where
  abbrev pub pure : A → Action A
  pure a db = returned a db

  abbrev pub throw : Error → Action A
  throw e db = thrown e db

  abbrev pub gets : (Database → A) → Action A
  gets f db = returned (f db) db

  abbrev pub lift : Result A → Action A
  lift (ok a) db = returned a db
  lift (err e) db = thrown e db

  abbrev pub or_throw : Option A → Error → Action A
  or_throw none e = throw e
  or_throw (some a) e = pure a

  abbrev pub roll_back : Database → Outcome A → Outcome A
  roll_back db (returned a db') = returned a db'
  roll_back db (thrown e db') = thrown e db

  -- `dataSource.transaction`: a throw inside rolls back every write.
  abbrev pub transaction : Action A → Action A
  transaction m db = roll_back db (m db)

  abbrev pub handle : Outcome A → (Error → Action A) → Outcome A
  handle (returned a db) handler = returned a db
  handle (thrown e db) handler = handler e db

  abbrev pub try_catch : Action A → (Error → Action A) → Action A
  try_catch m handler db = handle (m db) handler

abbrev pub throw_if : Bool → Error → Action (Unit {0})
throw_if c e db = if c then thrown e db else returned tt db

abbrev pub modify : (Database → Database) → Action (Unit {0})
modify f db = returned tt (f db)

-- randomUUID
abbrev pub random_uuid : Action ℕ
random_uuid db = returned db.next_id (record db { next_id = suc db.next_id })

pub thrown_not_returned :
    {A : Type 0} {e : Error} {a : A} {db db' : Database} → thrown e db ≡ returned a db' → ⊥
thrown_not_returned h = cc

pub returned_inj :
    {A : Type 0} {a b : A} {db db' : Database}
    → returned a db ≡ returned b db'
    → (a ≡ b) × (db ≡ db')
returned_inj h = (cc, cc)
