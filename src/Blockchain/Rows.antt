-- ===== src/Blockchain/Rows.antt =====
-- The table of transactions: its ids are a primary key, and what `save` leaves of it.
use zentto_web.Prelude.{
  ℕ, ◌≡◌, refl, sym, ◌∙◌, Bool, true, false, not, ◌||◌, List, [], ◌∷◌, ◌++◌, arith, filter, ltb,
  Bool-cases, inl, inr, All, append_assoc, append_nil, filter-append, filter-All,
}
use zentto_web.Prelude.Texts.{text_eq, text_eq_refl, text_eq_sound}
use zentto_web.Money.{Text}
use zentto_web.Blockchain.Chain.{
  TransactionEntity, save_transaction, save_transactions, insert, order_by,
}

-- Whether a row has the id.
abbrev pub has_row : Text → List TransactionEntity → Bool
has_row id [] = false
has_row id (r ∷ rs) = text_eq r.transaction.id id || has_row id rs

-- No two rows have the same id.
abbrev pub Distinct : List TransactionEntity → Type 0
Distinct [] = Unit
Distinct (r ∷ rs) = (has_row r.transaction.id rs ≡ false) × Distinct rs

abbrev pub other_id : Text → TransactionEntity → Bool
other_id id o = not (text_eq o.transaction.id id)

abbrev pub other_ids : List TransactionEntity → TransactionEntity → Bool
other_ids rs o = not (has_row o.transaction.id rs)

pub text_eq_sym : (s t : Text) → text_eq s t ≡ text_eq t s
text_eq_sym s t = elim (Bool-cases (text_eq s t)) [
  | inl same ↦ same ∙ sym (rw (text_eq_sound s t same) (text_eq_refl t))
  | inr apart ↦ elim (Bool-cases (text_eq t s)) [
    | inr apart' ↦ apart ∙ sym apart'
    | inl same ↦ apart ∙ sym (absurd (absurd_same same apart))
  ]
]
  where
    absurd_same : text_eq t s ≡ true → text_eq s t ≡ false → ⊥
    absurd_same same apart =
        let back : text_eq s t ≡ true = rw (text_eq_sound t s same) (text_eq_refl s) in cc

pub has_row-append :
    (id : Text) (xs ys : List TransactionEntity)
    → has_row id (xs ++ ys) ≡ (has_row id xs || has_row id ys)
has_row-append id [] ys = refl
has_row-append id (x ∷ xs) ys = ground (arith, has_row-append id xs ys)

pub has_row-filter :
    (p : TransactionEntity → Bool) (id : Text) (xs : List TransactionEntity)
    → has_row id xs ≡ false
    → has_row id (filter p xs) ≡ false
has_row-filter p id [] h = refl
has_row-filter p id (x ∷ xs) h = ground (arith, has_row-filter p id xs)

pub Distinct-filter :
    (p : TransactionEntity → Bool) (rows : List TransactionEntity)
    → Distinct rows
    → Distinct (filter p rows)
Distinct-filter p [] d = d
Distinct-filter p (r ∷ rs) d = elim (Bool-cases (p r)) [
  | inl hit ↦ rw hit (has_row-filter p r.transaction.id rs d.0, Distinct-filter p rs d.1)
  | inr miss ↦ rw miss (Distinct-filter p rs d.1)
]

filter_others :
    (r : TransactionEntity) (rs rows : List TransactionEntity)
    → filter (other_ids rs) (filter (other_id r.transaction.id) rows)
      ≡ filter (other_ids (r ∷ rs)) rows
filter_others r rs [] = refl
filter_others r rs (x ∷ xs) =
    let s = text_eq_sym x.transaction.id r.transaction.id in
    ground (arith, s, filter_others r rs xs)

-- Rows that are saved one after the other stand after those of the other ids.
pub saves_lem :
    (rs rows : List TransactionEntity)
    → Distinct rs
    → save_transactions rs rows ≡ filter (other_ids rs) rows ++ rs
saves_lem [] rows d =
    sym (append_nil (filter (other_ids []) rows) ∙ filter-All (other_ids []) rows (kept rows))
  where
    kept : (rows : List TransactionEntity) → All (λ o. other_ids [] o ≡ true) rows
    kept [] = tt
    kept (x ∷ xs) = (refl, kept xs)
saves_lem (r ∷ rs) rows d =
    let kept = filter (other_id r.transaction.id) rows in
    let last : filter (other_ids rs) (r ∷ []) ≡ r ∷ [] = rw d.0 in
    saves_lem rs (save_transaction r rows) d.1
    ∙ rw (filter-append (other_ids rs) kept (r ∷ []), last, filter_others r rs rows)
        (append_assoc (filter (other_ids (r ∷ rs)) rows) (r ∷ []) rs)

module _ (key : TransactionEntity → ℕ) where
  has_row-insert :
      (id : Text) (r : TransactionEntity) (rows : List TransactionEntity)
      → has_row id (insert key r rows) ≡ (text_eq r.transaction.id id || has_row id rows)
  unfolding insert
  has_row-insert id r [] = refl
  has_row-insert id r (x ∷ xs) = ground (arith, has_row-insert id r xs)

  pub has_row-order :
      (id : Text) (rows : List TransactionEntity) → has_row id (order_by key rows) ≡ has_row id rows
  unfolding order_by
  has_row-order id [] = refl
  has_row-order id (r ∷ rs) = rw (has_row-insert id r (order_by key rs), has_row-order id rs)

  Distinct-insert :
      (r : TransactionEntity) (rows : List TransactionEntity)
      → Distinct rows
      → has_row r.transaction.id rows ≡ false
      → Distinct (insert key r rows)
  unfolding insert
  Distinct-insert r [] d h = (refl, tt)
  Distinct-insert r (x ∷ xs) d h = elim (Bool-cases (ltb (key x) (key r))) [
    | inl later ↦
        let e = has_row-insert x.transaction.id r xs in
        let s = text_eq_sym x.transaction.id r.transaction.id in
        rw later (ground (arith, e, s, h, d.0), Distinct-insert r xs d.1 (ground (arith, h)))
    | inr now ↦ rw now (h, d)
  ]

  pub Distinct-order :
      (rows : List TransactionEntity) → Distinct rows → Distinct (order_by key rows)
  unfolding order_by
  Distinct-order [] d = d
  Distinct-order (r ∷ rs) d =
      Distinct-insert r (order_by key rs) (Distinct-order rs d.1)
        (has_row-order r.transaction.id rs ∙ d.0)
