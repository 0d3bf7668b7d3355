-- ===== src/Withdrawals/Rows.antt =====
-- The rows of the payments under an id, and lists without that id.
use zentto_web.Prelude.{
  ℕ, zero, suc, ◌≡◌, ◌≢◌, refl, arith, false, List, [], ◌∷◌, ◌++◌, ◌==◌, All, map, filter, take,
  Bool-cases, inl, inr,
}
use mathlib.Core.List.{reverse, reverse-cons}
use zentto_web.Database.{Database, Payment, Stage}
use zentto_web.Withdrawals.{update_payments}
use zentto_web.Withdrawals.Worker.{waits_at, reread, pending}

-- The rows under an id.
abbrev pub rows : ℕ → List Payment → List Payment
rows k = filter (λ (p : Payment). p.id == k)

abbrev pub Apart : ℕ → List Payment → Type 0
Apart k = All (λ (p : Payment). p.id ≢ k)

pub rows-update_payments :
    (k : ℕ) (u : Payment) (ps : List Payment) → u.id ≢ k → rows k (update_payments u ps) ≡ rows k ps
unfolding update_payments
rows-update_payments k u [] ne = refl
rows-update_payments k u (p ∷ ps) ne = ground (arith, rows-update_payments k u ps ne)

not_id : {k : ℕ} (i : ℕ) → (i == k) ≡ false → i ≢ k
not_id i h e = ground arith

filter-Apart :
    (k : ℕ) (s : Stage) (ps : List Payment)
    → All (λ (p : Payment). waits_at s p ≡ false) (rows k ps)
    → Apart k (filter (waits_at s) ps)
filter-Apart k s [] h = tt
filter-Apart k s (p ∷ ps) h = elim (Bool-cases (p.id == k)) [
  | inl here ↦ let h' = rw here at h in rw h'.0 (filter-Apart k s ps h'.1)
  | inr there ↦
      let rest = filter-Apart k s ps (rw there at h) in
      elim (Bool-cases (waits_at s p)) [
        | inr idle ↦ rw idle rest
        | inl waits ↦ rw waits (not_id p.id there, rest)
      ]
]

map-Apart : (k : ℕ) (ps : List Payment) → Apart k ps → Apart k (map reread ps)
map-Apart k [] h = tt
map-Apart k (p ∷ ps) h = (h.0, map-Apart k ps h.1)

take-Apart : (k n : ℕ) (ps : List Payment) → Apart k ps → Apart k (take n ps)
take-Apart k zero ps h = tt
take-Apart k (suc n) [] h = tt
take-Apart k (suc n) (p ∷ ps) h = (h.0, take-Apart k n ps h.1)

append-Apart : (k : ℕ) (ps qs : List Payment) → Apart k ps → Apart k qs → Apart k (ps ++ qs)
append-Apart k [] qs h g = g
append-Apart k (p ∷ ps) qs h g = (h.0, append-Apart k ps qs h.1 g)

reverse-Apart : (k : ℕ) (ps : List Payment) → Apart k ps → Apart k (reverse ps)
reverse-Apart k [] h = tt
reverse-Apart k (p ∷ ps) h =
    rw (reverse-cons p ps) (append-Apart k (reverse ps) (p ∷ []) (reverse-Apart k ps h.1) (h.0, tt))

pub pending-Apart :
    (k : ℕ) (s : Stage) (db : Database)
    → All (λ (p : Payment). waits_at s p ≡ false) (rows k db.payments)
    → Apart k (pending s db)
unfolding pending
pending-Apart k s db h = take-Apart k 20 (map reread (reverse (filter (waits_at s) db.payments))) (
    map-Apart k (reverse (filter (waits_at s) db.payments))
      (reverse-Apart k (filter (waits_at s) db.payments) (filter-Apart k s db.payments h)))
