-- ===== src/Prelude/Lists.antt =====
-- Lists measured by native numbers, and predicates on all members, under the library's names.
use Prim.Native.Nat.{ℕ, zero, suc, ◌+◌, ◌-◌}
use mathlib.Core.Path.{◌≡◌, refl, sym, ap, ◌∙◌}
use mathlib.Core.Logic.{inl, inr}
use mathlib.Core.Bool.{Bool, true, false, ◌&&◌}
use mathlib.Core.List.{List, [], ◌∷◌, ◌++◌, map}
use mathlib.Core.Option.{Option, none, some}
use native.Mathlib.Omega.{arith}
use zentto_web.Prelude.Tests.{if◌then◌else◌, and-true, ◌==◌, Bool-cases, some_inj}

module _ {ℓ} {A : Type ℓ} where
  abbrev pub length : List A → ℕ
  length [] = 0
  length (x ∷ xs) = suc (length xs)

  abbrev pub take : ℕ → List A → List A
  take zero xs = []
  take (suc n) [] = []
  take (suc n) (x ∷ xs) = x ∷ take n xs

  abbrev pub drop : ℕ → List A → List A
  drop zero xs = xs
  drop (suc n) [] = []
  drop (suc n) (x ∷ xs) = drop n xs

  abbrev pub replicate : ℕ → A → List A
  replicate zero a = []
  replicate (suc n) a = a ∷ replicate n a

  -- The first member that passes the test, as `findOne` and `Array.find` give it.
  abbrev pub find : (A → Bool) → List A → Option A
  find p [] = none
  find p (x ∷ xs) = if p x then some x else find p xs

  abbrev pub filter : (A → Bool) → List A → List A
  filter p [] = []
  filter p (x ∷ xs) = let rest = filter p xs in if p x then x ∷ rest else rest

  abbrev pub all : (A → Bool) → List A → Bool
  all p [] = true
  all p (x ∷ xs) = p x && all p xs

  abbrev pub All {κ} : (A → Type κ) → List A → Type κ
  All P [] = Unit
  All P (x ∷ xs) = P x × All P xs

  pub length-append : (xs ys : List A) → length (xs ++ ys) ≡ length xs + length ys
  length-append [] ys = omega arith
  length-append (x ∷ xs) ys = omega (arith, length-append xs ys)

  pub length-replicate : (n : ℕ) (a : A) → length (replicate n a) ≡ n
  length-replicate zero a = refl
  length-replicate (suc n) a = ap suc (length-replicate n a)

  pub take-append-drop : (n : ℕ) (xs : List A) → take n xs ++ drop n xs ≡ xs
  take-append-drop zero xs = refl
  take-append-drop (suc n) [] = refl
  take-append-drop (suc n) (x ∷ xs) = ap (λ r. x ∷ r) (take-append-drop n xs)

  pub length-drop : (n : ℕ) (xs : List A) → length (drop n xs) ≡ length xs - n
  length-drop zero xs = omega arith
  length-drop (suc n) [] = omega arith
  length-drop (suc n) (x ∷ xs) = omega (arith, length-drop n xs)

  pub all-append :
      (p : A → Bool) (xs ys : List A) → all p xs ≡ true → all p ys ≡ true → all p (xs ++ ys) ≡ true
  all-append p [] ys hx hy = hy
  all-append p (x ∷ xs) ys hx hy =
      let h = and-true (p x) (all p xs) hx in ground (arith, all-append p xs ys h.1 hy)

  pub all-take : (p : A → Bool) (n : ℕ) (xs : List A) → all p xs ≡ true → all p (take n xs) ≡ true
  all-take p zero xs h = refl
  all-take p (suc n) [] h = refl
  all-take p (suc n) (x ∷ xs) h =
      let k = and-true (p x) (all p xs) h in ground (arith, all-take p n xs k.1)

  pub all-drop : (p : A → Bool) (n : ℕ) (xs : List A) → all p xs ≡ true → all p (drop n xs) ≡ true
  all-drop p zero xs h = h
  all-drop p (suc n) [] h = refl
  all-drop p (suc n) (x ∷ xs) h = all-drop p n xs (and-true (p x) (all p xs) h).1

  pub all-replicate : (p : A → Bool) (n : ℕ) (a : A) → p a ≡ true → all p (replicate n a) ≡ true
  all-replicate p zero a h = refl
  all-replicate p (suc n) a h = ground (arith, all-replicate p n a h)

  pub All-append {κ} : (P : A → Type κ) (xs ys : List A) → All P xs → All P ys → All P (xs ++ ys)
  All-append P [] ys hx hy = hy
  All-append P (x ∷ xs) ys hx hy = (hx.0, All-append P xs ys hx.1 hy)

  pub append_nil : (xs : List A) → xs ++ [] ≡ xs
  append_nil [] = refl
  append_nil (x ∷ xs) = ap (λ l. x ∷ l) (append_nil xs)

  pub append_assoc : (xs ys zs : List A) → (xs ++ ys) ++ zs ≡ xs ++ (ys ++ zs)
  append_assoc [] ys zs = refl
  append_assoc (x ∷ xs) ys zs = ap (λ l. x ∷ l) (append_assoc xs ys zs)

  pub filter-append :
      (p : A → Bool) (xs ys : List A) → filter p (xs ++ ys) ≡ filter p xs ++ filter p ys
  filter-append p [] ys = refl
  filter-append p (x ∷ xs) ys = ground (arith, filter-append p xs ys)

  pub filter_none : (p : A → Bool) (xs : List A) → All (λ x. p x ≡ false) xs → filter p xs ≡ []
  filter_none p [] h = refl
  filter_none p (x ∷ xs) h = rw h.0 (filter_none p xs h.1)

  pub filter-All : (p : A → Bool) (xs : List A) → All (λ x. p x ≡ true) xs → filter p xs ≡ xs
  filter-All p [] h = refl
  filter-All p (x ∷ xs) h = rw h.0 (ap (λ l. x ∷ l) (filter-All p xs h.1))

  pub All-weaken {κ κ'} :
      (P : A → Type κ) (Q : A → Type κ') (xs : List A) → ((x : A) → P x → Q x) → All P xs → All Q xs
  All-weaken P Q [] f h = tt
  All-weaken P Q (x ∷ xs) f h = (f x h.0, All-weaken P Q xs f h.1)

module _ {ℓ} {A : Type ℓ} where
  -- Every row with the key of `v` becomes `v`.
  abbrev pub replace : (A → ℕ) → A → List A → List A
  replace key v rows = map (λ (r : A). if key r == key v then v else r) rows

  -- A row is found where the row was that it replaces.
  pub find-replace :
      (key : A → ℕ) (test : A → Bool) (u v : A) (rows : List A)
      → find test rows ≡ some u
      → key v ≡ key u
      → test v ≡ true
      → find test (replace key v rows) ≡ some v
  find-replace key test u v [] found same passes = cc
  find-replace key test u v (r ∷ rows) found same passes = elim (Bool-cases (key r == key v)) [
    | inl replaced ↦ rw (replaced, passes) refl
    | inr kept ↦ elim (Bool-cases (test r)) [
      | inl hit ↦
          let e : r ≡ u = some_inj (rw hit at found) in
          absurd (clash (key r) (key v) (ap key e ∙ sym same) kept)
      | inr miss ↦
          let rest : find test rows ≡ some u = rw miss at found in
          rw (kept, miss) (find-replace key test u v rows rest same passes)
    ]
  ]
    where
      clash : (a b : ℕ) → a ≡ b → (a == b) ≡ false → ⊥
      clash a b e h = ground arith

pub length-map {ℓ κ} :
    {A : Type ℓ} {B : Type κ} (f : A → B) (xs : List A) → length (map f xs) ≡ length xs
length-map f [] = refl
length-map f (x ∷ xs) = ap suc (length-map f xs)
