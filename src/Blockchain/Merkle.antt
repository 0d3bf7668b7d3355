-- ===== src/Blockchain/Merkle.antt =====
-- The Merkle root: its loop ends, it binds a list of hashes of known length, and where it does not.
use zentto_web.Prelude.{
  ℕ, zero, suc, ◌+◌, ◌/◌, ◌%◌, false, length-append, lt→ltb, ◌≤◌, ◌<◌, ◌≡◌, ◌≢◌, ◌⊎◌, inl, inr,
  refl, sym, ap, ◌∙◌, List, [], ◌∷◌, ◌++◌, length, arith, ltb, All, Bool-cases,
}
use zentto_web.Prelude.Texts.{text_cases, append_injective}
use zentto_web.Money.{Text}
use zentto_web.Blockchain.{Crypto, next_level, levels, first_hash, merkle_root}

module _ (c : Crypto) where
  -- A level has half as many hashes, rounded up.
  length-next_level : (xs : List Text) → length (next_level c xs) ≡ (length xs + 1) / 2
  unfolding next_level
  length-next_level [] = refl
  length-next_level (x ∷ []) = refl
  length-next_level (x ∷ y ∷ xs) = omega (arith, length-next_level xs)

  -- With as much fuel as there are hashes the loop ends by its test, with one hash if there was one.
  levels_end :
      (fuel : ℕ) (xs : List Text)
      → length xs ≤ fuel
      → (length (levels c fuel xs) ≤ 1) × (0 < length xs → 0 < length (levels c fuel xs))
  unfolding levels
  levels_end zero [] h = (omega arith, λ z. z)
  levels_end zero (x ∷ xs) h = absurd (omega arith)
  levels_end (suc fuel) xs h =
      ground (arith, length-next_level xs, levels_end fuel (next_level c xs))

  -- Any two amounts of fuel that are enough give the same.
  levels_enough :
      (f g : ℕ) (xs : List Text) → length xs ≤ f → length xs ≤ g → levels c f xs ≡ levels c g xs
  unfolding levels
  levels_enough zero zero xs h k = refl
  levels_enough zero (suc g) [] h k = refl
  levels_enough zero (suc g) (x ∷ xs) h k = absurd (omega arith)
  levels_enough (suc f) zero [] h k = refl
  levels_enough (suc f) zero (x ∷ xs) h k = absurd (omega arith)
  levels_enough (suc f) (suc g) xs h k =
      ground (arith, length-next_level xs, levels_enough f g (next_level c xs))

  -- The loop of `merkleRoot` ends by its test, on every list, and leaves one hash of a list that is not empty.
  pub merkle_loop_ends :
      (xs : List Text)
      → (ltb 1 (length (levels c (length xs) xs)) ≡ false)
        × (0 < length xs → length (levels c (length xs) xs) ≡ 1)
  merkle_loop_ends xs = ground (arith, levels_end (length xs) xs)

  -- Two different texts with the same hash.
  abbrev pub Collision : Type 0
  Collision = (a : Text) × (b : Text) × (a ≢ b) × (c.sha256 a ≡ c.sha256 b)

  abbrev IsHash : Text → Type 0
  IsHash s = length s ≡ 64

  pair_binds :
      (x y x' y' : Text)
      → IsHash x
      → IsHash x'
      → c.sha256 (x ++ y) ≡ c.sha256 (x' ++ y')
      → ((x ≡ x') × (y ≡ y')) ⊎ Collision
  pair_binds x y x' y' hx hx' e = elim (text_cases (x ++ y) (x' ++ y')) [
    | inl same ↦ inl (append_injective x x' y y' (hx ∙ sym hx') same)
    | inr apart ↦ inr (x ++ y, x' ++ y', apart, e)
  ]

  next_level_binds :
      (xs ys : List Text)
      → length xs ≡ length ys
      → All IsHash xs
      → All IsHash ys
      → next_level c xs ≡ next_level c ys
      → (xs ≡ ys) ⊎ Collision
  unfolding next_level
  next_level_binds [] [] l hx hy e = inl refl
  next_level_binds [] (y ∷ ys) l hx hy e = absurd (omega (arith, l))
  next_level_binds (x ∷ xs) [] l hx hy e = absurd (omega (arith, l))
  next_level_binds (x ∷ []) (y ∷ []) l hx hy e = elim (pair_binds x x y y hx.0 hy.0 (cc)) [
    | inl same ↦ inl (rw same.0)
    | inr clash ↦ inr clash
  ]
  next_level_binds (x ∷ []) (y ∷ y' ∷ ys) l hx hy e = absurd (omega (arith, l))
  next_level_binds (x ∷ x' ∷ xs) (y ∷ []) l hx hy e = absurd (omega (arith, l))
  next_level_binds (x ∷ x' ∷ xs) (y ∷ y' ∷ ys) l hx hy e =
      elim (pair_binds x x' y y' hx.0 hy.0 (cc)) [
        | inr clash ↦ inr clash
        | inl same ↦ elim (next_level_binds xs ys (omega (arith, l)) hx.1.1 hy.1.1 (cc)) [
          | inr clash ↦ inr clash
          | inl rest ↦ inl (rw (same.0, same.1, rest))
        ]
      ]

  module _ (hex : (s : Text) → length (c.sha256 s) ≡ 64) where
    next_level_hashes : (xs : List Text) → All IsHash (next_level c xs)
    unfolding next_level
    next_level_hashes [] = tt
    next_level_hashes (x ∷ []) = (hex (x ++ x), tt)
    next_level_hashes (x ∷ y ∷ xs) = (hex (x ++ y), next_level_hashes xs)

    levels_bind :
        (fuel : ℕ) (xs ys : List Text)
        → length xs ≡ length ys
        → All IsHash xs
        → All IsHash ys
        → levels c fuel xs ≡ levels c fuel ys
        → (xs ≡ ys) ⊎ Collision
    unfolding levels
    levels_bind zero xs ys l hx hy e = inl e
    levels_bind (suc fuel) xs ys l hx hy e = elim (Bool-cases (ltb 1 (length xs))) [
      | inr one ↦ inl (rw (← l, one) at e)
      | inl more ↦
          elim (levels_bind fuel (next_level c xs) (next_level c ys)
            (length-next_level xs ∙ rw l (sym (length-next_level ys))) (next_level_hashes xs)
            (next_level_hashes ys) (rw (← l, more) at e)) [
              | inr clash ↦ inr clash
              | inl next ↦ next_level_binds xs ys l hx hy next
            ]
    ]

    only_hash : (d : Text) (l : List Text) → length l ≡ 1 → l ≡ first_hash d l ∷ []
    only_hash d [] h = absurd (omega (arith, h))
    only_hash d (x ∷ []) h = refl
    only_hash d (x ∷ y ∷ l) h = absurd (omega (arith, h))

    -- The Merkle root binds a list of hashes whose length is known: two lists of the same length and the same
    -- root are one list, or the proof holds two texts with the same SHA-256.
    pub merkle_root_binds :
        (xs ys : List Text)
        → length xs ≡ length ys
        → All (λ (s : Text). length s ≡ 64) xs
        → All (λ (s : Text). length s ≡ 64) ys
        → merkle_root c xs ≡ merkle_root c ys
        → (xs ≡ ys) ⊎ Collision
    unfolding merkle_root
    merkle_root_binds [] [] l hx hy e = inl refl
    merkle_root_binds [] (y ∷ ys) l hx hy e = absurd (omega (arith, l))
    merkle_root_binds (x ∷ xs) [] l hx hy e = absurd (omega (arith, l))
    merkle_root_binds (x ∷ xs) (y ∷ ys) l hx hy e =
        let d = c.sha256 [] in
        let ends =
          only_hash d (levels c (length (x ∷ xs)) (x ∷ xs))
            ((merkle_loop_ends (x ∷ xs)).1 (omega arith)) in
        let ends' =
          only_hash d (levels c (length (y ∷ ys)) (y ∷ ys))
            ((merkle_loop_ends (y ∷ ys)).1 (omega arith)) in
        levels_bind (length (x ∷ xs)) (x ∷ xs) (y ∷ ys) l hx hy (
          ends
          ∙ ap (λ (h : Text). h ∷ []) e
          ∙ sym ends'
          ∙ ap (λ (f : ℕ). levels c f (y ∷ ys)) (sym l))

  next_level_doubled :
      (ys : List Text) (x : Text)
      → length ys % 2 ≡ 0
      → next_level c (ys ++ x ∷ x ∷ []) ≡ next_level c (ys ++ x ∷ [])
  unfolding next_level
  next_level_doubled [] x even = refl
  next_level_doubled (y ∷ []) x even = absurd (omega (arith, even))
  next_level_doubled (y ∷ z ∷ ys) x even =
      ap (λ (l : List Text). c.sha256 (y ++ z) ∷ l) (next_level_doubled ys x (omega (arith, even)))

  root_of_next :
      (xs : List Text)
      → 1 < length xs
      → merkle_root c xs ≡ first_hash (c.sha256 []) (levels c (length xs) (next_level c xs))
  unfolding merkle_root levels
  root_of_next xs long =
      let step : levels c (length xs) xs ≡ levels c (length xs) (next_level c xs) =
        levels_enough (length xs) (suc (length xs)) xs (omega arith) (omega arith)
        ∙ rw (lt→ltb 1 (length xs) long) in
      ap (first_hash (c.sha256 [])) step

  -- Where the length is not known the root binds nothing: a list of an odd number of hashes, three or more, and
  -- the same list with its last hash twice have the same root.
  pub merkle_root_doubled :
      (ys : List Text) (x : Text)
      → length ys % 2 ≡ 0
      → 0 < length ys
      → merkle_root c (ys ++ x ∷ x ∷ []) ≡ merkle_root c (ys ++ x ∷ [])
  merkle_root_doubled ys x even some_ys =
      let once = ys ++ x ∷ [] in
      let twice = ys ++ x ∷ x ∷ [] in
      let l : length once ≡ length ys + 1 = length-append ys (x ∷ []) in
      let l' : length twice ≡ length ys + 2 = length-append ys (x ∷ x ∷ []) in
      rw
        (
          root_of_next twice (omega (arith, l')),
          root_of_next once (omega (arith, l)),
          next_level_doubled ys x even,
        )
        (ap (first_hash (c.sha256 [])) (
          levels_enough (length twice) (length once) (next_level c once)
            (omega (arith, l, l', length-next_level once))
            (omega (arith, l, l', length-next_level once))))
