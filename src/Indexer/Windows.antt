-- ===== src/Indexer/Windows.antt =====
-- The windows of scanNetwork: one after another they leave out no block and scan none twice.
use zentto_web.Prelude.{
  ℕ, zero, suc, ◌+◌, ◌-◌, ◌*◌, ◌≤◌, ◌≡◌, sym, ap, ◌∙◌, some, List, [], ◌∷◌, ◌++◌, arith,
  if◌then◌else◌, ltb, replicate,
}
use zentto_web.Indexer.Scan.{first_block, last_block}

-- The blocks from `a` on, `n` of them.
abbrev pub blocks : ℕ → ℕ → List ℕ
blocks a zero = []
blocks a (suc n) = a ∷ blocks (suc a) n

module _ (network scan_range : ℕ) where
  abbrev window_from : ℕ → ℕ → ℕ
  window_from cursor top =
      first_block scan_range top (some (record { network = network; last_block = cursor }))

  abbrev window_to : ℕ → ℕ → ℕ
  window_to cursor top = last_block scan_range top (window_from cursor top)

  -- The cursor after a scan, and the blocks of its window, which has none where it ends before it starts.
  abbrev pub next_cursor : ℕ → ℕ → ℕ
  next_cursor cursor top =
      if ltb (window_to cursor top) (window_from cursor top) then cursor else window_to cursor top

  abbrev pub window_blocks : ℕ → ℕ → List ℕ
  window_blocks cursor top =
      blocks (window_from cursor top) (suc (window_to cursor top) - window_from cursor top)

  -- The scans one after another, for the highest confirmed block at each of them.
  pub scanned_blocks : ℕ → List ℕ → List ℕ
  scanned_blocks cursor [] = []
  scanned_blocks cursor (top ∷ tops) =
      window_blocks cursor top ++ scanned_blocks (next_cursor cursor top) tops

  pub last_cursor : ℕ → List ℕ → ℕ
  last_cursor cursor [] = cursor
  last_cursor cursor (top ∷ tops) = last_cursor (next_cursor cursor top) tops

  next_cursor_grows : (cursor top : ℕ) → cursor ≤ next_cursor cursor top
  next_cursor_grows cursor top = ground arith

  last_cursor_grows : (cursor : ℕ) (tops : List ℕ) → cursor ≤ last_cursor cursor tops
  unfolding last_cursor
  last_cursor_grows cursor [] = omega arith
  last_cursor_grows cursor (top ∷ tops) =
      omega (arith, next_cursor_grows cursor top, last_cursor_grows (next_cursor cursor top) tops)

  blocks_append : (a m n : ℕ) → blocks a m ++ blocks (a + m) n ≡ blocks a (m + n)
  blocks_append a zero n =
      let e : a + 0 ≡ a = omega arith in let e' : 0 + n ≡ n = omega arith in rw (e, e')
  blocks_append a (suc m) n =
      let e : a + suc m ≡ suc a + m = omega arith in
      let e' : suc m + n ≡ suc (m + n) = omega arith in
      rw (e, e') (ap (λ (l : List ℕ). a ∷ l) (blocks_append (suc a) m n))

  window_is_next :
      (cursor top : ℕ)
      → window_blocks cursor top ≡ blocks (suc cursor) (next_cursor cursor top - cursor)
  window_is_next cursor top =
      let e : suc (window_to cursor top) - window_from cursor top
          ≡ next_cursor cursor top - cursor =
        ground arith in
      ap (blocks (suc cursor)) e

  -- Scans that start at a cursor, whatever the chain's height is at each of them, scan every block from the one
  -- after that cursor to the last cursor, in order and each once.
  pub windows_tile :
      (cursor : ℕ) (tops : List ℕ)
      → scanned_blocks cursor tops ≡ blocks (suc cursor) (last_cursor cursor tops - cursor)
  unfolding scanned_blocks last_cursor
  windows_tile cursor [] = let e : cursor - cursor ≡ 0 = omega arith in rw e
  windows_tile cursor (top ∷ tops) =
      let next = next_cursor cursor top in
      let more = next_cursor_grows cursor top in
      let more' = last_cursor_grows next tops in
      let here : suc cursor + (next - cursor) ≡ suc next = omega (arith, more) in
      let total : next - cursor + (last_cursor next tops - next) ≡ last_cursor next tops - cursor =
        omega (arith, more, more') in
      rw (window_is_next cursor top, windows_tile next tops)
        (ap
            (λ (a : ℕ).
              blocks (suc cursor) (next - cursor) ++ blocks a (last_cursor next tops - next))
            (sym here)
          ∙ blocks_append (suc cursor) (next - cursor) (last_cursor next tops - next)
          ∙ ap (blocks (suc cursor)) total)

  one_scan :
      (cursor top : ℕ)
      → cursor ≤ top
      → (next_cursor cursor top ≤ top)
        × (top - next_cursor cursor top ≤ top - cursor - suc scan_range)
  one_scan cursor top le = (ground arith, ground arith)

  -- While the chain stands still, scans catch up with its highest confirmed block: `k` of them do for up to
  -- `k * (scan_range + 1)` blocks.
  pub windows_catch_up :
      (k cursor top : ℕ)
      → cursor ≤ top
      → top - cursor ≤ k * suc scan_range
      → last_cursor cursor (replicate k top) ≡ top
  unfolding last_cursor
  windows_catch_up zero cursor top le few = omega arith
  windows_catch_up (suc k) cursor top le few =
      let (le', fewer) = one_scan cursor top le in
      let e : suc k * suc scan_range ≡ suc scan_range + k * suc scan_range = grind arith in
      windows_catch_up k (next_cursor cursor top) top le' (omega (arith, fewer, rw e at few))
