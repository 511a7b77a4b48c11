-- ===== src/Task/Levels/Search.antt =====
-- The binary search of `svc_service_task_create` (src/service/svr_task.c) over `level_stash`.
use skibios.Prelude.{
  ℕ, zero, suc, ◌+◌, ◌-◌, ◌≤◌, ◌<◌, ◌≡◌, ◌≢◌, inl, inr, arith, ltb, leb, ◌==◌, u8, sub32,
  Bool-cases,
}
use skibios.Task.Levels.{found, absent, endless, middle, search_level}

middle_bounds :
    (lower j : ℕ) → lower ≤ j → j < 256 → (lower ≤ middle lower j) × (middle lower j ≤ j)
middle_bounds lower j h b = omega arith

-- With level 0 in the first place the binary search of a range below 255 ends; one round for each index of the
-- range, and one more, is enough fuel.
pub search_level-ends :
    (fuel : ℕ) (stash : ℕ → ℕ) (p lower j s : ℕ)
    → stash 0 ≡ 0
    → j < 255
    → lower < 256
    → j + 1 - lower < fuel
    → search_level fuel stash p lower j s ≢ endless
unfolding search_level
search_level-ends zero stash p lower j s z b l m e = absurd (omega arith)
search_level-ends (suc fuel) stash p lower j s z b l m e =
    let x = middle lower j in
    ground (
      arith,
      middle_bounds lower j,
      search_level-ends fuel stash p (u8 (x + 1)) j x z b,
      search_level-ends fuel stash p lower (sub32 x 1) x z,
    )

-- Whether the search finds a level that is there: on levels in increasing order it does.
pub search_level-found :
    (fuel : ℕ) (stash : ℕ → ℕ) (p c q lower j s : ℕ)
    → ((a b : ℕ) → a ≤ b → b < c → stash a ≤ stash b)
    → stash q ≡ p
    → q < c
    → lower ≤ q
    → q ≤ j
    → j ≤ c
    → c < 255
    → j + 1 - lower < fuel
    → ((a : ℕ) → a < c → stash a ≡ p → a ≡ q)
    → search_level fuel stash p lower j s ≡ found
unfolding search_level
search_level-found zero stash p c q lower j s o e l h g b t m u = absurd (omega arith)
search_level-found (suc fuel) stash p c q lower j s o e l h g b t m u =
    let x = middle lower j in
    ground (
      arith,
      middle_bounds lower j,
      o x q,
      o q x,
      search_level-found fuel stash p c q (u8 (x + 1)) j x o e l,
      search_level-found fuel stash p c q lower (sub32 x 1) x o e l,
    )

-- What the search finds is there.
pub search_level_sound :
    (fuel : ℕ) (stash : ℕ → ℕ) (p lower j s : ℕ)
    → search_level fuel stash p lower j s ≡ found
    → (q : ℕ) × (stash q ≡ p)
unfolding search_level
search_level_sound zero stash p lower j s e = absurd (cc)
search_level_sound (suc fuel) stash p lower j s e = elim (Bool-cases (leb lower j)) [
  | inr n ↦ absurd (ground arith)
  | inl n ↦ elim (Bool-cases (stash (middle lower j) == p)) [
    | inl h ↦ (middle lower j, ground arith)
    | inr h ↦ elim (Bool-cases (ltb (stash (middle lower j)) p)) [
      | inl r ↦
          search_level_sound fuel stash p (u8 (middle lower j + 1)) j (middle lower j)
            (ground arith)
      | inr r ↦
          search_level_sound fuel stash p lower (sub32 (middle lower j) 1) (middle lower j)
            (ground arith)
    ]
  ]
]

search_level-exit :
    (fuel : ℕ) (stash : ℕ → ℕ) (p lower j s : ℕ)
    → 0 < fuel
    → j < lower
    → search_level fuel stash p lower j s ≡ absent s
unfolding search_level
search_level-exit zero stash p lower j s h l = absurd (omega arith)
search_level-exit (suc fuel) stash p lower j s h l = ground arith

-- A level above all others ends the search behind the last one.
pub search_level-top :
    (fuel : ℕ) (stash : ℕ → ℕ) (p c lower s : ℕ)
    → ((q : ℕ) → q ≤ c → stash q < p)
    → lower ≤ c
    → c < 255
    → c + 1 - lower < fuel
    → search_level fuel stash p lower c s ≡ absent c
unfolding search_level
search_level-top zero stash p c lower s a l b m = absurd (omega arith)
search_level-top (suc fuel) stash p c lower s a l b m =
    let x = middle lower c in
    ground (
      arith,
      middle_bounds lower c,
      a x,
      search_level-top fuel stash p c (u8 (x + 1)) x a,
      search_level-exit fuel stash p (u8 (x + 1)) c x,
    )
