-- ===== src/Ring/Edit.antt =====
-- A task enters the ring behind its predecessor, or leaves it: what happens to the offsets.
use skibios.Prelude.{
  ℕ, ◌+◌, ◌-◌, ◌≤◌, ◌<◌, ◌≡◌, true, false, List, [], ◌∷◌, arith, ◌==◌, ltb, ltb→lt, subst,
  if◌then◌else◌, update, u8, Bool-cases, inl, inr,
}
use skibios.Ring.{Chain, Below, elem}
use skibios.Ring.Split.{Chain-above}

-- The last task before `i`.
abbrev pub previous : ℕ → List ℕ → ℕ → ℕ
previous x [] i = x
previous x (y ∷ r) i = if ltb y i then previous y r i else x

abbrev pub insert : ℕ → List ℕ → List ℕ
insert i [] = i ∷ []
insert i (y ∷ r) = if ltb y i then y ∷ insert i r else i ∷ y ∷ r

abbrev pub remove : ℕ → List ℕ → List ℕ
remove i [] = []
remove i (y ∷ r) = if i == y then r else y ∷ remove i r

-- The offsets after `link_task` and after `unlink_task`, for a predecessor `p`.
abbrev pub linked : (ℕ → ℕ) → ℕ → ℕ → ℕ → ℕ
linked jmp p i = update (update jmp i (u8 (jmp p + 256 - (i - p)))) p (u8 (i - p))

abbrev pub unlinked : (ℕ → ℕ) → ℕ → ℕ → ℕ → ℕ
unlinked jmp p i = update (update jmp p (u8 (jmp p + jmp i))) i 0

Chain-congr :
    (jmp jmp' : ℕ → ℕ) (x : ℕ) (r : List ℕ)
    → ((j : ℕ) → x ≤ j → jmp' j ≡ jmp j)
    → Chain jmp x r
    → Chain jmp' x r
Chain-congr jmp jmp' x [] e c = omega (arith, e x)
Chain-congr jmp jmp' x (y ∷ r) e c =
    (c.0, ground (arith, e x), Chain-congr jmp jmp' y r (λ j h. e j (omega arith)) c.2)

pub previous_bounds :
    (jmp : ℕ → ℕ) (x : ℕ) (r : List ℕ) (i : ℕ)
    → x < i
    → Chain jmp x r
    → (x ≤ previous x r i) × (previous x r i < i)
previous_bounds jmp x [] i h c = omega arith
previous_bounds jmp x (y ∷ r) i h c = elim (Bool-cases (ltb y i)) [
  | inl e ↦ ground (arith, previous_bounds jmp y r i)
  | inr e ↦ ground arith
]

pub elem-previous : (x : ℕ) (r : List ℕ) (i : ℕ) → elem (previous x r i) (x ∷ r) ≡ true
elem-previous x [] i = ground arith
elem-previous x (y ∷ r) i = ground (arith, elem-previous y r i)

pub Chain-insert :
    (jmp : ℕ → ℕ) (x : ℕ) (r : List ℕ) (i : ℕ)
    → x < i
    → i < 128
    → Below 128 (x ∷ r)
    → elem i r ≡ false
    → Chain jmp x r
    → Chain (linked jmp (previous x r i) i) x (insert i r)
Chain-insert jmp x [] i h b s n c = ground arith
Chain-insert jmp x (y ∷ r) i h b s n c = elim (Bool-cases (ltb y i)) [
  | inl e ↦ rw e (
    c.0,
    ground (arith, previous_bounds jmp y r i (ltb→lt y i e) c.2),
    Chain-insert jmp y r i (ltb→lt y i e) b s.1 (ground arith) c.2,
  )
  | inr e ↦ rw e (
    h,
    ground arith,
    (ground arith, ground arith, Chain-congr jmp (linked jmp x i) y r (λ j l. ground arith) c.2),
  )
]

-- The first task of the list goes: its predecessor takes over its offset.
bridge :
    (jmp : ℕ → ℕ) (x i : ℕ) (r : List ℕ)
    → x < i
    → Chain jmp x (i ∷ r)
    → Below 128 (x ∷ i ∷ r)
    → Chain (unlinked jmp x i) x r
bridge jmp x i [] h c s = ground arith
bridge jmp x i (z ∷ r) h c s =
    (omega arith, ground arith, Chain-congr jmp (unlinked jmp x i) z r (λ j l. ground arith) c.2.2)

pub Chain-remove :
    (jmp : ℕ → ℕ) (x : ℕ) (r : List ℕ) (i : ℕ)
    → x < i
    → Below 128 (x ∷ r)
    → elem i r ≡ true
    → Chain jmp x r
    → Chain (unlinked jmp (previous x r i) i) x (remove i r)
Chain-remove jmp x [] i h s n c = ground arith
Chain-remove jmp x (y ∷ r) i h s n c = elim (Bool-cases (ltb y i)) [
  | inl e ↦
      let other : (i == y) ≡ false = ground arith in
      rw (e, other)
        (
          c.0,
          ground (arith, previous_bounds jmp y r i (ltb→lt y i e) c.2),
          Chain-remove jmp y r i (ltb→lt y i e) s.1 (ground arith) c.2,
        )
  | inr e ↦
      let same : y ≡ i = ground (arith, Chain-above jmp y r i c.2) in
      let here : (i == y) ≡ true = ground arith in
      rw (e, here)
        (bridge jmp x i r h (subst (λ z. Chain jmp x (z ∷ r)) same c)
          (subst (λ z. Below 128 (x ∷ z ∷ r)) same s))
]
