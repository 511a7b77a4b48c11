-- ===== src/Ring/Split.antt =====
-- The order in which a tour from `x` visits a ring, and that it meets each task once.
use skibios.Prelude.{
  ℕ, suc, ◌+◌, ◌≤◌, ◌<◌, ◌≡◌, refl, sym, ap, subst, ◌∙◌, true, false, ◌||◌, List, [], ◌∷◌, ◌++◌,
  arith, ◌==◌, if◌then◌else◌, length, length-append,
}
use skibios.Kvar.{Kernel}
use skibios.Ring.{Chain, Below, IsRing, elem, is_live}
use skibios.Ring.Walk.{Walk, Chain-Walk, Walk-rotate}

abbrev pub before : ℕ → List ℕ → List ℕ
before x [] = []
before x (y ∷ l) = if x == y then [] else y ∷ before x l

abbrev pub after : ℕ → List ℕ → List ℕ
after x [] = []
after x (y ∷ l) = if x == y then l else after x l

-- The tasks after `x`, up to the end of the list, and then those from its start.
abbrev pub others : ℕ → List ℕ → List ℕ
others x l = after x l ++ before x l

pub split_at : (x : ℕ) (l : List ℕ) → elem x l ≡ true → before x l ++ x ∷ after x l ≡ l
split_at x [] h = ground arith
split_at x (y ∷ l) h = ground (arith, split_at x l)

pub elem-append : (x : ℕ) (l m : List ℕ) → elem x (l ++ m) ≡ elem x l || elem x m
elem-append x [] m = refl
elem-append x (y ∷ l) m = ground (arith, elem-append x l m)

elem-before : (x : ℕ) (l : List ℕ) → elem x (before x l) ≡ false
elem-before x [] = refl
elem-before x (y ∷ l) = ground (arith, elem-before x l)

-- The list of a chain is strictly increasing.
pub Chain-above :
    (jmp : ℕ → ℕ) (x : ℕ) (r : List ℕ) (y : ℕ) → Chain jmp x r → y ≤ x → elem y r ≡ false
Chain-above jmp x [] y c h = refl
Chain-above jmp x (z ∷ r) y c h = ground (arith, Chain-above jmp z r y c.2)

elem-after : (jmp : ℕ → ℕ) (x y : ℕ) (r : List ℕ) → Chain jmp y r → elem x (after x (y ∷ r)) ≡ false
elem-after jmp x y [] c = ground arith
elem-after jmp x y (z ∷ r) c =
    ground (arith, Chain-above jmp y (z ∷ r) x c, elem-after jmp x z r c.2)

pub elem-others :
    (jmp : ℕ → ℕ) (x y : ℕ) (r : List ℕ) → Chain jmp y r → elem x (others x (y ∷ r)) ≡ false
elem-others jmp x y r c = ground (
  arith,
  elem-append x (after x (y ∷ r)) (before x (y ∷ r)),
  elem-before x (y ∷ r),
  elem-after jmp x y r c,
)

-- A ring has no more tasks than there are indices.
pub Chain-length :
    (n : ℕ) (jmp : ℕ → ℕ) (x : ℕ) (r : List ℕ) → Chain jmp x r → Below n (x ∷ r) → x + length r < n
Chain-length n jmp x [] c b = omega arith
Chain-length n jmp x (y ∷ r) c b = omega (arith, Chain-length n jmp y r c.2 b.1)

length-others : (x : ℕ) (l : List ℕ) → elem x l ≡ true → suc (length (others x l)) ≡ length l
length-others x l h = omega (
  arith,
  length-append (after x l) (before x l),
  length-append (before x l) (x ∷ after x l),
  ap length (split_at x l h),
)

-- The members of a tour are the members of the ring.
pub elem_tour : (x : ℕ) (l : List ℕ) (i : ℕ) → elem x l ≡ true → elem i (x ∷ others x l) ≡ elem i l
elem_tour x l i h = ground (
  arith,
  elem-append i (after x l) (before x l),
  elem-append i (before x l) (x ∷ after x l),
  ap (elem i) (split_at x l h),
)

pub elem-Below : (n x : ℕ) (l : List ℕ) → Below n l → elem x l ≡ true → x < n
elem-Below n x [] b h = ground arith
elem-Below n x (y ∷ l) b h = ground (arith, elem-Below n x l b.1)

-- A change that keeps the jump list, and which tasks are live, keeps the ring.
pub IsRing-congr :
    (n : ℕ) (k k' : Kernel) (r : List ℕ)
    → k'.jmp_list ≡ k.jmp_list
    → ((i : ℕ) → i < n → is_live k' i ≡ is_live k i)
    → IsRing n k r
    → IsRing n k' r
IsRing-congr n k k' r e f v = record {
  chain = subst (λ j. Chain j 0 r) (sym e) v.chain;
  below = v.below;
  live = λ i h. f i h ∙ v.live i h;
  unlinked = λ i h. ap (λ j. j i) e ∙ v.unlinked i h;
}

-- The tour of a ring from any of its tasks: every task once, in order, and back.
pub record Tour (n : ℕ) (k : Kernel) (r : List ℕ) (x : ℕ) : Type 0 where
  pub walk : Walk k.jmp_list x (x ∷ others x (0 ∷ r)) x
  pub once : elem x (others x (0 ∷ r)) ≡ false
  pub short : length (others x (0 ∷ r)) < n

pub IsRing-Tour :
    (n : ℕ) (k : Kernel) (r : List ℕ) (x : ℕ)
    → n ≤ 120
    → IsRing n k r
    → elem x (0 ∷ r) ≡ true
    → Tour n k r x
IsRing-Tour n k r x s v h = record {
  walk =
      Walk-rotate k.jmp_list x 0 (before x (0 ∷ r)) (after x (0 ∷ r)) (
        rw (split_at x (0 ∷ r) h)
          (Chain-Walk {n = n} k.jmp_list 0 r (omega arith) v.below v.chain));
  once = elem-others k.jmp_list x 0 r v.chain;
  short = omega (arith, length-others x (0 ∷ r) h, Chain-length n k.jmp_list 0 r v.chain v.below);
}
