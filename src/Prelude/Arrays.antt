-- ===== src/Prelude/Arrays.antt =====
-- A C array is a function of the index, and an assignment gives the function a new value there.
use Prim.Native.Nat.{ℕ}
use mathlib.Core.Path.{◌≡◌, refl, sym, ap, ◌∙◌}
use mathlib.Core.Logic.{◌≢◌, inl, inr}
use native.Mathlib.Omega.{arith}
use skibios.Prelude.Tests.{Bool-cases, ◌==◌, if◌then◌else◌}

module _ {ℓ} {A : Type ℓ} where
  abbrev pub update : (ℕ → A) → ℕ → A → ℕ → A
  update f i v j = if j == i then v else f j

  pub update_self : (f : ℕ → A) (i : ℕ) (v : A) → update f i v i ≡ v
  update_self f i v = ground arith

  pub update_ne : (f : ℕ → A) (i : ℕ) (v : A) (j : ℕ) → j ≢ i → update f i v j ≡ f j
  update_ne f i v j h = ground arith

  -- A word that gets its old value again.
  pub update_back :
      (f : ℕ → A) (i : ℕ) (v w : A) (j : ℕ) → f i ≡ w → update (update f i v) i w j ≡ f j
  update_back f i v w j old = elim (Bool-cases (j == i)) [
    | inl e ↦ let same : j ≡ i = ground (arith, e) in rw e (sym old ∙ ap f (sym same))
    | inr e ↦ rw e refl
  ]
