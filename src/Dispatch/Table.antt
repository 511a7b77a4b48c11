-- ===== src/Dispatch/Table.antt =====
-- A property of every row of the table of src/svctable.c holds of the service that a call finds.
use skibios.Prelude.{
  ℕ, ◌≡◌, none, some, List, [], ◌∷◌, Option-cases, Bool-cases, subst, inl, inr, arith, ◌==◌,
}
use skibios.Config.{Config}
use skibios.Service.{Frame, Outcome, returns}
use skibios.Dispatch.{Row, svc_dispatch, find_service, call_service}

module _ (P : ℕ → (Frame → Outcome) → Type 0) where
  abbrev pub AllRows : List Row → Type 0
  AllRows [] = Unit
  AllRows ((code, none) ∷ rows) = AllRows rows
  AllRows ((code, some service) ∷ rows) = P code service × AllRows rows

  pub find_service-AllRows :
      (rows : List Row)
      → AllRows rows
      → (code : ℕ) (service : Frame → Outcome) → find_service code rows ≡ some (some service)
      → P code service
  unfolding find_service
  find_service-AllRows [] v code service h = absurd (ground arith)
  find_service-AllRows ((row_code, none) ∷ rows) v code service h =
      find_service-AllRows rows v code service (ground arith)
  find_service-AllRows ((row_code, some other) ∷ rows) (s, v) code service h =
      elim (Bool-cases (row_code == code)) [
        | inl e ↦
            let here : row_code ≡ code = ground arith in
            let same : other ≡ service = ground arith in
            subst (λ x. P x service) here (subst (P row_code) same s)
        | inr e ↦ find_service-AllRows rows v code service (ground arith)
      ]

  -- A call that returns is a call of a service of the table.
  pub call_service-AllRows :
      (c : Config)
      → AllRows (svc_dispatch c)
      → (fr fr' : Frame) → call_service c fr ≡ some (returns fr')
      → (service : Frame → Outcome) × P fr.svc_num service × (service fr ≡ returns fr')
  unfolding call_service
  call_service-AllRows c v fr fr' e =
      elim (Option-cases (find_service fr.svc_num (svc_dispatch c))) [
        | inl h ↦ absurd (ground arith)
        | inr (none, h) ↦ absurd (ground arith)
        | inr (some service, h) ↦
            (service, find_service-AllRows (svc_dispatch c) v fr.svc_num service h, ground arith)
      ]
