-- ===== src/Vmx/Translations/Sync.antt =====
-- What is left of the translations.
use virt_learn_program.Base.{
  is_zero, ℕ, ◌==◌, ◌<◌, false, not, ◌&&◌, if◌then◌else◌, ◌≡◌, ◌≢◌, ℤ, pos, negsuc, [], ◌∷◌, refl,
  arith, Bool-cases, inl, inr,
}
use virt_learn_program.Vmx.Translations.{
  Invalidation, invvpid_failed, as_u16, run_invvpid, run_invept, vpid_sync_vcpu_single,
  vpid_sync_vcpu_global, ept_sync_global,
}

as_u16-below : (z : ℤ) → as_u16 z < 65536
as_u16-below (pos n) = omega arith
as_u16-below (negsuc n) = omega arith

nonzero : (z : ℤ) → as_u16 z ≢ 0 → is_zero z ≡ false
nonzero (pos n) h = ground (arith, h)
nonzero (negsuc n) h = refl

module _ (hw : Invalidation) where
  open hw use {
    Tlb, has_vpid, has_ept, single_context, invvpid-single, invvpid-zero, invvpid-all,
    invept-global,
  }

  -- After the single synchronisation, nothing of the identifier's low 16 bits is left, unless these
  -- are all 0: then the processor keeps what it has. That a synchronisation failed is printed exactly
  -- for the identifiers that are not 0 and have low 16 bits that are all 0.
  pub vpid_sync_vcpu_single-drops :
      (vpid : ℤ) (t : Tlb)
      → (has_vpid (vpid_sync_vcpu_single hw vpid t).0 (as_u16 vpid)
          ≡ (if as_u16 vpid == 0 then has_vpid t (as_u16 vpid) else false))
        × ((vpid_sync_vcpu_single hw vpid t).1 ≡ (
            if not (is_zero vpid) && as_u16 vpid == 0
            then invvpid_failed single_context 0 0 ∷ []
            else []))
  unfolding vpid_sync_vcpu_single run_invvpid
  vpid_sync_vcpu_single-drops vpid t = elim (Bool-cases (as_u16 vpid == 0)) [
    | inl none_set ↦
        let low : as_u16 vpid ≡ 0 = ground (arith, none_set) in
        elim (Bool-cases (is_zero vpid)) [
          | inl zero ↦ rw (low, zero) (refl, refl)
          | inr other ↦ rw (low, other, invvpid-zero 0 t) (refl, refl)
        ]
    | inr some_set ↦
        let (t', ran, dropped, no_more) =
          invvpid-single (as_u16 vpid) 0 t (λ e. ground (arith, some_set, e)) (as_u16-below vpid) in
        rw (some_set, nonzero vpid (λ e. ground (arith, some_set, e)), ran) (dropped, refl)
  ]

  -- The global synchronisations succeed, and leave nothing of any identifier but 0, and nothing of
  -- nested paging.
  pub sync_global-drops :
      (t : Tlb) (u : ℕ)
      → u ≢ 0
      → (t' : Tlb) × (t'' : Tlb) × (vpid_sync_vcpu_global hw t ≡ (t', []))
        × (has_vpid t' u ≡ false)
        × (ept_sync_global hw t ≡ (t'', []))
        × (has_ept t'' ≡ false)
  unfolding vpid_sync_vcpu_global ept_sync_global run_invvpid run_invept
  sync_global-drops t u h =
      let (v, ran, gone) = invvpid-all t in
      let (e, ran', gone') = invept-global t in (v, e, rw ran refl, gone u h, rw ran' refl, gone')
