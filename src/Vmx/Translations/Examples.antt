-- ===== src/Vmx/Translations/Examples.antt =====
-- Invalidations on a concrete processor.
use virt_learn_program.Base.{
  ℕ, ◌==◌, ◌≡◌, ◌≢◌, Bool, true, false, if◌then◌else◌, Option, none, some, [], ◌∷◌, pos, refl,
  arith,
}
use virt_learn_program.Vmx.Translations.{
  Invalidation, invvpid_failed, vpid_sync_vcpu_single, vpid_sync_vcpu_global, ept_sync_global,
}
use virt_learn_program.Vmx.Translations.Sync.{vpid_sync_vcpu_single-drops, sync_global-drops}

-- The identifiers that something is cached of, and whether anything is of nested paging.
record Cache : Type 0 where
  tagged : ℕ → Bool
  nested : Bool

abbrev drop_single : ℕ → Cache → Option Cache
drop_single v t =
    if v == 0 then none else some (record t { tagged = λ u. if u == v then false else t.tagged u })

abbrev drop_vpid : ℕ → ℕ → ℕ → Cache → Option Cache
drop_vpid ext v g t = if ext == 1 then drop_single v t else some (record t { tagged = λ u. false })

abbrev drop_ept : ℕ → ℕ → ℕ → Cache → Option Cache
drop_ept ext e g t = some (record t { nested = false })

single_lem :
    (v g : ℕ) (t : Cache)
    → v ≢ 0
    → (t' : Cache) × (drop_vpid 1 v g t ≡ some t')
      × (t'.tagged v ≡ false)
      × ((u : ℕ) → t.tagged u ≡ false → t'.tagged u ≡ false)
single_lem v g t h = (
  record t { tagged = λ u. if u == v then false else t.tagged u },
  ground (arith, h),
  ground arith,
  λ u e. ground (arith, e),
)

abbrev processor : Invalidation
processor = record {
  Tlb = Cache;
  has_vpid = λ t v. t.tagged v;
  has_ept = λ t. t.nested;
  single_context = 1;
  all_context = 2;
  ept_global = 2;
  invvpid = drop_vpid;
  invept = drop_ept;
  invvpid-single = λ v g t h below. single_lem v g t h;
  invvpid-zero = λ g t. refl;
  invvpid-all = λ t. (record t { tagged = λ u. false }, refl, λ u h. refl);
  invept-global = λ t. (record t { nested = false }, refl, refl);
}

abbrev filled : Cache
filled = record { tagged = λ u. true; nested = true }

vpid_sync_vcpu_single-drops_run :
    (processor.has_vpid (vpid_sync_vcpu_single processor (pos 65536) filled).0 0 ≡ true)
    × ((vpid_sync_vcpu_single processor (pos 65536) filled).1 ≡ invvpid_failed 1 0 0 ∷ [])
vpid_sync_vcpu_single-drops_run = vpid_sync_vcpu_single-drops processor (pos 65536) filled

globally :
    (t' : Cache) × (t'' : Cache) × (vpid_sync_vcpu_global processor filled ≡ (t', []))
    × (t'.tagged 5 ≡ false)
    × (ept_sync_global processor filled ≡ (t'', []))
    × (t''.nested ≡ false)
globally = sync_global-drops processor filled 5 (λ e. omega (arith, e))
