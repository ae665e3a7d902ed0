-- ===== src/Vmx/Translations.antt =====
-- vmx_mod/ops.h: dropping cached translations of guests. The two instructions are an interface.
pub mod Sync
mod Examples
use virt_learn_program.Base.{
  is_zero, ℕ, ◌==◌, ◌%◌, ◌-◌, ◌<◌, Bool, true, false, if◌then◌else◌, Option, none, some, ◌≡◌, ◌≢◌,
  ℤ, pos, negsuc, List, [], ◌∷◌,
}

-- `invvpid` and `invept` on the cached translations, nothing if the processor refuses; `has_vpid t v`
-- says that `t` holds one of identifier `v`, and `has_ept t` that it holds one of nested paging. An
-- invalidation drops what it names, and adds nothing.
pub record Invalidation : Type 1 where
  pub Tlb : Type 0
  pub has_vpid : Tlb → ℕ → Bool
  pub has_ept : Tlb → Bool
  pub single_context : ℕ
  pub all_context : ℕ
  pub ept_global : ℕ
  pub invvpid : ℕ → ℕ → ℕ → Tlb → Option Tlb
  pub invept : ℕ → ℕ → ℕ → Tlb → Option Tlb
  pub invvpid-single :
      (v g : ℕ) (t : Tlb)
      → v ≢ 0
      → v < 65536
      → (t' : Tlb) × (invvpid single_context v g t ≡ some t')
        × (has_vpid t' v ≡ false)
        × ((u : ℕ) → has_vpid t u ≡ false → has_vpid t' u ≡ false)
  pub invvpid-zero : (g : ℕ) (t : Tlb) → invvpid single_context 0 g t ≡ none
  pub invvpid-all :
      (t : Tlb)
      → (t' : Tlb) × (invvpid all_context 0 0 t ≡ some t')
        × ((u : ℕ) → u ≢ 0 → has_vpid t' u ≡ false)
  pub invept-global :
      (t : Tlb) → (t' : Tlb) × (invept ept_global 0 0 t ≡ some t') × (has_ept t' ≡ false)

-- What is printed when an instruction fails.
pub data Message : Type 0 where
  invvpid_failed : ℕ → ℕ → ℕ → Message
  invept_failed : ℕ → ℕ → ℕ → Message

-- A conversion of an `int` to `u16`.
abbrev pub as_u16 : ℤ → ℕ
as_u16 (pos n) = n % 65536
as_u16 (negsuc n) = 65535 - n % 65536

module _ (hw : Invalidation) where
  open hw use {Tlb, invvpid, invept, single_context, all_context, ept_global}

  abbrev pub done_or : Message → Tlb → Option Tlb → Tlb × List Message
  done_or m t (some t') = (t', [])
  done_or m t none = (t, m ∷ [])

  -- `__invvpid` and `__invept`.
  unfoldable pub run_invvpid : ℕ → ℕ → ℕ → Tlb → Tlb × List Message
  run_invvpid ext vpid gva t = done_or (invvpid_failed ext vpid gva) t (invvpid ext vpid gva t)

  unfoldable pub run_invept : ℕ → ℕ → ℕ → Tlb → Tlb × List Message
  run_invept ext eptp gpa t = done_or (invept_failed ext eptp gpa) t (invept ext eptp gpa t)

  unfoldable pub vpid_sync_vcpu_single : ℤ → Tlb → Tlb × List Message
  unfolding run_invvpid
  vpid_sync_vcpu_single vpid t =
      if is_zero vpid then (t, []) else run_invvpid single_context (as_u16 vpid) 0 t

  unfoldable pub vpid_sync_vcpu_global : Tlb → Tlb × List Message
  unfolding run_invvpid
  vpid_sync_vcpu_global t = run_invvpid all_context 0 0 t

  unfoldable pub ept_sync_global : Tlb → Tlb × List Message
  unfolding run_invept
  ept_sync_global t = run_invept ept_global 0 0 t
