-- ===== src/Vmx/Msrpm/Intercepts.antt =====
-- What `set_msr_interception` does to the bits of the map.
use virt_learn_program.Base.{
  inr, get_elem?-out_of_range, inl, out_of_bounds, fault, ℕ, ◌+◌, ◌*◌, ◌/◌, ◌%◌, ◌≤◌, ◌<◌, ◌≡◌, ◌≢◌,
  arith, sym, ◌∙◌, Bool, true, false, Option, some, List, length, length-set, get_elem?, set,
  get_elem?-in_range, get_elem?-set_self, get_elem?-set_ne, ◌==◌, if◌then◌else◌, ℕ_discrete, u32,
  bit_and-fifteen, test_bit, test_bit-mod, ok,
}
use mathlib.Core.Option
use virt_learn_program.Vmx.Msrpm.{BitOps, apply_bit, set_msr_interception}
use virt_learn_program.Vmx.Msrpm.Layout.{
  IsCovered, offset-cases, bit_address, word_of, word_of-bit_address, word_of-lt, IsCovered-offset,
}

-- Bit number `a` of the map, counted over its words.
unfoldable pub map_bit : List ℕ → ℕ → Option ℕ
map_bit msrpm a = Option.map (test_bit (a % 32)) (get_elem? msrpm (a / 32))

-- A clear bit lets the access pass.
abbrev pub intercepted : Bool → ℕ
intercepted allowed = if allowed then 0 else 1

module _ (ops : BitOps) where
  apply_bit_self :
      (allowed : Bool) (n x : ℕ)
      → n < 64
      → test_bit n (apply_bit ops allowed n x) ≡ intercepted allowed
  unfolding apply_bit
  apply_bit_self true n x h = ops.clear_bit_self n x h
  apply_bit_self false n x h = ops.set_bit_self n x h

  apply_bit_ne :
      (allowed : Bool) (m n x : ℕ)
      → n < 64
      → m ≢ n
      → test_bit m (apply_bit ops allowed n x) ≡ test_bit m x
  unfolding apply_bit
  apply_bit_ne true m n x h ne = ops.clear_bit_ne m n x h ne
  apply_bit_ne false m n x h ne = ops.set_bit_ne m n x h ne

  -- The word that is written back.
  abbrev word : Bool → Bool → ℕ → ℕ → ℕ
  word read write msr tmp =
      u32 (apply_bit ops write (2 * (msr % 16) + 1) (apply_bit ops read (2 * (msr % 16)) tmp))

  word_bits :
      (read write : Bool) (msr tmp m : ℕ)
      → m < 32
      → test_bit m (word read write msr tmp) ≡ (
          if m == 2 * (msr % 16)
          then intercepted read
          else if m == 2 * (msr % 16) + 1
          then intercepted write
          else test_bit m tmp)
  word_bits read write msr tmp m h =
      let n = 2 * (msr % 16) in
      let inner = apply_bit ops read n tmp in
      test_bit-mod m 32 (apply_bit ops write (n + 1) inner) h
      ∙ ground (
        arith,
        apply_bit_self write (n + 1) inner,
        apply_bit_ne write m (n + 1) inner,
        apply_bit_self read n tmp,
        apply_bit_ne read m n tmp,
      )

  set_msr_interception_writes :
      (invalid : ℕ) (msrpm : List ℕ) (i k msr tmp : ℕ) (read write : Bool)
      → IsCovered i k msr
      → 1536 ≤ invalid
      → get_elem? msrpm (word_of i k) ≡ some tmp
      → set_msr_interception ops invalid msrpm msr read write
        ≡ ok (set msrpm (word_of i k) (word read write msr tmp))
  unfolding set_msr_interception
  set_msr_interception_writes invalid msrpm i k msr tmp read write c big e =
      ground (arith, IsCovered-offset invalid i k msr c, word_of-lt i k msr c, bit_and-fifteen msr)

  written_word-map_bit :
      (msrpm : List ℕ) (i k msr tmp a : ℕ) (read write : Bool)
      → IsCovered i k msr
      → get_elem? msrpm (word_of i k) ≡ some tmp
      → word_of i k < length msrpm
      → map_bit (set msrpm (word_of i k) (word read write msr tmp)) a ≡ (
          if a == bit_address i k
          then some (intercepted read)
          else if a == bit_address i k + 1
          then some (intercepted write)
          else map_bit msrpm a)
  unfolding map_bit
  written_word-map_bit msrpm i k msr tmp a read write c e lt =
      let place = word_of-bit_address i k msr c in
      let new = word read write msr tmp in
      elim (ℕ_discrete (a / 32) (word_of i k)) [
        | yes same ↦
            rw (same, get_elem?-set_self msrpm (word_of i k) new lt, e)
              (ground (arith, place, word_bits read write msr tmp (a % 32)))
        | no other ↦
            rw (get_elem?-set_ne msrpm (word_of i k) (a / 32) new (λ p. other (sym p)))
              (ground (arith, place))
      ]

  -- For a register of the three ranges, on a map that has them all, the call ends normally and
  -- keeps the map's size. It leaves 0 in the register's read bit if reads are allowed and else 1,
  -- the same for writes in the bit above it, and every other bit of the map as it was.
  pub set_msr_interception-map_bit :
      (invalid : ℕ) (msrpm : List ℕ) (i k msr : ℕ) (read write : Bool)
      → IsCovered i k msr
      → 1536 ≤ invalid
      → 1536 ≤ length msrpm
      → (msrpm' : List ℕ) × (set_msr_interception ops invalid msrpm msr read write ≡ ok msrpm')
        × (length msrpm' ≡ length msrpm)
        × ((a : ℕ)
            → map_bit msrpm' a ≡ (
                if a == bit_address i k
                then some (intercepted read)
                else if a == bit_address i k + 1
                then some (intercepted write)
                else map_bit msrpm a))
  unfolding map_bit
  set_msr_interception-map_bit invalid msrpm i k msr read write c big size =
      let (tmp, e) = get_elem?-in_range msrpm (word_of i k) (omega (arith, word_of-lt i k msr c)) in
      let new = word read write msr tmp in
      (
        set msrpm (word_of i k) new,
        set_msr_interception_writes invalid msrpm i k msr tmp read write c big e,
        length-set msrpm (word_of i k) new,
        λ a.
            written_word-map_bit msrpm i k msr tmp a read write c e
              (omega (arith, word_of-lt i k msr c)),
      )

  -- For a register outside the three ranges, with an invalid offset that no map reaches, the map is
  -- read out of its bounds before the offset is tested.
  pub set_msr_interception_outside :
      (invalid : ℕ) (msrpm : List ℕ) (msr : ℕ) (read write : Bool)
      → ((i k : ℕ) → ¬ IsCovered i k msr)
      → length msrpm ≤ invalid
      → set_msr_interception ops invalid msrpm msr read write ≡ fault out_of_bounds
  unfolding set_msr_interception
  set_msr_interception_outside invalid msrpm msr read write outside size =
      elim (offset-cases invalid msr) [
        | inl e ↦ rw (e, get_elem?-out_of_range msrpm invalid size)
        | inr (i, k, c) ↦ absurd (outside i k c)
      ]
