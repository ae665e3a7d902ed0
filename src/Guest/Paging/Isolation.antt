-- ===== src/Guest/Paging/Isolation.antt =====
-- What the user's code cannot reach through the guest's page tables.
use virt_learn_program.Guest.Paging.Lookup.{entry_of}
use virt_learn_program.Guest.Memory.{Memory, qword_at, store_all}
use virt_learn_program.Guest.Paging.{init_paging, table_stores}
use virt_learn_program.Guest.Paging.Clear.{init_paging-tables, blank}
use virt_learn_program.Guest.Paging.Lookup.{
  AreAligned, lookup-missing, has_key, entry_of, qword_at-entry_of,
}
use mathlib.Core.Path.{sym, subst}
use virt_learn_program.Base.{
  ◌≢◌, inr, sym, inl, ℕ_discrete, Bool-cases, ◌==◌, [], ◌∷◌, List, ◌*◌, arith, ◌∙◌, ◌||◌, ◌/◌, ◌+◌,
  ◌^◌, ◌%◌, leb, ap, if◌then◌else◌, false, true, ◌≡◌, ◌<◌, ◌&&◌, ℕ, Bool, refl, some,
}
use virt_learn_program.Guest.Paging.Walk.{
  walk, index, Translation, flag, below, level2, level3, if_some,
}
use virt_learn_program.Guest.Paging.Rights.{
  or_right, IsUsers, both, base_of, within, guarded, needed, level2-user, level3-user,
  level1-IsUsers, upper-IsUsers,
}

-- A page that `init_paging` clears.
abbrev table_at : ℕ → Bool
table_at b =
    leb 0x200000 b && leb (b + 0x1000) 0x20f000 || leb 0x300000 b && leb (b + 0x1000) 0x305000

-- Something of all entries of a table that are written.
abbrev all_in : ℕ → (ℕ → Bool) → List (ℕ × ℕ) → Bool
all_in b p [] = true
all_in b p ((a, v) ∷ ss) =
    (if a / 4096 * 4096 == b then p (entry_of table_stores a) else true) && all_in b p ss

abbrev table_ok : (ℕ → Bool) → ℕ → Bool
table_ok p b = table_at b && all_in b p table_stores

-- What is asked of an entry of each level.
abbrev safe1 : ℕ → Bool
safe1 e = guarded e (within (2 ^ 12) e)

abbrev safe2 : ℕ → Bool
safe2 e = guarded e (if flag 0x80 e then within (2 ^ 21) e else table_ok safe1 (base_of 4096 e))

abbrev safe3 : ℕ → Bool
safe3 e = guarded e (if flag 0x80 e then within (2 ^ 30) e else table_ok safe2 (base_of 4096 e))

abbrev safe4 : ℕ → Bool
safe4 e = guarded e (table_ok safe3 (base_of 4096 e))

tables_safe : table_ok safe4 0x200000 ≡ true
unfolding table_stores
tables_safe = refl

ne→== : (a b : ℕ) → a ≢ b → (a == b) ≡ false
ne→== a b h = ground arith

no_flag : (low high : ℕ) → low ≡ 0 → flag 1 (low + 2 ^ 32 * high) ≡ true → ⊥
no_flag low high empty h = ground arith

all_in-at :
    (b : ℕ) (p : ℕ → Bool) (ss : List (ℕ × ℕ)) (a : ℕ)
    → all_in b p ss ≡ true
    → has_key a ss ≡ true
    → a / 4096 * 4096 ≡ b
    → p (entry_of table_stores a) ≡ true
all_in-at b p [] a h key at = absurd cc
all_in-at b p ((c, v) ∷ ss) a h key at =
    let (first, rest) =
      both (if c / 4096 * 4096 == b then p (entry_of table_stores c) else true) (all_in b p ss) h in
    elim (ℕ_discrete c a) [
      | yes same ↦
          let here : (c / 4096 * 4096 == b) ≡ true = ground (arith, same, at) in
          subst (λ (n : ℕ). p (entry_of table_stores n) ≡ true) same (sym (rw here) ∙ first)
      | no other ↦
          let later = or_right (c == a) (has_key a ss) (ne→== c a other) key in
          all_in-at b p ss a rest later at
    ]

stores-AreAligned : AreAligned table_stores
unfolding table_stores
stores-AreAligned = ground arith

module _ (mem : Memory) where
  abbrev read : ℕ → ℕ
  read = qword_at (store_all table_stores (blank mem))

  read-entry :
      (b i : ℕ)
      → table_at b ≡ true
      → b % 4096 ≡ 0
      → i < 512
      → read (b + 8 * i) ≡ entry_of table_stores (b + 8 * i)
  read-entry b i inside page below =
      qword_at-entry_of table_stores (b + 8 * i) (blank mem) stores-AreAligned (omega arith)
        (λ c h h'. ground (arith, inside))

  -- An entry that is present is one of those that are written.
  table-entry :
      (p : ℕ → Bool) (b i : ℕ)
      → table_ok p b ≡ true
      → b % 4096 ≡ 0
      → i < 512
      → flag 1 (read (b + 8 * i)) ≡ true
      → p (read (b + 8 * i)) ≡ true
  table-entry p b i ok page below on =
      let (inside, all) = both (table_at b) (all_in b p table_stores) ok in
      let a = b + 8 * i in
      let same = read-entry b i inside page below in
      rw same (elim (Bool-cases (has_key a table_stores)) [
        | inl key ↦ all_in-at b p table_stores a all key (omega arith)
        | inr missing ↦
            absurd
              (no_flag _ _ (lookup-missing table_stores a 0 missing) (sym (ap (flag 1) same) ∙ on))
      ])

  level2-IsUsers :
      (e va : ℕ) (u w : Bool) (t : Translation)
      → level2 read e va u w ≡ some t
      → t.user ≡ true
      → safe2 e ≡ true
      → IsUsers t.physical
  level2-IsUsers e va u w t h user safe =
      upper-IsUsers (2 ^ 21) e va _ u w t (table_ok safe1 (base_of 4096 e)) (omega arith) h
        (level2-user read e va u w t h user).1 safe
        (λ u' w' page ok.
          let (on, leaf_page) = if_some (flag 1 (read (below e (2 ^ 12) va))) _ t page in
          level1-IsUsers (read (below e (2 ^ 12) va)) va u' w' t page user (
            table-entry safe1 (base_of 4096 e) (index (2 ^ 12) va) ok (omega arith) (omega arith)
              on))

  level3-IsUsers :
      (e va : ℕ) (u w : Bool) (t : Translation)
      → level3 read e va u w ≡ some t
      → t.user ≡ true
      → safe3 e ≡ true
      → IsUsers t.physical
  level3-IsUsers e va u w t h user safe =
      upper-IsUsers (2 ^ 30) e va _ u w t (table_ok safe2 (base_of 4096 e)) (omega arith) h
        (level3-user read e va u w t h user).1 safe
        (λ u' w' page ok.
          let (on, rest) = if_some (flag 1 (read (below e (2 ^ 21) va))) _ t page in
          level2-IsUsers (read (below e (2 ^ 21) va)) va u' w' t page user (
            table-entry safe2 (base_of 4096 e) (index (2 ^ 21) va) ok (omega arith) (omega arith)
              on))

  walk-IsUsers :
      (va : ℕ) (t : Translation)
      → walk read 0x200000 va ≡ some t
      → t.user ≡ true
      → IsUsers t.physical
  walk-IsUsers va t h user =
      let e = read (0x200000 + 8 * index (2 ^ 39) va) in
      let (on, page) = if_some (flag 1 e) _ t h in
      let (on_user, u3) =
        level3-user read (read (below e (2 ^ 30) va)) va (flag 4 e) (flag 2 e) t page user in
      let safe =
        table-entry safe4 0x200000 (index (2 ^ 39) va) tables_safe (omega arith) (omega arith) on in
      let ok = needed e (table_ok safe3 (base_of 4096 e)) on on_user safe in
      let (on3, rest) = if_some (flag 1 (read (below e (2 ^ 30) va))) _ t page in
      level3-IsUsers (read (below e (2 ^ 30) va)) va (flag 4 e) (flag 2 e) t page user
        (table-entry safe3 (base_of 4096 e) (index (2 ^ 30) va) ok (omega arith) (omega arith) on3)

-- With the tables that `init_paging` leaves on the processor that starts the others, whatever the
-- memory was before, each address that the user's code may use leads into the program, the text
-- screen, the user stacks or the doorbell's page: never to the tables, the system data, the kernel
-- stack or the local APIC.
pub init_paging-isolates :
    (eax : ℕ) (mem mem' : Memory) (va : ℕ) (t : Translation)
    → eax / 2 ^ 8 % 2 ≡ 1
    → init_paging eax mem ≡ some mem'
    → walk (qword_at mem') 0x200000 va ≡ some t
    → t.user ≡ true
    → IsUsers t.physical
init_paging-isolates eax mem mem' va t first ends leads user =
    let same : store_all table_stores (blank mem) ≡ mem' =
      let both_ends = sym (init_paging-tables eax mem first) ∙ ends in cc in
    walk-IsUsers mem va t
      (subst (λ (m : Memory). walk (qword_at m) 0x200000 va ≡ some t) (sym same) leads) user
