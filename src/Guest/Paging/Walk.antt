-- ===== src/Guest/Paging/Walk.antt =====
-- How a processor in 64-bit mode translates an address by tables of four levels.
use mathlib.Core.Path.{ap, subst}
use virt_learn_program.Base.{
  ap, refl, arith, ℕ, ◌+◌, ◌*◌, ◌/◌, ◌%◌, ◌^◌, ◌≡◌, ◌<◌, Bool, true, false, ◌&&◌, ◌==◌,
  if◌then◌else◌, Option, none, some,
}

-- Where an address leads: the size of its page, and whether the user may use it and it may be
-- written.
pub record Translation : Type 0 where
  pub page_size : ℕ
  pub physical : ℕ
  pub user : Bool
  pub writable : Bool

abbrev pub flag : ℕ → ℕ → Bool
flag bit e = e / bit % 2 == 1

abbrev pub index : ℕ → ℕ → ℕ
index size va = va / size % 512

-- A page's translation: its address are the bits of the entry above its size, below bit 52.
abbrev pub leaf : ℕ → ℕ → ℕ → Bool → Bool → Translation
leaf size e va user writable = record {
  page_size = size;
  physical = e % 2 ^ 52 / size * size + va % size;
  user = user;
  writable = writable;
}

-- The address of an entry, in the table that an entry leads to.
abbrev pub below : ℕ → ℕ → ℕ → ℕ
below e size va = e % 2 ^ 52 / 4096 * 4096 + 8 * index size va

-- An entry of the lowest table, of those above, which may be of a large page, and of the highest.
abbrev pub level1 : ℕ → ℕ → Bool → Bool → Option Translation
level1 e va user writable =
    if flag 1 e then some (leaf (2 ^ 12) e va (user && flag 4 e) (writable && flag 2 e)) else none

abbrev pub upper : ℕ → (Bool → Bool → Option Translation) → ℕ → ℕ → Bool → Bool → Option Translation
upper size next e va user writable =
    let user' = user && flag 4 e in
    let writable' = writable && flag 2 e in
    if flag 1 e
    then if flag 0x80 e then some (leaf size e va user' writable') else next user' writable'
    else none

abbrev pub level2 : (ℕ → ℕ) → ℕ → ℕ → Bool → Bool → Option Translation
level2 read e va = upper (2 ^ 21) (level1 (read (below e (2 ^ 12) va)) va) e va

abbrev pub level3 : (ℕ → ℕ) → ℕ → ℕ → Bool → Bool → Option Translation
level3 read e va = upper (2 ^ 30) (level2 read (read (below e (2 ^ 21) va)) va) e va

abbrev pub level4 : (ℕ → ℕ) → ℕ → ℕ → Option Translation
level4 read e va =
    if flag 1 e then level3 read (read (below e (2 ^ 30) va)) va (flag 4 e) (flag 2 e) else none

-- `read` gives the eight bytes at an address, and `cr3` is that of the highest table.
abbrev pub walk : (ℕ → ℕ) → ℕ → ℕ → Option Translation
walk read cr3 va = level4 read (read (cr3 + 8 * index (2 ^ 39) va)) va

-- The translation of an address further on in the page.
abbrev pub further : ℕ → Translation → Translation
further o t = record t { physical = t.physical + o }

pub if_some :
    (b : Bool) (x : Option Translation) (t : Translation)
    → (if b then x else none) ≡ some t
    → (b ≡ true) × (x ≡ some t)
if_some true x t h = (refl, h)
if_some false x t h = absurd cc

-- What a level gives for an address further on in the page, and that the address has the same index
-- above a size.
abbrev Goes : ℕ → Option Translation → ℕ → ℕ → Translation → Type 0
Goes size further_on va o t = (further_on ≡ some (further o t)) × ((va + o) / size ≡ va / size)

-- A page itself.
leaf-Goes :
    (size e va o : ℕ) (user writable : Bool) (t : Translation)
    → ((va % size ≡ 0)
        → (o < size)
        → ((va + o) % size ≡ va % size + o) × ((va + o) / size ≡ va / size))
    → ◌≡◌ {A = Option Translation} (some (leaf size e va user writable)) (some t)
    → va % t.page_size ≡ 0
    → o < t.page_size
    → Goes size (some (leaf size e (va + o) user writable)) va o t
leaf-Goes size e va o user writable t splits h start inside =
    let same : leaf size e va user writable ≡ t = cc in
    subst
      (λ (t : Translation).
        va % t.page_size ≡ 0
        → o < t.page_size
        → Goes size (some (leaf size e (va + o) user writable)) va o t)
      same
      (λ start inside.
        let (offset, quotient) = splits start inside in
        (
          rw offset (
              ap
                (λ (n : ℕ).
                  some
                    (record { page_size = size; physical = n; user = user; writable = writable }))
                (omega arith)),
          quotient,
        ))
      start inside

level1-Goes :
    (e va o : ℕ) (user writable : Bool) (t : Translation)
    → level1 e va user writable ≡ some t
    → va % t.page_size ≡ 0
    → o < t.page_size
    → Goes (2 ^ 12) (level1 e (va + o) user writable) va o t
level1-Goes e va o user writable t h start inside =
    let (on, page) = if_some (flag 1 e) _ t h in
    rw on (leaf-Goes (2 ^ 12) e va o _ _ t (λ s i. omega arith) page start inside)

upper-Goes :
    (size e va o : ℕ) (next further_on : Bool → Bool → Option Translation) (user writable : Bool)
    (t : Translation)
    → ((va % size ≡ 0)
        → (o < size)
        → ((va + o) % size ≡ va % size + o) × ((va + o) / size ≡ va / size))
    → ((u w : Bool) → next u w ≡ some t → Goes size (further_on u w) va o t)
    → upper size next e va user writable ≡ some t
    → va % t.page_size ≡ 0
    → o < t.page_size
    → Goes size (upper size further_on e (va + o) user writable) va o t
upper-Goes size e va o next further_on user writable t splits goes h start inside =
    let u = user && flag 4 e in
    let w = writable && flag 2 e in
    let (on, page) = if_some (flag 1 e) _ t h in rw on (at_large (flag 0x80 e) u w page)
  where
    at_large :
        (large u w : Bool)
        → (if large then some (leaf size e va u w) else next u w) ≡ some t
        → Goes size (if large then some (leaf size e (va + o) u w) else further_on u w) va o t
    at_large true u w page = leaf-Goes size e va o u w t splits page start inside
    at_large false u w page = goes u w page

level2-Goes :
    (read : ℕ → ℕ) (e va o : ℕ) (user writable : Bool) (t : Translation)
    → level2 read e va user writable ≡ some t
    → va % t.page_size ≡ 0
    → o < t.page_size
    → Goes (2 ^ 21) (level2 read e (va + o) user writable) va o t
level2-Goes read e va o user writable t h start inside =
    upper-Goes (2 ^ 21) e va o _ (level1 (read (below e (2 ^ 12) (va + o))) (va + o)) user writable
      t (λ s i. omega arith)
      (λ u w page.
        let (goes, same) = level1-Goes (read (below e (2 ^ 12) va)) va o u w t page start inside in
        (rw same goes, omega (arith, same)))
      h start inside

level3-Goes :
    (read : ℕ → ℕ) (e va o : ℕ) (user writable : Bool) (t : Translation)
    → level3 read e va user writable ≡ some t
    → va % t.page_size ≡ 0
    → o < t.page_size
    → Goes (2 ^ 30) (level3 read e (va + o) user writable) va o t
level3-Goes read e va o user writable t h start inside =
    upper-Goes (2 ^ 30) e va o _ (level2 read (read (below e (2 ^ 21) (va + o))) (va + o)) user
      writable t (λ s i. omega arith)
      (λ u w page.
        let (goes, same) =
          level2-Goes read (read (below e (2 ^ 21) va)) va o u w t page start inside in
        (rw same goes, omega (arith, same)))
      h start inside

-- If the first address of a page translates, so does each address of the page, to the same distance
-- further on, with the same rights.
pub walk-further :
    (read : ℕ → ℕ) (cr3 va o : ℕ) (t : Translation)
    → walk read cr3 va ≡ some t
    → va % t.page_size ≡ 0
    → o < t.page_size
    → walk read cr3 (va + o) ≡ some (further o t)
walk-further read cr3 va o t h start inside =
    let e = read (cr3 + 8 * index (2 ^ 39) va) in
    let (on, page) = if_some (flag 1 e) _ t h in
    let (goes, same) =
      level3-Goes read (read (below e (2 ^ 30) va)) va o (flag 4 e) (flag 2 e) t page start
        inside in
    let highest : (va + o) / 2 ^ 39 ≡ va / 2 ^ 39 = omega (arith, same) in
    rw (highest, same, on) goes
