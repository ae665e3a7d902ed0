-- ===== src/Guest/Paging/Rights.antt =====
-- What the rights along the way to a page say of it.
use mathlib.Core.Path.{subst}
use virt_learn_program.Base.{
  Bool-cases, List, inl, inr, [], ◌∷◌, ◌*◌, arith, ◌∙◌, ◌||◌, ◌/◌, ◌+◌, ◌^◌, ◌%◌, not, leb, ap, ◌≤◌,
  if◌then◌else◌, false, ◌⊎◌, true, ◌≡◌, ◌<◌, ◌&&◌, Option, ℕ, Bool, refl, some,
}
use virt_learn_program.Guest.Paging.Walk.{
  Translation, flag, leaf, below, level1, upper, level2, level3, if_some,
}

-- The memory that is the user's: the program, the text screen, the user stacks of four processors
-- and the doorbell.
abbrev pub user_ranges : List (ℕ × ℕ)
user_ranges =
    (0x9000, 0x1a000)
    ∷ (0x20000, 0x21000)
    ∷ (0xb8000, 0xba000)
    ∷ (0x414000, 0x418000)
    ∷ (0x8000000, 0x8200000)
    ∷ []

abbrev pub IsWithin : ℕ → List (ℕ × ℕ) → Type 0
IsWithin a [] = ⊥
IsWithin a ((from, to) ∷ rs) = ((from ≤ a) × (a < to)) ⊎ IsWithin a rs

abbrev pub IsUsers : ℕ → Type 0
IsUsers a = IsWithin a user_ranges

-- A page in one of the ranges.
abbrev page_within : ℕ → ℕ → List (ℕ × ℕ) → Bool
page_within base size [] = false
page_within base size ((from, to) ∷ rs) =
    leb from base && leb (base + size) to || page_within base size rs

pub or_right : (x y : Bool) → x ≡ false → x || y ≡ true → y ≡ true
or_right true y h k = absurd cc
or_right false y h k = k

page_within-IsWithin :
    (base size o : ℕ) (rs : List (ℕ × ℕ))
    → page_within base size rs ≡ true
    → o < size
    → IsWithin (base + o) rs
page_within-IsWithin base size o [] h inside = absurd cc
page_within-IsWithin base size o ((from, to) ∷ rs) h inside =
    elim (Bool-cases (leb from base && leb (base + size) to)) [
      | inl here ↦ inl (ground (arith, here, inside))
      | inr later ↦ inr (page_within-IsWithin base size o rs (or_right _ _ later h) inside)
    ]

pub both : (a b : Bool) → a && b ≡ true → (a ≡ true) × (b ≡ true)
both true b h = (refl, h)
both false b h = absurd cc

-- The rights of a page are those of each entry on the way to it.
pub level1-user :
    (e va : ℕ) (u w : Bool) (t : Translation)
    → level1 e va u w ≡ some t
    → t.user ≡ true
    → (u ≡ true) × (flag 4 e ≡ true)
level1-user e va u w t h user =
    let (on, page) = if_some (flag 1 e) _ t h in
    let same : leaf (2 ^ 12) e va (u && flag 4 e) (w && flag 2 e) ≡ t = cc in
    both u (flag 4 e) (ap (λ (t : Translation). t.user) same ∙ user)

upper-user :
    (size e va : ℕ) (next : Bool → Bool → Option Translation) (u w : Bool) (t : Translation)
    → ((u' w' : Bool) → next u' w' ≡ some t → u' ≡ true)
    → upper size next e va u w ≡ some t
    → t.user ≡ true
    → (u ≡ true) × (flag 4 e ≡ true)
upper-user size e va next u w t inner h user =
    let (on, page) = if_some (flag 1 e) _ t h in
    both u (flag 4 e) (at_large (flag 0x80 e) (u && flag 4 e) (w && flag 2 e) page)
  where
    at_large :
        (large u' w' : Bool)
        → (if large then some (leaf size e va u' w') else next u' w') ≡ some t
        → u' ≡ true
    at_large true u' w' page =
        let same : leaf size e va u' w' ≡ t = cc in ap (λ (t : Translation). t.user) same ∙ user
    at_large false u' w' page = inner u' w' page

pub level2-user :
    (read : ℕ → ℕ) (e va : ℕ) (u w : Bool) (t : Translation)
    → level2 read e va u w ≡ some t
    → t.user ≡ true
    → (u ≡ true) × (flag 4 e ≡ true)
level2-user read e va u w t h user =
    upper-user (2 ^ 21) e va _ u w t
      (λ u' w' page. (level1-user (read (below e (2 ^ 12) va)) va u' w' t page user).0) h user

pub level3-user :
    (read : ℕ → ℕ) (e va : ℕ) (u w : Bool) (t : Translation)
    → level3 read e va u w ≡ some t
    → t.user ≡ true
    → (u ≡ true) × (flag 4 e ≡ true)
level3-user read e va u w t h user =
    upper-user (2 ^ 30) e va _ u w t
      (λ u' w' page. (level2-user read (read (below e (2 ^ 21) va)) va u' w' t page user).0) h user

-- The base of a page or a table.
abbrev pub base_of : ℕ → ℕ → ℕ
base_of size e = e % 2 ^ 52 / size * size

-- A page that is all the user's.
abbrev pub within : ℕ → ℕ → Bool
within size e = page_within (base_of size e) size user_ranges

abbrev pub opens : ℕ → Bool
opens e = flag 1 e && flag 4 e

leaf-IsUsers :
    (size e va : ℕ) (u w : Bool) (t : Translation)
    → va % size < size
    → ◌≡◌ {A = Option Translation} (some (leaf size e va u w)) (some t)
    → within size e ≡ true
    → IsUsers t.physical
leaf-IsUsers size e va u w t inside page out =
    let same : leaf size e va u w ≡ t = cc in
    let place = page_within-IsWithin (base_of size e) size (va % size) user_ranges out inside in
    subst (λ (t : Translation). IsUsers t.physical) same place

-- What is asked of an entry that opens the way to the user.
abbrev pub guarded : ℕ → Bool → Bool
guarded e wanted = not (opens e) || wanted

pub needed :
    (e : ℕ) (wanted : Bool)
    → flag 1 e ≡ true
    → flag 4 e ≡ true
    → guarded e wanted ≡ true
    → wanted ≡ true
needed e wanted on user safe = go (flag 1 e) (flag 4 e) on user safe
  where
    go : (a b : Bool) → a ≡ true → b ≡ true → not (a && b) || wanted ≡ true → wanted ≡ true
    go true true ha hb h = h
    go true false ha hb h = absurd cc
    go false b ha hb h = absurd cc

pub level1-IsUsers :
    (e va : ℕ) (u w : Bool) (t : Translation)
    → level1 e va u w ≡ some t
    → t.user ≡ true
    → guarded e (within (2 ^ 12) e) ≡ true
    → IsUsers t.physical
level1-IsUsers e va u w t h user safe =
    let (on, page) = if_some (flag 1 e) _ t h in
    let (up, on_user) = level1-user e va u w t h user in
    leaf-IsUsers (2 ^ 12) e va _ _ t (omega arith) page
      (needed e (within (2 ^ 12) e) on on_user safe)

pub upper-IsUsers :
    (size e va : ℕ) (next : Bool → Bool → Option Translation) (u w : Bool) (t : Translation)
    (tables : Bool)
    → va % size < size
    → upper size next e va u w ≡ some t
    → flag 4 e ≡ true
    → guarded e (if flag 0x80 e then within size e else tables) ≡ true
    → ((u' w' : Bool) → next u' w' ≡ some t → tables ≡ true → IsUsers t.physical)
    → IsUsers t.physical
upper-IsUsers size e va next u w t tables inside h user safe inner =
    let (on, page) = if_some (flag 1 e) _ t h in
    at_large (flag 0x80 e) (u && flag 4 e) (w && flag 2 e) page
      (needed e (if flag 0x80 e then within size e else tables) on user safe)
  where
    at_large :
        (large u' w' : Bool)
        → (if large then some (leaf size e va u' w') else next u' w') ≡ some t
        → (if large then within size e else tables) ≡ true
        → IsUsers t.physical
    at_large true u' w' page out = leaf-IsUsers size e va u' w' t inside page out
    at_large false u' w' page ok = inner u' w' page ok
