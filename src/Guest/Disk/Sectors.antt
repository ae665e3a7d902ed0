-- ===== src/Guest/Disk/Sectors.antt =====
-- What loading asks of the firmware.
use mathlib.Core.List.{append-nil}
use mathlib.Core.Path.{subst}
use native.Mathlib.Nat.{div-lt_iff_lt-mul}
use virt_learn_program.Base.{
  leb, dec_le, false, true, ℕ_discrete, u16, ℕ, zero, suc, ◌+◌, ◌-◌, ◌*◌, ◌/◌, ◌≤◌, ◌<◌, ◌≡◌, ◌==◌,
  ◌∙◌, u8, List, [], ◌∷◌, ◌++◌, ap, arith, refl, Bool-cases, inl, inr,
}
use virt_learn_program.Guest.Disk.{
  sub_word, add_word, read_last, loop_read, Parameters, Request, Packet, Load, finished, request,
  with_status, read_sector_with_chs,
}
use virt_learn_program.Guest.Disk.Address.{sector_at, IsAddressable, do_lba_to_chs-sector_at}

-- As many sectors of 512 bytes from one on, each with where in memory it goes.
abbrev pub span : ℕ → ℕ → ℕ → List (ℕ × ℕ)
span zero s a = []
span (suc n) s a = (s, a) ∷ span n (s + 1) (a + 512)

span-append : (m n s a : ℕ) → span m s a ++ span n (s + m) (a + 512 * m) ≡ span (m + n) s a
span-append zero n s a =
    let here : s + 0 ≡ s = omega arith in
    let there : a + 512 * 0 ≡ a = omega arith in
    let all : 0 + n ≡ n = omega arith in rw (here, there, all) refl
span-append (suc m) n s a =
    let next : s + suc m ≡ s + 1 + m = omega arith in
    let there : a + 512 * suc m ≡ a + 512 + 512 * m = omega arith in
    let all : suc m + n ≡ suc (m + n) = omega arith in
    rw (next, there, all) (ap (◌∷◌ (s, a)) (span-append m n (s + 1) (a + 512)))

module _ (g : Parameters) where
  -- What the firmware makes of a call: its sectors, to the address of its segment and offset.
  abbrev pub asked : Request → List (ℕ × ℕ)
  asked r =
      span r.al (sector_at g.header_maximum g.sector_maximum r.ch r.cl r.dh) (16 * r.es + r.bx)

  abbrev pub all_asked : List Request → List (ℕ × ℕ)
  all_asked [] = []
  all_asked (r ∷ rs) = asked r ++ all_asked rs

  -- Loading ends, with calls for the first of the sectors, and with all of them if the status is 0.
  pub record Covers (l : Load) (total s a : ℕ) : Type 0 where
    pub ax : ℕ
    pub calls : List Request
    pub count : ℕ
    pub ends : l ≡ finished ax calls
    pub in_order : all_asked calls ≡ span count s a
    pub within : count ≤ total
    pub complete : ax ≡ 0 → count ≡ total

  nothing-Covers : (s a : ℕ) → Covers (finished 0 []) 0 s a
  nothing-Covers s a = record {
    ax = 0;
    calls = [];
    count = 0;
    ends = refl;
    in_order = refl;
    within = omega arith;
    complete = λ e. refl;
  }

module _ (int13 : Request → ℕ) (g : Parameters) (disk : IsAddressable g) where
  -- A read of some sectors, and what follows it.
  pub read_sector_with_chs-Covers :
      (p : Packet) (next : ℕ → Load) (total k a : ℕ)
      → ((r : Request) → int13 r < 256)
      → p.eax < 65536
      → p.start_sector / (g.header_maximum * g.sector_maximum) < 1024
      → u8 p.read_sectors ≡ k
      → 16 * p.buffer_selector + p.buffer_offset ≡ a
      → k ≤ total
      → ((eax : ℕ)
          → eax < 65536
          → Covers g (next eax) (total - k) (p.start_sector + k) (a + 512 * k))
      → Covers g (read_sector_with_chs int13 g p next) total p.start_sector a
  unfolding read_sector_with_chs
  read_sector_with_chs-Covers p next total k a bytes small inside some_k there within later =
      let (c, ends, sector, _, _, _, low) =
        do_lba_to_chs-sector_at g p.eax p.start_sector disk small inside in
      let r = request int13 g p c in
      let one : asked g r ≡ span k p.start_sector a = rw (sector, some_k, there) refl in
      elim (Bool-cases (int13 r == 0)) [
        | inr bad ↦ record {
          ax = int13 r;
          calls = r ∷ [];
          count = k;
          ends = rw (ends, bad) refl;
          in_order = append-nil (asked g r) ∙ one;
          within = within;
          complete = λ good. absurd (ground (arith, good, bad));
        }
        | inl good ↦
            let rest = later (with_status c.eax (int13 r)) (ground (arith, good, low)) in
            record {
              ax = rest.ax;
              calls = r ∷ rest.calls;
              count = k + rest.count;
              ends = rw (ends, good, rest.ends) refl;
              in_order = rw (one, rest.in_order) (span-append k rest.count p.start_sector a);
              within = omega (arith, rest.within);
              complete = λ e. let n = rest.complete e in omega (arith, n);
            }
      ]

abbrev packet : ℕ → ℕ → ℕ → ℕ → ℕ → Packet
packet count selector start total eax = record {
  read_sectors = count;
  buffer_offset = 0;
  buffer_selector = selector;
  start_sector = start;
  total_sectors = total;
  eax = eax;
}

module _ (int13 : Request → ℕ) (g : Parameters) (disk : IsAddressable g)
    (answers : (r : Request) → int13 r < 256) where
  read_last-Covers :
      (x v s t e : ℕ)
      → t < 32
      → e < 65536
      → s / (g.header_maximum * g.sector_maximum) < 1024
      → Covers g (read_last int13 g (packet x v s t e)) t s (16 * v)
  unfolding read_last
  read_last-Covers x v s t e few small inside =
      read_sector_with_chs-Covers int13 g disk (packet (u16 t) v s t e) (λ eax. finished 0 []) t t
        (16 * v) answers small inside (omega arith) (omega arith) (omega arith)
        λ eax h. record {
          ax = 0;
          calls = [];
          count = 0;
          ends = refl;
          in_order = refl;
          within = omega arith;
          complete = λ good. omega arith;
        }

  pub loop_read-Covers :
      (fuel x v s t e : ℕ)
      → 32 ≤ t
      → t / 32 ≤ fuel
      → v + 32 * t ≤ 65536
      → s + t < 65536
      → s + t ≤ 1024 * (g.header_maximum * g.sector_maximum)
      → 0 < g.header_maximum * g.sector_maximum
      → e < 65536
      → Covers g (loop_read int13 g fuel (packet x v s t e)) t s (16 * v)
  unfolding loop_read
  loop_read-Covers zero x v s t e many enough fits words on_disk size small = absurd (omega arith)
  loop_read-Covers (suc fuel) x v s t e many enough fits words on_disk size small =
      let some_disk = g.header_maximum * g.sector_maximum in
      let first : s / some_disk < 1024 = (div-lt_iff_lt-mul size).1 (omega arith) in
      let start : add_word s 0x20 ≡ s + 32 = omega arith in
      let total : sub_word t 0x20 ≡ t - 32 = omega arith in
      read_sector_with_chs-Covers int13 g disk (packet 0x20 v s t e) _ t 32 (16 * v) answers small
        first (omega arith) (omega arith) many
        λ eax h. elim (ℕ_discrete t 32) [
          | yes all ↦
              let none_left : (u16 (t - 32) == 0) ≡ true = ground (arith, all) in
              let left : t - 32 ≡ 0 = omega (arith, all) in
              rw (start, total, none_left, left) (nothing-Covers g (s + 32) (16 * v + 512 * 32))
          | no some_more ↦
              let some_left : (u16 (t - 32) == 0) ≡ false = ground (arith, some_more) in
              let selector : u16 (v + 0x400) ≡ v + 0x400 = omega (arith, some_more) in
              let there : 16 * (v + 0x400) ≡ 16 * v + 512 * 32 = omega arith in
              elim (dec_le 32 (t - 32)) [
                | yes more ↦
                    let again : leb 0x20 (t - 32) ≡ true = ground (arith, more) in
                    let rest =
                      loop_read-Covers fuel 0x20 (v + 0x400) (s + 32) (t - 32) eax more
                        (omega (arith, more)) (omega (arith, some_more)) (omega arith) (omega arith)
                        size h in
                    rw (start, total, some_left, selector, again)
                      (subst (Covers g _ (t - 32) (s + 32)) there rest)
                | no few ↦
                    let last : leb 0x20 (t - 32) ≡ false = ground (arith, few) in
                    let inside : (s + 32) / some_disk < 1024 =
                      (div-lt_iff_lt-mul size).1 (omega (arith, some_more)) in
                    let rest =
                      read_last-Covers 0x20 (v + 0x400) (s + 32) (t - 32) eax (omega (arith, few)) h
                        inside in
                    rw (start, total, some_left, selector, last)
                      (subst (Covers g _ (t - 32) (s + 32)) there rest)
              ]
        ]
