-- ===== src/Mmu/Translate.antt =====
-- translate under virtual addressing: what a success says of the page tables, and what it changes.
use mathlib.Core.Path.{subst}
use risc_v_simulator.Base.{
  ℕ, zero, suc, ◌+◌, ◌*◌, ◌/◌, ◌^◌, ◌≤◌, ◌<◌, ◌≡◌, sym, ◌∙◌, arith, true, false, bit_and, u32,
}
use risc_v_simulator.Outcome.{ok, bind, bind-eq-ok}
use risc_v_simulator.Lru.{HashMap}
use risc_v_simulator.Mmu.{
  AccessType, Mmu, is_virtual_addressing, get_mem_ptr, read_ptr, write_ptr, is_invalid, is_leaf,
  is_denied, is_misaligned, mark, physical, walk, finish, translate, pagesize, pte_address,
}
use risc_v_simulator.Mmu.Memory.{read_bytes, write_bytes}

-- The entry at offset `p`.
abbrev pub entry : {m : HashMap} → Mmu m → ℕ → ℕ
entry u p = read_bytes 4 p u.pmem

-- The loop ends at a valid leaf inside the memory, and changes nothing.
pub walk-eq-ok :
    {m : HashMap} (i table va : ℕ) (u : Mmu m) {j p : ℕ} {u' : Mmu m}
    → walk i table va u ≡ ok (j, p) u'
    → (u' ≡ u)
      × (j ≤ i)
      × (p + 4 < u.pmem_size)
      × (is_invalid (entry u p) ≡ false)
      × (is_leaf (entry u p) ≡ true)
unfolding walk get_mem_ptr read_ptr
walk-eq-ok zero table va u h = ground arith
walk-eq-ok (suc i) table va u {j} {p} {u'} h =
    let pte = entry u (u32 (pte_address table (suc i) va)) in
    ground (arith, walk-eq-ok i (u32 (pte / 2 ^ 10 * pagesize)) va u {j = j} {p = p} {u' = u'})

-- What translate leaves behind: the entry marked in the memory.
abbrev pub marked : {m : HashMap} → AccessType → ℕ → Mmu m → Mmu m
marked acc p u = record u { pmem = write_bytes 4 p (mark acc (entry u p)) u.pmem }

finish-eq-ok :
    {m : HashMap} (va : ℕ) (acc : AccessType) (i p : ℕ) (u : Mmu m) {pa : ℕ} {u' : Mmu m}
    → finish va acc (i, p) u ≡ ok pa u'
    → (is_denied acc (entry u p) ≡ false)
      × (is_misaligned i (entry u p) ≡ false)
      × (pa ≡ physical i (mark acc (entry u p)) va)
      × (u' ≡ marked acc p u)
unfolding finish read_ptr write_ptr
finish-eq-ok va acc i p u h = ground arith

abbrev root : {m : HashMap} → Mmu m → ℕ
root u = u32 (bit_and u.satp 0x3fffff * pagesize)

translate_virtual :
    {m : HashMap} (va : ℕ) (acc : AccessType) (u : Mmu m)
    → is_virtual_addressing u ≡ true
    → translate va acc u ≡ bind (walk 1 (root u) va u) (finish va acc)
unfolding translate
translate_virtual va acc u h = rw h

-- The leaf at offset `p` of level `i` that a translation found, and what it gives.
pub record IsTranslated {m : HashMap} (va : ℕ) (acc : AccessType) (u : Mmu m) (pa : ℕ) (u' : Mmu m)
    : Type 0 where
  pub level : ℕ
  pub place : ℕ
  pub two_levels : level < 2
  pub inside : place + 4 < u.pmem_size
  pub valid : is_invalid (entry u place) ≡ false
  pub leaf : is_leaf (entry u place) ≡ true
  pub allowed : is_denied acc (entry u place) ≡ false
  pub aligned : is_misaligned level (entry u place) ≡ false
  pub address : pa ≡ physical level (mark acc (entry u place)) va
  pub only_marks : u' ≡ marked acc place u

after_walk :
    {m : HashMap} (va : ℕ) (acc : AccessType) (u s : Mmu m) (i p : ℕ) {pa : ℕ} {u' : Mmu m}
    → s ≡ u
    → (i ≤ 1)
      × (p + 4 < u.pmem_size)
      × (is_invalid (entry u p) ≡ false)
      × (is_leaf (entry u p) ≡ true)
    → finish va acc (i, p) s ≡ ok pa u'
    → IsTranslated va acc u pa u'
after_walk va acc u s i p {pa} {u'} e (l, n, v, f) h =
    let r = finish-eq-ok va acc i p u (subst (λ t. finish va acc (i, p) t ≡ ok pa u') e h) in
    record {
      level = i;
      place = p;
      two_levels = omega arith;
      inside = n;
      valid = v;
      leaf = f;
      allowed = r.0;
      aligned = r.1;
      address = r.2;
      only_marks = r.3;
    }

-- A translation that succeeds under virtual addressing found a valid leaf whose permission allows
-- the access, inside the memory and, above the last level, aligned; the address is that of the
-- marked entry, and nothing but that entry changes: neither TLB does.
pub translate-IsTranslated :
    {m : HashMap} (va : ℕ) (acc : AccessType) (u : Mmu m) {pa : ℕ} {u' : Mmu m}
    → is_virtual_addressing u ≡ true
    → translate va acc u ≡ ok pa u'
    → IsTranslated va acc u pa u'
translate-IsTranslated va acc u virt h =
    let ((i, p), s, found, rest) =
      bind-eq-ok (walk 1 (root u) va u) (finish va acc)
        (sym (translate_virtual va acc u virt) ∙ h) in
    let w = walk-eq-ok 1 (root u) va u {j = i} {p = p} found in
    after_walk va acc u s i p w.0 (w.1, w.2, w.3, w.4) rest
