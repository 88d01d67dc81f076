-- ===== src/Mmu.antt =====
-- The memory management unit: sim/mmu.h. The two TLBs are LRU caches keyed by the whole virtual
-- address; the physical memory is its size and the byte at each address. satp and the statistics of
-- sim/stats_list.h that the unit counts, which are static in the source, are fields too.
pub mod Memory
pub mod Bare
pub mod Address
pub mod Translate
pub mod Tlb
use risc_v_simulator.Base.{
  ℕ, zero, suc, ◌+◌, ◌-◌, ◌*◌, ◌/◌, ◌%◌, ◌^◌, Bool, true, false, not, ◌&&◌, ◌||◌, leb, ◌==◌,
  if◌then◌else◌, bit_and, bit_or, u32,
}
use risc_v_simulator.Outcome.{
  SimException, Outcome, ok, throw, Exec, ◌>>=◌, ◌>>◌, bind, gets, modify, return, raise,
}
use risc_v_simulator.Lru
use risc_v_simulator.Lru.{HashMap, Lru}
use Memory.{Bytes, read_bytes, write_bytes}

pub data AccessType : Type 0 where
  read write exec : AccessType

pub record TlbStats : Type 0 where
  pub itlb_hits : ℕ
  pub itlb_misses : ℕ
  pub dtlb_load_hits : ℕ
  pub dtlb_load_misses : ℕ
  pub dtlb_store_hits : ℕ
  pub dtlb_store_misses : ℕ

-- The value of a TLB entry is the physical address of a PhysAddr.
pub record Mmu (m : HashMap) : Type 0 where
  pub inst_tlb : Lru m ℕ
  pub data_tlb : Lru m ℕ
  pub pmem_size : ℕ
  pub pmem : Bytes
  pub satp : ℕ
  pub stats : TlbStats

abbrev pub pagesize : ℕ
pagesize = 4096

abbrev pub levels : ℕ
levels = 2

abbrev pub ptesize : ℕ
ptesize = 4

module _ {m : HashMap} where
  unfoldable pub is_virtual_addressing : Mmu m → Bool
  is_virtual_addressing u = not (u.satp / 2 ^ 31 == 0)

  unfoldable pub flush : Mmu m → Mmu m
  unfolding Lru.clear
  flush u = record u { inst_tlb = Lru.clear u.inst_tlb; data_tlb = Lru.clear u.data_tlb }

  -- getMemPtr<T>(pa) for a T of `size` bytes: the offset in the memory. `pa` is a uint32_t.
  unfoldable pub get_mem_ptr : ℕ → ℕ → Exec (Mmu m) ℕ
  get_mem_ptr size pa u =
      if leb u.pmem_size (u32 pa + size) then throw SimException.out_of_memory u else ok (u32 pa) u

  -- *ptr and *ptr = v.
  unfoldable pub read_ptr : ℕ → ℕ → Exec (Mmu m) ℕ
  read_ptr size p u = ok (read_bytes size p u.pmem) u

  unfoldable pub write_ptr : ℕ → ℕ → ℕ → Exec (Mmu m) (Unit {0})
  write_ptr size p v u = ok tt (record u { pmem = write_bytes size p v u.pmem })

-- Bits of a page table entry.
abbrev has : ℕ → ℕ → Bool
has pte mask = not (bit_and pte mask == 0)

unfoldable pub is_invalid : ℕ → Bool
is_invalid pte = not (has pte 1) || (not (has pte 2) && bit_and pte 4 == 4)

unfoldable pub is_leaf : ℕ → Bool
is_leaf pte = has pte 2 || has pte 8

unfoldable pub is_denied : AccessType → ℕ → Bool
is_denied AccessType.read pte = not (has pte 2)
is_denied AccessType.write pte = not (has pte 4)
is_denied AccessType.exec pte = not (has pte 8)

unfoldable pub is_misaligned : ℕ → ℕ → Bool
is_misaligned i pte = not (i == 0) && not (bit_and (pte / 2 ^ 10) 0x3ff == 0)

-- Where the entry of `va` stands in the table of level `i`.
unfoldable pub pte_address : ℕ → ℕ → ℕ → ℕ
pte_address table_pa i va =
    table_pa + ptesize * (if i == 0 then u32 (va * 2 ^ 10) / 2 ^ 22 else va / 2 ^ 22)

-- `pte` with the access bit set, and the dirty bit at a write.
unfoldable pub mark : AccessType → ℕ → ℕ
mark AccessType.write pte = bit_or (bit_or pte 64) 128
mark _ pte = bit_or pte 64

-- The address at the end of translate, from the leaf's level and entry.
unfoldable pub physical : ℕ → ℕ → ℕ → ℕ
physical i pte va =
    let pa = pte * 2 ^ 2 in
    if i == 0
    then bit_or (bit_and va 0xfff) (bit_and pa (2 ^ 64 - 2 ^ 13))
    else bit_or (bit_and va 0x003fffff) (bit_and pa (2 ^ 64 - 2 ^ 23))

module _ {m : HashMap} where
  -- The loop of translate from level `i` on: the level of the leaf, and where its entry stands.
  unfoldable pub walk : ℕ → ℕ → ℕ → Exec (Mmu m) (ℕ × ℕ)
  walk zero table_pa va = do
    p ← get_mem_ptr 4 (pte_address table_pa 0 va)
    pte ← read_ptr 4 p
    if is_invalid pte
        then raise SimException.page_fault_valid
        else if is_leaf pte
        then return (0, p)
        else raise SimException.page_fault_level
  walk (suc i) table_pa va = do
    p ← get_mem_ptr 4 (pte_address table_pa (suc i) va)
    pte ← read_ptr 4 p
    let next = walk i (u32 (pte / 2 ^ 10 * pagesize)) va
    if is_invalid pte
        then raise SimException.page_fault_valid
        else if is_leaf pte
        then return (suc i, p)
        else next

  -- The permission checks, the marks and the address.
  unfoldable pub finish : ℕ → AccessType → ℕ × ℕ → Exec (Mmu m) ℕ
  finish va acc (i, p) = do
    pte ← read_ptr 4 p
    if is_denied acc pte
        then raise SimException.page_fault
        else if is_misaligned i pte
        then raise SimException.page_fault
        else (do write_ptr 4 p (mark acc pte); return (physical i (mark acc pte) va))

  unfoldable pub translate : ℕ → AccessType → Exec (Mmu m) ℕ
  translate va acc u =
      if is_virtual_addressing u
      then (do
        leaf ← walk (levels - 1) (u32 (bit_and u.satp 0x3fffff * pagesize)) va
        finish va acc leaf)
          u
      else ok va u

  unfoldable pub put_inst_tlb : Lru m ℕ → Mmu m → Mmu m
  put_inst_tlb c u = record u { inst_tlb = c }

  unfoldable pub put_data_tlb : Lru m ℕ → Mmu m → Mmu m
  put_data_tlb c u = record u { data_tlb = c }

  -- ++(res.second ? misses : hits), for each of the three pairs of counters.
  unfoldable pub count_inst : Bool → Mmu m → Mmu m
  count_inst missed u = record u {
    stats =
        if missed
        then record u.stats { itlb_misses = u.stats.itlb_misses + 1 }
        else record u.stats { itlb_hits = u.stats.itlb_hits + 1 };
  }

  unfoldable pub count_load : Bool → Mmu m → Mmu m
  count_load missed u = record u {
    stats =
        if missed
        then record u.stats { dtlb_load_misses = u.stats.dtlb_load_misses + 1 }
        else record u.stats { dtlb_load_hits = u.stats.dtlb_load_hits + 1 };
  }

  unfoldable pub count_store : Bool → Mmu m → Mmu m
  count_store missed u = record u {
    stats =
        if missed
        then record u.stats { dtlb_store_misses = u.stats.dtlb_store_misses + 1 }
        else record u.stats { dtlb_store_hits = u.stats.dtlb_store_hits + 1 };
  }

  -- The address that load takes, by the TLB of the access.
  unfoldable pub load_address : ℕ → Bool → Exec (Mmu m) ℕ
  load_address va inst_read u =
      if is_virtual_addressing u
      then (if inst_read
            then (do
              (pa, missed) ←
                  Lru.insert (λ u. u.inst_tlb) put_inst_tlb va (translate va AccessType.exec)
              modify (count_inst missed)
              return pa)
            else (do
              (pa, missed) ←
                  Lru.insert (λ u. u.data_tlb) put_data_tlb va (translate va AccessType.read)
              modify (count_load missed)
              return pa))
          u
      else ok va u

  -- load<T>(va, instRead) for a T of `size` bytes; the value is unsigned.
  unfoldable pub load : ℕ → ℕ → Bool → Exec (Mmu m) ℕ
  load size va inst_read = do
    pa ← load_address va inst_read
    p ← get_mem_ptr size pa
    read_ptr size p

  unfoldable pub store_address : ℕ → Exec (Mmu m) ℕ
  store_address va u =
      if is_virtual_addressing u
      then (do
        (pa, missed) ← Lru.insert (λ u. u.data_tlb) put_data_tlb va (translate va AccessType.write)
        modify (count_store missed)
        return pa)
          u
      else ok va u

  -- store<T>(va, data).
  unfoldable pub store : ℕ → ℕ → ℕ → Exec (Mmu m) (Unit {0})
  store size va v = do pa ← store_address va; p ← get_mem_ptr size pa; write_ptr size p v
