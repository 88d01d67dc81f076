-- ===== src/Mmu/Bare.antt =====
-- Loads and stores without virtual addressing.
use native.Mathlib.Nat.{mod-eq_of_lt}
use risc_v_simulator.Base.{
  ℕ, ◌+◌, ◌%◌, ◌^◌, ◌≤◌, ◌<◌, ◌≡◌, ◌⊎◌, ◌↔◌, arith, Bool, false, leb, u32, ◌∙◌, if◌then◌else◌,
}
use risc_v_simulator.Outcome.{SimException, ok, throw}
use risc_v_simulator.Lru.{HashMap}
use risc_v_simulator.Mmu.{
  Mmu, is_virtual_addressing, load, load_address, store, store_address, get_mem_ptr, read_ptr,
  write_ptr,
}
use risc_v_simulator.Mmu.Memory.{
  read_bytes, write_bytes, read_bytes-write_bytes, read_bytes_ext, write_bytes_outside,
}

module _ {m : HashMap} where
  -- The memory after a store, as a state.
  abbrev pub stored : ℕ → ℕ → ℕ → Mmu m → Mmu m
  stored size va v u = record u { pmem = write_bytes size va v u.pmem }

  stored_bare :
      (size va v : ℕ) (u : Mmu m)
      → is_virtual_addressing u ≡ false
      → is_virtual_addressing (stored size va v u) ≡ false
  unfolding is_virtual_addressing
  stored_bare size va v u h = h

  pub load_bare :
      (size va : ℕ) (b : Bool) (u : Mmu m)
      → is_virtual_addressing u ≡ false
      → va < 2 ^ 32
      → load size va b u ≡ (
          if leb u.pmem_size (va + size)
          then throw SimException.out_of_memory u
          else ok (read_bytes size va u.pmem) u)
  unfolding load load_address get_mem_ptr read_ptr
  load_bare size va b u bare h = let e : u32 va ≡ va = mod-eq_of_lt h in ground arith

  store_bare :
      (size va v : ℕ) (u : Mmu m)
      → is_virtual_addressing u ≡ false
      → va < 2 ^ 32
      → store size va v u ≡ (
          if leb u.pmem_size (va + size)
          then throw SimException.out_of_memory u
          else ok tt (stored size va v u))
  unfolding store store_address get_mem_ptr write_ptr
  store_bare size va v u bare h = let e : u32 va ≡ va = mod-eq_of_lt h in ground arith

module _ {m : HashMap} (u : Mmu m) (bare : is_virtual_addressing u ≡ false) (size va v : ℕ)
    (fits : va < 2 ^ 32) (inside : va + size < u.pmem_size) where
  -- Without virtual addressing a store whose end lies below the last byte of the memory succeeds,
  -- and a load of the same size from the same address gives back the stored value, cut to the size.
  pub load-store :
      (b : Bool)
      → (store size va v u ≡ ok tt (stored size va v u))
        × (load size va b (stored size va v u) ≡ ok (v % 256 ^ size) (stored size va v u))
  load-store b = (
    store_bare size va v u bare fits ∙ ground arith,
    load_bare size va b (stored size va v u) (stored_bare size va v u bare) fits
        ∙ rw (read_bytes-write_bytes size va v u.pmem) (ground arith),
  )

  -- A load of bytes that the store does not touch gives what it gave before, in the new state.
  pub load-store_disjoint :
      (b : Bool) (size' va' x : ℕ)
      → va' < 2 ^ 32
      → (va' + size' ≤ va) ⊎ (va + size ≤ va')
      → load size' va' b u ≡ ok x u
      → load size' va' b (stored size va v u) ≡ ok x (stored size va v u)
  load-store_disjoint b size' va' x fits' apart before =
      load_bare size' va' b (stored size va v u) (stored_bare size va v u bare) fits'
      ∙ ground (
        arith,
        before,
        load_bare size' va' b u bare fits',
        read_bytes_ext size' va' (write_bytes size va v u.pmem) u.pmem
            (λ i p q. write_bytes_outside size va v i u.pmem (omega arith)),
      )

-- Without virtual addressing an access is refused exactly when its end reaches the last byte of the
-- memory or goes beyond it, and then it changes nothing.
pub bare_bounds :
    {m : HashMap} (u : Mmu m) (size va v : ℕ) (b : Bool)
    → is_virtual_addressing u ≡ false
    → va < 2 ^ 32
    → ((store size va v u ≡ throw SimException.out_of_memory u) ↔ (u.pmem_size ≤ va + size))
      × ((load size va b u ≡ throw SimException.out_of_memory u) ↔ (u.pmem_size ≤ va + size))
bare_bounds u size va v b bare fits =
    ground (arith, store_bare size va v u bare fits, load_bare size va b u bare fits)
