-- ===== src/Mmu/Tlb.antt =====
-- The data TLB: what a load leaves there, and what a later store to the same address does with it.
use mathlib.Core.Path.{subst}
use mathlib.Core.Option.{some-injective}
use risc_v_simulator.Base.{
  ℕ, ◌+◌, leb, u32, if◌then◌else◌, ◌<◌, ◌≡◌, refl, ap, sym, ◌∙◌, arith, Bool-cases, inl, inr, some,
  Bool, true, false,
}
use risc_v_simulator.Outcome.{SimException, throw, ok, bind, bind-eq-ok}
use risc_v_simulator.Lru
use risc_v_simulator.Lru.{HashMap, Lru}
use risc_v_simulator.Lru.Nodes.{view, lookup}
use risc_v_simulator.Lru.Laws.{IsValid}
use risc_v_simulator.Lru.Front.{IsFront, insert-IsFront, IsFront-found}
use risc_v_simulator.Lru.Insert.{insert_hit}
use risc_v_simulator.Mmu.{
  AccessType, Mmu, is_virtual_addressing, translate, put_data_tlb, count_load, count_store,
  load_address, store_address, store, get_mem_ptr, write_ptr,
}
use risc_v_simulator.Mmu.Memory.{write_bytes}
use risc_v_simulator.Mmu.Translate.{translate-IsTranslated}

module _ {m : HashMap} where
  translate-data_tlb :
      (va : ℕ) (acc : AccessType) (u : Mmu m) (pa : ℕ) (u' : Mmu m)
      → translate va acc u ≡ ok pa u'
      → u'.data_tlb ≡ u.data_tlb
  translate-data_tlb va acc u pa u' h = elim (Bool-cases (is_virtual_addressing u)) [
    | inl virt ↦ ap (λ (t : Mmu m). t.data_tlb) (translate-IsTranslated va acc u virt h).only_marks
    | inr bare ↦ unfold translate in ground arith
  ]

  load_virtual :
      (va : ℕ) (u : Mmu m)
      → is_virtual_addressing u ≡ true
      → load_address va false u
        ≡ bind
            (Lru.insert (λ u. u.data_tlb) put_data_tlb va (translate va AccessType.read) u)
            (λ (pa, missed) u'. ok pa (count_load missed u'))
  unfolding load_address
  load_virtual va u virt = rw virt

  store_virtual :
      (va : ℕ) (u : Mmu m)
      → is_virtual_addressing u ≡ true
      → store_address va u
        ≡ bind
            (Lru.insert (λ u. u.data_tlb) put_data_tlb va (translate va AccessType.write) u)
            (λ (pa, missed) u'. ok pa (count_store missed u'))
  unfolding store_address
  store_virtual va u virt = rw virt

  get-put : (c : Lru m ℕ) (u : Mmu m) → (put_data_tlb c u).data_tlb ≡ c
  unfolding put_data_tlb
  get-put c u = refl

  counted_load :
      (b : Bool) (u u' : Mmu m) (pa pa' : ℕ)
      → ok pa (count_load b u) ≡ ok pa' u'
      → (pa ≡ pa') × (u'.data_tlb ≡ u.data_tlb)
  unfolding count_load
  counted_load b u u' pa pa' h = ground arith

  load_address-IsFront :
      (va : ℕ) (u : Mmu m) (pa : ℕ) (u' : Mmu m)
      → is_virtual_addressing u ≡ true
      → IsValid u.data_tlb
      → 0 < u.data_tlb.max_size
      → load_address va false u ≡ ok pa u'
      → IsFront va pa u.data_tlb.max_size u'.data_tlb
  load_address-IsFront va u pa u' virt v pos h =
      let ((pa', b), s, inserted, rest) =
        bind-eq-ok (Lru.insert (λ u. u.data_tlb) put_data_tlb va (translate va AccessType.read) u) _
          (sym (load_virtual va u virt) ∙ h) in
      let front =
        insert-IsFront (λ u. u.data_tlb) put_data_tlb get-put va (translate va AccessType.read)
          (translate-data_tlb va AccessType.read) u v pos pa' b s inserted in
      let (same, tlb) = counted_load b s u' pa' pa rest in
      subst (IsFront va pa u.data_tlb.max_size) (sym tlb)
        (subst (λ p. IsFront va p u.data_tlb.max_size s.data_tlb) same front)

  store_hit :
      (va : ℕ) (u : Mmu m) (pa size : ℕ)
      → is_virtual_addressing u ≡ true
      → IsFront va pa size u.data_tlb
      → (u' : Mmu m) × (store_address va u ≡ ok pa u')
        × (u'.pmem ≡ u.pmem)
        × (u'.pmem_size ≡ u.pmem_size)
  unfolding count_store put_data_tlb
  store_hit va u pa size virt f =
      let (id, found) = IsFront-found va pa size u.data_tlb f in
      let (v, c, e, _, seen, _, _) =
        insert_hit (λ u. u.data_tlb) put_data_tlb va (translate va AccessType.write) u id f.valid
          found in
      let front : lookup va (view u.data_tlb.entries) ≡ some pa = rw f.front (ground arith) in
      let same : v ≡ pa = some-injective v pa (sym seen ∙ front) in
      (
        count_store false (put_data_tlb c u),
        store_virtual va u virt ∙ rw e (ap (λ p. ok p (count_store false (put_data_tlb c u))) same),
        refl,
        refl,
      )

  cached_address :
      (va : ℕ) (u : Mmu m) (pa : ℕ) (u' : Mmu m)
      → is_virtual_addressing u ≡ true
      → is_virtual_addressing u' ≡ true
      → IsValid u.data_tlb
      → 0 < u.data_tlb.max_size
      → load_address va false u ≡ ok pa u'
      → (u'' : Mmu m) × (store_address va u' ≡ ok pa u'')
        × (u''.pmem ≡ u'.pmem)
        × (u''.pmem_size ≡ u'.pmem_size)
  cached_address va u pa u' virt virt' v pos h =
      store_hit va u' pa u.data_tlb.max_size virt' (load_address-IsFront va u pa u' virt v pos h)

  -- The end of a store behind its address.
  written :
      (size pa v : ℕ) (u : Mmu m)
      → bind (get_mem_ptr size pa u) (λ p u'. write_ptr size p v u') ≡ (
          if leb u.pmem_size (u32 pa + size)
          then throw SimException.out_of_memory u
          else ok tt (record u { pmem = write_bytes size (u32 pa) v u.pmem }))
  unfolding get_mem_ptr write_ptr
  written size pa v u = elim (Bool-cases (leb u.pmem_size (u32 pa + size))) [
    | inl e ↦ rw e refl
    | inr e ↦ rw e refl
  ]

  -- Once a load from an address has gone through the data TLB, a store to the same address takes the
  -- cached physical address, whatever the page tables allow: it writes its bytes there and nothing
  -- else of the memory, so no dirty bit is set, or it is refused because the address lies outside of the memory.
  pub store_after_load :
      (size v va : ℕ) (u : Mmu m) (pa : ℕ) (u' : Mmu m)
      → is_virtual_addressing u ≡ true
      → is_virtual_addressing u' ≡ true
      → IsValid u.data_tlb
      → 0 < u.data_tlb.max_size
      → load_address va false u ≡ ok pa u'
      → (u'' : Mmu m) × (u''.pmem ≡ u'.pmem)
        × (store size va v u' ≡ (
            if leb u'.pmem_size (u32 pa + size)
            then throw SimException.out_of_memory u''
            else ok tt (record u'' { pmem = write_bytes size (u32 pa) v u'.pmem })))
  unfolding store
  store_after_load size v va u pa u' virt virt' valid pos h =
      let (u'', e, same, size_same) = cached_address va u pa u' virt virt' valid pos h in
      (
        u'',
        same,
        ap (λ o. bind o (λ pa u. bind (get_mem_ptr size pa u) (λ p u. write_ptr size p v u))) e
            ∙ written size pa v u''
            ∙ (λ i.
                if leb (size_same i) (u32 pa + size)
                then throw SimException.out_of_memory u''
                else ok tt (record u'' { pmem = write_bytes size (u32 pa) v (same i) })),
      )
