-- ===== src/Examples/Memory.antt =====
-- Loads, stores and translations of a concrete memory unit.
use risc_v_simulator.Base.{
  [], ◌∷◌, ◌+◌, ◌/◌, ◌%◌, ◌^◌, ◌≤◌, ◌≡◌, ◌↔◌, refl, arith, true, false, inl, leb, if◌then◌else◌,
}
use risc_v_simulator.Outcome.{SimException, ok, throw}
use risc_v_simulator.Lru
use risc_v_simulator.Lru.Laws.{create-IsValid}
use risc_v_simulator.Mmu.{
  AccessType, Mmu, is_virtual_addressing, walk, finish, get_mem_ptr, read_ptr, write_ptr,
  pte_address, is_invalid, is_leaf, is_denied, is_misaligned, mark, load, store, physical,
  translate, load_address, put_data_tlb, count_load,
}
use risc_v_simulator.Mmu.Memory.{read_bytes, write_bytes}
use risc_v_simulator.Mmu.Bare.{stored, load-store, load-store_disjoint, bare_bounds}
use risc_v_simulator.Mmu.Address.{sv32_page, sv32_superpage, physical-sv32_iff}
use risc_v_simulator.Mmu.Translate.{IsTranslated, translate-IsTranslated, marked}
use risc_v_simulator.Mmu.Tlb.{store_after_load}
use risc_v_simulator.Examples.Setup.{function_map, bare_unit, virtual_unit}

is_bare : is_virtual_addressing bare_unit ≡ false
unfolding is_virtual_addressing
is_bare = refl

is_virtual : is_virtual_addressing virtual_unit ≡ true
unfolding is_virtual_addressing
is_virtual = refl

jal_loaded : load 4 0x100 false bare_unit ≡ ok 0x6f bare_unit
unfolding load load_address is_virtual_addressing get_mem_ptr read_ptr read_bytes write_bytes
jal_loaded = refl

read_page :
    translate 0x10 AccessType.read virtual_unit
    ≡ ok 0x6010 (marked AccessType.read 0x4000 virtual_unit)
unfolding translate is_virtual_addressing walk finish get_mem_ptr read_ptr write_ptr read_bytes
    write_bytes pte_address is_invalid is_leaf is_denied is_misaligned physical mark
read_page = refl

load-store_example :
    (store 4 0x200 0x12345678 bare_unit ≡ ok tt (stored 4 0x200 0x12345678 bare_unit))
    × (load 4 0x200 false (stored 4 0x200 0x12345678 bare_unit)
        ≡ ok 0x12345678 (stored 4 0x200 0x12345678 bare_unit))
load-store_example =
    load-store bare_unit is_bare 4 0x200 0x12345678 (omega arith) (omega arith) false

load-store_disjoint_example :
    load 4 0x100 false (stored 4 0x200 0x12345678 bare_unit)
    ≡ ok 0x6f (stored 4 0x200 0x12345678 bare_unit)
load-store_disjoint_example =
    load-store_disjoint bare_unit is_bare 4 0x200 0x12345678 (omega arith) (omega arith) false 4
      0x100 0x6f (omega arith) (inl (omega arith)) jal_loaded

bare_bounds_example :
    ((store 4 0xfffc 7 bare_unit ≡ throw SimException.out_of_memory bare_unit)
      ↔ (bare_unit.pmem_size ≤ 0xfffc + 4))
    × ((load 4 0xfffc false bare_unit ≡ throw SimException.out_of_memory bare_unit)
        ↔ (bare_unit.pmem_size ≤ 0xfffc + 4))
bare_bounds_example = bare_bounds bare_unit 4 0xfffc 7 false is_bare (omega arith)

-- Page 5 is odd.
physical-sv32_iff_example :
    ((physical 0 0x140f 0x123 ≡ sv32_page 0x140f 0x123) ↔ (0x140f / 2 ^ 10 % 2 ≡ 0))
    × ((physical 1 0x140f 0x123 ≡ sv32_superpage 0x140f 0x123) ↔ (0x140f / 2 ^ 20 % 2 ≡ 0))
physical-sv32_iff_example = physical-sv32_iff 0x140f 0x123 (omega arith)

translate-IsTranslated_example :
    IsTranslated 0x10 AccessType.read virtual_unit 0x6010
      (marked AccessType.read 0x4000 virtual_unit)
translate-IsTranslated_example =
    translate-IsTranslated 0x10 AccessType.read virtual_unit is_virtual read_page

-- What the load leaves behind.
abbrev read_unit : Mmu function_map
read_unit = record (marked AccessType.read 0x4000 virtual_unit) {
  data_tlb = record {
    entries = record { id = 0; key = 0x10; val = 0x6010 } ∷ [];
    links = function_map.insert 0x10 0 function_map.empty;
    max_size = 4;
    cur_size = 1;
    fresh = 1;
  };
  stats = record virtual_unit.stats { dtlb_load_misses = 1 };
}

loaded : load_address 0x10 false virtual_unit ≡ ok 0x6010 read_unit
unfolding load_address Lru.insert Lru.insert_new Lru.make_room Lru.push_front Lru.create
    put_data_tlb count_load translate is_virtual_addressing walk finish get_mem_ptr read_ptr
    write_ptr read_bytes write_bytes pte_address is_invalid is_leaf is_denied is_misaligned physical
    mark
loaded = refl

is_virtual_after : is_virtual_addressing read_unit ≡ true
unfolding is_virtual_addressing
is_virtual_after = refl

-- Page 6 is not writable.
store_after_load_example :
    (u : Mmu function_map) × (u.pmem ≡ read_unit.pmem)
    × (store 4 0x10 0x12345678 read_unit ≡ (
        if leb 0x10000 (0x6010 + 4)
        then throw SimException.out_of_memory u
        else ok tt (record u { pmem = write_bytes 4 0x6010 0x12345678 read_unit.pmem })))
unfolding Lru.create
store_after_load_example =
    store_after_load 4 0x12345678 0x10 virtual_unit 0x6010 read_unit is_virtual is_virtual_after
      (create-IsValid 4) (omega arith) loaded
