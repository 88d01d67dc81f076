-- ===== src/Examples/Caches.antt =====
-- A cache of two entries that stands alone, as its own state.
use risc_v_simulator.Base.{ℕ, ◌≡◌, refl, arith, true, false, some, ◌∷◌, take}
use risc_v_simulator.Outcome.{ok, Exec}
use risc_v_simulator.Lru.{Lru, insert, insert_new, make_room, push_front, create}
use risc_v_simulator.Lru.Nodes.{view, lookup, remove}
use risc_v_simulator.Lru.Laws.{IsValid, create-IsValid}
use risc_v_simulator.Lru.Insert.{insert_hit, insert_miss}
use risc_v_simulator.Lru.Front.{IsFront, insert-IsFront}
use risc_v_simulator.Examples.Setup.{function_map}

abbrev Cache : Type 0
Cache = Lru function_map ℕ

abbrev whole : Cache → Cache
whole c = c

abbrev replace : Cache → Cache → Cache
replace c c' = c

abbrev build : ℕ → Exec Cache ℕ
build v c = ok v c

abbrev empty_cache : Cache
empty_cache = create 2

abbrev roomy : Cache
roomy = record empty_cache { cur_size = 1 }

has_room : make_room empty_cache ≡ some roomy
unfolding make_room create
has_room = refl

insert_miss_example :
    (insert whole replace 7 (build 42) empty_cache ≡ ok (42, true) (push_front 7 42 roomy))
    × IsValid (push_front 7 42 roomy)
    × (view (push_front 7 42 roomy).entries
        ≡ take empty_cache.max_size ((7, 42) ∷ view empty_cache.entries))
unfolding create
insert_miss_example =
    insert_miss whole replace 7 (build 42) empty_cache roomy 42 roomy (create-IsValid 2)
      (omega arith) refl has_room refl refl

inserted : insert whole replace 7 (build 42) empty_cache ≡ ok (42, true) (push_front 7 42 roomy)
unfolding insert insert_new make_room push_front create
inserted = refl

build_frame : (w : ℕ) (c : Cache) (v : ℕ) (c' : Cache) → build w c ≡ ok v c' → c' ≡ c
build_frame w c v c' h = ground arith

insert-IsFront_example : IsFront 7 42 empty_cache.max_size (push_front 7 42 roomy)
unfolding create
insert-IsFront_example =
    insert-IsFront whole replace (λ c s. refl) 7 (build 42) (build_frame 42) empty_cache
      (create-IsValid 2) (omega arith) 42 true (push_front 7 42 roomy) inserted

-- The cache with one entry.
abbrev one_entry : Cache
one_entry = push_front 7 42 roomy

one_entry-IsValid : IsValid one_entry
unfolding create
one_entry-IsValid =
    (insert-IsFront whole replace (λ c s. refl) 7 (build 42) (build_frame 42) empty_cache
      (create-IsValid 2) (omega arith) 42 true one_entry inserted).valid

found : function_map.find 7 one_entry.links ≡ some 0
unfolding push_front create
found = refl

insert_hit_example :
    (v : ℕ) × (c : Cache) × (insert whole replace 7 (build 5) one_entry ≡ ok (v, false) c)
    × IsValid c
    × (lookup 7 (view one_entry.entries) ≡ some v)
    × (view c.entries ≡ (7, v) ∷ remove 7 (view one_entry.entries))
    × (c.max_size ≡ one_entry.max_size)
insert_hit_example = insert_hit whole replace 7 (build 5) one_entry 0 one_entry-IsValid found
