-- ===== src/Lru/Laws.antt =====
-- The invariant of LRUCache, and its insert against a plain list of entries, most recent first.
use risc_v_simulator.Base.{
  ℕ, suc, ◌+◌, ◌-◌, ◌≤◌, ◌<◌, ◌≡◌, refl, ap, sym, ◌∙◌, inl, inr, none, some, List, [], ◌∷◌, ltb,
  ◌==◌, if◌then◌else◌, length, take, take_of_length-le, Bool-cases, arith,
}
use risc_v_simulator.Lru.{
  HashMap, Node, Lru, back, pop_back, create, clear, make_room, push_front, to_front,
}
use risc_v_simulator.Lru.Nodes.{
  Distinct, Below, id_of, view, id_of-NoKey, Taken, All-Taken, key-Taken, length-Taken, id_of-rest,
  take_node-Taken, back-some, All-pop_back, Distinct-pop_back, length-pop_back, length-view,
  NoId-of_Below, Below-suc, view-pop_back, id_of-pop_back,
}

-- `links` names the node of each key and nothing else, no key stands twice, and the counter is the
-- number of entries, at most the maximum.
pub record IsValid {m : HashMap} {V : Type 0} (c : Lru m V) : Type 0 where
  pub linked : (j : ℕ) → m.find j c.links ≡ id_of j c.entries
  pub distinct : Distinct c.entries
  pub below : Below c.fresh c.entries
  pub counted : c.cur_size ≡ length c.entries
  pub bounded : c.cur_size ≤ c.max_size

-- What make_room leaves for a new key: the invariant with one entry less than the counter says.
pub record HasRoom {m : HashMap} {V : Type 0} (c : Lru m V) : Type 0 where
  pub linked : (j : ℕ) → m.find j c.links ≡ id_of j c.entries
  pub distinct : Distinct c.entries
  pub below : Below c.fresh c.entries
  pub counted : c.cur_size ≡ suc (length c.entries)
  pub bounded : c.cur_size ≤ c.max_size

-- The last entry goes, in the list and in the links.
drop_last :
    {V : Type 0} (m : HashMap) (links : m.Carrier) (l : List (Node V))
    → ((j : ℕ) → m.find j links ≡ id_of j l)
    → Distinct l
    → 0 < length l
    → (x : Node V) × (back l ≡ some x)
      × ((j : ℕ) → m.find j (m.erase x.key links) ≡ id_of j (pop_back l))
      × (length l ≡ suc (length (pop_back l)))
      × (view (pop_back l) ≡ take (length l - 1) (view l))
drop_last m links [] h d pos = absurd (omega arith)
drop_last m links (n ∷ ns) h d pos =
    let (x, e) = back-some n ns in
    let less : length (n ∷ ns) - 1 ≡ length ns = omega arith in
    (
      x,
      e,
      λ j.
          m.find-erase j x.key links
          ∙ ap (λ o. if j == x.key then none else o) (h j)
          ∙ sym (id_of-pop_back j (n ∷ ns) d e),
      omega (arith, length-pop_back n ns),
      rw less (view-pop_back n ns),
    )

module _ {m : HashMap} {V : Type 0} where
  pub create-IsValid : (size : ℕ) → IsValid (create {m = m} {V = V} size)
  unfolding create id_of
  create-IsValid size = record {
    linked = λ j. m.find-empty j;
    distinct = tt;
    below = tt;
    counted = refl;
    bounded = omega arith;
  }

  pub clear-IsValid : (c : Lru m V) → IsValid (clear c)
  unfolding clear id_of
  clear-IsValid c = record {
    linked = λ j. m.find-empty j;
    distinct = tt;
    below = tt;
    counted = refl;
    bounded = omega arith;
  }

  -- Room is made by dropping the least recent entry, and only if the cache is full.
  pub make_room-HasRoom :
      (c : Lru m V)
      → IsValid c
      → 0 < c.max_size
      → (c' : Lru m V) × (make_room c ≡ some c')
        × HasRoom c'
        × (view c'.entries ≡ take (c.max_size - 1) (view c.entries))
        × (c'.max_size ≡ c.max_size)
        × ((j : ℕ) → m.find j c.links ≡ none → m.find j c'.links ≡ none)
  unfolding make_room
  make_room-HasRoom c v pos = elim (Bool-cases (ltb c.cur_size c.max_size)) [
    | inl space ↦ (
      record c { cur_size = c.cur_size + 1 },
      ground arith,
      record {
        linked = v.linked;
        distinct = v.distinct;
        below = v.below;
        counted = omega (arith, v.counted);
        bounded = ground arith;
      },
      sym (
          take_of_length-le (c.max_size - 1) (view c.entries)
            (ground (arith, length-view c.entries))),
      refl,
      λ j h. h,
    )
    | inr full ↦
        let (x, e, linked, counted, seen) =
          drop_last m c.links c.entries v.linked v.distinct (ground arith) in
        (
          record c { links = m.erase x.key c.links; entries = pop_back c.entries },
          ground arith,
          record {
            linked = linked;
            distinct = Distinct-pop_back c.entries v.distinct;
            below = All-pop_back (λ n. n.id < c.fresh) c.entries v.below;
            counted = v.counted ∙ counted;
            bounded = v.bounded;
          },
          let less : length c.entries - 1 ≡ c.max_size - 1 = ground arith in rw (← less) seen,
          refl,
          λ j h. ground (arith, m.find-erase j x.key c.links),
        )
  ]

  -- A new entry in front restores the invariant.
  pub push_front-IsValid :
      (c : Lru m V) (key : ℕ) (v : V)
      → HasRoom c
      → m.find key c.links ≡ none
      → IsValid (push_front key v c)
  unfolding push_front id_of
  push_front-IsValid c key v r absent = record {
    linked = λ j.
        m.find-insert j key c.fresh c.links absent
        ∙ ap (λ o. if j == key then some c.fresh else o) (r.linked j);
    distinct = (
      NoId-of_Below c.fresh c.entries r.below,
      id_of-NoKey key c.entries (sym (r.linked key) ∙ absent),
      r.distinct,
    );
    below = (omega arith, Below-suc c.fresh c.entries r.below);
    counted = r.counted;
    bounded = r.bounded;
  }

  -- A found entry in front keeps the invariant.
  pub to_front-IsValid :
      (c : Lru m V) (key : ℕ) {x : Node V} {rest : List (Node V)}
      → IsValid c
      → Taken key c.entries x rest
      → m.find key c.links ≡ some x.id
      → IsValid (to_front key x rest c)
  unfolding to_front id_of
  to_front-IsValid c key {x} {rest} v t found =
      let (e, i, k, d) = take_node-Taken key t v.distinct in
      record {
        linked = λ j.
            m.find-assign j key x.id x.id c.links found
            ∙ ground (arith, v.linked j, id_of-rest key j t, key-Taken key t);
        distinct = (i, k, d);
        below = All-Taken key (λ n. n.id < c.fresh) t v.below;
        counted = v.counted ∙ length-Taken key t;
        bounded = v.bounded;
      }
