-- ===== src/Lru/Insert.antt =====
-- LRUCache::insert on each branch: a hit, a miss whose value is built, and a miss whose value's
-- constructor throws.
use mathlib.Core.Path.{ap₂, subst}
use mathlib.Core.Option.{some-injective}
use risc_v_simulator.Base.{
  ℕ, zero, suc, ◌-◌, ◌<◌, ◌≡◌, refl, ap, sym, ◌∙◌, true, false, none, some, List, ◌∷◌, take, arith,
}
use risc_v_simulator.Outcome.{ok, throw, SimException, Exec, bind}
use risc_v_simulator.Lru.{
  HashMap, Node, Lru, take_node, make_room, push_front, to_front, insert, insert_new, insert_old,
}
use risc_v_simulator.Lru.Nodes.{
  view, lookup, remove, id_of-Taken, key-Taken, view-Taken, lookup-Taken, take_node-Taken,
}
use risc_v_simulator.Lru.Laws.{
  IsValid, HasRoom, make_room-HasRoom, push_front-IsValid, to_front-IsValid,
}

taken_front :
    {A : Type 0} (n : ℕ) (e : A) (l l' : List A)
    → 0 < n
    → l' ≡ take (n - 1) l
    → e ∷ l' ≡ take n (e ∷ l)
taken_front zero e l l' pos h = absurd (omega arith)
taken_front (suc n) e l l' pos h =
    let less : suc n - 1 ≡ n = omega arith in ap (◌∷◌ e) (h ∙ ap (λ (k : ℕ). take k l) less)

module _ {m : HashMap} {V S : Type 0} (get : S → Lru m V) (put : Lru m V → S → S) (key : ℕ)
    (construct : Exec S V) (s : S) where
  insert_found :
      (id : ℕ) (x : Node V) (rest : List (Node V))
      → m.find key (get s).links ≡ some id
      → take_node id (get s).entries ≡ some (x, rest)
      → insert get put key construct s ≡ ok (x.val, false) (put (to_front key x rest (get s)) s)
  unfolding insert insert_old
  insert_found id x rest found taken = rw (found, insert) (rw (taken, insert_old) refl)

  -- A key in the cache: its value is returned, no constructor runs, and its entry moves to the
  -- front. The invariant holds again.
  pub insert_hit :
      (id : ℕ)
      → IsValid (get s)
      → m.find key (get s).links ≡ some id
      → (v : V) × (c : Lru m V) × (insert get put key construct s ≡ ok (v, false) (put c s))
        × IsValid c
        × (lookup key (view (get s).entries) ≡ some v)
        × (view c.entries ≡ (key, v) ∷ remove key (view (get s).entries))
        × (c.max_size ≡ (get s).max_size)
  unfolding to_front
  insert_hit id valid found =
      let (x, rest, t, e) = id_of-Taken key id (get s).entries (sym (valid.linked key) ∙ found) in
      let taken = (take_node-Taken key t valid.distinct).0 in
      (
        x.val,
        to_front key x rest (get s),
        insert_found id x rest found (rw e at taken),
        to_front-IsValid (get s) key valid t (rw e found),
        lookup-Taken key t,
        ap₂ (λ k l. (k, x.val) ∷ l) (key-Taken key t) (view-Taken key t),
        refl,
      )

  pub insert_absent :
      (c : Lru m V)
      → m.find key (get s).links ≡ none
      → make_room (get s) ≡ some c
      → insert get put key construct s
        ≡ bind (construct (put c s)) (λ v s'. ok (v, true) (put (push_front key v (get s')) s'))
  unfolding insert insert_new
  insert_absent c absent room = rw (absent, insert) (rw (room, insert_new) refl)

  -- A key that is not in the cache, where the constructor returns `v` and leaves the cache alone:
  -- the entry stands in front of the most recent ones, the least recent one is dropped if the cache
  -- was full, and the invariant holds again.
  pub insert_miss :
      (c : Lru m V) (v : V) (s' : S)
      → IsValid (get s)
      → 0 < (get s).max_size
      → m.find key (get s).links ≡ none
      → make_room (get s) ≡ some c
      → construct (put c s) ≡ ok v s'
      → get s' ≡ c
      → (insert get put key construct s ≡ ok (v, true) (put (push_front key v c) s'))
        × IsValid (push_front key v c)
        × (view (push_front key v c).entries
            ≡ take (get s).max_size ((key, v) ∷ view (get s).entries))
  unfolding push_front
  insert_miss c v s' valid pos absent room built same =
      let (c', e, r, seen, size, gone) = make_room-HasRoom (get s) valid pos in
      let c'≡c = some-injective c' c (sym e ∙ room) in
      (
        insert_absent c absent room ∙ rw built (rw same refl),
        push_front-IsValid c key v (subst HasRoom c'≡c r)
            (subst (λ (d : Lru m V). m.find key d.links ≡ none) c'≡c (gone key absent)),
        taken_front (get s).max_size (key, v) (view (get s).entries) (view c.entries) pos
            (subst
              (λ (d : Lru m V). view d.entries ≡ take ((get s).max_size - 1) (view (get s).entries))
              c'≡c seen),
      )

  -- A constructor that throws: the exception passes on, and no entry is added.
  pub insert_throw :
      (c : Lru m V) (x : SimException) (s' : S)
      → m.find key (get s).links ≡ none
      → make_room (get s) ≡ some c
      → construct (put c s) ≡ throw x s'
      → insert get put key construct s ≡ throw x s'
  insert_throw c x s' absent room thrown = insert_absent c absent room ∙ rw thrown refl
