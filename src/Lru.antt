-- ===== src/Lru.antt =====
-- LRUCache of sim/common.h. A list node has an identity, so that the iterators that `links` holds
-- are the numbers of nodes. The hash map (sim/robin_hood.h, a copy of another project) is a
-- parameter: a record of the calls that the cache makes, with what each is documented to do.
pub mod Nodes
pub mod Laws
pub mod Insert
pub mod Front
use risc_v_simulator.Base.{
  ℕ, suc, ◌+◌, ◌≡◌, Bool, true, false, Option, none, some, List, [], ◌∷◌, ltb, ◌==◌, if◌then◌else◌,
}
use risc_v_simulator.Outcome.{Outcome, ok, undefined, Exec, ◌>>=◌, ◌>>◌, bind, gets, modify, return}

-- unordered_map<uint32_t, iterator>. `assign` is a write through a found position.
pub record HashMap : Type 1 where
  pub Carrier : Type 0
  pub empty : Carrier
  pub find : ℕ → Carrier → Option ℕ
  pub insert : ℕ → ℕ → Carrier → Carrier
  pub assign : ℕ → ℕ → Carrier → Carrier
  pub erase : ℕ → Carrier → Carrier
  pub find-empty : (j : ℕ) → find j empty ≡ none
  pub find-insert :
      (j k v : ℕ) (t : Carrier)
      → find k t ≡ none
      → find j (insert k v t) ≡ (if j == k then some v else find j t)
  pub find-assign :
      (j k v w : ℕ) (t : Carrier)
      → find k t ≡ some w
      → find j (assign k v t) ≡ (if j == k then some v else find j t)
  pub find-erase :
      (j k : ℕ) (t : Carrier) → find j (erase k t) ≡ (if j == k then none else find j t)

pub record Node (V : Type 0) : Type 0 where
  pub id : ℕ
  pub key : ℕ
  pub val : V

pub record Lru (m : HashMap) (V : Type 0) : Type 0 where
  pub entries : List (Node V)
  pub links : m.Carrier
  pub max_size : ℕ
  pub cur_size : ℕ
  -- The identity of the next node.
  pub fresh : ℕ

module _ {V : Type 0} where
  -- The node of an identity, and the list without it.
  unfoldable pub take_node : ℕ → List (Node V) → Option (Node V × List (Node V))
  take_node id [] = none
  take_node id (n ∷ ns) =
      if n.id == id
      then some (n, ns)
      else elim (take_node id ns) [ none ↦ none | some (x, rest) ↦ some (x, n ∷ rest) ]

  unfoldable pub back : List (Node V) → Option (Node V)
  back [] = none
  back (n ∷ []) = some n
  back (n ∷ n' ∷ ns) = back (n' ∷ ns)

  unfoldable pub pop_back : List (Node V) → List (Node V)
  pop_back [] = []
  pop_back (n ∷ []) = []
  pop_back (n ∷ n' ∷ ns) = n ∷ pop_back (n' ∷ ns)

module _ {m : HashMap} {V : Type 0} where
  -- The constructor, and clear().
  unfoldable pub create : ℕ → Lru m V
  create size = record { entries = []; links = m.empty; max_size = size; cur_size = 0; fresh = 0 }

  unfoldable pub clear : Lru m V → Lru m V
  clear c = record c { entries = []; links = m.empty; cur_size = 0 }

  -- The space for a new entry. `back()` of an empty list is undefined.
  unfoldable pub make_room : Lru m V → Option (Lru m V)
  make_room c =
      if ltb c.cur_size c.max_size
      then some (record c { cur_size = c.cur_size + 1 })
      else elim (back c.entries) [
        | none ↦ none
        | some n ↦ some (record c { links = m.erase n.key c.links; entries = pop_back c.entries })
      ]

  -- emplace_front and links_.insert.
  unfoldable pub push_front : ℕ → V → Lru m V → Lru m V
  push_front key v c = record c {
    entries = record { id = c.fresh; key = key; val = v } ∷ c.entries;
    links = m.insert key c.fresh c.links;
    fresh = suc c.fresh;
  }

  -- splice to the front, and the write of entries_.begin() through the found position.
  unfoldable pub to_front : ℕ → Node V → List (Node V) → Lru m V → Lru m V
  to_front key n rest c = record c { entries = n ∷ rest; links = m.assign key n.id c.links }

  -- insert(key, args...). The cache lies in a state `S`, in which the new value's constructor runs.
  module _ {S : Type 0} (get : S → Lru m V) (put : Lru m V → S → S) where
    unfoldable pub insert_new : ℕ → Exec S V → Exec S (V × Bool)
    insert_new key construct s = elim (make_room (get s)) [
      | none ↦ undefined
      | some c ↦
          bind (construct (put c s)) (λ v s'. ok (v, true) (put (push_front key v (get s')) s'))
    ]

    unfoldable pub insert_old : ℕ → ℕ → Exec S (V × Bool)
    insert_old key id s = elim (take_node id (get s).entries) [
      | none ↦ undefined
      | some (n, rest) ↦ ok (n.val, false) (put (to_front key n rest (get s)) s)
    ]

    unfoldable pub insert : ℕ → Exec S V → Exec S (V × Bool)
    insert key construct s = elim (m.find key (get s).links) [
      | none ↦ insert_new key construct s
      | some id ↦ insert_old key id s
    ]
