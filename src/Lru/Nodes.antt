-- ===== src/Lru/Nodes.antt =====
-- The list of nodes: identities, keys, and what a reader of the cache sees of it.
use mathlib.Core.Path.{subst}
use mathlib.Core.Option.{some-injective}
use risc_v_simulator.Base.{
  ℕ, suc, ◌<◌, ◌≡◌, ◌≢◌, refl, ap, sym, inl, inr, Option, none, some, List, [], ◌∷◌, ◌==◌,
  if◌then◌else◌, All, length, take, Bool-cases, arith,
}
use risc_v_simulator.Lru.{Node, take_node, back, pop_back}

module _ {V : Type 0} where
  abbrev pub NoId : ℕ → List (Node V) → Type 0
  NoId id = All (λ n. n.id ≢ id)

  abbrev pub NoKey : ℕ → List (Node V) → Type 0
  NoKey key = All (λ n. n.key ≢ key)

  abbrev pub Below : ℕ → List (Node V) → Type 0
  Below fresh = All (λ n. n.id < fresh)

  -- No identity and no key twice.
  abbrev pub Distinct : List (Node V) → Type 0
  Distinct [] = Unit
  Distinct (n ∷ ns) = NoId n.id ns × NoKey n.key ns × Distinct ns

  unfoldable pub id_of : ℕ → List (Node V) → Option ℕ
  id_of k [] = none
  id_of k (n ∷ ns) = if k == n.key then some n.id else id_of k ns

  -- The entries as pairs, most recent first.
  abbrev pub view : List (Node V) → List (ℕ × V)
  view [] = []
  view (n ∷ ns) = (n.key, n.val) ∷ view ns

abbrev pub lookup : {V : Type 0} → ℕ → List (ℕ × V) → Option V
lookup k [] = none
lookup k ((j, v) ∷ l) = if k == j then some v else lookup k l

abbrev pub remove : {V : Type 0} → ℕ → List (ℕ × V) → List (ℕ × V)
remove k [] = []
remove k ((j, v) ∷ l) = if k == j then l else (j, v) ∷ remove k l

module _ {V : Type 0} where
  pub id_of-NoKey : (k : ℕ) (l : List (Node V)) → id_of k l ≡ none → NoKey k l
  unfolding id_of
  id_of-NoKey k [] h = tt
  id_of-NoKey k (n ∷ ns) h = (ground arith, id_of-NoKey k ns (ground arith))

  pub NoKey-id_of : (k : ℕ) (l : List (Node V)) → NoKey k l → id_of k l ≡ none
  unfolding id_of
  NoKey-id_of k [] h = refl
  NoKey-id_of k (n ∷ ns) h = ground (arith, NoKey-id_of k ns)

-- `x` is the node of key `k`, and `rest` the list without it.
pub data Taken {V : Type 0} (k : ℕ) : List (Node V) → Node V → List (Node V) → Type 0 where
  first : {n : Node V} {ns : List (Node V)} → k ≡ n.key → Taken k (n ∷ ns) n ns
  later :
      {n x : Node V} {ns rest : List (Node V)}
      → k ≢ n.key
      → Taken k ns x rest
      → Taken k (n ∷ ns) x (n ∷ rest)

module _ {V : Type 0} (k : ℕ) where
  pub id_of-Taken :
      (id : ℕ) (l : List (Node V))
      → id_of k l ≡ some id
      → (x : Node V) × (rest : List (Node V)) × Taken k l x rest × (x.id ≡ id)
  unfolding id_of
  id_of-Taken id [] h = cc
  id_of-Taken id (n ∷ ns) h = elim (Bool-cases (k == n.key)) [
    | inl here ↦ (n, ns, first (ground arith), ground arith)
    | inr there ↦
        let (x, rest, t, e) = id_of-Taken id ns (ground arith) in
        (x, n ∷ rest, later (ground arith) t, e)
  ]

  -- What holds of every node holds of the one taken and of the rest.
  pub All-Taken :
      (P : Node V → Type 0) {l rest : List (Node V)} {x : Node V}
      → Taken k l x rest
      → All P l
      → P x × All P rest
  All-Taken P (first e) h = h
  All-Taken P (later e t) h = let r = All-Taken P t h.1 in (r.0, (h.0, r.1))

  pub key-Taken : {l rest : List (Node V)} {x : Node V} → Taken k l x rest → x.key ≡ k
  key-Taken (first e) = sym e
  key-Taken (later e t) = key-Taken t

  pub length-Taken :
      {l rest : List (Node V)} {x : Node V} → Taken k l x rest → length l ≡ suc (length rest)
  length-Taken (first e) = refl
  length-Taken (later e t) = ap suc (length-Taken t)

  pub view-Taken :
      {l rest : List (Node V)} {x : Node V} → Taken k l x rest → view rest ≡ remove k (view l)
  view-Taken (first e) = ground arith
  view-Taken (later e t) = ground (arith, view-Taken t)

  pub lookup-Taken :
      {l rest : List (Node V)} {x : Node V} → Taken k l x rest → lookup k (view l) ≡ some x.val
  lookup-Taken (first e) = ground arith
  lookup-Taken (later e t) = ground (arith, lookup-Taken t)

  pub id_of-rest :
      (j : ℕ) {l rest : List (Node V)} {x : Node V}
      → Taken k l x rest
      → j ≢ k
      → id_of j rest ≡ id_of j l
  unfolding id_of
  id_of-rest j (first e) h = ground arith
  id_of-rest j (later e t) h = ground (arith, id_of-rest j t h)

  -- The identity finds the node, and nothing of the rest shares its identity or key.
  pub take_node-Taken :
      {l rest : List (Node V)} {x : Node V}
      → Taken k l x rest
      → Distinct l
      → (take_node x.id l ≡ some (x, rest)) × NoId x.id rest × NoKey x.key rest × Distinct rest
  unfolding take_node
  take_node-Taken (first e) d = (ground arith, d.0, d.1, d.2)
  take_node-Taken {x} (later {n} e t) d =
      let (f, i, j, r) = take_node-Taken t d.2 in
      let a = All-Taken (λ y. y.id ≢ n.id) t d.0 in
      let b = All-Taken (λ y. y.key ≢ n.key) t d.1 in
      (ground arith, (λ e'. a.0 (sym e'), i), (λ e'. b.0 (sym e'), j), (a.1, b.1, r))

module _ {V : Type 0} where
  -- The last node of a list that has one.
  pub back-some : (n : Node V) (ns : List (Node V)) → (x : Node V) × (back (n ∷ ns) ≡ some x)
  unfolding back
  back-some n [] = (n, refl)
  back-some n (n' ∷ ns) = back-some n' ns

  pub All-pop_back : (P : Node V → Type 0) (l : List (Node V)) → All P l → All P (pop_back l)
  unfolding pop_back
  All-pop_back P [] h = h
  All-pop_back P (n ∷ []) h = tt
  All-pop_back P (n ∷ n' ∷ ns) h = (h.0, All-pop_back P (n' ∷ ns) h.1)

  pub All-back :
      (P : Node V → Type 0) (l : List (Node V)) {x : Node V} → All P l → back l ≡ some x → P x
  unfolding back
  All-back P [] h e = cc
  All-back P (n ∷ []) h e = subst P (some-injective n _ e) h.0
  All-back P (n ∷ n' ∷ ns) h e = All-back P (n' ∷ ns) h.1 e

  pub Distinct-pop_back : (l : List (Node V)) → Distinct l → Distinct (pop_back l)
  unfolding pop_back
  Distinct-pop_back [] h = h
  Distinct-pop_back (n ∷ []) h = tt
  Distinct-pop_back (n ∷ n' ∷ ns) (a, b, d) = (
    All-pop_back (λ y. y.id ≢ n.id) (n' ∷ ns) a,
    All-pop_back (λ y. y.key ≢ n.key) (n' ∷ ns) b,
    Distinct-pop_back (n' ∷ ns) d,
  )

  pub length-pop_back : (n : Node V) (ns : List (Node V)) → length (pop_back (n ∷ ns)) ≡ length ns
  unfolding pop_back
  length-pop_back n [] = refl
  length-pop_back n (n' ∷ ns) = ap suc (length-pop_back n' ns)

  pub view-pop_back :
      (n : Node V) (ns : List (Node V))
      → view (pop_back (n ∷ ns)) ≡ take (length ns) (view (n ∷ ns))
  unfolding pop_back
  view-pop_back n [] = refl
  view-pop_back n (n' ∷ ns) = ap (◌∷◌ (n.key, n.val)) (view-pop_back n' ns)

  -- Dropping the last node hides its key and no other.
  pub id_of-pop_back :
      (j : ℕ) (l : List (Node V)) {x : Node V}
      → Distinct l
      → back l ≡ some x
      → id_of j (pop_back l) ≡ (if j == x.key then none else id_of j l)
  unfolding id_of pop_back back
  id_of-pop_back j [] d e = cc
  id_of-pop_back j (n ∷ []) d e = ground arith
  id_of-pop_back j (n ∷ n' ∷ ns) {x} d e =
      let ne = All-back (λ y. y.key ≢ n.key) (n' ∷ ns) d.1 e in
      ground (arith, id_of-pop_back j (n' ∷ ns) d.2 e)

pub length-view : {V : Type 0} (l : List (Node V)) → length (view l) ≡ length l
length-view [] = refl
length-view (n ∷ ns) = ap suc (length-view ns)

module _ {V : Type 0} where
  pub NoId-of_Below : (fresh : ℕ) (l : List (Node V)) → Below fresh l → NoId fresh l
  NoId-of_Below fresh [] h = tt
  NoId-of_Below fresh (n ∷ ns) h = (omega arith, NoId-of_Below fresh ns h.1)

  pub Below-suc : (fresh : ℕ) (l : List (Node V)) → Below fresh l → Below (suc fresh) l
  Below-suc fresh [] h = tt
  Below-suc fresh (n ∷ ns) h = (omega arith, Below-suc fresh ns h.1)
