-- ===== src/Lru/Front.antt =====
-- The cache after an insert that succeeds.
use mathlib.Core.Path.{subst}
use risc_v_simulator.Base.{
  ℕ, ◌<◌, ◌≡◌, refl, ap, sym, ◌∙◌, ◌⊎◌, inl, inr, Bool, true, false, Option, none, some, List, [],
  ◌∷◌, arith,
}
use risc_v_simulator.Outcome.{Outcome, ok, Exec, bind-eq-ok}
use risc_v_simulator.Lru.{HashMap, Node, Lru, push_front, insert}
use risc_v_simulator.Lru.Nodes.{id_of, view, remove}
use risc_v_simulator.Lru.Laws.{IsValid, make_room-HasRoom}
use risc_v_simulator.Lru.Insert.{insert_hit, insert_miss, insert_absent}

pub Option-cases : {A : Type 0} (o : Option A) → (o ≡ none) ⊎ ((a : A) × (o ≡ some a))
Option-cases none = inl refl
Option-cases (some a) = inr (a, refl)

-- The cache is valid, and its most recent entry is `v` for `key`.
pub record IsFront {m : HashMap} {V : Type 0} (key : ℕ) (v : V) (size : ℕ) (c : Lru m V)
    : Type 0 where
  pub valid : IsValid c
  pub older : List (ℕ × V)
  pub front : view c.entries ≡ (key, v) ∷ older
  pub same_size : c.max_size ≡ size

id_of-front :
    {V : Type 0} (key : ℕ) (v : V) (l : List (Node V)) (older : List (ℕ × V))
    → view l ≡ (key, v) ∷ older
    → (id : ℕ) × (id_of key l ≡ some id)
unfolding id_of
id_of-front key v [] older h = cc
id_of-front key v (n ∷ ns) older h = (n.id, ground arith)

-- So the key is found.
pub IsFront-found :
    {m : HashMap} {V : Type 0} (key : ℕ) (v : V) (size : ℕ) (c : Lru m V)
    → IsFront key v size c
    → (id : ℕ) × (m.find key c.links ≡ some id)
IsFront-found key v size c f =
    let (id, e) = id_of-front key v c.entries f.older f.front in (id, f.valid.linked key ∙ e)

ok-injective :
    {S A : Type 0} (a a' : A) (b b' : Bool) (s s' : S)
    → ◌≡◌ {A = Outcome S (A × Bool)} (ok (a, b) s) (ok (a', b') s')
    → (a ≡ a') × (s ≡ s')
ok-injective a a' b b' s s' h = ground arith

module _ {m : HashMap} {V S : Type 0} (get : S → Lru m V) (put : Lru m V → S → S)
    (get-put : (c : Lru m V) (s : S) → get (put c s) ≡ c) (key : ℕ) (construct : Exec S V)
    (frame : (s : S) (v : V) (s' : S) → construct s ≡ ok v s' → get s' ≡ get s) (s : S)
    (valid : IsValid (get s)) (pos : 0 < (get s).max_size) where
  IsFront-of_hit :
      (id : ℕ) (v : V) (b : Bool) (s' : S)
      → m.find key (get s).links ≡ some id
      → insert get put key construct s ≡ ok (v, b) s'
      → IsFront key v (get s).max_size (get s')
  IsFront-of_hit id v b s' found h =
      let (w, c, e, ok_c, _, seen, size) = insert_hit get put key construct s id valid found in
      let (same, state) = ok-injective w v false b (put c s) s' (sym e ∙ h) in
      subst (λ t. IsFront key v (get s).max_size (get t)) state
        (subst (IsFront key v (get s).max_size) (sym (get-put c s)) (record {
          valid = ok_c;
          older = remove key (view (get s).entries);
          front =
              subst (λ x. view c.entries ≡ (key, x) ∷ remove key (view (get s).entries)) same seen;
          same_size = size;
        }))

  IsFront-of_miss :
      (v : V) (b : Bool) (s' : S)
      → m.find key (get s).links ≡ none
      → insert get put key construct s ≡ ok (v, b) s'
      → IsFront key v (get s).max_size (get s')
  unfolding push_front
  IsFront-of_miss v b s' absent h =
      let (c, room, _, _, size, _) = make_room-HasRoom (get s) valid pos in
      let (w, t, built, rest) =
        bind-eq-ok (construct (put c s)) _
          (sym (insert_absent get put key construct s c absent room) ∙ h) in
      let kept = frame (put c s) w t built ∙ get-put c s in
      let (_, ok_c, _) =
        insert_miss get put key construct s c w t valid pos absent room built kept in
      let (same, state) = ok-injective w v true b (put (push_front key w (get t)) t) s' rest in
      subst (λ u. IsFront key v (get s).max_size (get u)) state
        (subst (IsFront key v (get s).max_size)
          (sym (get-put (push_front key w (get t)) t ∙ ap (push_front key w) kept))
          (subst (λ x. IsFront key x (get s).max_size (push_front key w c)) same
            (record { valid = ok_c; older = view c.entries; front = refl; same_size = size })))

  -- Whichever branch it takes, an insert that succeeds leaves a valid cache with the returned value
  -- in front, provided that the value's constructor leaves the cache alone.
  pub insert-IsFront :
      (v : V) (b : Bool) (s' : S)
      → insert get put key construct s ≡ ok (v, b) s'
      → IsFront key v (get s).max_size (get s')
  insert-IsFront v b s' h = elim (Option-cases (m.find key (get s).links)) [
    | inl absent ↦ IsFront-of_miss v b s' absent h
    | inr (id, found) ↦ IsFront-of_hit id v b s' found h
  ]
