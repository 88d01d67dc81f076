-- ===== src/Sim/Short.antt =====
-- The traces that TraceCache::refer of sim/sim.h gives are no longer than Trace's constructor reads.
use mathlib.Core.Path.{subst}
use mathlib.Core.Option.{some-injective}
use risc_v_simulator.Base.{
  ◌==◌, ltb, ℕ, zero, suc, ◌+◌, ◌≤◌, ◌≡◌, inl, inr, Bool, true, false, List, [], ◌∷◌, Bool-cases,
  u32, length, Option, some, arith,
}
use risc_v_simulator.Outcome.{Outcome, ok, throw, undefined, bind}
use risc_v_simulator.Ir.{Inst, is_terminator}
use risc_v_simulator.Lru.{
  HashMap, Lru, Node, back, pop_back, push_front, to_front, insert, insert_new, insert_old,
  make_room, take_node,
}
use risc_v_simulator.Lru.Front.{Option-cases}
use risc_v_simulator.State.{State, Trace, get_cmd}
use risc_v_simulator.Decoder.{decode}
use risc_v_simulator.Decoder.Tables.{Decoder, Decoded}
use risc_v_simulator.Trace.{
  lift, fetch_inst, fetch, create, refer, put_trace_cache, count_refer, max_rounds,
}
use risc_v_simulator.Sim.Counts.{IsShort, Steady, Counts, Counts-bind, get_cmd-Counts}

abbrev pub Fits : Trace → Type 0
Fits trace = length trace.insts ≤ max_rounds

pop_back-IsShort : (ns : List (Node Trace)) → IsShort ns → IsShort (pop_back ns)
unfolding pop_back
pop_back-IsShort [] h = tt
pop_back-IsShort (n ∷ []) h = tt
pop_back-IsShort (n ∷ n' ∷ ns) (h, k) = (h, pop_back-IsShort (n' ∷ ns) k)

abbrev found : Node Trace → List (Node Trace) → Option (Node Trace × List (Node Trace))
found n rest = some (n, rest)

taken :
    (y : Node Trace) (others : List (Node Trace)) (n : Node Trace) (rest : List (Node Trace))
    → Fits y.val × IsShort others
    → found y others ≡ found n rest
    → Fits n.val × IsShort rest
taken y others n rest h e =
    subst (λ p. Fits p.0.val × IsShort p.1) (some-injective (y, others) (n, rest) e) h

-- The node that is taken, and the others.
take_node-IsShort :
    (id : ℕ) (ns : List (Node Trace)) (n : Node Trace) (rest : List (Node Trace))
    → IsShort ns
    → take_node id ns ≡ some (n, rest)
    → Fits n.val × IsShort rest
unfolding take_node
take_node-IsShort id [] n rest h e = cc e
take_node-IsShort id (x ∷ ns) n rest h e = elim (Bool-cases (x.id == id)) [
  | inl here ↦ taken x ns n rest h (rw (here, take_node) at e)
  | inr there ↦ elim (Option-cases (take_node id ns)) [
    | inl f ↦ cc (rw (there, f) at e)
    | inr ((y, others), f) ↦
        let (k, l) = take_node-IsShort id ns y others h.1 f in
        taken y (x ∷ others) n rest (k, (h.0, l)) (rw (there, f) at e)
  ]
]

module _ {m : HashMap} where
  make_room-IsShort :
      (s : State m) (c : Lru m Trace)
      → IsShort s.trace_cache.entries
      → make_room s.trace_cache ≡ some c
      → IsShort c.entries
  unfolding make_room
  make_room-IsShort s c h e =
      elim (Bool-cases (ltb s.trace_cache.cur_size s.trace_cache.max_size)) [
        | inl free ↦
            subst (λ (k : Lru m Trace). IsShort k.entries) (some-injective _ c (rw free at e)) h
        | inr full ↦ elim (Option-cases (back s.trace_cache.entries)) [
          | inl f ↦ cc (rw (full, f) at e)
          | inr (n, f) ↦
              subst (λ (k : Lru m Trace). IsShort k.entries)
                (some-injective _ c (rw (full, f) at e)) (pop_back-IsShort s.trace_cache.entries h)
        ]
      ]

  -- Where the code returns a trace, it is short too.
  abbrev pub Gives : {A : Type 0} → (A → Trace) → ℕ → Outcome (State m) A → Type 0
  Gives f n (ok a s) = Fits (f a) × Steady n s
  Gives f n (throw e s) = Unit
  Gives f n undefined = Unit

  lift-Counts :
      {A : Type 0} (n : ℕ) (o : Decoded A) (s : State m) → Steady n s → Counts n (lift o s)
  unfolding lift
  lift-Counts n (Decoded.ok a) s h = h
  lift-Counts n (Decoded.throw e) s h = tt
  lift-Counts n Decoded.undefined s h = tt

  fetch_inst-Counts :
      (n : ℕ) (d : Decoder) (a : ℕ) (s : State m) → Steady n s → Counts n (fetch_inst d a s)
  unfolding fetch_inst
  fetch_inst-Counts n d a s h =
      Counts-bind n (get_cmd a s) _ (get_cmd-Counts n a s h)
        (λ w s' h'. lift-Counts n (decode d w) s' h')

  -- Instructions that are no more than the rounds.
  abbrev Reads : ℕ → ℕ → Outcome (State m) (List Inst) → Type 0
  Reads n rounds (ok insts s) = (length insts ≤ rounds) × Steady n s
  Reads n rounds (throw e s) = Unit
  Reads n rounds undefined = Unit

  one_more :
      (n rounds : ℕ) (inst : Inst) (o : Outcome (State m) (List Inst))
      → Reads n rounds o
      → Reads n (suc rounds) (bind o (λ insts s'. ok (inst ∷ insts) s'))
  one_more n rounds inst (ok insts s) (h, k) = (omega (arith, h), k)
  one_more n rounds inst (throw e s) h = tt
  one_more n rounds inst undefined h = tt

  fetched :
      (n rounds : ℕ) (inst : Inst) (o : Outcome (State m) (List Inst)) (s : State m) (b : Bool)
      → Steady n s
      → Reads n rounds o
      → Reads n
          (suc rounds)
          (elim b [ true ↦ ok (inst ∷ []) s | false ↦ bind o (λ insts s'. ok (inst ∷ insts) s') ])
  fetched n rounds inst o s true h k = (omega arith, h)
  fetched n rounds inst o s false h k = one_more n rounds inst o k

  Reads-bind :
      {A : Type 0} (n rounds : ℕ) (o : Outcome (State m) A)
      (k : A → State m → Outcome (State m) (List Inst))
      → Counts n o
      → ((a : A) (s : State m) → Steady n s → Reads n rounds (k a s))
      → Reads n rounds (bind o k)
  Reads-bind n rounds (ok a s) k h f = f a s h
  Reads-bind n rounds (throw e s) k h f = tt
  Reads-bind n rounds undefined k h f = tt

  fetch-Reads :
      (n rounds : ℕ) (d : Decoder) (a : ℕ) (s : State m)
      → Steady n s
      → Reads n rounds (fetch rounds d a s)
  unfolding fetch
  fetch-Reads n zero d a s h = tt
  fetch-Reads n (suc rounds) d a s h =
      let rest = fetch-Reads n rounds d (u32 (a + 4)) in
      Reads-bind n (suc rounds) (fetch_inst d a s) _ (fetch_inst-Counts n d a s h) (λ inst s' h'.
        fetched n rounds inst (fetch rounds d (u32 (a + 4)) s') s' (is_terminator inst) h'
          (rest s' h'))

  create_from :
      (n : ℕ) (o : Outcome (State m) (List Inst))
      → Reads n max_rounds o
      → Gives (λ t. t) n (bind o (λ insts s'. ok (record { insts = insts }) s'))
  create_from n (ok insts s) h = h
  create_from n (throw e s) h = tt
  create_from n undefined h = tt

  create-Gives : (n : ℕ) (d : Decoder) (s : State m) → Steady n s → Gives (λ t. t) n (create d s)
  unfolding create
  create-Gives n d s h =
      create_from n (fetch max_rounds d s.pc s) (fetch-Reads n max_rounds d s.pc s h)

  pushed :
      (n a : ℕ) (o : Outcome (State m) Trace)
      → Gives (λ t. t) n o
      → Gives
          (λ (t, b). t)
          n
          (bind o (λ v s'. ok (v, true) (put_trace_cache (push_front a v s'.trace_cache) s')))
  unfolding put_trace_cache push_front
  pushed n a (ok t s) (k, h) = (k, (h.0, (k, h.1)))
  pushed n a (throw e s) h = tt
  pushed n a undefined h = tt

  insert_new-Gives :
      (n : ℕ) (d : Decoder) (a : ℕ) (s : State m)
      → Steady n s
      → Gives (λ (t, b). t) n (insert_new (λ s. s.trace_cache) put_trace_cache a (create d) s)
  unfolding insert_new put_trace_cache
  insert_new-Gives n d a s h = elim (Option-cases (make_room s.trace_cache)) [
    | inl e ↦ rw (e, insert_new) tt
    | inr (c, e) ↦
        rw (e, insert_new)
          (pushed n a (create d (record s { trace_cache = c }))
            (create-Gives n d (record s { trace_cache = c }) (h.0, make_room-IsShort s c h.1 e)))
  ]

  insert_old-Gives :
      (n : ℕ) (a id : ℕ) (s : State m)
      → Steady n s
      → Gives (λ (t, b). t) n (insert_old (λ s. s.trace_cache) put_trace_cache a id s)
  unfolding insert_old put_trace_cache to_front
  insert_old-Gives n a id s h = elim (Option-cases (take_node id s.trace_cache.entries)) [
    | inl e ↦ rw (e, insert_old) tt
    | inr ((x, others), e) ↦
        let (k, l) = take_node-IsShort id s.trace_cache.entries x others h.1 e in
        rw (e, insert_old) (k, (h.0, (k, l)))
  ]

  insert-Gives :
      (n : ℕ) (d : Decoder) (a : ℕ) (s : State m)
      → Steady n s
      → Gives (λ (t, b). t) n (insert (λ s. s.trace_cache) put_trace_cache a (create d) s)
  unfolding insert
  insert-Gives n d a s h = elim (Option-cases (m.find a s.trace_cache.links)) [
    | inl e ↦ rw (e, insert) (insert_new-Gives n d a s h)
    | inr (id, e) ↦ rw (e, insert) (insert_old-Gives n a id s h)
  ]

  referred :
      (n : ℕ) (o : Outcome (State m) (Trace × Bool))
      → Gives (λ (t, b). t) n o
      → Gives (λ t. t) n (bind o (λ (trace, missed) s'. ok trace (count_refer missed s')))
  unfolding count_refer
  referred n (ok t s) h = h
  referred n (throw e s) h = tt
  referred n undefined h = tt

  pub refer-Gives :
      (n : ℕ) (d : Decoder) (a : ℕ) (s : State m) → Steady n s → Gives (λ t. t) n (refer d a s)
  unfolding refer
  refer-Gives n d a s h =
      referred n (insert (λ s. s.trace_cache) put_trace_cache a (create d) s)
        (insert-Gives n d a s h)
