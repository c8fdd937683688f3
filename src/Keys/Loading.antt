-- ===== src/Keys/Loading.antt =====
-- src/ops/keys.rs: proofs about the order in which loading tasks end.
use vectis.Base.{
  ℕ, suc, ◌+◌, ◌-◌, ◌≤◌, ◌<◌, ◌≡◌, ◌⊎◌, inl, inr, refl, sym, ◌∙◌, true, ◌||◌, List, [], ◌∷◌, ◌++◌,
  some, none, arith, ltb, leb, ltb→lt, ◌==◌, ==_iff, Bool-cases, contains_char, length, get_elem?,
  length-append,
}
use mathlib.Core.Path.{subst}
use vectis.Keys.Load.{Outcome, Progress, skipped, pick, join_row, load_loop}
use vectis.Keys.Joins.{
  value, fails_among, fails_below, pick-contains, pick-fails, pick-length, fails_among-append,
  contains_char-append, join_row-skipped, join_row-size, join_row-own, join_row-other,
  join_row-total,
}

module _ {M : Type 0} (outcomes : List (Outcome M)) where
  -- The loop's invariant: a slot holds its row's key once the row's task is joined.
  pub record IsLoading (pending : List ℕ) (next : ℕ) (p : Progress M) : Type 0 where
    pub bound : next ≤ length outcomes
    pub busy : next < length outcomes → 0 < length pending
    pub size : length p.1 ≡ length outcomes
    pub total : p.0.total ≡ length outcomes
    pub count : skipped p.0 + fails_among outcomes pending ≡ fails_below outcomes next
    pub slots :
        (i : ℕ) (o : Outcome M)
        → get_elem? outcomes i ≡ some o
        → (get_elem? p.1 i ≡ some (value o))
          ⊎ ((get_elem? p.1 i ≡ some none) × (contains_char pending i || leb next i ≡ true))

  joined-slots :
      (pending : List ℕ) (x next : ℕ) (rest : List ℕ) (p : Progress M)
      → ((i : ℕ) → contains_char pending i ≡ (x == i || contains_char rest i))
      → IsLoading pending next p
      → (i : ℕ) (o : Outcome M) → get_elem? outcomes i ≡ some o
      → (get_elem? (join_row outcomes p x).1 i ≡ some (value o))
        ⊎ ((get_elem? (join_row outcomes p x).1 i ≡ some none)
            × (contains_char rest i || leb next i ≡ true))
  joined-slots pending x next rest p c s i o h = elim (Bool-cases (x == i)) [
    | inl e ↦
        let same = (==_iff x i).0 e in
        inl (
          subst (λ z. get_elem? (join_row outcomes p z).1 i ≡ some (value o)) (sym same)
            (join_row-own outcomes p i o h
              (elim (s.slots i o h) [ inl v ↦ inl v | inr v ↦ inr v.0 ])))
    | inr e ↦
        let other = join_row-other outcomes p x i (λ q. ground (arith, ==_iff x i)) in
        elim (s.slots i o h) [
          | inl v ↦ inl (other ∙ v)
          | inr v ↦ inr (other ∙ v.0, ground (arith, c i, v.1))
        ]
  ]

  -- A schedule with a choice for every task that is pending or still to come empties the queue.
  pub load_loop-IsLoading :
      (schedule pending : List ℕ) (next : ℕ) (p : Progress M)
      → length pending + (length outcomes - next) ≤ length schedule
      → IsLoading pending next p
      → ((load_loop outcomes schedule pending next p).0 ≡ [])
        × IsLoading [] (length outcomes) (load_loop outcomes schedule pending next p).1
  unfolding load_loop fails_among fails_below
  load_loop-IsLoading schedule [] next p m s =
      let all_spawned : next ≡ length outcomes = ground (arith, s.bound, s.busy) in
      (refl, subst (λ z. IsLoading [] z p) all_spawned s)
  load_loop-IsLoading [] (task ∷ tasks) next p m s = absurd (omega arith)
  load_loop-IsLoading (choice ∷ schedule) (task ∷ tasks) next p m s =
      let picked = pick choice task tasks in
      let n = pick-length choice task tasks in
      let f = pick-fails outcomes choice task tasks in
      let k = join_row-skipped outcomes p picked.0 in
      let still =
        joined-slots (task ∷ tasks) picked.0 next picked.1 p
          (λ i. pick-contains choice task i tasks) s in
      elim (Bool-cases (ltb next (length outcomes))) [
        | inl e ↦
            rw (load_loop, e)
              (load_loop-IsLoading schedule (picked.1 ++ next ∷ []) (suc next)
                (join_row outcomes p picked.0)
                (omega
                  (arith, n, length-append picked.1 (next ∷ []), ltb→lt next (length outcomes) e))
                (record {
                  bound = ground arith;
                  busy = λ _. omega (arith, length-append picked.1 (next ∷ []));
                  size = join_row-size outcomes p picked.0 ∙ s.size;
                  total = join_row-total outcomes p picked.0 ∙ s.total;
                  count = omega (arith, k, f, s.count, fails_among-append outcomes picked.1 next);
                  slots = λ i o h. elim (still i o h) [
                    | inl v ↦ inl v
                    | inr v ↦ inr (v.0, ground (arith, contains_char-append picked.1 next i, v.1))
                  ];
                }))
        | inr e ↦
            rw (load_loop, e)
              (load_loop-IsLoading schedule picked.1 next (join_row outcomes p picked.0)
                (omega (arith, n, m))
                (record {
                  bound = s.bound;
                  busy = λ q. absurd (ground arith);
                  size = join_row-size outcomes p picked.0 ∙ s.size;
                  total = join_row-total outcomes p picked.0 ∙ s.total;
                  count = omega (arith, k, f, s.count);
                  slots = still;
                }))
      ]
