-- ===== src/Keys/Complete.antt =====
-- src/ops/keys.rs: proofs about `load_keys_from_rows` as a whole.
use vectis.Base.{
  ℕ, zero, suc, ◌+◌, ◌≤◌, ◌<◌, ◌≡◌, inl, inr, refl, sym, ap, ◌∙◌, ◌&&◌, ◌||◌, List, [], ◌∷◌, map,
  some, none, arith, ltb, leb, ◌==◌, contains_char, length, get_elem?, replicate, length-replicate,
  length-map, min, max,
}
use vectis.Keys.State.{LoadedOpsKey, from_keys}
use vectis.Keys.Refine.{get_elem?-bound}
use vectis.Keys.Load.{
  Outcome, finished, refused, unjoined, Progress, skipped, range_from, flatten, empty_summary,
  run_tasks, load_keys_from_rows,
}
use vectis.Keys.Joins.{value, fails, fails_among, fails_below}
use vectis.Keys.Loading.{IsLoading, load_loop-IsLoading}

range_from-length : (start n : ℕ) → length (range_from start n) ≡ n
unfolding range_from
range_from-length start zero = refl
range_from-length start (suc n) = ap suc (range_from-length (suc start) n)

range_from-contains :
    (start n i : ℕ) → contains_char (range_from start n) i ≡ (leb start i && ltb i (start + n))
unfolding range_from
range_from-contains start zero i = ground arith
range_from-contains start (suc n) i =
    ap (λ z. (start == i) || z) (range_from-contains (suc start) n i) ∙ ground arith

replicate-get : {A : Type 0} (n i : ℕ) (a : A) → i < n → get_elem? (replicate n a) i ≡ some a
replicate-get zero i a h = absurd (omega arith)
replicate-get (suc n) zero a h = refl
replicate-get (suc n) (suc i) a h = replicate-get n i a (omega arith)

list_ext :
    {A : Type 0} (xs ys : List A)
    → length xs ≡ length ys
    → ((i : ℕ) (a : A) → get_elem? ys i ≡ some a → get_elem? xs i ≡ some a)
    → xs ≡ ys
list_ext [] [] n h = refl
list_ext [] (y ∷ ys) n h = absurd (omega arith)
list_ext (x ∷ xs) [] n h = absurd (omega arith)
list_ext (x ∷ xs) (y ∷ ys) n h =
    let head : some x ≡ some y = h 0 y refl in
    let tail = list_ext xs ys (omega arith) (λ i. h (suc i)) in cc

map-get :
    {A B : Type 0} (f : A → B) (xs : List A) (i : ℕ) {b : B}
    → get_elem? (map f xs) i ≡ some b
    → (a : A) × (get_elem? xs i ≡ some a) × (b ≡ f a)
map-get f [] i h = cc
map-get f (x ∷ xs) zero h = (x, refl, cc)
map-get f (x ∷ xs) (suc i) h = map-get f xs i h

module _ {M : Type 0} where
  -- The keys of the rows whose tasks end with a key, in the rows' order.
  unfoldable pub keys_of : List (Outcome M) → List (LoadedOpsKey M)
  keys_of [] = []
  keys_of (finished key ∷ outcomes) = key ∷ keys_of outcomes
  keys_of (refused ∷ outcomes) = keys_of outcomes
  keys_of (unjoined _ _ ∷ outcomes) = keys_of outcomes

  flatten-value : (outcomes : List (Outcome M)) → flatten (map value outcomes) ≡ keys_of outcomes
  unfolding flatten keys_of
  flatten-value [] = refl
  flatten-value (finished key ∷ outcomes) = ap (λ z. key ∷ z) (flatten-value outcomes)
  flatten-value (refused ∷ outcomes) = flatten-value outcomes
  flatten-value (unjoined _ _ ∷ outcomes) = flatten-value outcomes

  fails_below-cons :
      (o : Outcome M) (outcomes : List (Outcome M)) (n : ℕ)
      → fails_below (o ∷ outcomes) (suc n) ≡ fails (some o) + fails_below outcomes n
  unfolding fails_below
  fails_below-cons o outcomes zero = omega arith
  fails_below-cons o outcomes (suc n) = omega (arith, fails_below-cons o outcomes n)

  fails_or_key :
      (outcomes : List (Outcome M))
      → fails_below outcomes (length outcomes) + length (keys_of outcomes) ≡ length outcomes
  unfolding keys_of fails_below
  fails_or_key [] = omega arith
  fails_or_key (finished key ∷ outcomes) =
      omega
        (arith, fails_below-cons (finished key) outcomes (length outcomes), fails_or_key outcomes)
  fails_or_key (refused ∷ outcomes) =
      omega (arith, fails_below-cons refused outcomes (length outcomes), fails_or_key outcomes)
  fails_or_key (unjoined a b ∷ outcomes) =
      omega
        (arith, fails_below-cons (unjoined a b) outcomes (length outcomes), fails_or_key outcomes)

  range_from-fails :
      (outcomes : List (Outcome M)) (start n : ℕ)
      → fails_below outcomes start + fails_among outcomes (range_from start n)
        ≡ fails_below outcomes (start + n)
  unfolding range_from fails_among fails_below
  range_from-fails outcomes start zero =
      let e : start ≡ start + 0 = omega arith in omega arith ∙ ap (fails_below outcomes) e
  range_from-fails outcomes start (suc n) =
      let e : suc start + n ≡ start + suc n = omega arith in
      omega arith ∙ range_from-fails outcomes (suc start) n ∙ ap (fails_below outcomes) e

  start-IsLoading :
      (outcomes : List (Outcome M)) (limit : ℕ)
      → IsLoading outcomes
          (range_from 0 (min (max limit 1) (length outcomes)))
          (min (max limit 1) (length outcomes))
          (empty_summary (length outcomes), replicate (length outcomes) none)
  unfolding empty_summary skipped fails_below
  start-IsLoading outcomes limit =
      let first = min (max limit 1) (length outcomes) in
      let n = range_from-length 0 first in
      record {
        bound = omega arith;
        busy = λ q. omega (arith, n, q);
        size = length-replicate (length outcomes) none;
        total = refl;
        count =
            range_from-fails outcomes 0 first
            ∙ ap (fails_below outcomes) (let e : 0 + first ≡ first = omega arith in e);
        slots = λ i o h. inr (
          replicate-get (length outcomes) i none (get_elem?-bound outcomes i h),
          ground (arith, range_from-contains 0 first i),
        );
      }

  done_slot :
      (outcomes : List (Outcome M)) (p : Progress M)
      → IsLoading outcomes [] (length outcomes) p
      → (i : ℕ) (o : Outcome M) → get_elem? outcomes i ≡ some o
      → get_elem? p.1 i ≡ some (value o)
  done_slot outcomes p done i o h = elim (done.slots i o h) [
    | inl v ↦ v
    | inr v ↦ absurd (ground (arith, v.1, get_elem?-bound outcomes i h))
  ]

  -- For every limit on the tasks that run at once and every schedule with a choice for each row, the
  -- load ends with no task pending; the keys in memory are those of the rows whose tasks end with a
  -- key, in the rows' order, and every other row is counted as skipped.
  pub load_keys_from_rows_complete :
      (outcomes : List (Outcome M)) (limit : ℕ) (schedule : List ℕ)
      → length outcomes ≤ length schedule
      → ((run_tasks outcomes limit schedule).0 ≡ [])
        × ((load_keys_from_rows outcomes limit schedule).0 ≡ from_keys (keys_of outcomes))
        × ((load_keys_from_rows outcomes limit schedule).1.total ≡ length outcomes)
        × ((load_keys_from_rows outcomes limit schedule).1.loaded ≡ length (keys_of outcomes))
        × ((load_keys_from_rows outcomes limit schedule).1.total
            ≡ (load_keys_from_rows outcomes limit schedule).1.loaded
              + skipped (load_keys_from_rows outcomes limit schedule).1)
  unfolding load_keys_from_rows run_tasks skipped fails_among
  load_keys_from_rows_complete outcomes limit schedule h =
      let first = min (max limit 1) (length outcomes) in
      let n = range_from-length 0 first in
      let (empty, done) =
        load_loop-IsLoading outcomes schedule (range_from 0 first) first _ (omega (arith, n))
          (start-IsLoading outcomes limit) in
      let slots =
        list_ext (run_tasks outcomes limit schedule).1.1 (map value outcomes)
          (done.size ∙ sym (length-map value outcomes))
          (λ i a g.
            let (o, at, same) = map-get value outcomes i g in
            done_slot outcomes (run_tasks outcomes limit schedule).1 done i o at
            ∙ ap some (sym same)) in
      let keys = ap flatten slots ∙ flatten-value outcomes in
      let counted = fails_or_key outcomes in
      let k = ap length keys in
      (empty, ap from_keys keys, done.total, k, omega (arith, done.total, done.count, counted, k))
