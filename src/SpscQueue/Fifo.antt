-- ===== src/SpscQueue/Fifo.antt =====
-- The ring called by one thread at a time.
use trading_matcher.Base.{
  ℕ, suc, ◌-◌, ◌<◌, ◌^◌, ◌≡◌, sym, ap, ap₂, ◌∙◌, ◌⊎◌, ◌↔◌, inl, inr, true, false, none, some, List,
  [], ◌∷◌, ◌++◌, arith, length,
}
use trading_matcher.SpscQueue.{
  Queue, write_slot, next_index, push, pop, is_full, is_empty, count, capacity,
}
use trading_matcher.SpscQueue.Mask.{step_index, next_index_lem}
use trading_matcher.SpscQueue.Window.{window, Ahead, length-window, window-write_slot, window-suc}

-- The size is a power of two greater than 1, and both positions are indices.
pub record IsRing {A : Type 0} (size : ℕ) (q : Queue A) : Type 0 where
  pub power : (k : ℕ) × (size ≡ 2 ^ k)
  pub several : 1 < size
  pub read_in : q.read_pos < size
  pub write_in : q.write_pos < size

module _ {A : Type 0} (size : ℕ) where
  abbrev pub contents : Queue A → List A
  contents q = window size q.buffer q.read_pos (count size q)

  pub count-Ahead : (q : Queue A) → IsRing size q → Ahead size q.read_pos (count size q) q.write_pos
  unfolding count
  count-Ahead q v = ground arith

  pub count-lt : (q : Queue A) → IsRing size q → count size q < size
  unfolding count
  count-lt q v = ground arith

  next : (q : Queue A) (i : ℕ) → IsRing size q → i < size → next_index size i ≡ step_index size i
  next q i v h = next_index_lem size v.power.0 i v.power.1 h

  pub push-IsRing : (q : Queue A) (x : A) → IsRing size q → IsRing size (push size q x).0
  unfolding push
  push-IsRing q x v = record {
    power = v.power;
    several = v.several;
    read_in = ground (arith, next q q.write_pos v);
    write_in = ground (arith, next q q.write_pos v);
  }

  pub pop-IsRing : (q : Queue A) → IsRing size q → IsRing size (pop size q).0
  unfolding pop
  pop-IsRing q v = record {
    power = v.power;
    several = v.several;
    read_in = ground (arith, next q q.read_pos v);
    write_in = ground (arith, next q q.read_pos v);
  }

  pushed : Queue A → A → Queue A
  pushed q x = record q {
    buffer = write_slot q.buffer q.write_pos x;
    write_pos = step_index size q.write_pos;
  }

  push_cases :
      (q : Queue A) (x : A)
      → IsRing size q
      → ((count size q ≡ size - 1) × (push size q x ≡ (q, false)))
        ⊎ ((count size q < size - 1)
            × (push size q x ≡ (pushed q x, true))
            × (count size (pushed q x) ≡ suc (count size q)))
  unfolding push count pushed
  push_cases q x v = ground (arith, next q q.write_pos v)

  contents-pushed :
      (q : Queue A) (x : A)
      → IsRing size q
      → count size (pushed q x) ≡ suc (count size q)
      → contents (pushed q x) ≡ contents q ++ x ∷ []
  unfolding pushed
  contents-pushed q x v e =
      let n = count size q in
      let b = write_slot q.buffer q.write_pos x in
      ap (window size b q.read_pos) e
      ∙ window-suc size b n q.read_pos q.write_pos v.read_in v.write_in (count-lt q v)
          (count-Ahead q v)
      ∙ ap₂ (λ l y. l ++ y ∷ [])
          (window-write_slot size q.buffer x n q.read_pos q.write_pos v.read_in v.write_in
            (count-lt q v) (count-Ahead q v))
          (ground arith)

  popped : Queue A → Queue A
  popped q = record q { read_pos = step_index size q.read_pos }

  pop_cases :
      (q : Queue A)
      → IsRing size q
      → ((count size q ≡ 0) × (pop size q ≡ (q, none)))
        ⊎ ((pop size q ≡ (popped q, some (q.buffer q.read_pos)))
            × (count size q ≡ suc (count size (popped q))))
  unfolding pop count popped
  pop_cases q v = ground (arith, next q q.read_pos v)

  contents-popped :
      (q : Queue A)
      → count size q ≡ suc (count size (popped q))
      → contents q ≡ q.buffer q.read_pos ∷ contents (popped q)
  unfolding popped
  contents-popped q e = ap (window size q.buffer q.read_pos) e

  -- `push` fails, changing nothing, exactly on a ring that holds `capacity` items; otherwise the item
  -- goes to the end.
  pub push_refines :
      (q : Queue A) (x : A)
      → IsRing size q
      → ((length (contents q) ≡ capacity size) × (push size q x ≡ (q, false)))
        ⊎ ((length (contents q) < capacity size)
            × ((push size q x).1 ≡ true)
            × (contents (push size q x).0 ≡ contents q ++ x ∷ []))
  unfolding capacity
  push_refines q x v = ground (
    arith,
    push_cases q x v,
    contents-pushed q x v,
    length-window size q.buffer q.read_pos (count size q),
  )

  -- `pop` fails, changing nothing, exactly on an empty ring; otherwise it takes the oldest item.
  pub pop_refines :
      (q : Queue A)
      → IsRing size q
      → ((contents q ≡ []) × (pop size q ≡ (q, none)))
        ⊎ ((x : A) × (contents q ≡ x ∷ contents (pop size q).0) × ((pop size q).1 ≡ some x))
  pop_refines q v = elim (pop_cases q v) [
    | inl (e, f) ↦ inl (ap (window size q.buffer q.read_pos) e, f)
    | inr (f, e) ↦ inr (q.buffer q.read_pos, rw f (contents-popped q e), rw f)
  ]

  -- `size`, `empty` and `full` say how many items the ring holds.
  pub count_lem :
      (q : Queue A)
      → IsRing size q
      → (count size q ≡ length (contents q))
        × ((is_empty q ≡ true) ↔ (length (contents q) ≡ 0))
        × ((is_full size q ≡ true) ↔ (length (contents q) ≡ capacity size))
  unfolding is_empty is_full count capacity
  count_lem q v =
      let n = length-window size q.buffer q.read_pos (count size q) in
      (sym n, ground (arith, n), ground (arith, n, next q q.write_pos v))
