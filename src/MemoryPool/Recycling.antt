-- ===== src/MemoryPool/Recycling.antt =====
-- The slots that a program gets from the pool.
use trading_matcher.Base.{
  ℕ, suc, ◌+◌, ◌%◌, ◌^◌, ◌≤◌, ◌<◌, ◌≡◌, refl, ap, List, [], ◌∷◌, arith, ltb, In, Distinct,
  Bool-cases, true, false, inl, inr,
}
use trading_matcher.MemoryPool.{MemoryPool, Place, allocate, deallocate}

-- A program's calls, in order.
pub data Use : Type 0 where
  take : Use  -- `allocate`
  give : (order : Place) → Use  -- `deallocate(order)`

-- The places that a run of the program gets.
pub places : ℕ → MemoryPool → List Use → List Place
places size p [] = []
places size p (take ∷ uses) = let (p', place) = allocate size p in place ∷ places size p' uses
places size p (give order ∷ uses) = places size (deallocate p order) uses

-- The slots among places.
pub slots : List Place → List ℕ
slots [] = []
slots (Place.pooled i ∷ rest) = i ∷ slots rest
slots (Place.heaped n ∷ rest) = slots rest

-- All numbers of the list are at least `n` and below `size`.
abbrev pub From : ℕ → ℕ → List ℕ → Type 0
From n size [] = Unit
From n size (i ∷ is) = (n ≤ i) × (i < size) × From n size is

From-absent : (n size i : ℕ) (is : List ℕ) → i < n → From n size is → ¬ In i is
From-absent n size i [] h f m = m
From-absent n size i (j ∷ js) h f m = ground (arith, From-absent n size i js h f.2, m)

From-weaken : (n m size : ℕ) (is : List ℕ) → m ≤ n → From n size is → From m size is
From-weaken n m size [] h f = tt
From-weaken n m size (i ∷ is) h f = (omega arith, f.1, From-weaken n m size is h f.2)

abbrev pub takes : List Use → ℕ
takes [] = 0
takes (take ∷ uses) = suc (takes uses)
takes (give order ∷ uses) = takes uses

next_free-allocate :
    (size : ℕ) (p : MemoryPool) → (allocate size p).0.next_free ≡ (p.next_free + 1) % 2 ^ 64
unfolding allocate
next_free-allocate size p = ground arith

place-pooled :
    (size : ℕ) (p : MemoryPool)
    → p.next_free < size
    → (allocate size p).1 ≡ Place.pooled p.next_free
unfolding allocate
place-pooled size p h = let e : ltb p.next_free size ≡ true = ground arith in rw e refl

place-heaped :
    (size : ℕ) (p : MemoryPool) → size ≤ p.next_free → (allocate size p).1 ≡ Place.heaped p.news
unfolding allocate
place-heaped size p h = let e : ltb p.next_free size ≡ false = ground arith in rw e refl

slots-pooled :
    (size : ℕ) (p : MemoryPool) (uses : List Use)
    → p.next_free < size
    → slots (places size p (take ∷ uses))
      ≡ p.next_free ∷ slots (places size (allocate size p).0 uses)
unfolding places slots
slots-pooled size p uses h =
    ap (λ place. slots (place ∷ places size (allocate size p).0 uses)) (place-pooled size p h)

slots-heaped :
    (size : ℕ) (p : MemoryPool) (uses : List Use)
    → size ≤ p.next_free
    → slots (places size p (take ∷ uses)) ≡ slots (places size (allocate size p).0 uses)
unfolding places slots
slots-heaped size p uses h =
    ap (λ place. slots (place ∷ places size (allocate size p).0 uses)) (place-heaped size p h)

-- Whatever a program allocates and gives back, in any order, as long as the counter does not wrap: it
-- gets each slot of the pool at most once, from the first free one on, and none that the pool does not
-- have, even if it has given slots back.
pub fresh_slots :
    (size : ℕ) (p : MemoryPool) (uses : List Use)
    → size < 2 ^ 64
    → p.next_free + takes uses < 2 ^ 64
    → From p.next_free size (slots (places size p uses)) × Distinct (slots (places size p uses))
unfolding places slots deallocate
fresh_slots size p [] h k = (tt, tt)
fresh_slots size p (take ∷ uses) h k =
    let n = next_free-allocate size p in
    let rest = fresh_slots size (allocate size p).0 uses h (omega (arith, n)) in
    let later : From (p.next_free + 1) size (slots (places size (allocate size p).0 uses)) =
      From-weaken _ (p.next_free + 1) size _ (omega (arith, n)) rest.0 in
    elim (Bool-cases (ltb p.next_free size)) [
      | inl e ↦ rw (slots-pooled size p uses (ground arith)) (
        (omega arith, ground arith, From-weaken _ p.next_free size _ (omega arith) later),
        (From-absent (p.next_free + 1) size p.next_free _ (omega arith) later, rest.1),
      )
      | inr e ↦
          rw (slots-heaped size p uses (ground arith))
            (From-weaken _ p.next_free size _ (omega arith) later, rest.1)
    ]
fresh_slots size p (give (Place.pooled i) ∷ uses) h k =
    fresh_slots size (deallocate p (Place.pooled i)) uses h k
fresh_slots size p (give (Place.heaped i) ∷ uses) h k =
    fresh_slots size (deallocate p (Place.heaped i)) uses h k
