-- ===== src/Benchmark/Sorted.antt =====
-- The sorted vector: ascending, with the entries of the vector, whatever their order was.
use mathlib.Core.List.{Perm, foldr}
use mathlib.Core.List.Perm
use trading_matcher.Base.{
  ℕ, zero, suc, ◌≤◌, ◌<◌, ◌≡◌, refl, sym, ap, ◌∙◌, inl, inr, ℤ, pos, leb_ℤ, ◌≤ℤ◌, eq_of_parts,
  Bool-cases, List, [], ◌∷◌, arith, length,
}
use trading_matcher.Benchmark.{insert, sort, get_or}

abbrev pub AllAtLeast : ℤ → List ℤ → Type 0
AllAtLeast x [] = Unit
AllAtLeast x (y ∷ ys) = (x ≤ℤ y) × AllAtLeast x ys

abbrev pub IsAscending : List ℤ → Type 0
IsAscending [] = Unit
IsAscending (x ∷ xs) = AllAtLeast x xs × IsAscending xs

AllAtLeast-trans : (x y : ℤ) (ys : List ℤ) → x ≤ℤ y → AllAtLeast y ys → AllAtLeast x ys
AllAtLeast-trans x y [] h a = tt
AllAtLeast-trans x y (z ∷ zs) h a = (omega (arith, a.0), AllAtLeast-trans x y zs h a.1)

AllAtLeast-insert : (a x : ℤ) (xs : List ℤ) → a ≤ℤ x → AllAtLeast a xs → AllAtLeast a (insert x xs)
unfolding insert
AllAtLeast-insert a x [] h t = (h, tt)
AllAtLeast-insert a x (y ∷ ys) h t = ground (arith, AllAtLeast-insert a x ys h t.1)

insert-IsAscending : (x : ℤ) (xs : List ℤ) → IsAscending xs → IsAscending (insert x xs)
unfolding insert
insert-IsAscending x [] s = (tt, tt)
insert-IsAscending x (y ∷ ys) s = elim (Bool-cases (leb_ℤ x y)) [
  | inl e ↦ rw e ((ground arith, AllAtLeast-trans x y ys (ground arith) s.0), s)
  | inr e ↦ rw e (AllAtLeast-insert y x ys (ground arith) s.0, insert-IsAscending x ys s.1)
]

pub sort-IsAscending : (xs : List ℤ) → IsAscending (sort xs)
unfolding sort
sort-IsAscending [] = tt
sort-IsAscending (x ∷ xs) = insert-IsAscending x (sort xs) (sort-IsAscending xs)

length-insert : (x : ℤ) (xs : List ℤ) → length (insert x xs) ≡ suc (length xs)
unfolding insert
length-insert x [] = refl
length-insert x (y ∷ ys) = ground (arith, length-insert x ys)

pub length-sort : (xs : List ℤ) → length (sort xs) ≡ length xs
unfolding sort
length-sort [] = refl
length-sort (x ∷ xs) = length-insert x (sort xs) ∙ ap suc (length-sort xs)

-- Inserting in either order gives the same list.
insert_comm : (x y : ℤ) (zs : List ℤ) → insert x (insert y zs) ≡ insert y (insert x zs)
unfolding insert
insert_comm x y [] = ground (arith, eq_of_parts x y)
insert_comm x y (z ∷ zs) = ground (arith, eq_of_parts x y, insert_comm x y zs)

ℤ-set : IsSet ℤ
ℤ-set = hlevel

sort-foldr : (xs : List ℤ) → sort xs ≡ foldr insert [] xs
unfolding sort
sort-foldr [] = refl
sort-foldr (x ∷ xs) = ap (insert x) (sort-foldr xs)

-- The sorted vector forgets the order of the measurements.
pub sort-perm : {xs ys : List ℤ} → Perm xs ys → sort xs ≡ sort ys
sort-perm {xs} {ys} p =
    sort-foldr xs ∙ Perm.foldr-eq (hlevel ℤ-set) insert insert_comm p [] ∙ sym (sort-foldr ys)

-- Later positions hold larger values.
pub get_or-mono :
    (l : List ℤ) (i j : ℕ)
    → IsAscending l
    → i ≤ j
    → j < length l
    → get_or (pos 0) l i ≤ℤ get_or (pos 0) l j
get_or-mono [] i j s h k = absurd (omega arith)
get_or-mono (x ∷ xs) zero zero s h k = omega arith
get_or-mono (x ∷ xs) zero (suc j) s h k = head-le-get_or x xs j s.0 (omega arith)
  where
    head-le-get_or :
        (x : ℤ) (xs : List ℤ) (j : ℕ) → AllAtLeast x xs → j < length xs → x ≤ℤ get_or (pos 0) xs j
    head-le-get_or x [] j a k = absurd (omega arith)
    head-le-get_or x (y ∷ ys) zero a k = a.0
    head-le-get_or x (y ∷ ys) (suc j) a k = head-le-get_or x ys j a.1 (omega arith)
get_or-mono (x ∷ xs) (suc i) zero s h k = absurd (omega arith)
get_or-mono (x ∷ xs) (suc i) (suc j) s h k = get_or-mono xs i j s.1 (omega arith) (omega arith)
