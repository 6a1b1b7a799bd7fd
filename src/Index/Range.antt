-- ===== src/Index/Range.antt =====
-- src/index/mod.rs: bounds of an ordered scan over user keys and over internal keys. Keys are compared
-- as byte slices are.
use expirkv.Prelude.{
  ◌≡◌, ◌⊎◌, inl, inr, refl, Bool, true, false, not, ◌||◌, ◌&&◌, Option, none, some, [], ◌∷◌, ltb,
  ◌==◌, Bool-cases, if◌then◌else◌, Bytes, bytes_eq, eq_of-bytes_eq, arith,
}
use expirkv.Index.{InternalIndexResult, index_ok, index_err, invalid_batch}

-- `<` and `<=` on byte slices.
unfoldable pub bytes_lt : Bytes → Bytes → Bool
bytes_lt xs [] = false
bytes_lt [] (y ∷ ys) = true
bytes_lt (x ∷ xs) (y ∷ ys) = ltb x y || x == y && bytes_lt xs ys

unfoldable pub bytes_le : Bytes → Bytes → Bool
unfolding bytes_lt
bytes_le xs ys = not (bytes_lt ys xs)

pub data Bound : Type 0 where
  included excluded : Bytes → Bound
  unbounded : Bound

pub record UserKeyRange : Type 0 where
  pub start : Bound
  pub end : Bound

unfoldable pub all : UserKeyRange
all = record { start = unbounded; end = unbounded }

unfoldable pub from_inclusive : Bytes → UserKeyRange
from_inclusive start = record { start = included start; end = unbounded }

unfoldable pub after : Bytes → UserKeyRange
after start = record { start = excluded start; end = unbounded }

unfoldable pub before : Bytes → UserKeyRange
before end = record { start = unbounded; end = excluded end }

unfoldable pub start_bound : Option Bytes → Bound
start_bound none = unbounded
start_bound (some key) = included key

unfoldable pub end_bound : Option Bytes → Bound
end_bound none = unbounded
end_bound (some key) = excluded key

unfoldable pub forward : Option Bytes → Option Bytes → UserKeyRange
unfolding start_bound end_bound
forward start end = record { start = start_bound start; end = end_bound end }

unfoldable pub after_start : Bound → Bytes → Bool
unfolding bytes_le bytes_lt
after_start (included start) key = bytes_le start key
after_start (excluded start) key = bytes_lt start key
after_start unbounded key = true

unfoldable pub before_end : Bound → Bytes → Bool
unfolding bytes_le bytes_lt
before_end (included end) key = bytes_le key end
before_end (excluded end) key = bytes_lt key end
before_end unbounded key = true

unfoldable pub contains : UserKeyRange → Bytes → Bool
unfolding after_start before_end
contains range key = after_start range.start key && before_end range.end key

unfoldable pub into_bounds : UserKeyRange → Bound × Bound
into_bounds range = (range.start, range.end)

pub record InternalKeyRange : Type 0 where
  pub start_inclusive : Option Bytes
  pub end_exclusive : Option Bytes

unfoldable pub all_internal : InternalKeyRange
all_internal = record { start_inclusive = none; end_exclusive = none }

unfoldable pub is_inverted : Option Bytes → Option Bytes → Bool
unfolding bytes_lt
is_inverted none end = false
is_inverted (some start) none = false
is_inverted (some start) (some end) = bytes_lt end start

unfoldable pub new : Option Bytes → Option Bytes → InternalIndexResult InternalKeyRange
unfolding is_inverted invalid_batch
new start end =
    if is_inverted start end
    then index_err invalid_batch
    else index_ok (record { start_inclusive = start; end_exclusive = end })

lt-irreflexive : (xs : Bytes) → bytes_lt xs xs ≡ false
unfolding bytes_lt
lt-irreflexive [] = refl
lt-irreflexive (x ∷ xs) = ground (arith, lt-irreflexive xs)

lt-asymmetric : (xs ys : Bytes) → bytes_lt xs ys ≡ true → bytes_lt ys xs ≡ false
unfolding bytes_lt
lt-asymmetric [] [] h = refl
lt-asymmetric (x ∷ xs) [] h = absurd (cc)
lt-asymmetric [] (y ∷ ys) h = refl
lt-asymmetric (x ∷ xs) (y ∷ ys) h = ground (arith, lt-asymmetric xs ys)

lt-transitive :
    (xs ys zs : Bytes) → bytes_lt xs ys ≡ true → bytes_lt ys zs ≡ true → bytes_lt xs zs ≡ true
unfolding bytes_lt
lt-transitive xs [] [] h k = absurd (cc)
lt-transitive [] [] (z ∷ zs) h k = absurd (cc)
lt-transitive (x ∷ xs) [] (z ∷ zs) h k = absurd (cc)
lt-transitive xs (y ∷ ys) [] h k = absurd (cc)
lt-transitive [] (y ∷ ys) (z ∷ zs) h k = refl
lt-transitive (x ∷ xs) (y ∷ ys) (z ∷ zs) h k = ground (arith, lt-transitive xs ys zs)

eq_of-not_lt :
    (xs ys : Bytes) → bytes_lt xs ys ≡ false → bytes_lt ys xs ≡ false → bytes_eq xs ys ≡ true
unfolding bytes_lt bytes_eq
eq_of-not_lt [] [] h k = refl
eq_of-not_lt (x ∷ xs) [] h k = absurd (cc)
eq_of-not_lt [] (y ∷ ys) h k = absurd (cc)
eq_of-not_lt (x ∷ xs) (y ∷ ys) h k = ground (arith, eq_of-not_lt xs ys)

cut_three :
    (middle key : Bytes)
    → (contains (before middle) key ≡ true)
      ⊎ ((key ≡ middle) ⊎ (contains (after middle) key ≡ true))
unfolding contains before after after_start before_end
cut_three middle key = elim (Bool-cases (bytes_lt key middle)) [
  | inl less ↦ inl (ground arith)
  | inr other ↦ elim (Bool-cases (bytes_lt middle key)) [
    | inl more ↦ inr (inr (ground arith))
    | inr same ↦ inr (inl (eq_of-bytes_eq key middle (eq_of-not_lt key middle other same)))
  ]
]

-- A scan from `start` to `end`, which holds a key exactly when neither is passed, is empty when the
-- bounds are inverted: then no key is in it.
pub forward-inverted :
    (start end key : Bytes)
    → bytes_lt end start ≡ true
    → contains (forward (some start) (some end)) key ≡ false
unfolding contains forward start_bound end_bound after_start before_end bytes_le
forward-inverted start end key h = ground (arith, lt-transitive key end start, h)

-- A key `middle` cuts the keys in three: a key is in `before middle`, or is `middle` itself, or is in
-- `after middle`, and in one of them only; `from_inclusive middle` holds the last two.
pub contains-cut :
    (middle key : Bytes)
    → ((contains (before middle) key ≡ true)
        ⊎ ((key ≡ middle) ⊎ (contains (after middle) key ≡ true)))
      × (contains (from_inclusive middle) key ≡ not (contains (before middle) key))
      × (contains (before middle) middle ≡ false)
      × (contains (after middle) middle ≡ false)
      × (contains (before middle) key ≡ true → contains (after middle) key ≡ false)
unfolding contains before after from_inclusive after_start before_end bytes_le
contains-cut middle key = (
  cut_three middle key,
  ground arith,
  lt-irreflexive middle,
  ground (arith, lt-irreflexive middle),
  λ h. ground (arith, lt-asymmetric key middle h),
)
