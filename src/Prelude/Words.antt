-- ===== src/Prelude/Words.antt =====
-- Machine words as bytes: `to_le_bytes`, `to_be_bytes` and their inverses of the standard library,
-- and the checked reads of a byte slice. A byte is a number below 256.
use Prim.Native.Nat.{ℕ, zero, suc, ◌+◌, ◌-◌, ◌*◌, ◌/◌, ◌%◌, ◌^◌, ◌<◌}
use mathlib.Core.Path.{◌≡◌, refl}
use mathlib.Core.Bool.{Bool, true, false, ◌&&◌}
use mathlib.Core.Option.{Option, none, some}
use mathlib.Core.List.{List, [], ◌∷◌, ◌++◌}
use native.Mathlib.Omega.{arith}
use expirkv.Prelude.Tests.{leb, ◌==◌, if◌then◌else◌}
use expirkv.Prelude.Lists.{
  length, take, drop, length-append, take-drop-append, drop-append, take-append,
}

abbrev pub Bytes : Type 0
Bytes = List ℕ

unfoldable pub to_le_16 : ℕ → Bytes
to_le_16 n = (n % 256) ∷ (n / 256 % 256) ∷ []

unfoldable pub to_le_32 : ℕ → Bytes
unfolding to_le_16
to_le_32 n = to_le_16 n ++ to_le_16 (n / 65536)

unfoldable pub to_le_64 : ℕ → Bytes
unfolding to_le_32
to_le_64 n = to_le_32 n ++ to_le_32 (n / 4294967296)

abbrev reverse_onto : Bytes → Bytes → Bytes
reverse_onto [] acc = acc
reverse_onto (b ∷ bs) acc = reverse_onto bs (b ∷ acc)

unfoldable pub to_be_64 : ℕ → Bytes
unfolding to_le_64
to_be_64 n = reverse_onto (to_le_64 n) []

-- The value of a byte string, low byte first: what `from_le_bytes` computes at every width.
abbrev le_value : Bytes → ℕ
le_value [] = 0
le_value (b ∷ bs) = b + 256 * le_value bs

unfoldable pub from_le_16 : Bytes → ℕ
from_le_16 bs = le_value bs

unfoldable pub from_le_32 : Bytes → ℕ
from_le_32 bs = le_value bs

unfoldable pub from_le_64 : Bytes → ℕ
from_le_64 bs = le_value bs

unfoldable pub from_be_64 : Bytes → ℕ
from_be_64 bs = le_value (reverse_onto bs [])

pub from_le_16-to_le : (n : ℕ) → n < 2 ^ 16 → from_le_16 (to_le_16 n) ≡ n
unfolding from_le_16 to_le_16
from_le_16-to_le n h = omega arith

pub from_le_32-to_le : (n : ℕ) → n < 2 ^ 32 → from_le_32 (to_le_32 n) ≡ n
unfolding from_le_32 to_le_32
from_le_32-to_le n h = omega arith

pub from_le_64-to_le : (n : ℕ) → n < 2 ^ 64 → from_le_64 (to_le_64 n) ≡ n
unfolding from_le_64 to_le_64
from_le_64-to_le n h = omega arith

pub from_be_64-to_be : (n : ℕ) → n < 2 ^ 64 → from_be_64 (to_be_64 n) ≡ n
unfolding from_be_64 to_be_64
from_be_64-to_be n h = omega arith

-- `input.get(start..end)`.
unfoldable pub sub_slice : Bytes → ℕ → ℕ → Option Bytes
sub_slice input start end =
    if leb start end && leb end (length input)
    then some (take (end - start) (drop start input))
    else none

-- `input.get(offset)`.
unfoldable pub byte_at : Bytes → ℕ → Option ℕ
byte_at [] i = none
byte_at (b ∷ bs) zero = some b
byte_at (b ∷ bs) (suc i) = byte_at bs i

-- `==` on byte slices.
unfoldable pub bytes_eq : Bytes → Bytes → Bool
bytes_eq [] [] = true
bytes_eq [] (c ∷ cs) = false
bytes_eq (b ∷ bs) [] = false
bytes_eq (b ∷ bs) (c ∷ cs) = b == c && bytes_eq bs cs

pub bytes_eq_refl : (bs : Bytes) → bytes_eq bs bs ≡ true
unfolding bytes_eq
bytes_eq_refl [] = refl
bytes_eq_refl (b ∷ bs) = ground (arith, bytes_eq_refl bs)

pub eq_of-bytes_eq : (bs cs : Bytes) → bytes_eq bs cs ≡ true → bs ≡ cs
unfolding bytes_eq
eq_of-bytes_eq [] [] h = refl
eq_of-bytes_eq [] (c ∷ cs) h = absurd (cc)
eq_of-bytes_eq (b ∷ bs) [] h = absurd (cc)
eq_of-bytes_eq (b ∷ bs) (c ∷ cs) h = ground (arith, eq_of-bytes_eq bs cs)

-- A read inside `xs` does not see what follows.
pub sub_slice-append :
    (xs ys : Bytes) (start end : ℕ) {found : Bytes}
    → sub_slice xs start end ≡ some found
    → sub_slice (xs ++ ys) start end ≡ some found
unfolding sub_slice
sub_slice-append xs ys start end h =
    ground (arith, length-append xs ys, take-drop-append (end - start) start xs ys)

pub byte_at-append :
    (xs ys : Bytes) (i : ℕ) {b : ℕ} → byte_at xs i ≡ some b → byte_at (xs ++ ys) i ≡ some b
unfolding byte_at
byte_at-append [] ys i h = cc
byte_at-append (x ∷ xs) ys zero h = h
byte_at-append (x ∷ xs) ys (suc i) h = byte_at-append xs ys i h

-- `input.get(start..)`.
unfoldable pub slice_from : Bytes → ℕ → Option Bytes
slice_from input start = if leb start (length input) then some (drop start input) else none

-- A cut at the end of `xs` finds what follows.
module _ (xs : Bytes) (n : ℕ) (cut_at : n ≡ length xs) where
  pub slice_from-append : (ys : Bytes) → slice_from (xs ++ ys) n ≡ some ys
  unfolding slice_from
  slice_from-append ys = rw cut_at (ground (arith, length-append xs ys, drop-append xs ys))

  pub sub_slice-middle :
      (ys zs : Bytes) (end : ℕ) → end ≡ n + length ys → sub_slice (xs ++ (ys ++ zs)) n end ≡ some ys
  unfolding sub_slice
  sub_slice-middle ys zs end e =
      let cut : end - n ≡ length ys = omega arith in
      rw (cut, cut_at, drop-append xs (ys ++ zs), take-append ys zs)
        (ground (arith, length-append xs (ys ++ zs), length-append ys zs))
