-- ===== src/Crc.antt =====
-- The `crc32c` crate, which src/commit/descriptor.rs and src/vlog/format.rs call: a parameter of the
-- codecs, with what its documentation states. A checksum is a `u32`, and `crc32c_append` continues a
-- checksum over further bytes.
use mathlib.Core.Path.{◌∙◌}
use expirkv.Prelude.{ℕ, ◌+◌, ◌%◌, ◌^◌, ◌<◌, ◌≡◌, refl, [], ◌∷◌, ◌++◌, arith, Bytes}

pub record Crc : Type 0 where
  pub crc32c : Bytes → ℕ
  pub crc32c_append : ℕ → Bytes → ℕ

pub record IsCrc (crc : Crc) : Type 0 where
  pub crc32c-lt : (bs : Bytes) → crc.crc32c bs < 2 ^ 32
  pub append-lt : (c : ℕ) (bs : Bytes) → crc.crc32c_append c bs < 2 ^ 32
  pub append-crc32c : (xs ys : Bytes) → crc.crc32c_append (crc.crc32c xs) ys ≡ crc.crc32c (xs ++ ys)

-- A checksum that meets the hypotheses: the sum of the bytes.
unfoldable pub sum_onto : ℕ → Bytes → ℕ
sum_onto c [] = c
sum_onto c (b ∷ bs) = sum_onto (c + b) bs

abbrev pub sum_crc : Crc
sum_crc = record {
  crc32c = λ bs. sum_onto 0 bs % 2 ^ 32;
  crc32c_append = λ c bs. sum_onto c bs % 2 ^ 32;
}

sum_onto-mod :
    (c d : ℕ) (bs : Bytes)
    → c % 2 ^ 32 ≡ d % 2 ^ 32
    → sum_onto c bs % 2 ^ 32 ≡ sum_onto d bs % 2 ^ 32
unfolding sum_onto
sum_onto-mod c d [] h = h
sum_onto-mod c d (b ∷ bs) h = sum_onto-mod (c + b) (d + b) bs (omega arith)

sum_onto-append : (c : ℕ) (xs ys : Bytes) → sum_onto c (xs ++ ys) ≡ sum_onto (sum_onto c xs) ys
unfolding sum_onto
sum_onto-append c [] ys = refl
sum_onto-append c (x ∷ xs) ys = sum_onto-append (c + x) xs ys

pub sum_crc-IsCrc : IsCrc sum_crc
sum_crc-IsCrc = record {
  crc32c-lt = λ bs. omega arith;
  append-lt = λ c bs. omega arith;
  append-crc32c = λ xs ys.
      sum_onto-mod (sum_onto 0 xs % 2 ^ 32) (sum_onto 0 xs) ys (omega arith)
      ∙ (rw (sum_onto-append 0 xs ys));
}
