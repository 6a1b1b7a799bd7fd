-- ===== src/Uuid.antt =====
-- The `[u8; 16]` arrays that src/format.rs, src/commit/descriptor.rs and src/vlog/format.rs use for
-- database and transaction identifiers: sixteen bytes, exactly.
use expirkv.Prelude.{ℕ, ◌≡◌, refl, Bool, Option, none, some, [], ◌∷◌, length, Bytes, bytes_eq}

pub data Uuid : Type 0 where
  uuid : (a b c d e f g h i j k l m n o p : ℕ) → Uuid

unfoldable pub to_bytes : Uuid → Bytes
to_bytes (uuid a b c d e f g h i j k l m n o p) =
    a ∷ b ∷ c ∷ d ∷ e ∷ f ∷ g ∷ h ∷ i ∷ j ∷ k ∷ l ∷ m ∷ n ∷ o ∷ p ∷ []

-- `try_into` of a slice.
unfoldable pub from_bytes : Bytes → Option Uuid
from_bytes (a ∷ b ∷ c ∷ d ∷ e ∷ f ∷ g ∷ h ∷ i ∷ j ∷ k ∷ l ∷ m ∷ n ∷ o ∷ p ∷ []) =
    some (uuid a b c d e f g h i j k l m n o p)
from_bytes _ = none

-- `== [0; 16]`.
unfoldable pub is_zero : Uuid → Bool
unfolding to_bytes bytes_eq
is_zero u = bytes_eq (to_bytes u) (to_bytes (uuid 0 0 0 0 0 0 0 0 0 0 0 0 0 0 0 0))

pub from_bytes-to_bytes : (u : Uuid) → from_bytes (to_bytes u) ≡ some u
unfolding from_bytes to_bytes
from_bytes-to_bytes (uuid a b c d e f g h i j k l m n o p) = refl

pub length-to_bytes : (u : Uuid) → length (to_bytes u) ≡ 16
unfolding to_bytes
length-to_bytes (uuid a b c d e f g h i j k l m n o p) = refl

abbrev pub sample_uuid : Uuid
sample_uuid = uuid 1 2 3 4 5 6 7 8 9 10 11 12 13 14 15 16
