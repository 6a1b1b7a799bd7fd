-- ===== src/Index/Space.antt =====
-- src/index/mod.rs: what a committed batch does to the user index, as the abstract map of keys to
-- encoded pointers that a backend keeps: its mutations, one after the other.
use expirkv.Prelude.{
  ◌≡◌, refl, Option, none, some, List, [], ◌∷◌, ◌++◌, if◌then◌else◌, Bytes, bytes_eq,
}
use expirkv.Index.{
  IndexMutation, initialize_database_identity, put_user, delete_user, put_internal, delete_internal,
}

abbrev pub UserSpace : Type 0
UserSpace = Bytes → Option Bytes

unfoldable pub set_row : UserSpace → Bytes → Option Bytes → UserSpace
set_row space key row x = if bytes_eq key x then row else space x

unfoldable pub apply_mutation : IndexMutation → UserSpace → UserSpace
unfolding set_row
apply_mutation (initialize_database_identity encoded) space = space
apply_mutation (put_user key pointer) space = set_row space key (some pointer)
apply_mutation (delete_user key) space = set_row space key none
apply_mutation (put_internal kind key value) space = space
apply_mutation (delete_internal kind key) space = space

unfoldable pub apply_mutations : List IndexMutation → UserSpace → UserSpace
apply_mutations [] space = space
apply_mutations (m ∷ ms) space = apply_mutations ms (apply_mutation m space)

pub apply_mutations-append :
    (ms ns : List IndexMutation) (space : UserSpace)
    → apply_mutations (ms ++ ns) space ≡ apply_mutations ns (apply_mutations ms space)
unfolding apply_mutations
apply_mutations-append [] ns space = refl
apply_mutations-append (m ∷ ms) ns space = apply_mutations-append ms ns (apply_mutation m space)
