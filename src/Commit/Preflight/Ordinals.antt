-- ===== src/Commit/Preflight/Ordinals.antt =====
-- The numbering of distinct keys: each operation's ordinal names its key, and the keys stand in the
-- order of their first occurrence.
use expirkv.Prelude.{
  ℕ, zero, suc, ◌≡◌, ◌⊎◌, inl, inr, refl, sym, ◌∙◌, ap, Bool, true, false, ◌||◌, none, some, List,
  [], ◌∷◌, ◌++◌, length, append_assoc, get_elem?, get_elem?-append, get_elem?-last, Option-cases,
  Bool-cases, if◌then◌else◌, Bytes, bytes_eq, bytes_eq_refl, eq_of-bytes_eq, arith,
}
use mathlib.Core.List.{append-nil}
use expirkv.Error.{Operation, ok, bind-eq-ok, Result-cases}
use expirkv.Commit.Descriptor.{is_seen}
use expirkv.Commit.Preflight.{
  NormalizedOperation, NormalizedWrite, ValidatedWrite, Numbering, operation_key, get_ordinal,
  number_key, number_keys, validate_normalized,
}

unfoldable pub keys_of : List NormalizedOperation → List Bytes
keys_of [] = []
keys_of (o ∷ ops) = operation_key o ∷ keys_of ops

-- A map of keys to places that agrees with the list of keys.
abbrev pub Agrees : List (Bytes × ℕ) → List Bytes → Type 0
Agrees ordinals keys =
    ((k : Bytes) (o : ℕ) → get_ordinal ordinals k ≡ some o → get_elem? keys o ≡ some k)
    × ((k : Bytes) (o : ℕ) → get_elem? keys o ≡ some k → get_ordinal ordinals k ≡ some o)

append-cases :
    (keys : List Bytes) (key k : Bytes) (o : ℕ)
    → get_elem? (keys ++ (key ∷ [])) o ≡ some k
    → (get_elem? keys o ≡ some k) ⊎ ((o ≡ length keys) × (k ≡ key))
append-cases [] key k o h = ground arith
append-cases (x ∷ keys) key k zero h = inl h
append-cases (x ∷ keys) key k (suc o) h = ground (arith, append-cases keys key k o h)

module _ (ordinals : List (Bytes × ℕ)) (keys : List Bytes) (key : Bytes) where
  grown-Agrees :
      Agrees ordinals keys
      → get_ordinal ordinals key ≡ none
      → Agrees ((key, length keys) ∷ ordinals) (keys ++ (key ∷ []))
  unfolding get_ordinal
  grown-Agrees agrees new = (
    λ k o h. elim (Bool-cases (bytes_eq key k)) [
      | inl same ↦
          let here : some (length keys) ≡ some o = rw same at h in
          let place : o ≡ length keys = cc in
          rw (place, sym (eq_of-bytes_eq key k same)) (get_elem?-last keys key)
      | inr other ↦ get_elem?-append keys (key ∷ []) o (agrees.0 k o (rw other at h))
    ],
    λ k o h. elim (append-cases keys key k o h) [
      | inl old ↦
          let found = agrees.1 k o old in
          elim (Bool-cases (bytes_eq key k)) [
            | inl same ↦ let e = eq_of-bytes_eq key k same in absurd (cc)
            | inr other ↦ rw other found
          ]
      | inr (place, same) ↦ rw (same, place, bytes_eq_refl key) refl
    ],
  )

-- The keys that are not among those seen, and the first occurrences of a list's keys.
unfoldable pub without : List Bytes → List Bytes → List Bytes
without seen [] = []
without seen (k ∷ ks) = let rest = without seen ks in if is_seen k seen then rest else k ∷ rest

unfoldable pub first_occurrences : List Bytes → List Bytes
unfolding without
first_occurrences [] = []
first_occurrences (k ∷ ks) = k ∷ without (k ∷ []) (first_occurrences ks)

is_seen-append :
    (x : Bytes) (xs ys : List Bytes) → is_seen x (xs ++ ys) ≡ (is_seen x xs || is_seen x ys)
unfolding is_seen
is_seen-append x [] ys = refl
is_seen-append x (k ∷ xs) ys = ground (arith, is_seen-append x xs ys)

is_seen_single : (x k : Bytes) → is_seen x (k ∷ []) ≡ true → x ≡ k
unfolding is_seen
is_seen_single x k h = ground (arith, eq_of-bytes_eq x k)

without_more :
    (seen : List Bytes) (k : Bytes) (xs : List Bytes)
    → without seen (without (k ∷ []) xs) ≡ without (seen ++ (k ∷ [])) xs
unfolding without
without_more seen k [] = refl
without_more seen k (x ∷ xs) =
    ground (arith, without_more seen k xs, is_seen-append x seen (k ∷ []))

without_again :
    (seen : List Bytes) (k : Bytes) (xs : List Bytes)
    → is_seen k seen ≡ true
    → without seen (without (k ∷ []) xs) ≡ without seen xs
unfolding without
without_again seen k [] h = refl
without_again seen k (x ∷ xs) h = elim (Bool-cases (is_seen x (k ∷ []))) [
  | inl same ↦
      let e = is_seen_single x k same in
      let old : is_seen x seen ≡ true = rw e h in ground (arith, without_again seen k xs h)
  | inr other ↦ ground (arith, without_again seen k xs h)
]

pub is_seen_at :
    (keys : List Bytes) (o : ℕ) (k : Bytes) → get_elem? keys o ≡ some k → is_seen k keys ≡ true
unfolding is_seen
is_seen_at [] o k h = absurd (cc)
is_seen_at (x ∷ keys) zero k h =
    let e : x ≡ k = ground arith in rw e (ground (arith, bytes_eq_refl k))
is_seen_at (x ∷ keys) (suc o) k h = ground (arith, is_seen_at keys o k h)

place_of :
    (keys : List Bytes) (k : Bytes) → is_seen k keys ≡ true → (o : ℕ) × (get_elem? keys o ≡ some k)
unfolding is_seen
place_of [] k h = absurd (cc)
place_of (x ∷ keys) k h = elim (Bool-cases (bytes_eq k x)) [
  | inl same ↦ (0, ap some (sym (eq_of-bytes_eq k x same)))
  | inr other ↦ let (o, e) = place_of keys k (ground arith) in (suc o, e)
]

-- The ordinals name the keys of the operations done, in their order.
abbrev pub Names : List Bytes → List ℕ → List Bytes → Type 0
Names keys [] [] = Unit
Names keys [] (k ∷ done) = ⊥
Names keys (o ∷ ordinals) [] = ⊥
Names keys (o ∷ ordinals) (k ∷ done) = (get_elem? keys o ≡ some k) × Names keys ordinals done

Names-append :
    (keys more : List Bytes) (ordinals : List ℕ) (done : List Bytes) (o : ℕ) (k : Bytes)
    → Names keys ordinals done
    → get_elem? (keys ++ more) o ≡ some k
    → Names (keys ++ more) (ordinals ++ (o ∷ [])) (done ++ (k ∷ []))
Names-append keys more [] [] o k names last = (last, tt)
Names-append keys more [] (d ∷ done) o k names last = absurd names
Names-append keys more (n ∷ ordinals) [] o k names last = absurd names
Names-append keys more (n ∷ ordinals) (d ∷ done) o k (here, names) last =
    (get_elem?-append keys more n here, Names-append keys more ordinals done o k names last)

Names-same :
    (keys : List Bytes) (ordinals : List ℕ) (done : List Bytes) (o : ℕ) (k : Bytes)
    → Names keys ordinals done
    → get_elem? keys o ≡ some k
    → Names keys (ordinals ++ (o ∷ [])) (done ++ (k ∷ []))
Names-same keys [] [] o k names last = (last, tt)
Names-same keys [] (d ∷ done) o k names last = absurd names
Names-same keys (n ∷ ordinals) [] o k names last = absurd names
Names-same keys (n ∷ ordinals) (d ∷ done) o k (here, names) last =
    (here, Names-same keys ordinals done o k names last)

pub record IsNumbered (done : List Bytes) (s : Numbering) : Type 0 where
  pub agrees : Agrees s.ordinals s.distinct_keys
  pub names : Names s.distinct_keys s.operation_ordinals done

skip_seen :
    (seen : List Bytes) (k : Bytes) (coming : List Bytes)
    → is_seen k seen ≡ true
    → without seen (k ∷ without (k ∷ []) coming) ≡ without seen coming
unfolding without
skip_seen seen k coming h = rw h (without_again seen k coming h)

keep_new :
    (seen : List Bytes) (k : Bytes) (coming : List Bytes)
    → is_seen k seen ≡ false
    → without seen (k ∷ without (k ∷ []) coming) ≡ k ∷ without (seen ++ (k ∷ [])) coming
unfolding without
keep_new seen k coming h = rw (h, without_more seen k coming) refl

not_seen :
    (ordinals : List (Bytes × ℕ)) (keys : List Bytes) (key : Bytes)
    → Agrees ordinals keys
    → get_ordinal ordinals key ≡ none
    → is_seen key keys ≡ false
not_seen ordinals keys key agrees new = elim (Bool-cases (is_seen key keys)) [
  | inl seen ↦ let (o, at) = place_of keys key seen in let found = agrees.1 key o at in absurd (cc)
  | inr other ↦ other
]

-- No key stands at two places.
abbrev pub IsUnique : List Bytes → Type 0
IsUnique keys =
    (k : Bytes) (i j : ℕ) → get_elem? keys i ≡ some k → get_elem? keys j ≡ some k → i ≡ j

-- What one step leaves, and what it does not change of the keys to come.
abbrev NumberStep : List Bytes → Numbering → Bytes → Numbering → Type 0
NumberStep done s key t =
    IsNumbered (done ++ (key ∷ [])) t
    × ((coming : List Bytes)
        → t.distinct_keys ++ without t.distinct_keys coming
          ≡ s.distinct_keys ++ without s.distinct_keys (key ∷ without (key ∷ []) coming))

number_key-NumberStep :
    (op : Operation) (done : List Bytes) (s : Numbering) (key : Bytes) (t : Numbering)
    → IsNumbered done s
    → number_key op s key ≡ ok t
    → NumberStep done s key t
unfolding number_key
number_key-NumberStep op done s key t v h = elim (Option-cases (get_ordinal s.ordinals key)) [
  | inl new ↦
      let e : record {
        distinct_keys = s.distinct_keys ++ (key ∷ []);
        operation_ordinals = s.operation_ordinals ++ (length s.distinct_keys ∷ []);
        ordinals = (key, length s.distinct_keys) ∷ s.ordinals;
      }
          ≡ t =
        ground arith in
      rw (sym e) (
        record {
          agrees = grown-Agrees s.ordinals s.distinct_keys key v.agrees new;
          names =
              Names-append s.distinct_keys (key ∷ []) s.operation_ordinals done
                (length s.distinct_keys) key v.names (get_elem?-last s.distinct_keys key);
        },
        λ coming.
            rw
              (keep_new s.distinct_keys key coming
                (not_seen s.ordinals s.distinct_keys key v.agrees new))
              (append_assoc s.distinct_keys (key ∷ [])
                (without (s.distinct_keys ++ (key ∷ [])) coming)),
      )
  | inr (o, old) ↦
      let e : record s { operation_ordinals = s.operation_ordinals ++ (o ∷ []) } ≡ t =
        ground arith in
      rw (sym e) (
        record {
          agrees = v.agrees;
          names =
              Names-same s.distinct_keys s.operation_ordinals done o key v.names
                (v.agrees.0 key o old);
        },
        λ coming.
            rw
              (skip_seen s.distinct_keys key coming
                (is_seen_at s.distinct_keys o key (v.agrees.0 key o old)))
              refl,
      )
]

number_keys-IsNumbered :
    (op : Operation) (done : List Bytes) (s : Numbering) (ops : List NormalizedOperation)
    (t : Numbering)
    → IsNumbered done s
    → number_keys op s ops ≡ ok t
    → IsNumbered (done ++ keys_of ops) t
      × (t.distinct_keys
          ≡ s.distinct_keys ++ without s.distinct_keys (first_occurrences (keys_of ops)))
unfolding number_keys keys_of without first_occurrences
number_keys-IsNumbered op done s [] t v h =
    let e : s ≡ t = ground arith in
    rw (sym e, append-nil done, append-nil s.distinct_keys) (v, refl)
number_keys-IsNumbered op done s (o ∷ ops) t v h =
    let (next, stepped, rest) = bind-eq-ok (number_key op s (operation_key o)) _ h in
    let (v', same) = number_key-NumberStep op done s (operation_key o) next v stepped in
    let (v'', rest_same) =
      number_keys-IsNumbered op (done ++ (operation_key o ∷ [])) next ops t v' rest in
    (
      rw (sym (append_assoc done (operation_key o ∷ []) (keys_of ops))) v'',
      rest_same ∙ same (first_occurrences (keys_of ops)),
    )

without_nothing : (xs : List Bytes) → without [] xs ≡ xs
unfolding without is_seen
without_nothing [] = refl
without_nothing (x ∷ xs) = ap (λ t. x ∷ t) (without_nothing xs)

starts-IsNumbered :
    IsNumbered [] (record { distinct_keys = []; operation_ordinals = []; ordinals = [] })
unfolding get_ordinal
starts-IsNumbered = record { agrees = (λ k o h. absurd (cc), λ k o h. absurd (cc)); names = tt }

module _ (reserves : ℕ → Bool) (n : NormalizedWrite) (op : Operation) (most : ℕ)
    (w : ValidatedWrite) (accepted : validate_normalized reserves n op most ≡ ok w) where
  -- The write that the preflight returns.
  pub validated :
      (s : Numbering) × (number_keys op
          (record { distinct_keys = []; operation_ordinals = []; ordinals = [] })
          n.operations
        ≡ ok s)
      × (w ≡ record {
        normalized = n;
        distinct_keys = s.distinct_keys;
        operation_ordinals = s.operation_ordinals;
        public_operation = op;
      })
  unfolding validate_normalized
  validated =
      let start : Numbering = record {
        distinct_keys = [];
        operation_ordinals = [];
        ordinals = [];
      } in
      elim (Result-cases (number_keys op start n.operations)) [
        | inl (s, numbered) ↦ (s, numbered, ground arith)
        | inr (e, failed) ↦ absurd (ground arith)
      ]

  -- When the preflight accepts a write, its distinct keys are the first occurrences of the
  -- operations' keys, in their order, and the ordinal of each operation is the place of its key.
  pub validate_normalized-first_occurrences :
      (w.normalized ≡ n)
      × (w.distinct_keys ≡ first_occurrences (keys_of n.operations))
      × Names w.distinct_keys w.operation_ordinals (keys_of n.operations)
  validate_normalized-first_occurrences =
      let (s, numbered, e) = validated in
      let (v, same) = number_keys-IsNumbered op [] _ n.operations s starts-IsNumbered numbered in
      rw e (refl, same ∙ without_nothing (first_occurrences (keys_of n.operations)), v.names)

  -- No key is numbered twice.
  pub distinct_keys-IsUnique : IsUnique w.distinct_keys
  distinct_keys-IsUnique =
      let (s, numbered, e) = validated in
      let (v, same) = number_keys-IsNumbered op [] _ n.operations s starts-IsNumbered numbered in
      rw e (λ k i j at at'. let first = v.agrees.1 k i at in let second = v.agrees.1 k j at' in cc)

  -- Every operation has an ordinal.
  pub distinct_keys-Names : Names w.distinct_keys w.operation_ordinals (keys_of n.operations)
  distinct_keys-Names = validate_normalized-first_occurrences.2
