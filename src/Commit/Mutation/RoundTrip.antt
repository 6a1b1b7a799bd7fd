-- ===== src/Commit/Mutation/RoundTrip.antt =====
-- Decoding gives back the mutation that was encoded.
use expirkv.Prelude.{
  ℕ, ◌+◌, ◌^◌, ◌≤◌, ◌≡◌, ◌≢◌, refl, ap, ◌∙◌, Bool, true, false, arith, [], ◌∷◌, ◌++◌, length, Bytes,
  ltb, ◌==◌, ==_refl,
}
use expirkv.Error.{ok, err, Result}
use expirkv.Commit.Mutation.{
  ValueState, absent, present, TxMutation, max_user_key_len, validate_value_state_key_len,
  encode_value_state, decode_value_state, encode_tx_mutation, decode_tx_mutation,
}
use expirkv.Commit.Mutation.Code.{
  MutationFits, state_bytes, IsEncodable, code, encode_value_state-ok, decode_value_state-bytes,
  length-state_bytes, pointer_length, read_len, read_key, read_before, read_after, length-code,
}

abbrev mutation_code : TxMutation → Bytes
mutation_code m = code m.user_key (state_bytes m.before_state) (state_bytes m.after_state)

-- What the encoder checked.
record IsChecked (m : TxMutation) : Type 0 where
  key_pos : length m.user_key ≢ 0
  key_limit : length m.user_key ≤ max_user_key_len
  before_len : validate_value_state_key_len true m.before_state (length m.user_key) ≡ ok tt
  after_len : validate_value_state_key_len true m.after_state (length m.user_key) ≡ ok tt
  before_code : IsEncodable m.before_state
  after_code : IsEncodable m.after_state

module _ (reserves : ℕ → Bool) (m : TxMutation) where
  encode_with :
      (before after : Result Bytes) {bs : Bytes}
      → encode_value_state m.before_state ≡ before
      → encode_value_state m.after_state ≡ after
      → encode_tx_mutation reserves m ≡ ok bs
      → (length m.user_key ≢ 0)
        × (length m.user_key ≤ max_user_key_len)
        × (validate_value_state_key_len true m.before_state (length m.user_key) ≡ ok tt)
        × (validate_value_state_key_len true m.after_state (length m.user_key) ≡ ok tt)
        × ((b : Bytes) × (before ≡ ok b)
            × (a : Bytes) × (after ≡ ok a)
            × (bs ≡ code m.user_key b a))
  unfolding encode_tx_mutation
  encode_with (ok b) (ok a) eb ea h =
      (ground arith, ground arith, ground arith, ground arith, (b, refl, a, refl, ground arith))
  encode_with (err x) after eb ea h = absurd (ground arith)
  encode_with (ok b) (err x) eb ea h = absurd (ground arith)

  encode_tx_mutation-ok :
      {bs : Bytes} → encode_tx_mutation reserves m ≡ ok bs → IsChecked m × (bs ≡ mutation_code m)
  encode_tx_mutation-ok h =
      let (pos, limit, kb, ka, (b, eb, a, ea, is_code)) = encode_with _ _ refl refl h in
      let (cb, vb) = encode_value_state-ok m.before_state eb in
      let (ca, va) = encode_value_state-ok m.after_state ea in
      (
        record {
          key_pos = pos;
          key_limit = limit;
          before_len = kb;
          after_len = ka;
          before_code = cb;
          after_code = ca;
        },
        is_code ∙ rw (vb, va) refl,
      )

same_validity :
    (s : ValueState) (n : ℕ)
    → validate_value_state_key_len true s n ≡ ok tt
    → validate_value_state_key_len false s n ≡ ok tt
unfolding validate_value_state_key_len
same_validity absent n h = refl
same_validity (present p) n h = ground arith

append-nil : (bs : Bytes) → bs ++ [] ≡ bs
append-nil [] = refl
append-nil (b ∷ bs) = ap (λ t. b ∷ t) (append-nil bs)

length-state-lt : (s : ValueState) → length (state_bytes s) ≤ 17
length-state-lt absent = omega arith
length-state-lt (present p) = omega (arith, pointer_length p)

module _ (reserves : ℕ → Bool) (m : TxMutation) (grants : reserves (length m.user_key) ≡ true)
    (fits : MutationFits m) (k : IsChecked m) where
  abbrev before : Bytes
  before = state_bytes m.before_state

  abbrev after : Bytes
  after = state_bytes m.after_state

  decode_before : decode_value_state (before ++ after) ≡ ok (m.before_state, length before)
  decode_before =
      rw (length-state_bytes m.before_state)
        (decode_value_state-bytes m.before_state after fits.before_fits k.before_code)

  decode_after : decode_value_state after ≡ ok (m.after_state, length after)
  decode_after = rw (length-state_bytes m.after_state) (
      rw (append-nil after) at
        (decode_value_state-bytes m.after_state [] fits.after_fits k.after_code))

  decode-mutation_code : decode_tx_mutation reserves (mutation_code m) ≡ ok m
  unfolding decode_tx_mutation
  decode-mutation_code =
      let n = length m.user_key in
      let kl = k.key_limit in
      let kp = k.key_pos in
      let lb = length-state-lt m.before_state in
      let la = length-state-lt m.after_state in
      let t₀ : (n == 0) ≡ false = ground arith in
      let t₁ : ltb max_user_key_len n ≡ false = ground arith in
      let t₂ : ltb (2 + n) (2 ^ 64) ≡ true = ground arith in
      let t₃ : ltb (2 + n + length before) (2 ^ 64) ≡ true = ground arith in
      let t₄ : ltb (2 + n + length before + length after) (2 ^ 64) ≡ true = ground arith in
      rw
        (
          read_len m.user_key before after (omega arith),
          t₀,
          t₁,
          t₂,
          read_key m.user_key before after,
          grants,
          read_before m.user_key before after,
          decode_before,
          t₃,
          read_after m.user_key before after,
          decode_after,
          t₄,
          length-code m.user_key before after,
          ==_refl,
        )
        (ground (
          arith,
          same_validity m.before_state n k.before_len,
          same_validity m.after_state n k.after_len,
        ))

-- A mutation that the encoder accepts, with pointers whose offsets are `u32`s, is decoded to
-- itself, when the decoder is given the memory for the key.
pub decode_tx_mutation-encode :
    (reserves granted : ℕ → Bool) (m : TxMutation) (bs : Bytes)
    → MutationFits m
    → granted (length m.user_key) ≡ true
    → encode_tx_mutation reserves m ≡ ok bs
    → decode_tx_mutation granted bs ≡ ok m
decode_tx_mutation-encode reserves granted m bs fits grants h =
    let (k, e) = encode_tx_mutation-ok reserves m h in
    rw e (decode-mutation_code granted m grants fits k)
