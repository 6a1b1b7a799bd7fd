-- ===== src/Commit/Descriptor/Rows.antt =====
-- The loops of the descriptor codec over the mutation rows.
use expirkv.Prelude.{
  ℕ, ◌+◌, ◌^◌, ◌<◌, ◌≡◌, refl, ap, Bool, true, false, arith, List, [], ◌∷◌, length, suc, Bytes,
  ==_refl,
}
use expirkv.Error.{ok, err, Result, bind-eq-ok}
use expirkv.Crc.{Crc}
use expirkv.Commit.Errors.{encode_capacity, decode_corruption}
use expirkv.Commit.Keys.{encode_tx_mutation_key}
use expirkv.Commit.Keys.RoundTrip.{decode_tx_mutation_key-encode}
use expirkv.Commit.Mutation.{TxMutation, encode_tx_mutation}
use expirkv.Commit.Mutation.Code.{MutationFits}
use expirkv.Commit.Mutation.RoundTrip.{decode_tx_mutation-encode}
use expirkv.Commit.Descriptor.{
  EncodedMutation, is_seen, encode_each, decode_each, crc_row, crc_rows,
}

abbrev pub AllFit : List TxMutation → Type 0
AllFit [] = Unit
AllFit (m ∷ ms) = MutationFits m × AllFit ms

-- One turn of the encoding loop that succeeded.
module _ (reserves : ℕ → Bool) (seq ordinal : ℕ) (seen : List Bytes) (m : TxMutation)
    (ms : List TxMutation) where
  abbrev pub Turn : List EncodedMutation → Type 0
  Turn rows =
      (is_seen m.user_key seen ≡ false)
      × ((key : Bytes) × (encode_tx_mutation_key seq ordinal ≡ ok key)
          × (value : Bytes) × (encode_tx_mutation reserves m ≡ ok value)
          × (later : List EncodedMutation) × (encode_each reserves seq (ordinal + 1)
                (m.user_key ∷ seen) ms
              ≡ ok later)
          × (rows ≡ record { key = key; value = value } ∷ later))

  pub Turn-with :
      (old : Bool) (key value : Result Bytes) (later : Result (List EncodedMutation))
      {rows : List EncodedMutation}
      → is_seen m.user_key seen ≡ old
      → encode_tx_mutation_key seq ordinal ≡ key
      → encode_tx_mutation reserves m ≡ value
      → encode_each reserves seq (ordinal + 1) (m.user_key ∷ seen) ms ≡ later
      → encode_each reserves seq ordinal seen (m ∷ ms) ≡ ok rows
      → Turn rows
  unfolding encode_each
  Turn-with false (ok key) (ok value) (ok later) s k v l h =
      (s, (key, k, value, v, later, l, ground arith))
  Turn-with true key value later s k v l h = absurd (ground arith)
  Turn-with false (err x) value later s k v l h = absurd (ground arith)
  Turn-with false (ok key) (err x) later s k v l h = absurd (ground arith)
  Turn-with false (ok key) (ok value) (err x) s k v l h = absurd (ground arith)

-- One row under the checksum that succeeded.
pub crc_row-any :
    (crc : Crc) (c : ℕ) (key value : Bytes) {n : ℕ}
    → crc_row encode_capacity crc c key value ≡ ok n
    → crc_row decode_corruption crc c key value ≡ ok n
unfolding crc_row
crc_row-any crc c key value h = ground arith

pub crc_rows-cons :
    (crc : Crc) (c : ℕ) (row : EncodedMutation) (rows : List EncodedMutation) {sum : ℕ}
    → crc_rows encode_capacity crc c (row ∷ rows) ≡ ok sum
    → (n : ℕ) × (crc_row encode_capacity crc c row.key row.value ≡ ok n)
      × (crc_rows encode_capacity crc n rows ≡ ok sum)
unfolding crc_rows
crc_rows-cons crc c row rows h =
    bind-eq-ok (crc_row encode_capacity crc c row.key row.value)
      (λ n. crc_rows encode_capacity crc n rows) h

pub encode_each-nil :
    (reserves : ℕ → Bool) (seq ordinal : ℕ) (seen : List Bytes) {rows : List EncodedMutation}
    → encode_each reserves seq ordinal seen [] ≡ ok rows
    → rows ≡ []
unfolding encode_each
encode_each-nil reserves seq ordinal seen h = ground arith

pub crc_rows-nil :
    (crc : Crc) (c : ℕ) {sum : ℕ} → crc_rows encode_capacity crc c [] ≡ ok sum → c ≡ sum
unfolding crc_rows
crc_rows-nil crc c h = ground arith

module _ (reserves granted : ℕ → Bool) (grants : (n : ℕ) → granted n ≡ true) (crc : Crc) (seq : ℕ)
    (seq_fits : seq < 2 ^ 64) where
  pub decode_each-encode :
      (ordinal : ℕ) (seen : List Bytes) (c : ℕ) (ms : List TxMutation) (rows : List EncodedMutation)
      (sum : ℕ)
      → AllFit ms
      → ordinal + length ms < 2 ^ 64
      → encode_each reserves seq ordinal seen ms ≡ ok rows
      → crc_rows encode_capacity crc c rows ≡ ok sum
      → (decode_each granted crc seq ordinal seen c rows ≡ ok (ms, sum)) × (length rows ≡ length ms)
  unfolding decode_each
  decode_each-encode ordinal seen c [] rows sum fits room h s =
      let e = encode_each-nil reserves seq ordinal seen h in
      let same = crc_rows-nil crc c (rw e at s) in rw (e, same) (refl, refl)
  decode_each-encode ordinal seen c (m ∷ ms) rows sum fits room h s =
      let (new_key, (key, k, value, v, later, l, e)) =
        Turn-with reserves seq ordinal seen m ms _ _ _ _ refl refl refl refl h in
      let (next, row_sum, rest_sum) =
        crc_rows-cons crc c (record { key = key; value = value }) later (rw e at s) in
      let (rest, len) =
        decode_each-encode (ordinal + 1) (m.user_key ∷ seen) next ms later sum fits.1 (omega arith)
          l rest_sum in
      rw e (
        rw
            (
              decode_tx_mutation_key-encode seq ordinal key seq_fits (omega arith) k,
              ==_refl seq,
              ==_refl ordinal,
              decode_tx_mutation-encode reserves granted m value fits.0 (grants _) v,
              grants,
              new_key,
              crc_row-any crc c key value row_sum,
              rest,
            )
            refl,
        ap suc len,
      )
