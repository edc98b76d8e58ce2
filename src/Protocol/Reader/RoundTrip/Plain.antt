-- ===== src/Protocol/Reader/RoundTrip/Plain.antt =====
-- Read of what Write writes, for the messages that are not extended.
use storrent.Prelude.{
  ℕ, ◌+◌, ◌-◌, ◌%◌, ◌^◌, ◌<◌, ◌≤◌, ◌≡◌, List, [], ◌∷◌, ◌++◌, le→ltb, length, arith, ◌∙◌,
}
use storrent.Net.Words.{be16, be32}
use storrent.Protocol.{Message, bitfield, piece, port, Codec, max_length}
use storrent.Protocol.Writer.{
  send_message, send_message0, send_message1, send_message3, send_message_short,
}
use storrent.Protocol.Reader.{got, read, read_typed, read_index, read_range, read_piece, read_port}
use storrent.Protocol.Reader.Framing.{need-be32, need-be16, need-read_full, read-frame}

module _ (codec : Codec) (rest : List ℕ) where
  pub read-bare :
      (tpe : ℕ) (m : Message)
      → ((r : List ℕ) → read_typed codec 1 tpe r ≡ got m r)
      → read codec (send_message0 tpe ++ rest) ≡ got m rest
  unfolding send_message0
  read-bare tpe m e = read-frame codec 1 tpe [] rest (omega arith) (omega arith) ∙ e rest

  pub read-index :
      (tpe : ℕ) (m : ℕ → Message) (i : ℕ)
      → ((r : List ℕ) → read_typed codec 5 tpe r ≡ read_index 5 m r)
      → i < 2 ^ 32
      → read codec (send_message1 tpe i ++ rest) ≡ got (m i) rest
  unfolding send_message1 read_index
  read-index tpe m i e h =
      read-frame codec 5 tpe (be32 i) rest (omega arith) (omega arith)
      ∙ e (be32 i ++ rest)
      ∙ need-be32 i rest (λ v r. got (m v) r) h

  pub read-range :
      (tpe : ℕ) (m : ℕ → ℕ → ℕ → Message) (i b l : ℕ)
      → ((r : List ℕ) → read_typed codec 13 tpe r ≡ read_range 13 m r)
      → (i < 2 ^ 32) × (b < 2 ^ 32) × (l < 2 ^ 32)
      → read codec (send_message3 tpe i b l ++ rest) ≡ got (m i b l) rest
  unfolding send_message3 read_range
  read-range tpe m i b l e (hi, hb, hl) =
      read-frame codec 13 tpe (be32 i ++ (be32 b ++ be32 l)) rest (omega arith) (omega arith)
      ∙ e (be32 i ++ (be32 b ++ (be32 l ++ rest)))
      ∙ need-be32 i (be32 b ++ (be32 l ++ rest)) _ hi
      ∙ need-be32 b (be32 l ++ rest) _ hb
      ∙ need-be32 l rest (λ v r. got (m i b v) r) hl

  pub read-bitfield :
      (b : List ℕ)
      → length b < max_length
      → read codec (send_message 5 b ++ rest) ≡ got (bitfield b) rest
  unfolding send_message read_typed
  read-bitfield b h =
      let n : (length b + 1) % 2 ^ 32 ≡ length b + 1 = omega arith in
      rw n (
        read-frame codec (length b + 1) 5 b rest (omega arith) (omega arith)
        ∙ need-read_full b rest (length b + 1 - 1) (λ d r. got (bitfield d) r) (omega arith))

  pub read-piece :
      (i b : ℕ) (d : List ℕ)
      → (i < 2 ^ 32) × (b < 2 ^ 32) × (9 + length d ≤ max_length)
      → read codec ((be32 ((1 + 8 + length d) % 2 ^ 32) ++ (7 ∷ (be32 i ++ (be32 b ++ d)))) ++ rest)
        ≡ got (piece i b d) rest
  unfolding read_typed read_piece
  read-piece i b d (hi, hb, hd) =
      let n : (1 + 8 + length d) % 2 ^ 32 ≡ 9 + length d = omega arith in
      rw n (
        read-frame codec (9 + length d) 7 (be32 i ++ (be32 b ++ d)) rest (omega arith) (omega arith)
        ∙ rw (le→ltb (9 + length d) 9 (omega arith)) (
            need-be32 i (be32 b ++ (d ++ rest)) _ hi
            ∙ need-be32 b (d ++ rest) _ hb
            ∙ need-read_full d rest (9 + length d - 9) (λ v r. got (piece i b v) r) (omega arith)))

  pub read-port :
      (p : ℕ) → p < 2 ^ 16 → read codec (send_message_short 9 p ++ rest) ≡ got (port p) rest
  unfolding send_message_short read_typed read_port
  read-port p h =
      read-frame codec 3 9 (be16 p) rest (omega arith) (omega arith)
      ∙ need-be16 p rest (λ v r. got (port v) r) h
