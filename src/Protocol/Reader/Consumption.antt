-- ===== src/Protocol/Reader/Consumption.antt =====
-- How far Read of protocol/reader.go reads.
use storrent.Prelude.{
  ℕ, ◌+◌, ◌-◌, ◌≤◌, ◌≡◌, refl, Bool, true, false, not, ◌&&◌, ◌||◌, List, [], ◌∷◌, Option, none,
  some, ◌==◌, ltb, leb, if◌then◌else◌, length, take, drop, drop-add, arith, ap, sym, ◌∙◌, ==_iff,
}
use storrent.Net.Words.{read_byte, read_uint16, read_uint32}
use storrent.Protocol.{
  Message, Codec, max_length, ext_pex, ext_metadata, ext_dont_have, ext_upload_only,
}
use storrent.Protocol.Reader.{
  Read, got, failed, silent, need, read_full, minus2, read_bare, read_index, read_range, read_piece,
  read_port, metadata_message, decoded, read_upload_only, discard, read_extension, read_pex,
  read_metadata, read_dont_have, read_extended, read_typed, read_sized, read,
}

byte-drop : (r : List ℕ) (v : ℕ) (r' : List ℕ) → read_byte r ≡ some (v, r') → r' ≡ drop 1 r
unfolding read_byte
byte-drop [] v r' e = cc
byte-drop (a ∷ r) v r' e = cc

byte-cons : (r : List ℕ) (v : ℕ) (r' : List ℕ) → read_byte r ≡ some (v, r') → r ≡ v ∷ r'
unfolding read_byte
byte-cons [] v r' e = cc
byte-cons (a ∷ r) v r' e = cc

uint16-drop : (r : List ℕ) (v : ℕ) (r' : List ℕ) → read_uint16 r ≡ some (v, r') → r' ≡ drop 2 r
unfolding read_uint16
uint16-drop [] v r' e = cc
uint16-drop (a ∷ []) v r' e = cc
uint16-drop (a ∷ b ∷ r) v r' e = cc

uint32-drop : (r : List ℕ) (v : ℕ) (r' : List ℕ) → read_uint32 r ≡ some (v, r') → r' ≡ drop 4 r
unfolding read_uint32
uint32-drop [] v r' e = cc
uint32-drop (a ∷ []) v r' e = cc
uint32-drop (a ∷ b ∷ []) v r' e = cc
uint32-drop (a ∷ b ∷ c ∷ []) v r' e = cc
uint32-drop (a ∷ b ∷ c ∷ d ∷ r) v r' e = cc

full-drop : (n : ℕ) (r v r' : List ℕ) → read_full n r ≡ some (v, r') → r' ≡ drop n r
unfolding read_full
full-drop n r v r' e = ground arith

module _ (m : Message) (rest : List ℕ) where
  need-got :
      {A : Type 0} (o : Option (A × List ℕ)) (k : A → List ℕ → Read)
      → need o k ≡ got m rest
      → (v : A) × (r : List ℕ) × (o ≡ some (v, r)) × (k v r ≡ got m rest)
  unfolding need
  need-got none k e = cc
  need-got (some (v, r)) k e = (v, r, refl, e)

  -- The two ways out of a test.
  if_got :
      {G : Type 0} (c : Bool) (x y : Read)
      → (c ≡ true → x ≡ got m rest → G)
      → (c ≡ false → y ≡ got m rest → G)
      → (if c then x else y) ≡ got m rest
      → G
  if_got true x y f g e = f refl e
  if_got false x y f g e = g refl e

  got-rest : (m' : Message) (r : List ℕ) → got m' r ≡ got m rest → rest ≡ r
  got-rest m' r e = cc

  bare-drop :
      (n : ℕ) (m' : Message) (r : List ℕ) → read_bare n m' r ≡ got m rest → rest ≡ drop (n - 1) r
  unfolding read_bare
  bare-drop n m' r e =
      if_got (not (n == 1)) (failed _) _ (λ c h. cc)
        (λ c h. let one : n - 1 ≡ 0 = ground arith in rw one (got-rest m' r h)) e

  -- A number of 32 bits and what comes after it.
  word-drop :
      (k : ℕ) (r : List ℕ) (f : ℕ → List ℕ → Read)
      → ((v : ℕ) (r' : List ℕ) → f v r' ≡ got m rest → rest ≡ drop k r')
      → need (read_uint32 r) f ≡ got m rest
      → rest ≡ drop (4 + k) r
  word-drop k r f go_on e =
      let (v, r', there, done) = need-got (read_uint32 r) f e in
      go_on v r' done ∙ ap (drop k) (uint32-drop r v r' there) ∙ sym (drop-add 4 k r)

  index-drop :
      (n : ℕ) (m' : ℕ → Message) (r : List ℕ)
      → read_index n m' r ≡ got m rest
      → rest ≡ drop (n - 1) r
  unfolding read_index
  index-drop n m' r e =
      if_got (not (n == 5)) (failed _) _ (λ c h. cc)
        (λ c h.
          let four : n - 1 ≡ 4 + 0 = ground arith in
          rw four (word-drop 0 r _ (λ v r' d. got-rest (m' v) r' d) h))
        e

  range-drop :
      (n : ℕ) (m' : ℕ → ℕ → ℕ → Message) (r : List ℕ)
      → read_range n m' r ≡ got m rest
      → rest ≡ drop (n - 1) r
  unfolding read_range
  range-drop n m' r e =
      if_got (not (n == 13)) (failed _) _ (λ c h. cc)
        (λ c h.
          let twelve : n - 1 ≡ 4 + (4 + (4 + 0)) = ground arith in
          rw twelve (
            word-drop (4 + (4 + 0)) r _
              (λ i r1 d1.
                word-drop (4 + 0) r1 _
                  (λ b r2 d2. word-drop 0 r2 _ (λ l r3 d. got-rest (m' i b l) r3 d) d2) d1)
              h))
        e

  full-got :
      (n : ℕ) (r : List ℕ) (f : List ℕ → List ℕ → Read)
      → ((v r' : List ℕ) → f v r' ≡ got m rest → rest ≡ r')
      → need (read_full n r) f ≡ got m rest
      → rest ≡ drop n r
  full-got n r f go_on e =
      let (v, r', there, done) = need-got (read_full n r) f e in
      go_on v r' done ∙ full-drop n r v r' there

  piece-drop : (n : ℕ) (r : List ℕ) → read_piece n r ≡ got m rest → rest ≡ drop (n - 1) r
  unfolding read_piece
  piece-drop n r e =
      if_got (ltb n 9) (failed _) _ (λ c h. cc)
        (λ c h.
          let eight : n - 1 ≡ 4 + (4 + (n - 9)) = ground arith in
          rw eight (
            word-drop (4 + (n - 9)) r _
              (λ i r1 d1.
                word-drop (n - 9) r1 _
                  (λ b r2 d2. full-got (n - 9) r2 _ (λ v r3 d. got-rest _ r3 d) d2) d1)
              h))
        e

  port-drop : (n : ℕ) (r : List ℕ) → read_port n r ≡ got m rest → rest ≡ drop (n - 1) r
  unfolding read_port
  port-drop n r e =
      if_got (not (n == 3)) (failed _) _ (λ c h. cc)
        (λ c h.
          let two : n - 1 ≡ 2 = ground arith in
          let (v, r', there, done) = need-got (read_uint16 r) _ h in
          rw two (got-rest _ r' done ∙ uint16-drop r v r' there))
        e

  discard-drop : (k : ℕ) (m' : Message) (r : List ℕ) → discard k m' r ≡ got m rest → rest ≡ drop k r
  unfolding discard
  discard-drop k m' r e =
      if_got (leb k (length r)) _ (failed _) (λ c h. got-rest m' (drop k r) h) (λ c h. cc) e

  decoded-drop :
      {A : Type 0} (o : Option A) (f : A → Read) (r : List ℕ)
      → ((x : A) → f x ≡ got m rest → rest ≡ r)
      → decoded o f ≡ got m rest
      → rest ≡ r
  unfolding decoded
  decoded-drop none f r go_on e = cc
  decoded-drop (some x) f r go_on e = go_on x e

  metadata_message-rest :
      (body r : List ℕ) (t i total : Option ℕ) (count : ℕ)
      → metadata_message body r t i total count ≡ got m rest
      → rest ≡ r
  unfolding metadata_message
  metadata_message-rest body r none i total count e = cc
  metadata_message-rest body r (some t) none total count e = cc
  metadata_message-rest body r (some t) (some i) total count e = cc

  upload_only-drop :
      (n : ℕ) (r : List ℕ)
      → read_upload_only n (read_byte r) ≡ got m rest
      → rest ≡ drop (minus2 n) r
  unfolding read_upload_only read_byte
  upload_only-drop n [] e = cc
  upload_only-drop n (v ∷ r) e =
      if_got (not (minus2 n == 1) || (not (v == 0) && not (v == 1))) (failed _) _ (λ c h. cc)
        (λ c h. let one : minus2 n ≡ 1 = ground arith in rw one (got-rest _ r h)) e

  module _ (codec : Codec) where
    extension-drop : (k : ℕ) (r : List ℕ) → read_extension codec k r ≡ got m rest → rest ≡ drop k r
    unfolding read_extension
    extension-drop k r e =
        decoded-drop (codec.decode_extension (take k r)) _ (drop k r)
          (λ x h. got-rest _ (drop k r) h) e

    pex-drop : (k : ℕ) (r : List ℕ) → read_pex codec k r ≡ got m rest → rest ≡ drop k r
    unfolding read_pex
    pex-drop k r e =
        decoded-drop (codec.decode_pex (take k r)) _ (drop k r) (λ x h. got-rest _ (drop k r) h) e

    metadata-drop : (k : ℕ) (r : List ℕ) → read_metadata codec k r ≡ got m rest → rest ≡ drop k r
    unfolding read_metadata
    metadata-drop k r e =
        full-got k r _
          (λ body r' d.
            decoded-drop (codec.decode_metadata body) _ r'
              (λ x h. metadata_message-rest body r' (x.0).tpe (x.0).piece (x.0).total_size x.1 h) d)
          e

    dont_have-drop : (k : ℕ) (r : List ℕ) → read_dont_have codec k r ≡ got m rest → rest ≡ drop k r
    unfolding read_dont_have
    dont_have-drop k r e =
        if_got (not (k == 4)) (failed _) _ (λ c h. cc)
          (λ c h.
            let four : k ≡ 4 + 0 = ground arith in
            rw four (word-drop 0 r _ (λ v r' d. got-rest _ r' d) h))
          e

    extended-drop :
        (n s : ℕ) (r : List ℕ) → read_extended codec n s r ≡ got m rest → rest ≡ drop (minus2 n) r
    unfolding read_extended
    extended-drop n s r e =
        if_got (s == 0) _ _ (λ c h. extension-drop (minus2 n) r h)
          (λ c.
            if_got (s == ext_pex) _ _ (λ c h. pex-drop (minus2 n) r h)
              (λ c.
                if_got (s == ext_metadata) _ _ (λ c h. metadata-drop (minus2 n) r h)
                  (λ c.
                    if_got (s == ext_dont_have) _ _ (λ c h. dont_have-drop (minus2 n) r h)
                      (λ c.
                        if_got (s == ext_upload_only) _ _ (λ c h. upload_only-drop n r h)
                          (λ c h. discard-drop (minus2 n) _ r h)))))
          e

    -- What follows the type, when the type is not 20 or the length leaves room for a subtype.
    typed-drop :
        (n t : ℕ) (r : List ℕ)
        → (t ≡ 20 → 2 ≤ n)
        → n ≤ max_length
        → read_typed codec n t r ≡ got m rest
        → rest ≡ drop (n - 1) r
    unfolding read_typed
    typed-drop n t r room small e =
        if_got (t == 0) _ _ (λ c h. bare-drop n _ r h)
          (λ c.
            if_got (t == 1) _ _ (λ c h. bare-drop n _ r h)
              (λ c.
                if_got (t == 2) _ _ (λ c h. bare-drop n _ r h)
                  (λ c.
                    if_got (t == 3) _ _ (λ c h. bare-drop n _ r h)
                      (λ c.
                        if_got (t == 4) _ _ (λ c h. index-drop n _ r h)
                          (λ c.
                            if_got (t == 5) _ _
                              (λ c h. full-got (n - 1) r _ (λ v r' d. got-rest _ r' d) h)
                              (λ c.
                                if_got (t == 6) _ _ (λ c h. range-drop n _ r h)
                                  (λ c.
                                    if_got (t == 7) _ _ (λ c h. piece-drop n r h)
                                      (λ c.
                                        if_got (t == 8) _ _ (λ c h. range-drop n _ r h)
                                          (λ c.
                                            if_got (t == 9) _ _ (λ c h. port-drop n r h)
                                              (λ c.
                                                if_got (t == 13) _ _ (λ c h. index-drop n _ r h)
                                                  (λ c.
                                                    if_got (t == 14) _ _ (λ c h. no_more _ h)
                                                      (λ c.
                                                        if_got (t == 15) _ _ (λ c h. no_more _ h)
                                                          (λ c.
                                                            if_got (t == 16) _ _
                                                            (λ c h. range-drop n _ r h)
                                                            (λ c.
                                                            if_got (t == 17) _ _
                                                            (λ c h. index-drop n _ r h)
                                                            (λ c.
                                                            if_got (t == 20) _ _
                                                            (λ c h.
                                                            extended (room ((==_iff t 20).0 c)) h)
                                                            (λ c h.
                                                            discard-drop (n - 1) _ r
                                                            h))))))))))))))))
          e
      where
        no_more :
            (m' : Message)
            → (if not (n == 1) then silent r else got m' r) ≡ got m rest
            → rest ≡ drop (n - 1) r
        no_more m' e =
            if_got (not (n == 1)) (silent r) _ (λ c h. cc)
              (λ c h. let one : n - 1 ≡ 0 = ground arith in rw one (got-rest m' r h)) e

        extended :
            2 ≤ n
            → need (read_byte r) (λ s r'. read_extended codec n s r') ≡ got m rest
            → rest ≡ drop (n - 1) r
        extended two h =
            let (s, r', there, done) = need-got (read_byte r) _ h in
            let k : minus2 n ≡ n - 2 = omega arith in
            let split : n - 1 ≡ 1 + (n - 2) = omega arith in
            rw (split, drop-add 1 (n - 2) r)
              (extended-drop n s r' done
                ∙ ap (λ j. drop j r') k
                ∙ ap (drop (n - 2)) (byte-drop r s r' there))

    sized-drop :
        (n : ℕ) (r : List ℕ)
        → ((r' : List ℕ) → r ≡ 20 ∷ r' → 2 ≤ n)
        → read_sized codec n r ≡ got m rest
        → rest ≡ drop n r
    unfolding read_sized
    sized-drop n r room e =
        if_got (n == 0) _ _ (λ c h. rw ((==_iff n 0).0 c) (got-rest _ r h))
          (λ c.
            if_got (ltb max_length n) _ _ (λ d h. cc)
              (λ d h.
                let small : n ≤ max_length = ground arith in
                let some_left : n ≡ 1 + (n - 1) = ground arith in
                let (t, r', there, done) = need-got (read_byte r) _ h in
                let more : t ≡ 20 → 2 ≤ n =
                  λ te. room r' (byte-cons r t r' there ∙ ap (λ x. x ∷ r') te) in
                typed-drop n t r' more small done
                ∙ ap (drop (n - 1)) (byte-drop r t r' there)
                ∙ sym (drop-add 1 (n - 1) r)
                ∙ ap (λ k. drop k r) (sym some_left)))
          e

    -- Where the length of the next message is n, and a message of type 20 is longer than its type,
    -- Read leaves, with every message that it returns, the bytes after the n that belong to it.
    pub read-drop :
        (bs : List ℕ) (n : ℕ) (r : List ℕ)
        → read_uint32 bs ≡ some (n, r)
        → ((r' : List ℕ) → r ≡ 20 ∷ r' → 2 ≤ n)
        → read codec bs ≡ got m rest
        → rest ≡ drop (4 + n) bs
    unfolding read need
    read-drop bs n r there room e =
        let sized : read_sized codec n r ≡ got m rest =
          sym (ap (λ o. need o (λ k x. read_sized codec k x)) there) ∙ e in
        sized-drop n r room sized ∙ ap (drop n) (uint32-drop bs n r there) ∙ sym (drop-add 4 n bs)
