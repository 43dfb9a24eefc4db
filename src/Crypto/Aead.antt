-- ===== src/Crypto/Aead.antt =====
-- Sealing and opening one packet under ChaCha20-Poly1305.
use sshd.Base.{
  ℕ, ◌≡◌, refl, ◌∙◌, ap, sym, true, false, some, Bytes, IsByte, All, ◌++◌, length, replicate,
  out_array, length-out_array, out_array-IsByte, out_array_lem, Option-cases, inl, inr, arith,
}
use sshd.Platform.{Platform}
use sshd.Crypto.{seq_to_nonce, poly1305_tag, cc20p1305_length, cc20p1305_seal, cc20p1305_open}
use sshd.Crypto.Compare.{ct_memcmp16_iff}

-- What mbedTLS documents of its ChaCha20 and Poly1305: the calls succeed, and the cipher joins its
-- input with a key stream, so that a second run under the same key, nonce and counter undoes it.
pub record StreamCipher (env : Platform) : Type 0 where
  pub chacha20_succeeds :
      (k nonce : Bytes) (ctr : ℕ) (s : Bytes) → env.chacha20_fails k nonce ctr s ≡ false
  pub poly1305_succeeds : (k s : Bytes) → env.poly1305_fails k s ≡ false
  pub length-chacha20 :
      (k nonce : Bytes) (ctr : ℕ) (s : Bytes) → length (env.chacha20 k nonce ctr s) ≡ length s
  pub chacha20-IsByte :
      (k nonce : Bytes) (ctr : ℕ) (s : Bytes)
      → All IsByte s
      → All IsByte (env.chacha20 k nonce ctr s)
  pub chacha20-chacha20 :
      (k nonce : Bytes) (ctr : ℕ) (s : Bytes)
      → All IsByte s
      → env.chacha20 k nonce ctr (env.chacha20 k nonce ctr s) ≡ s

module _ (env : Platform) where
  pub length-cc20p1305_length :
      (k1 : Bytes) (seq : ℕ) (in4 : Bytes) → length (cc20p1305_length env k1 seq in4) ≡ 4
  unfolding cc20p1305_length
  length-cc20p1305_length k1 seq in4 = length-out_array 4 (env.chacha20 k1 (seq_to_nonce seq) 0 in4)

  poly1305_tag-IsByte :
      (k2 nonce aad ct tag : Bytes)
      → poly1305_tag env k2 nonce aad ct ≡ some tag
      → All IsByte tag × (length tag ≡ 16)
  unfolding poly1305_tag
  poly1305_tag-IsByte k2 nonce aad ct tag e =
      let key = out_array 32 (env.chacha20 k2 nonce 0 (replicate 32 0)) in
      let made : tag ≡ out_array 16 (env.poly1305 key (aad ++ ct)) = ground arith in
      rw made (
        out_array-IsByte 16 (env.poly1305 key (aad ++ ct)),
        length-out_array 16 (env.poly1305 key (aad ++ ct)),
      )

  -- With a tag of 16 bytes, a packet is opened only where it is the tag that Poly1305 gives the packet
  -- with its length field, and what comes out is as long as what went in.
  pub cc20p1305_open_needs_tag :
      (k2 : Bytes) (seq : ℕ) (aad inner tag plain : Bytes)
      → All IsByte tag
      → length tag ≡ 16
      → cc20p1305_open env k2 seq aad inner tag ≡ some plain
      → (poly1305_tag env k2 (seq_to_nonce seq) aad inner ≡ some tag)
        × (length plain ≡ length inner)
  unfolding cc20p1305_open
  cc20p1305_open_needs_tag k2 seq aad inner tag plain b l e =
      elim (Option-cases (poly1305_tag env k2 (seq_to_nonce seq) aad inner)) [
        | inl refused ↦ absurd (ground arith)
        | inr (want, made) ↦ ground (
          arith,
          ct_memcmp16_iff want tag (poly1305_tag-IsByte k2 (seq_to_nonce seq) aad inner want made).0
              b (omega (arith, (poly1305_tag-IsByte k2 (seq_to_nonce seq) aad inner want made).1)),
          length-out_array (length inner) (env.chacha20 k2 (seq_to_nonce seq) 1 inner),
        )
      ]

  module _ (laws : StreamCipher env) where
    open laws use {
      chacha20_succeeds, poly1305_succeeds, length-chacha20, chacha20-IsByte, chacha20-chacha20,
    }

    poly1305_tag_made :
        (k2 nonce aad ct : Bytes) → (tag : Bytes) × (poly1305_tag env k2 nonce aad ct ≡ some tag)
    unfolding poly1305_tag
    poly1305_tag_made k2 nonce aad ct =
        let key = out_array 32 (env.chacha20 k2 nonce 0 (replicate 32 0)) in
        (out_array 16 (env.poly1305 key (aad ++ ct)), rw (poly1305_succeeds key (aad ++ ct)))

    out_chacha20 :
        (k nonce : Bytes) (ctr : ℕ) (s : Bytes)
        → All IsByte s
        → out_array (length s) (env.chacha20 k nonce ctr s) ≡ env.chacha20 k nonce ctr s
    out_chacha20 k nonce ctr s b =
        ap (λ n. out_array n (env.chacha20 k nonce ctr s)) (sym (length-chacha20 k nonce ctr s))
        ∙ out_array_lem (env.chacha20 k nonce ctr s) (chacha20-IsByte k nonce ctr s b)

    -- What `cc20p1305_seal` leaves in its two outputs.
    pub cc20p1305_seal_lem :
        (k2 : Bytes) (seq : ℕ) (aad inner : Bytes)
        → All IsByte inner
        → (tag : Bytes) × (cc20p1305_seal env k2 seq aad inner
            ≡ (true, env.chacha20 k2 (seq_to_nonce seq) 1 inner, tag))
          × (poly1305_tag env k2 (seq_to_nonce seq) aad (env.chacha20 k2 (seq_to_nonce seq) 1 inner)
              ≡ some tag)
    unfolding cc20p1305_seal
    cc20p1305_seal_lem k2 seq aad inner b =
        let ct = env.chacha20 k2 (seq_to_nonce seq) 1 inner in
        let (tag, made) = poly1305_tag_made k2 (seq_to_nonce seq) aad ct in
        (
          tag,
          ground (
            arith,
            made,
            chacha20_succeeds k2 (seq_to_nonce seq) 1 inner,
            out_chacha20 k2 (seq_to_nonce seq) 1 inner b,
          ),
          made,
        )

    opened :
        (k2 : Bytes) (seq : ℕ) (aad ct tag : Bytes)
        → poly1305_tag env k2 (seq_to_nonce seq) aad ct ≡ some tag
        → cc20p1305_open env k2 seq aad ct tag
          ≡ some (out_array (length ct) (env.chacha20 k2 (seq_to_nonce seq) 1 ct))
    unfolding cc20p1305_open
    opened k2 seq aad ct tag made =
        let (b, l) = poly1305_tag-IsByte k2 (seq_to_nonce seq) aad ct tag made in
        ground (
          arith,
          made,
          (ct_memcmp16_iff tag tag b b refl).1 refl,
          chacha20_succeeds k2 (seq_to_nonce seq) 1 ct,
        )

    -- Under the laws of the cipher the receiver opens what the sender sealed, a byte string, under the same key, sequence number and length
    -- field: the result of `cc20p1305_seal` is `true`, and `cc20p1305_open` gives the inner part back.
    pub cc20p1305_open-seal :
        (k2 : Bytes) (seq : ℕ) (aad inner : Bytes)
        → All IsByte inner
        → let (sealed, out, tag) = cc20p1305_seal env k2 seq aad inner in
          (sealed ≡ true)
          × (length out ≡ length inner)
          × (length tag ≡ 16)
          × (cc20p1305_open env k2 seq aad out tag ≡ some inner)
    cc20p1305_open-seal k2 seq aad inner b =
        let (tag, sealed, made) = cc20p1305_seal_lem k2 seq aad inner b in
        let ct = env.chacha20 k2 (seq_to_nonce seq) 1 inner in
        rw sealed (
          refl,
          length-chacha20 k2 (seq_to_nonce seq) 1 inner,
          (poly1305_tag-IsByte k2 (seq_to_nonce seq) aad ct tag made).1,
          opened k2 seq aad ct tag made
              ∙ ap some (
                  rw (length-chacha20, chacha20-chacha20 k2 (seq_to_nonce seq) 1 inner b)
                    (out_array_lem inner b)),
        )

    pub cc20p1305_length_twice :
        (k1 : Bytes) (seq : ℕ) (in4 : Bytes)
        → All IsByte in4
        → length in4 ≡ 4
        → cc20p1305_length env k1 seq (cc20p1305_length env k1 seq in4) ≡ in4
    unfolding cc20p1305_length
    cc20p1305_length_twice k1 seq in4 b l =
        rw
          (
            ← l,
            out_chacha20 k1 (seq_to_nonce seq) 0 in4 b,
            chacha20-chacha20 k1 (seq_to_nonce seq) 0 in4 b,
          )
          (out_array_lem in4 b)
