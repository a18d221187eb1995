-- ===== src/Sha256/Digest.antt =====
-- The digest of src/sha256.c beside the definition of SHA-256 on the padded message.
use liric.Base.{ℕ, zero, suc, ◌+◌, ◌-◌, ◌*◌, ◌%◌, ◌^◌, ◌≤◌, ◌<◌, ◌≡◌, refl, sym, ap, ◌∙◌, arith}
use liric.Base.{List, [], ◌∷◌, ◌++◌, length, take, drop, replicate, length-append, u64, All}
use liric.Base.{length-replicate, take-append_right, drop-append_right, append_nil}
use liric.Sha256.{Words, buflen, compress, absorb, first_state, words_bytes, sha256_init}
use liric.Sha256.{
  mark_zeros, close_with, sha256_final, sha256_update, put_be32, put_be64, sha256_oneshot,
}
use liric.Sha256.Absorb.{absorb_block, absorb_short}
use liric.Sha256.Streaming.{
  empty_context, context_for, buflen-context_for, sha256_update-context_for,
}
use liric.Sha256.Streaming.{concat, sha256_updates, sha256_updates-context_for}

-- The message, a byte 0x80, `k` bytes 0 and the length in bits.
abbrev pub padded : List ℕ → ℕ → List ℕ
padded message k = message ++ mark_zeros k ++ put_be64 (length message * 8 % 2 ^ 64)

abbrev pub compress_all : Words → List (List ℕ) → Words
compress_all state [] = state
compress_all state (b ∷ blocks) = compress_all (compress state b) blocks

take-replicate : (k n : ℕ) → k ≤ n → ◌≡◌ {A = List ℕ} (take k (replicate n 0)) (replicate k 0)
take-replicate zero n h = refl
take-replicate (suc k) zero h = absurd (omega arith)
take-replicate (suc k) (suc n) h = ap (λ t. 0 ∷ t) (take-replicate k n (omega arith))

absorb-concat :
    (fuel : ℕ) (state : Words) (blocks : List (List ℕ))
    → All (λ b. length b ≡ 64) blocks
    → length (concat blocks) < 64 * fuel + 64
    → (absorb fuel state (concat blocks)).0 ≡ compress_all state blocks
absorb-concat fuel state [] sizes enough = ap (λ r. r.0) (absorb_short fuel state [] (omega arith))
absorb-concat zero state (b ∷ blocks) (size, sizes) enough =
    absurd (omega (arith, length-append b (concat blocks)))
absorb-concat (suc fuel) state (b ∷ blocks) (size, sizes) enough =
    let all = length-append b (concat blocks) in
    let whole : 64 ≡ length b + 0 = omega arith in
    let first : take 64 (b ++ concat blocks) ≡ b =
      ap (λ n. take n (b ++ concat blocks)) whole
      ∙ take-append_right b (concat blocks) 0
      ∙ append_nil b in
    let others : drop 64 (b ++ concat blocks) ≡ concat blocks =
      ap (λ n. drop n (b ++ concat blocks)) whole ∙ drop-append_right b (concat blocks) 0 in
    ap (λ r. r.0)
      (absorb_block fuel state (b ++ concat blocks) (omega arith)
        ∙ ap (λ t. absorb fuel (compress state t) (drop 64 (b ++ concat blocks))) first
        ∙ ap (absorb fuel (compress state b)) others)
    ∙ absorb-concat fuel (compress state b) blocks sizes (omega arith)

close_with_lem :
    (message padding : List ℕ) (bits : ℕ)
    → close_with (context_for message) padding bits
      ≡ words_bytes (context_for ((message ++ padding) ++ put_be64 bits)).state
unfolding close_with
close_with_lem message padding bits =
    ap (λ c. words_bytes (sha256_update c (put_be64 bits)).state)
      (sha256_update-context_for message padding)
    ∙ ap (λ c. words_bytes c.state) (sha256_update-context_for (message ++ padding) (put_be64 bits))

module _ (message : List ℕ) (k : ℕ) (small : k < 64)
    (fits : (length message + 1 + k) % 64 ≡ 56) where
  -- The bytes that `lr_sha256_final` adds.
  final-padded :
      sha256_final (context_for message) ≡ words_bytes (context_for (padded message k)).state
  unfolding sha256_final context_for
  final-padded =
      let ctx = context_for message in
      let size = buflen-context_for message in
      let pad : 1 + (119 - buflen ctx) % 64 ≡ suc k = omega arith in
      let zeros : take (1 + (119 - buflen ctx) % 64) (mark_zeros 71) ≡ mark_zeros k =
        ap (λ n. take n (mark_zeros 71)) pad
        ∙ ap (λ t. 0x80 ∷ t) (take-replicate k 71 (omega arith)) in
      let bits : u64 (u64 (length message) * 8) ≡ length message * 8 % 2 ^ 64 = omega arith in
      ap (λ p. close_with ctx p (u64 (u64 (length message) * 8))) zeros
      ∙ ap (close_with ctx (mark_zeros k)) bits
      ∙ close_with_lem message (mark_zeros k) (length message * 8 % 2 ^ 64)

  padded_whole : length (padded message k) % 64 ≡ 0
  unfolding put_be64 put_be32
  padded_whole =
      let tail = put_be64 (length message * 8 % 2 ^ 64) in
      let zeros : length (mark_zeros k) ≡ suc k = ap suc (length-replicate k 0) in
      let size : length tail ≡ 8 = refl in
      let sizes : length (message ++ mark_zeros k) ≡ length message + suc k =
        length-append message (mark_zeros k) ∙ ap (λ n. length message + n) zeros in
      let all : length (padded message k) ≡ length (message ++ mark_zeros k) + length tail =
        length-append (message ++ mark_zeros k) tail in
      omega arith

-- The digest of the bytes at once is that of the bytes in chunks.
pub sha256_oneshot-sha256_updates :
    (chunks : List (List ℕ))
    → sha256_oneshot (concat chunks) ≡ sha256_final (sha256_updates sha256_init chunks)
unfolding sha256_oneshot
sha256_oneshot-sha256_updates chunks =
    ap (λ c. sha256_final (sha256_update c (concat chunks))) empty_context
    ∙ ap sha256_final (sha256_update-context_for [] (concat chunks))
    ∙ ap sha256_final (sym (sha256_updates-context_for chunks))

-- The digest of a message that was given in any chunks is SHA-256 of their concatenation: for
-- the `k` below 64 that brings a message, a byte 0x80 and `k` bytes 0 to 56 bytes modulo 64, the
-- message padded with them and its length in bits, modulo 2 ^ 64, has whole blocks, and for
-- every cut of it into blocks of 64 bytes the digest is the bytes of the words from compressing
-- the blocks one after the other, starting from the first state. So is the digest at once.
pub sha256_final-compress_all :
    (chunks : List (List ℕ)) (k : ℕ) (blocks : List (List ℕ))
    → k < 64
    → (length (concat chunks) + 1 + k) % 64 ≡ 56
    → All (λ b. length b ≡ 64) blocks
    → concat blocks ≡ padded (concat chunks) k
    → (length (padded (concat chunks) k) % 64 ≡ 0)
      × (sha256_final (sha256_updates sha256_init chunks)
          ≡ words_bytes (compress_all first_state blocks))
      × (sha256_oneshot (concat chunks) ≡ words_bytes (compress_all first_state blocks))
unfolding context_for
sha256_final-compress_all chunks k blocks small fits sizes cut =
    let message = concat chunks in
    let digest =
      ap sha256_final (sha256_updates-context_for chunks)
      ∙ final-padded message k small fits
      ∙ ap (λ m. words_bytes (absorb (length m) first_state m).0) (sym cut)
      ∙ ap words_bytes
          (absorb-concat (length (concat blocks)) first_state blocks sizes (omega arith)) in
    (padded_whole message k small fits, digest, sha256_oneshot-sha256_updates chunks ∙ digest)
