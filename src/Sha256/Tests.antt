-- ===== src/Sha256/Tests.antt =====
-- A run of SHA-256, and its theorems at concrete messages.
use liric.Sha256.{sha256_init, words_bytes, first_state}
use liric.Sha256.Streaming.{sha256_updates}
use liric.Sha256.Digest.{padded, compress_all, sha256_final-compress_all}
use liric.Base.{length, ◌%◌}
use liric.Base.{ℕ, ◌≡◌, refl, arith, List, [], ◌∷◌, codes}
use liric.Sha256.{
  sha256_oneshot, sha256_update, sha256_final, absorb, compress, load_words, extend_words,
}
use liric.Sha256.{close_with, rounds, round, be32, put_be32, put_be64}

sha256_abc :
    sha256_oneshot (codes "abc")
    ≡ 0xba ∷ 0x78 ∷ 0x16 ∷ 0xbf ∷ 0x8f ∷ 0x01 ∷ 0xcf ∷ 0xea ∷ 0x41 ∷ 0x41 ∷ 0x40 ∷ 0xde ∷ 0x5d
      ∷ 0xae ∷ 0x22 ∷ 0x23 ∷ 0xb0 ∷ 0x03 ∷ 0x61 ∷ 0xa3 ∷ 0x96 ∷ 0x17 ∷ 0x7a ∷ 0x9c ∷ 0xb4 ∷ 0x10
      ∷ 0xff ∷ 0x61 ∷ 0xf2 ∷ 0x00 ∷ 0x15 ∷ 0xad ∷ []
unfolding close_with sha256_oneshot sha256_update sha256_final absorb compress load_words
    extend_words rounds round be32 put_be32 put_be64
sha256_abc = refl

-- The one block of the message of three bytes.
abbrev abc_block : List ℕ
abc_block = padded (codes "abc") 52

sha256_final-compress_all_example :
    (length (padded (codes "abc") 52) % 64 ≡ 0)
    × (sha256_final (sha256_updates sha256_init (codes "a" ∷ codes "bc" ∷ []))
        ≡ words_bytes (compress_all first_state (abc_block ∷ [])))
    × (sha256_oneshot (codes "abc") ≡ words_bytes (compress_all first_state (abc_block ∷ [])))
unfolding put_be64 put_be32
sha256_final-compress_all_example =
    sha256_final-compress_all (codes "a" ∷ codes "bc" ∷ []) 52 (abc_block ∷ []) (omega arith) refl
      (refl, tt) refl
