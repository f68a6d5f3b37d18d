-- ===== src/Tests/Hashing.antt =====
-- The digest at a small message in pieces.
use linggen_memory.Prelude.{ℕ, ◌≡◌, refl, List, [], ◌∷◌}
use linggen_memory.Hash.{new, update, finalize}
use linggen_memory.Hash.Streaming.{flat}
use linggen_memory.Hash.Padding
use linggen_memory.Hash.Padding.{feed, one_pass, primes, are_roots, words_in}

abbrev pieces : List (List ℕ)
pieces = (0x61 ∷ []) ∷ [] ∷ (0x62 ∷ 0x63 ∷ []) ∷ []

finalize-feed_example :
    (finalize (feed new pieces) ≡ one_pass (flat pieces))
    × (are_roots 2 primes (words_in new.state) ≡ linggen_memory.Prelude.true)
    × (are_roots 3 primes linggen_memory.Hash.round_constants ≡ linggen_memory.Prelude.true)
    × (linggen_memory.Prelude.length linggen_memory.Hash.round_constants ≡ 64)
finalize-feed_example = Padding.finalize-feed pieces

-- The digest of "abc" in the standard.
abc :
    finalize (feed new pieces)
    ≡ 0xba ∷ 0x78 ∷ 0x16 ∷ 0xbf ∷ 0x8f ∷ 0x01 ∷ 0xcf ∷ 0xea ∷ 0x41 ∷ 0x41 ∷ 0x40 ∷ 0xde ∷ 0x5d
      ∷ 0xae ∷ 0x22 ∷ 0x23 ∷ 0xb0 ∷ 0x03 ∷ 0x61 ∷ 0xa3 ∷ 0x96 ∷ 0x17 ∷ 0x7a ∷ 0x9c ∷ 0xb4 ∷ 0x10
      ∷ 0xff ∷ 0x61 ∷ 0xf2 ∷ 0x00 ∷ 0x15 ∷ 0xad ∷ []
unfolding new update finalize linggen_memory.Hash.compress linggen_memory.Hash.whole_blocks
    linggen_memory.Hash.take_in linggen_memory.Hash.pad_zeros linggen_memory.Hash.be_bytes
    linggen_memory.Hash.schedule linggen_memory.Hash.words_of
abc = refl
