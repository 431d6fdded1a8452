-- ===== src/Xxhash/Tests.antt =====
-- Published values of xxHash-32, on the empty input, a short one and one with a stripe.
use adr_os.Prelude.{[], ◌∷◌, ◌≡◌, refl}
use adr_os.Xxhash.{xxh32}

empty : xxh32 [] 0 ≡ 0x02CC5D05
unfolding xxh32
empty = refl

-- "abc"
short : xxh32 (97 ∷ 98 ∷ 99 ∷ []) 0 ≡ 0x32D153FF
unfolding xxh32
short = refl

-- "abcdefghijklmnopqrstuvwxyz"
letters :
    xxh32
      (97 ∷ 98 ∷ 99 ∷ 100 ∷ 101 ∷ 102 ∷ 103 ∷ 104 ∷ 105 ∷ 106 ∷ 107 ∷ 108 ∷ 109 ∷ 110 ∷ 111 ∷ 112
        ∷ 113 ∷ 114 ∷ 115 ∷ 116 ∷ 117 ∷ 118 ∷ 119 ∷ 120 ∷ 121 ∷ 122 ∷ [])
      0
    ≡ 0x63A14D5F
unfolding xxh32
letters = refl
