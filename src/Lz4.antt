-- ===== src/Lz4.antt =====
-- The LZ4 decoder of src/kernel/lz4.c with the hash of include/xxhash32.h.
-- A buffer is the list of its bytes from a pointer on, and a pointer is the 32-bit address where
-- that list starts: the input list shrinks as `ip` advances, and the output list holds what lies
-- between `dst` and `op`. The tests that compare pointers are on addresses and wrap as they do; where
-- a wrapped pointer passes its test and leaves its buffer, the model gives no answer.
use adr_os.Prelude.{
  ℕ, zero, suc, ◌+◌, ◌-◌, ◌*◌, ◌/◌, ◌%◌, ◌^◌, Bool, true, false, ◌||◌, List, [], ◌∷◌, ◌++◌, Option,
  none, some, ltb, leb, ◌==◌, if◌then◌else◌, length, get_or, take, drop, add32, sub32, ◌>>=◌, ◌>>◌,
  stop_if,
}
-- The addresses a run of `lz4_decompress_block` keeps: the end of the input, and the output buffer.
pub mod Lengths
pub mod Matches
pub mod Format
pub mod Sound
pub mod Decode
pub mod Complete
pub mod Block
pub mod Frame
mod Tests

pub record Ends : Type 0 where
  pub ip_end : ℕ
  pub dst : ℕ
  pub op_end : ℕ

-- `p + n > end`
unfoldable pub passes : ℕ → ℕ → ℕ → Bool
passes p n end = ltb end (add32 p n)

-- `ip`, from the bytes left
unfoldable pub ip_at : Ends → List ℕ → ℕ
ip_at m ip = m.ip_end - length ip

-- `op`, from the bytes written
unfoldable pub op_at : Ends → List ℕ → ℕ
op_at m out = add32 m.dst (length out)

-- `do { if (ip >= ip_end) return -1; extra = *ip++; len += extra; } while (extra == 255)`
unfoldable pub extend : List ℕ → ℕ → Option (ℕ × List ℕ)
extend [] len = none
extend (extra ∷ ip) len =
    let rest = extend ip (add32 len extra) in
    if extra == 255 then rest else some (add32 len extra, ip)

-- A length: the half byte of the token, or more when that is 15.
unfoldable pub read_len : ℕ → List ℕ → Option (ℕ × List ℕ)
read_len n ip = if n == 15 then extend ip n else some (n, ip)

-- The literals of a sequence: the input behind them, and the output with them.
unfoldable pub copy_literals : Ends → ℕ → List ℕ → List ℕ → Option (List ℕ × List ℕ)
copy_literals m token ip out = do
  (lit_len, from) ← read_len (token / 2 ^ 4) ip
  stop_if (passes (ip_at m from) lit_len m.ip_end)
  stop_if (passes (op_at m out) lit_len m.op_end)
  some (drop lit_len from, out ++ take lit_len from)

-- `for (i = 0; i < match_len; i++) op[i] = match_src[i]`, a byte at a time, each read after the
-- bytes before it are written
unfoldable pub copy_match : ℕ → ℕ → List ℕ → List ℕ
copy_match offset zero out = out
copy_match offset (suc n) out =
    copy_match offset n (out ++ (get_or out (length out - offset) 0 ∷ []))

-- The match of a sequence, behind the literals. The two bytes of the offset are disjoint parts of
-- a number, so `|` adds them.
unfoldable pub apply_match : Ends → ℕ → List ℕ → List ℕ → Option (List ℕ × List ℕ)
apply_match m token [] out = none
apply_match m token (low ∷ []) out = none
apply_match m token (low ∷ high ∷ ip) out = do
  let offset = low + high * 2 ^ 8
  stop_if (offset == 0)
  (len, from) ← read_len (token % 2 ^ 4) ip
  let match_len = add32 len 4
  stop_if (ltb (sub32 (op_at m out) offset) m.dst)
  stop_if (passes (op_at m out) match_len m.op_end)
  some (from, copy_match offset match_len out)

-- What a round of the decoder's loop comes to: `return -1`, `break` or the next round.
pub data Round : Type 0 where
  refused : Round
  ended : List ℕ → Round
  going : List ℕ → List ℕ → Round

-- The loop's body behind the literals.
unfoldable pub match_round : Ends → ℕ → List ℕ → List ℕ → Round
match_round m token [] out = ended out
match_round m token (b ∷ ip) out = elim (apply_match m token (b ∷ ip) out) [
  | some (rest, out') ↦ going rest out'
  | none ↦ refused
]

-- The loop's body behind the token.
unfoldable pub round : Ends → ℕ → List ℕ → List ℕ → Round
round m token ip out = elim (copy_literals m token ip out) [
  | some (rest, out') ↦ match_round m token rest out'
  | none ↦ refused
]

-- Whether literals that passed the tests are more than the input has left: then `ip + lit_len` has
-- wrapped around the address space, and the code reads on outside of its input.
unfoldable pub strays : Ends → ℕ → List ℕ → List ℕ → Bool
strays m token ip out = elim (copy_literals m token ip out) [
  | none ↦ false
  | some _ ↦ elim (read_len (token / 2 ^ 4) ip) [
    | none ↦ false
    | some (lit_len, from) ↦ ltb (length from) lit_len
  ]
]

-- Whether a round that passed its tests has written more than the output buffer holds: then `op` has
-- wrapped around the address space.
unfoldable pub outgrows : Ends → Round → Bool
outgrows m refused = false
outgrows m (ended out) = ltb (sub32 m.op_end m.dst) (length out)
outgrows m (going rest out) = ltb (sub32 m.op_end m.dst) (length out)

-- What the decoder returns: -1, the bytes that it wrote, or no answer, within the rounds given or
-- because it reads or writes outside of its buffers, where the model does not follow it.
pub data Outcome : Type 0 where
  failed : Outcome
  wrote : List ℕ → Outcome
  no_fuel : Outcome

-- `for (;;)`, a round for each token
unfoldable pub block_loop : ℕ → Ends → List ℕ → List ℕ → Outcome
block_loop zero m ip out = no_fuel
block_loop (suc fuel) m [] out = failed
block_loop (suc fuel) m (token ∷ ip) out =
    elim (strays m token ip out || outgrows m (round m token ip out)) [
      | true ↦ no_fuel
      | false ↦ elim (round m token ip out) [
        | refused ↦ failed
        | ended out' ↦ wrote out'
        | going rest out' ↦ block_loop fuel m rest out'
      ]
    ]

-- `lz4_decompress_block(src, src_size, dst, dst_cap)`. `bytes` is what lies at `src`. When the end
-- of the input does not lie behind its start, the first test of the loop refuses.
unfoldable pub lz4_decompress_block : ℕ → List ℕ → ℕ → ℕ → ℕ → Outcome
lz4_decompress_block src bytes src_size dst dst_cap =
    let m : Ends = record { ip_end = add32 src src_size; dst = dst; op_end = add32 dst dst_cap } in
    let run = block_loop (suc src_size) m (take src_size bytes) [] in
    if leb (add32 src src_size) src then failed else run
