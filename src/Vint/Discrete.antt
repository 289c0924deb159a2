-- ===== src/Vint/Discrete.antt =====
-- src/common/utils/vint/rqc_discrete_int_parser.c: integers that arrive in several buffers. A
-- buffer `p` of `sz` bytes is a list; `size_t` counts are far below their bound and do not wrap.
pub mod Chunks
pub mod Whole
use rquic.Base.{ℕ, ◌+◌, ◌-◌, ◌*◌, ◌/◌, ◌%◌, ◌^◌, bit_and, min}
use rquic.Base.{Bool, true, false, List, [], ◌∷◌, length, take, ◌==◌, if◌then◌else◌}

-- rqc_discrete_int_pctx_t
pub record Pctx : Type 0 where
  pub vi : ℕ
  pub left : ℕ

pub discrete_int_pctx_clear : Pctx → Pctx
discrete_int_pctx_clear pctx = record { vi = 0; left = 0 }

-- What a call returns: the bytes taken, the context left behind, and `*fin`.
pub record Progress : Type 0 where
  pub taken : ℕ
  pub pctx : Pctx
  pub fin : Bool

-- `vi = (vi << 8) + *pos` over the bytes, on a uint64_t.
pub shift_in : ℕ → List ℕ → ℕ
shift_in vi [] = vi
shift_in vi (b ∷ bs) = shift_in ((vi * 2 ^ 8 % 2 ^ 64 + b) % 2 ^ 64) bs

-- The common second half: `cnt = rqc_min(left, sz)` bytes are shifted in. `before` bytes were
-- taken already.
pub consume : ℕ → List ℕ → Pctx → Progress
unfolding shift_in
consume before bs pctx =
    let cnt = min pctx.left (length bs) in
    let left' = pctx.left - cnt in
    record {
      taken = before + cnt;
      pctx = record { vi = shift_in pctx.vi (take cnt bs); left = left' };
      fin = left' == 0;
    }

unfoldable pub discrete_vint_parse : List ℕ → Pctx → Progress
unfolding consume
discrete_vint_parse [] pctx = record { taken = 0; pctx = pctx; fin = false }
discrete_vint_parse (b ∷ bs) pctx =
    if pctx.left == 0
    then consume 1 bs (record { vi = bit_and b 0x3f; left = 2 ^ (b / 2 ^ 6) - 1 })
    else consume 0 (b ∷ bs) pctx

unfoldable pub fixed_len_int_parse : List ℕ → ℕ → Pctx → Progress
unfolding consume
fixed_len_int_parse [] len pctx = record { taken = 0; pctx = pctx; fin = false }
fixed_len_int_parse (b ∷ bs) len pctx =
    consume 0 (b ∷ bs) (if pctx.left == 0 then record pctx { left = len } else pctx)
