-- ===== src/Protocol/Zlib.antt =====
-- zlib, as libtlv uses it. The library is not part of the repository: its functions are parameters.
use ad_rtb_adapter.Base.{ℕ, ◌≤◌, ◌≡◌, length}
use ad_rtb_adapter.Protocol.Wire.{Bytes}

-- `compress n xs` and `uncompress n xs` stand for the bytes that a call leaves at `dest`, as many as
-- it reports in `*destLen`, when `*destLen` was `n` before. The code tests no return code.
pub record Zlib : Type 0 where
  pub compress : ℕ → Bytes → Bytes
  pub uncompress : ℕ → Bytes → Bytes
  pub compress_bound : ℕ → ℕ

-- zlib's manual: `compress` succeeds if `dest` has `compressBound(sourceLen)` bytes, and the result
-- is no longer; `uncompress` gives the source back if `dest` has room for it.
pub record IsZlib (z : Zlib) : Type 0 where
  pub short :
      (n : ℕ) (xs : Bytes)
      → z.compress_bound (length xs) ≤ n
      → length (z.compress n xs) ≤ z.compress_bound (length xs)
  pub round :
      (n room : ℕ) (xs : Bytes)
      → z.compress_bound (length xs) ≤ n
      → length xs ≤ room
      → z.uncompress room (z.compress n xs) ≡ xs
