-- ===== src/Protocol/Packet.antt =====
-- What the two `TlvToInternal` functions share on the way to the pairs, and the two
-- `InternalToTlv` functions behind them.
pub mod RoundTrip
use ad_rtb_adapter.Base.Int.{ℤ, pos, negsuc, ltb_ℤ, ◌+ℤ◌}
use ad_rtb_adapter.Base.{[], ◌∷◌, ◌++◌, ℕ, ◌+◌, ◌^◌, ◌++◌, ◌==◌, if◌then◌else◌, length, drop}
use ad_rtb_adapter.Protocol.Wire.{Bytes, Run, ok, failure, fault, ◌>>=◌, reading, get_bytes}
use ad_rtb_adapter.Protocol.Head.{Protocol, head_len, expand_len, body_comp}
use ad_rtb_adapter.Protocol.Zlib.{Zlib}

-- AD_KBYTES4, the room that both `compress` and `uncompress` are told of.
abbrev pub room : ℕ
room = 4096

-- `if(iLen < n + m_stHead.iLength) return AD_FAILURE`; the sum is an `int`.
unfoldable pub check_len : ℕ → ℕ → Protocol → Bytes → Run Protocol (Protocol × Bytes)
check_len len n p body =
    let end = pos n +ℤ p.head.size in
    if ltb_ℤ end (pos (2 ^ 31))
    then (if ltb_ℤ (pos len) end then failure p else ok (p, body))
    else fault

-- The expand head, and the test of the length.
unfoldable pub read_expand : ℕ → Protocol → Bytes → Run Protocol (Protocol × Bytes)
unfolding check_len get_bytes
read_expand len p body =
    if p.head.expand == 1
    then (reading (get_bytes expand_len body) >>= λ r.
        check_len len (head_len + expand_len) (record p { ex_head = r.0 }) r.1)
    else check_len len head_len p body

inflated : Zlib → Protocol → ℤ → Bytes → Run Protocol (Protocol × Bytes)
unfolding get_bytes
inflated z p (pos n) body = do
  (src, _) ← reading (get_bytes n body)
  let out : Bytes = z.uncompress room src
  ok (record p { head = record p.head { size = pos (length out) } }, out)
inflated z p (negsuc n) body = fault

-- `uncompress`, which reads `(ULONG)m_stHead.iLength` bytes: a negative length is a huge one.
-- What lies behind the result in `sUnCompress` is not initialised, and counts as out of bounds.
unfoldable pub inflate : Zlib → Protocol → Bytes → Run Protocol (Protocol × Bytes)
unfolding inflated
inflate z p body = if p.head.attr == body_comp then inflated z p p.head.size body else ok (p, body)

abbrev pub with_state {ℓ κ μ} : {S : Type ℓ} {T : Type κ} {A : Type μ} → (S → T) → Run S A → Run T A
with_state f (ok a) = ok a
with_state f (failure s) = failure (f s)
with_state f fault = fault

-- `memcpy(p, ys, …)` onto what stands at `p`
abbrev pub overwrite : Bytes → Bytes → Bytes
overwrite xs ys = ys ++ drop (length ys) xs

-- The buffer from `pdata` on as far as it was written, and the length that is returned.
pub record Packet : Type 0 where
  pub memory : Bytes
  pub sent : ℕ

-- The compression of the body in place: what stands at `pSend + headSize` behind it, and `dataLen`.
-- Behind the compressed bytes a 0 is written.
unfoldable pub deflate : Zlib → ℕ → Bytes → Bytes × ℕ
deflate z attr out =
    let c = z.compress room out in
    if attr == body_comp then (overwrite out (c ++ 0 ∷ []), length c) else (out, length out)
