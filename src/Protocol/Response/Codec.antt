-- ===== src/Protocol/Response/Codec.antt =====
-- `TlvToInternal(AdRtbResponse &, …)` and `InternalToTlv(AdRtbResponse &, …)`, without `display`.
use ad_rtb_adapter.Base.Int.{pos, ◌-ℤ◌}
use ad_rtb_adapter.Base.{
  ℕ, ◌+◌, ◌%◌, ◌&&◌, none, some, [], ◌∷◌, ◌++◌, ◌==◌, ltb, if◌then◌else◌, length,
}
use ad_rtb_adapter.Protocol.Wire.{Bytes, Run, ok, failure, ◌>>=◌, reading}
use ad_rtb_adapter.Protocol.Head.{
  Head, Protocol, head_len, expand_len, body_comp, result_ok, result_unknow, verb_response,
  put_head, get_head,
}
use ad_rtb_adapter.Protocol.Packet.{Packet, read_expand, inflate, deflate, with_state, overwrite}
use ad_rtb_adapter.Protocol.Pairs.{Emit, put_fields, parse}
use ad_rtb_adapter.Protocol.Response.{Response, clear, response_parser, response_fields}
use ad_rtb_adapter.Protocol.Zlib.{Zlib}

-- At the label RETURN: `ctRes.m_uiAdx = m_stHead.ucType`, on every path.
abbrev pub returned : Protocol → Response → Protocol × Response
returned p r = (p, record r { adx = p.head.kind })

unfoldable pub check_result : Protocol → Run Protocol (Unit {0})
check_result p = if p.head.result == result_ok then ok tt else failure p

unfoldable pub decode_response :
    Zlib → Protocol → Bytes → ℕ → Run (Protocol × Response) (Protocol × Response)
decode_response z p xs len = do
  (h, body) ← with_state (λ h. returned (record p { head = h }) clear) (get_head xs)
  (p, body) ← with_state (λ p. returned p clear) (read_expand len (record p { head = h }) body)
  _ ← with_state (λ p. returned p clear) (check_result p)
  (p, body) ← with_state (λ p. returned p clear) (inflate z p body)
  r ← reading (parse p.head.total response_parser body p.head.size (pos 0) clear)
  ok (returned p r)

-- `headSize`
abbrev pub response_head_len : Head → ℕ
response_head_len h = if h.expand == 1 then head_len + expand_len else head_len

-- The head is written last; `body` stands at `pdata + headSize`. The four bytes of an expand head
-- stand between them.
unfoldable pub finish_response : Protocol → Bytes → ℕ → ℕ → Protocol × Packet
finish_response p body size count =
    let h = record p.head { size = pos size; total = count; verb = verb_response } in
    let expand = p.head.expand == 1 in
    (
      record p { head = h },
      record {
        memory =
            put_head h ++ (if expand then overwrite (0 ∷ 0 ∷ 0 ∷ 0 ∷ body) p.ex_head else body);
        sent = size + response_head_len p.head + (if expand then length p.ex_head else 0);
      },
    )

unfoldable pub encode_response : Zlib → Protocol → Response → ℕ → Run Protocol (Protocol × Packet)
encode_response z p r len =
    let h = record p.head { kind = r.adx % 256 } in
    let start : Emit = record {
      out = [];
      count = 0;
      space = pos len -ℤ pos (response_head_len h);
    } in
    if r.adx == 0
    then ok (finish_response (record p { head = record h { result = result_unknow } }) [] 0 0)
    else elim (put_fields (response_fields r) start) [
      | none ↦ failure (record p { head = h })
      | some e ↦
          let (body, size) = deflate z h.attr e.out in
          if h.attr == body_comp && ltb len (size + response_head_len h)
          then failure (record p { head = h })
          else ok (finish_response (record p { head = h }) body size e.count)
    ]
