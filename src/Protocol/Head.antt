-- ===== src/Protocol/Head.antt =====
-- The packet head of libtlv: `ADPROHEAD_S`, the state of `AdRtbProtocol`, and the code that the two
-- encoders and the two decoders share for the head.
pub mod RoundTrip
use ad_rtb_adapter.Base.Int.{ℤ, pos, signed32, int_bits}
use ad_rtb_adapter.Base.{
  drop, ℕ, ◌+◌, ◌*◌, ◌/◌, ◌%◌, ◌^◌, bit_or, [], ◌∷◌, ◌++◌, ltb, ◌==◌, if◌then◌else◌,
}
use ad_rtb_adapter.Protocol.Wire.{
  Bytes, Run, ok, failure, ◌>>=◌, reading, put16, put32, get8, get16, get32,
}

abbrev pub flag_byte : ℕ
flag_byte = 0xe8

abbrev pub head_len : ℕ
head_len = 12

abbrev pub expand_len : ℕ
expand_len = 4

abbrev pub verb_request : ℕ
verb_request = 1

abbrev pub verb_response : ℕ
verb_response = 2

abbrev pub body_comp : ℕ
body_comp = 1

abbrev pub result_ok : ℕ
result_ok = 0

abbrev pub result_unknow : ℕ
result_unknow = 0xff

pub record Head : Type 0 where
  pub flag : ℕ
  pub version : ℕ
  pub protocol : ℕ
  pub wide : ℕ
  pub response : ℕ
  pub expand : ℕ
  pub kind : ℕ
  pub verb : ℕ
  pub attr : ℕ
  pub result : ℕ
  pub total : ℕ
  pub size : ℤ

-- `m_stHead` and `m_sExHead`
pub record Protocol : Type 0 where
  pub head : Head
  pub ex_head : Bytes

-- the constructor
abbrev pub init : Protocol
init = record {
  head = record {
    flag = flag_byte;
    version = 1;
    protocol = 1;
    wide = 0;
    response = 1;
    expand = 0;
    kind = 0;
    verb = verb_request;
    attr = 1;
    result = result_ok;
    total = 0;
    size = pos 0;
  };
  ex_head = [];
}

-- `memset(&m_stHead, 0, sizeof(m_stHead))`
abbrev pub zero_head : Head
zero_head = record {
  flag = 0;
  version = 0;
  protocol = 0;
  wide = 0;
  response = 0;
  expand = 0;
  kind = 0;
  verb = 0;
  attr = 0;
  result = 0;
  total = 0;
  size = pos 0;
}

-- `*pCur = ucVersion << 4; *pCur |= ucProtocol << 3; …`, each time cut to a byte
unfoldable pub pack_flags : ℕ → ℕ → ℕ → ℕ → ℕ → ℕ
pack_flags version protocol wide response expand =
    bit_or
      (bit_or (bit_or (bit_or (version * 16 % 256) (protocol * 8 % 256)) (wide * 4 % 256))
        (response * 2 % 256))
      (expand % 256)

unfoldable pub put_head : Head → Bytes
unfolding pack_flags
put_head h =
    flag_byte
    ∷ pack_flags h.version h.protocol h.wide h.response h.expand
    ∷ h.kind
    ∷ h.verb
    ∷ h.attr
    ∷ h.result
    ∷ (put16 h.total ++ put32 (int_bits h.size))

-- `*pCur >> 4` on a plain `char`, which is signed, stored into a UCHAR
unfoldable pub version_of : ℕ → ℕ
version_of b = if ltb b 128 then b / 16 else b / 16 + 240

-- The bytes of the head behind the flag, when that is right.
unfoldable pub get_fields : ℕ → Bytes → Run Head (Head × Bytes)
unfolding version_of get8 get16 get32
get_fields flag xs = do
  (b, xs) ← reading (get8 xs)
  (kind, xs) ← reading (get8 xs)
  (verb, xs) ← reading (get8 xs)
  (attr, xs) ← reading (get8 xs)
  (result, xs) ← reading (get8 xs)
  (total, xs) ← reading (get16 xs)
  (size, xs) ← reading (get32 xs)
  ok (
    record {
      flag = flag;
      version = version_of b;
      protocol = b % 16 / 8;
      wide = b % 8 / 4;
      response = b % 4 / 2;
      expand = b % 2;
      kind = kind;
      verb = verb;
      attr = attr;
      result = result;
      total = total;
      size = signed32 size;
    },
    xs,
  )

-- A wrong first byte is a failure; the head then holds that byte and zeros.
unfoldable pub get_head : Bytes → Run Head (Head × Bytes)
unfolding get_fields get8
get_head xs = do
  (flag, rest) ← reading (get8 xs)
  if flag == flag_byte then get_fields flag rest else failure (record zero_head { flag = flag })

-- `TlvPacketLen`. The first byte is read before the length is tested; `pData + 8` is counted from
-- the byte behind the flag.
unfoldable pub packet_len : Bytes → ℕ → Run (Unit {0}) ℤ
unfolding get8 get32
packet_len xs len = do
  (flag, rest) ← reading (get8 xs)
  if ltb len head_len
      then failure tt
      else if flag == flag_byte
      then (reading (get32 (drop 8 rest)) >>= λ r. ok (signed32 r.0))
      else failure tt
