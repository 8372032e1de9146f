-- ===== src/Net/Cache.antt =====
-- `AdCache`: a buffer of 8192 bytes, of which the writing operations use 8191 at most. A cache is
-- modelled by the bytes that it holds; `Set` is only called on a cache that a read has filled.
use ad_rtb_adapter.Base.{
  ℕ, ◌+◌, ◌-◌, Bool, true, false, Option, none, some, ◌++◌, length, take, ltb, if◌then◌else◌,
}
use ad_rtb_adapter.Protocol.Wire.{Bytes}

-- `Max()`, and `m_iMaxLen`
abbrev pub cache_max : ℕ
cache_max = 8192

abbrev pub max_len : ℕ
max_len = 8191

-- `Write`, and the constructor that calls it
pub write : Bytes → Bytes
write b = if ltb max_len (length b) then take max_len b else b

-- `operator=`, and the constructor that calls it
pub copy : Bytes → Bytes
copy a = if ltb max_len (length a) then take max_len a else a

-- `Append`, and whether all of it fits. `none` is a `memcpy` of a negative size, on a cache that a read
-- has filled to its end.
unfoldable pub append : Bytes → Bytes → Option (Bytes × Bool)
append a b =
    if ltb max_len (length b + length a)
    then (if ltb max_len (length a) then none else some (a ++ take (max_len - length a) b, false))
    else some (a ++ b, true)
