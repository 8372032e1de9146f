-- ===== src/User/Tests.antt =====
-- Runs of `AdUserInfo`.
use ad_rtb_adapter.Base.{◌≡◌, refl, true, some, none, [], ◌∷◌, ◌++◌, arith}
use ad_rtb_adapter.Base.Int.{pos, ◌-ℤ◌}
use ad_rtb_adapter.Protocol.Head.{Head, get_head}
use ad_rtb_adapter.Protocol.Pairs.Encoded.{Pairs, bytes_of}
use ad_rtb_adapter.Protocol.Pairs.{pair_bytes}
use ad_rtb_adapter.Protocol.Wire.{Bytes, put32}
use ad_rtb_adapter.Strings.Sample.{sample_libc}
use ad_rtb_adapter.Strings.Split.{str_split}
use ad_rtb_adapter.User.{
  no_user, cache_pid, cache_create_id, add_mark, store, user_pairs, user_parse,
}
use ad_rtb_adapter.User.Last.{user_parse-but_last}

-- Two marks of the second 0, seen two days later.
add_mark_run :
    add_mark sample_libc 172800 (b'c' ∷ b':' ∷ b'0' ∷ b'|' ∷ b'd' ∷ b':' ∷ b'0' ∷ []) 7 []
    ≡ (record { mark = b'c' ∷ []; time = 3; tag = 7 })
      ∷ (record { mark = b'd' ∷ []; time = 3; tag = 7 })
      ∷ []
unfolding add_mark str_split ◌-ℤ◌
add_mark_run = refl

abbrev pid_pair : Pairs
pid_pair = (cache_pid, b'p' ∷ []) ∷ []

abbrev reply : Bytes
reply =
    0xe8
    ∷ 0x1a
    ∷ 0
    ∷ 3
    ∷ 0
    ∷ 0
    ∷ 0
    ∷ 2
    ∷ 0
    ∷ 0
    ∷ 0
    ∷ 12
    ∷ (bytes_of pid_pair ++ (pair_bytes cache_create_id (b'q' ∷ []) ++ []))

abbrev reply_head : Head
reply_head = record {
  flag = 0xe8;
  version = 1;
  protocol = 1;
  wide = 0;
  response = 1;
  expand = 0;
  kind = 0;
  verb = 3;
  attr = 0;
  result = 0;
  total = 2;
  size = pos 12;
}

reply_run :
    user_parse sample_libc 0 reply 24 no_user ≡ some (record no_user { pid = b'p' ∷ [] }, true)
unfolding user_parse user_pairs get_head put32 ◌-ℤ◌
reply_run = refl

user_parse-but_last_example :
    user_parse sample_libc 0 reply 24 no_user ≡ some (record no_user { pid = b'p' ∷ [] }, true)
unfolding get_head put32 store
user_parse-but_last_example =
    user_parse-but_last sample_libc 0 reply_head pid_pair cache_create_id (b'q' ∷ []) reply []
      no_user (record no_user { pid = b'p' ∷ [] }) refl refl refl (omega arith) (omega arith, tt)
      (omega arith) refl

-- The test of a value's length overflows for a length near 2 ^ 31, and `assign` reads behind the buffer.
length_overflow :
    user_parse sample_libc 0
      (0xe8 ∷ 0x1a ∷ 0 ∷ 3 ∷ 0 ∷ 0 ∷ 0 ∷ 1 ∷ 0 ∷ 0 ∷ 0 ∷ 6 ∷ cache_pid ∷ 0x7f ∷ 0xff ∷ 0xff ∷ 0xff
        ∷ b'p' ∷ [])
      18
      no_user
    ≡ none
unfolding user_parse user_pairs get_head ◌-ℤ◌
length_overflow = refl
