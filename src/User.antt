-- ===== src/User.antt =====
-- `AdUserInfo` of ibidding/filter: what a cache server knows of a user. The ring of servers of
-- libconhash, and the exchange of datagrams with a server, are arguments.
pub mod Last
mod Tests
use ad_rtb_adapter.Base.{
  ℕ, zero, suc, ◌+◌, ◌-◌, ◌/◌, ◌%◌, ◌^◌, Bool, true, false, not, Option, none, some, List, [], ◌∷◌,
  ◌++◌, length, nothing, ltb, ◌==◌, if◌then◌else◌,
}
use ad_rtb_adapter.Base.Int.{ℤ, pos, negsuc, pos_part, ◌-ℤ◌, ltb_ℤ, signed32}
use ad_rtb_adapter.Protocol.Head.{Head, head_len, flag_byte, get_head}
use ad_rtb_adapter.Protocol.Pairs.{Emit, Field, put_fields, ◌>>=◌}
use ad_rtb_adapter.Protocol.Wire.{
  Bytes, Run, ok, failure, fault, put16, put32, get8, get32, get_bytes,
}
use ad_rtb_adapter.Strings.Split.{strip, str_split, pieces_of}
use ad_rtb_adapter.Strings.{Text, Libc, c_str, snprintf}

-- The AD_CACHE keys
abbrev pub cache_league : ℕ
cache_league = 0x01

abbrev pub cache_user_id : ℕ
cache_user_id = 0x02

abbrev pub cache_user_ip : ℕ
cache_user_ip = 0x03

abbrev pub cache_useragent : ℕ
cache_useragent = 0x04

abbrev pub cache_key : ℕ
cache_key = 0x05

abbrev pub cache_url : ℕ
cache_url = 0x06

abbrev pub cache_tag : ℕ
cache_tag = 0x07

abbrev pub cache_flag : ℕ
cache_flag = 0x08

abbrev pub cache_adirects_id : ℕ
cache_adirects_id = 0x0a

abbrev pub cache_cookie_id : ℕ
cache_cookie_id = 0x0b

abbrev pub cache_cookie_value : ℕ
cache_cookie_value = 0x0c

abbrev pub cache_pid : ℕ
cache_pid = 0x0d

abbrev pub cache_exec_id : ℕ
cache_exec_id = 0x0e

abbrev pub cache_create_id : ℕ
cache_create_id = 0x0f

abbrev pub cache_select : ℕ
cache_select = 0x03

abbrev pub day_seconds : ℕ
day_seconds = 86400

-- `AdUserMark`
pub record UserMark : Type 0 where
  pub mark : Text
  pub time : ℕ
  pub tag : ℕ

-- `AdUserData`, without `m_sAdUID` and `m_sUserIE`, which are never read. The multimaps are lists by
-- falling times.
pub record UserData : Type 0 where
  pub flag_id : ℕ
  pub league : Text
  pub user_id : Text
  pub user_ip : Text
  pub user_ag : Text
  pub cook_id : Text
  pub pid : Text
  pub creative_id : Text
  pub execute_id : Text
  pub marks : List UserMark
  pub audience : List UserMark

abbrev pub no_user : UserData
no_user = record {
  flag_id = 0;
  league = [];
  user_id = [];
  user_ip = [];
  user_ag = [];
  cook_id = [];
  pid = [];
  creative_id = [];
  execute_id = [];
  marks = [];
  audience = [];
}

-- `insert` into a multimap: behind the marks with the same time.
abbrev pub insert_mark : UserMark → List UserMark → List UserMark
insert_mark v [] = v ∷ []
insert_mark v (u ∷ us) =
    let rest = insert_mark v us in if ltb u.time v.time then v ∷ u ∷ us else u ∷ rest

-- `AdUserInfoAddRequestMark`
abbrev pub add_request_mark : Text → ℕ → List UserMark → List UserMark
add_request_mark s tag us = insert_mark (record { mark = s; time = 1; tag = tag }) us

abbrev pub is_pos : ℤ → ℕ → Bool
is_pos (pos n) m = n == m
is_pos (negsuc n) m = false

abbrev pub succeeded : Option UserData → Option (UserData × Bool)
succeeded none = none
succeeded (some d) = some (d, true)

abbrev pub is_key_word : Option Text → Bool
is_key_word none = false
is_key_word (some rest) = true

module _ (c : Libc) (now : ℕ) where
  -- A mark with the second of its capture, which is a `time_t` that holds an `int`.
  abbrev pub captured : Text → ℤ → ℕ → List UserMark → List UserMark
  captured s t tag us =
      if ltb_ℤ t (pos now)
      then insert_mark
          (record {
            mark = s;
            time = (pos_part (pos now -ℤ t) / day_seconds + 1) % 2 ^ 32;
            tag = tag;
          })
          us
      else us

  abbrev pub add_node : List Text → ℕ → List UserMark → List UserMark
  add_node (s ∷ t ∷ []) tag us = captured s (signed32 (c.atoi (c_str t))) tag us
  add_node _ tag us = us

  abbrev pub add_nodes : List Text → ℕ → List UserMark → List UserMark
  add_nodes [] tag us = us
  add_nodes (n ∷ ns) tag us =
      add_nodes ns tag (add_node (pieces_of (str_split (b':' ∷ []) n)) tag us)

  -- `AdUserInfoAddMark`
  unfoldable pub add_mark : Text → ℕ → List UserMark → List UserMark
  unfolding str_split
  add_mark s tag us = add_nodes (pieces_of (str_split (b'|' ∷ []) s)) tag us

  -- The cases of the `switch`; `none` is the default, which ends the loop.
  unfoldable pub store : ℕ → Text → UserData → Option UserData
  unfolding add_mark
  store key v d =
      if key == cache_pid
      then some (record d { pid = v })
      else if key == cache_create_id
      then some (record d { creative_id = v })
      else if key == cache_exec_id
      then some (record d { execute_id = v })
      else if key == cache_league
      then some (record d { league = v })
      else if key == cache_adirects_id
      then some (record d { user_id = v })
      else if key == cache_cookie_id
      then some (record d { cook_id = v })
      else if key == cache_user_ip
      then some (record d { user_ip = v })
      else if key == cache_useragent
      then some (record d { user_ag = v })
      else if key == cache_key
      then some (record d {
        marks = add_mark v cache_key d.marks;
        audience =
            if is_key_word (strip (b'K' ∷ b'W' ∷ b'_' ∷ []) v)
            then add_mark v cache_tag d.audience
            else d.audience;
      })
      else if key == cache_url
      then some (record d { marks = add_mark v cache_url d.marks })
      else if key == cache_tag
      then some (record d {
        marks = add_mark v cache_tag d.marks;
        audience = add_mark v cache_tag d.audience;
      })
      else if key == cache_cookie_value
      then some (record d { audience = add_mark v cache_tag d.audience })
      else if key == cache_flag
      then some (record d { flag_id = c.atoi (c_str v) })
      else none

  -- The loop, with `left` pairs to read at most, from `pBody + i` on, where the bytes `xs` stand.
  -- `none` is a fault.
  unfoldable pub user_pairs : ℕ → ℕ → Bytes → ℤ → ℤ → UserData → Option UserData
  unfolding store get8 get32 get_bytes
  user_pairs zero i xs size len d = some d
  user_pairs (suc left) i xs size len d =
      if ltb_ℤ (pos (i + 1)) size
      then (do
        (key, ys) ← get8 xs
        (w, zs) ← get32 ys
        if not (ltb_ℤ (pos 0) (signed32 w))
            then some d
            else if ltb_ℤ len (signed32 ((head_len + i + 5 + 1 + w) % 2 ^ 32))
            then some d
            else (get_bytes w zs >>= λ r. elim (store key r.0 d) [
              | none ↦ some d
              | some d' ↦ user_pairs left (i + 5 + w) r.1 size len d'
            ]))
      else some d

  abbrev pub parse_body : ℕ → UserData → Run Head (Head × Bytes) → Option (UserData × Bool)
  parse_body len d (failure h) = some (d, false)
  parse_body len d fault = none
  parse_body len d (ok (h, body)) =
      if not (is_pos (pos len -ℤ h.size) head_len)
      then some (d, false)
      else if h.total == 0
      then some (d, false)
      else succeeded (user_pairs h.total 0 body h.size (pos len) d)

  -- `AdUserInfoParse`, on a buffer that starts with `len` bytes of a datagram, and whether it succeeds.
  unfoldable pub user_parse : Bytes → ℕ → UserData → Option (UserData × Bool)
  user_parse packet len d = parse_body len d (get_head packet)

-- `AdUserInfoBuildRequest` for a buffer of `room` bytes
abbrev pub request_of : Option Emit → Option Bytes
request_of none = none
request_of (some e) = some (
    flag_byte
    ∷ 0x1a
    ∷ 0
    ∷ cache_select
    ∷ 0
    ∷ 0
    ∷ ((put16 e.count ++ put32 (length e.out)) ++ e.out))

pub build_request : UserData → ℕ → Option Bytes
unfolding put_fields put16 put32
build_request d room = request_of (
    put_fields
      (Field.one cache_league d.league
        ∷ Field.one cache_user_id d.user_id
        ∷ Field.one cache_user_ip d.user_ip
        ∷ Field.one cache_useragent d.user_ag
        ∷ [])
      (record { out = []; count = 0; space = pos room -ℤ pos head_len }))

-- A datagram that was received: the buffer, and how many bytes are it.
pub record Datagram : Type 0 where
  pub buffer : Bytes
  pub len : ℕ

module _ (c : Libc) (now : ℕ) where
  abbrev pub parse_reply : UserData → Option Datagram → Option (UserData × Bool)
  parse_reply d none = some (d, false)
  parse_reply d (some g) = user_parse c now g.buffer g.len d

  abbrev pub ask :
      (Text → Text → Bytes → Option Datagram) → UserData → List Text → Option (UserData × Bool)
  ask udp d [] = some (d, false)
  ask udp d (ip ∷ []) = none
  ask udp d (ip ∷ port ∷ ps) = elim (build_request d 8192) [
    | none ↦ some (d, false)
    | some q ↦ parse_reply d (udp ip port q)
  ]

  -- `AdUserInfoGet`: `lookup` is `conhash_lookup` and the node's value, `udp` sends a request to an
  -- address and a port, and gives what comes back in time, if anything does. `none` is a read of
  -- `vStr[1]` where there is none, or a fault of the parser.
  unfoldable pub user_get :
      (Text → Option Text)
      → (Text → Text → Bytes → Option Datagram)
      → UserData
      → Option (UserData × Bool)
  user_get lookup udp d =
      elim (lookup (snprintf 256 (c_str d.league ++ (b'+' ∷ c_str d.user_id)))) [
        | none ↦ some (d, false)
        | some url ↦ ask udp d (pieces_of (str_split (b':' ∷ []) url))
      ]
