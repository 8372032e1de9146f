-- ===== src/Protocol/Tests.antt =====
-- Runs of the protocol on small packets, with a zlib that stores its input as it is.
use ad_rtb_adapter.Base.Int.{pos, ◌≤ℤ◌, ◌-ℤ◌}
use ad_rtb_adapter.Base.{
  ◌+◌, ◌*◌, ◌≤◌, ◌<◌, ◌≡◌, ◌↔◌, ◌⊎◌, refl, some, List, [], ◌∷◌, ◌++◌, length, take, arith,
}
use ad_rtb_adapter.Protocol.Wire.{Bytes, Run, ok, failure, fault, put16, put32}
use ad_rtb_adapter.Protocol.Head.{
  Head, Protocol, init, zero_head, head_len, body_comp, pack_flags, put_head, get_head, packet_len,
}
use ad_rtb_adapter.Protocol.Head.RoundTrip.{IsEncodable, get_head-put_head, packet_len_lem}
use ad_rtb_adapter.Protocol.Packet.{Packet, deflate}
use ad_rtb_adapter.Protocol.Packet.RoundTrip.{IsPlain, IsSmall, wire_body}
use ad_rtb_adapter.Protocol.Pairs.{
  Table, string_slot, list_slot, Emit, Field, one, many, parse, put_pair, put_each, put_fields,
  pair_len,
}
use ad_rtb_adapter.Protocol.Pairs.Encoded.{Pairs, pairs_of, bytes_of, put_fields_iff}
use ad_rtb_adapter.Protocol.Pairs.Parsed.{keep_all, parse-bytes_of}
use ad_rtb_adapter.Protocol.Request
use ad_rtb_adapter.Protocol.Request.Codec.{mode_bid_price, decode_request, encode_request}
use ad_rtb_adapter.Protocol.Request.RoundTrip.{decode-encode_request}
use ad_rtb_adapter.Protocol.Request.Overrun.{encode_request_overrun}
use ad_rtb_adapter.Protocol.Response
use ad_rtb_adapter.Protocol.Response.Codec.{decode_response, finish_response, encode_response}
use ad_rtb_adapter.Protocol.Response.RoundTrip.{decode-encode_response}
use ad_rtb_adapter.Protocol.Response.Bounds.{encode_response_bounds, encode_response_overrun}
use ad_rtb_adapter.Protocol.Response.Total.{encode_response_iff}
use ad_rtb_adapter.Protocol.Short.{decode_short}
use ad_rtb_adapter.Protocol.Zlib.{Zlib, IsZlib}

abbrev stored : Zlib
stored = record { compress = λ n xs. xs; uncompress = λ n xs. xs; compress_bound = λ n. n }

stored-IsZlib : IsZlib stored
stored-IsZlib = record { short = λ n xs h. omega arith; round = λ n room xs h k. refl }

-- A state that does not compress.
abbrev uncompressed : Protocol
uncompressed = record init { head = record init.head { attr = 0 } }

init-IsPlain : IsPlain init.head
init-IsPlain = record {
  flag = refl;
  version = omega arith;
  protocol = omega arith;
  wide = omega arith;
  response = omega arith;
  expand = refl;
}

abbrev some_head : Head
some_head = record init.head { kind = 3; total = 513; size = pos 77 }

some_head-IsEncodable : IsEncodable some_head
some_head-IsEncodable = record {
  flag = refl;
  version = omega arith;
  protocol = omega arith;
  wide = omega arith;
  response = omega arith;
  expand = omega arith;
  total = omega arith;
  len = 77;
  len_in = omega arith;
  size = refl;
}

some_head_bytes : put_head some_head ≡ 0xe8 ∷ 0x1a ∷ 3 ∷ 1 ∷ 1 ∷ 0 ∷ 2 ∷ 1 ∷ 0 ∷ 0 ∷ 0 ∷ 77 ∷ []
unfolding put_head put16 put32 pack_flags
some_head_bytes = refl

get_head-put_head_example : get_head (put_head some_head ++ 9 ∷ []) ≡ ok (some_head, 9 ∷ [])
get_head-put_head_example = get_head-put_head some_head (9 ∷ []) some_head-IsEncodable

packet_len_example : packet_len (put_head some_head ++ 9 ∷ []) 13 ≡ ok (pos (77 * 256 + 9))
packet_len_example =
    packet_len_lem some_head 77 9 [] 13 refl (omega arith) (omega arith) (omega arith)

abbrev two_fields : List Field
two_fields = one 136 (5 ∷ 6 ∷ []) ∷ many 99 ((7 ∷ []) ∷ [] ∷ (8 ∷ []) ∷ []) ∷ []

abbrev fresh_emit : Emit
fresh_emit = record { out = []; count = 0; space = pos 19 }

put_fields_example :
    ((e' : Emit) × (put_fields two_fields fresh_emit ≡ some e'))
    ↔ (pos (length (bytes_of (pairs_of two_fields))) ≤ℤ pos 19)
put_fields_example = put_fields_iff two_fields fresh_emit (omega arith)

-- A message of one string, under 136, and a list, under 99.
abbrev small_table : Table (Bytes × List Bytes)
small_table =
    (136, string_slot (λ v r. (v, r.1))) ∷ (99, list_slot (λ r. r.1) (λ v r. (r.0, v))) ∷ []

abbrev two_pairs : Pairs
two_pairs = (99, 7 ∷ []) ∷ (99, 8 ∷ []) ∷ []

parse-bytes_of_example :
    parse 2 small_table (1 ∷ (bytes_of two_pairs ++ 3 ∷ [])) (pos 13) (pos 1) ([], [])
    ≡ some (keep_all small_table two_pairs ([], []))
unfolding put32
parse-bytes_of_example =
    parse-bytes_of small_table two_pairs (1 ∷ []) (3 ∷ []) (1 ∷ (bytes_of two_pairs ++ 3 ∷ [])) 13
      ([], []) (omega arith, (omega arith, tt)) refl refl

-- What a run returned. Only a run that succeeded has something to return.
abbrev result_of {ℓ κ} : {S : Type ℓ} {A : Type κ} → A → Run S A → A
result_of d (ok a) = a
result_of d (failure s) = d
result_of d fault = d

abbrev no_packet : Protocol × Packet
no_packet = (init, record { memory = []; sent = 0 })

abbrev some_request : Request.Request
some_request = record Request.clear {
  adx = 8;
  flow = 5 ∷ [];
  user_ip = 6 ∷ 7 ∷ [];
  category = (9 ∷ []) ∷ [] ∷ (10 ∷ []) ∷ [];
}

abbrev request_packet : Protocol × Packet
request_packet = result_of no_packet (encode_request stored init some_request 256)

request_sent : encode_request stored init some_request 256 ≡ ok request_packet
unfolding encode_request Request.request_fields put_fields put_each put_pair put32 ◌-ℤ◌
request_sent = refl

request_IsSmall : IsSmall stored (bytes_of (pairs_of (Request.Delivered.wire_fields some_request)))
unfolding Request.request_fields put32
request_IsSmall = record { bound = omega arith; small = omega arith }

decode-encode_request_example :
    (q' : Protocol) × (decode_request stored init
        (take request_packet.1.sent request_packet.1.memory ++ 4 ∷ [])
        request_packet.1.sent
      ≡ ok (
        q',
        record (Request.Delivered.delivered some_request) { adx = 8; transaction = mode_bid_price },
      ))
decode-encode_request_example =
    decode-encode_request stored init init request_packet.0 some_request 256 request_packet.1
      (4 ∷ []) stored-IsZlib init-IsPlain (omega arith) request_IsSmall request_sent

encode_request_overrun_example :
    let len = length (bytes_of (pairs_of (Request.request_fields some_request))) + head_len in
    (out : Protocol × Packet) × (encode_request stored init some_request len ≡ ok out)
    × (len + pair_len some_request.flow ≤ length out.1.memory)
encode_request_overrun_example = encode_request_overrun stored init some_request 5 [] refl refl

abbrev some_response : Response.Response
some_response = record Response.clear {
  adx = 8;
  area = 5 ∷ [];
  hot_key = 75 ∷ 87 ∷ 95 ∷ [];
  monitor_url = (9 ∷ []) ∷ (10 ∷ []) ∷ [];
}

abbrev response_packet : Protocol × Packet
response_packet = result_of no_packet (encode_response stored init some_response 38)

response_sent : encode_response stored init some_response 38 ≡ ok response_packet
unfolding encode_response Response.response_fields Response.hot_field Response.is_keyword deflate
    finish_response put_fields put_each put_pair ◌-ℤ◌ put32
response_sent = refl

response_IsSmall : IsSmall stored (bytes_of (pairs_of (Response.response_fields some_response)))
unfolding Response.response_fields Response.hot_field Response.is_keyword put32
response_IsSmall = record { bound = omega arith; small = omega arith }

decode-encode_response_example :
    (q' : Protocol) × (decode_response stored init
        (take response_packet.1.sent response_packet.1.memory ++ 4 ∷ [])
        response_packet.1.sent
      ≡ ok (q', record (Response.Delivered.delivered some_response) { adx = 8 }))
decode-encode_response_example =
    decode-encode_response stored init init response_packet.0 some_response 38 response_packet.1
      (4 ∷ []) stored-IsZlib init-IsPlain refl (λ e. omega arith) (omega arith) response_IsSmall
      response_sent

encode_response_bounds_example :
    (response_packet.1.sent ≤ 38)
    × (length response_packet.1.memory ≤ 38 + 1)
    × ((init.head.attr ≡ body_comp) ⊎ (length response_packet.1.memory ≤ 38))
encode_response_bounds_example =
    encode_response_bounds stored init response_packet.0 some_response 38 response_packet.1 refl
      (omega arith) response_sent

encode_response_overrun_example : 38 < length response_packet.1.memory
unfolding encode_response Response.response_fields Response.hot_field Response.is_keyword deflate
    finish_response put_fields put_each put_pair ◌-ℤ◌ put32
encode_response_overrun_example =
    encode_response_overrun stored init response_packet.0 some_response 38 response_packet.1 refl
      refl (λ e. omega arith) response_sent refl

encode_response_iff_example :
    ((out : Protocol × Packet) × (encode_response stored init some_response 40 ≡ ok out)) ↔ (
      (length (bytes_of (pairs_of (Response.response_fields some_response))) + head_len ≤ 40)
      × (length (
              wire_body stored init.head.attr
                (bytes_of (pairs_of (Response.response_fields some_response))))
            + head_len
          ≤ 40))
encode_response_iff_example =
    encode_response_iff stored init some_response 40 refl (λ e. omega arith) (omega arith)

decode_short_example :
    (decode_request stored init (0xe8 ∷ 1 ∷ []) 2
      ≡ failure (record init { head = zero_head }, Request.clear))
    × (decode_response stored init (0xe8 ∷ 1 ∷ []) 2 ≡ fault)
decode_short_example = decode_short stored init (1 ∷ []) (omega arith)
