-- ===== src/Protocol/Short.antt =====
-- Input that is shorter than a head: the decoder of requests tests for it, that of responses does not.
use ad_rtb_adapter.Base.{ℕ, ◌<◌, ◌≡◌, refl, [], ◌∷◌, length, ltb, true, arith}
use ad_rtb_adapter.Protocol.Head.{Protocol, flag_byte, head_len, zero_head, get_fields, get_head}
use ad_rtb_adapter.Protocol.Request
use ad_rtb_adapter.Protocol.Request.Codec.{decode_request}
use ad_rtb_adapter.Protocol.Response.Codec.{decode_response}
use ad_rtb_adapter.Protocol.Wire.{Bytes, failure, fault, get8, get16, get32}
use ad_rtb_adapter.Protocol.Zlib.{Zlib}

get_fields_short : (flag : ℕ) (xs : Bytes) → length xs < 11 → get_fields flag xs ≡ fault
unfolding get_fields get8 get16 get32
get_fields_short flag [] s = refl
get_fields_short flag (a ∷ []) s = refl
get_fields_short flag (a ∷ b ∷ []) s = refl
get_fields_short flag (a ∷ b ∷ c ∷ []) s = refl
get_fields_short flag (a ∷ b ∷ c ∷ d ∷ []) s = refl
get_fields_short flag (a ∷ b ∷ c ∷ d ∷ e ∷ []) s = refl
get_fields_short flag (a ∷ b ∷ c ∷ d ∷ e ∷ f ∷ []) s = refl
get_fields_short flag (a ∷ b ∷ c ∷ d ∷ e ∷ f ∷ g ∷ []) s = refl
get_fields_short flag (a ∷ b ∷ c ∷ d ∷ e ∷ f ∷ g ∷ h ∷ []) s = refl
get_fields_short flag (a ∷ b ∷ c ∷ d ∷ e ∷ f ∷ g ∷ h ∷ i ∷ []) s = refl
get_fields_short flag (a ∷ b ∷ c ∷ d ∷ e ∷ f ∷ g ∷ h ∷ i ∷ j ∷ []) s = refl
get_fields_short flag (a ∷ b ∷ c ∷ d ∷ e ∷ f ∷ g ∷ h ∷ i ∷ j ∷ k ∷ xs) s = absurd (omega arith)

get_head_short : (xs : Bytes) → length xs < 11 → get_head (flag_byte ∷ xs) ≡ fault
unfolding get_head get8
get_head_short xs h = get_fields_short flag_byte xs h

-- A packet that starts with the flag and has fewer than 12 bytes is refused by the decoder of
-- requests, with the message cleared, while the decoder of responses reads behind its end. Condition:
-- the length that is passed is that of the packet.
pub decode_short :
    (z : Zlib) (p : Protocol) (xs : Bytes)
    → length (flag_byte ∷ xs) < head_len
    → (decode_request z p (flag_byte ∷ xs) (length (flag_byte ∷ xs))
        ≡ failure (record p { head = zero_head }, Request.clear))
      × (decode_response z p (flag_byte ∷ xs) (length (flag_byte ∷ xs)) ≡ fault)
unfolding decode_request decode_response
decode_short z p xs h =
    let t : ltb (length (flag_byte ∷ xs)) head_len ≡ true = ground arith in
    (rw t refl, rw (get_head_short xs (omega arith)) refl)
