-- ===== src/Protocol/Response.antt =====
-- `AdRtbResponse`, the table of its fields in `m_mParse`, and the order in which they are sent.
pub mod Codec
pub mod Delivered
pub mod Success
pub mod RoundTrip
pub mod Total
pub mod Bounds
use ad_rtb_adapter.Base.{ℕ, Bool, false, ◌&&◌, ◌==◌, if◌then◌else◌, List, [], ◌∷◌}
use ad_rtb_adapter.Protocol.Key
use ad_rtb_adapter.Protocol.Pairs.{string_slot, list_slot, Table, Field, one, many}
use ad_rtb_adapter.Protocol.Wire.{Bytes}

pub record Response : Type 0 where
  pub adx : ℕ
  pub flow : Bytes
  pub duration : Bytes
  pub advertiser_id : Bytes
  pub tanx_id : Bytes
  pub region : Bytes
  pub area : Bytes
  pub hot_key : Bytes
  pub hot_url : Bytes
  pub hot_tag : Bytes
  pub key_word : Bytes
  pub hot_time : Bytes
  pub bid_id : Bytes
  pub exec_id : Bytes
  pub user_id : Bytes
  pub user_ip : Bytes
  pub p_id : Bytes
  pub create_gid : Bytes
  pub size : Bytes
  pub order_id : Bytes
  pub creative_id : Bytes
  pub material_id : Bytes
  pub uud : Bytes
  pub creative : Bytes
  pub target_price_type : Bytes
  pub target_price : Bytes
  pub max_price : Bytes
  pub category : Bytes
  pub html : Bytes
  pub width : Bytes
  pub height : Bytes
  pub html_mraid : Bytes
  pub dest_url : Bytes
  pub click_url : Bytes
  pub materail_format : Bytes
  pub adirect_id : Bytes
  pub dev_type : Bytes
  pub cook_id : Bytes
  pub monitor_url : List Bytes

-- `clear()`
abbrev pub clear : Response
clear = record {
  adx = 0;
  flow = [];
  duration = [];
  advertiser_id = [];
  tanx_id = [];
  region = [];
  area = [];
  hot_key = [];
  hot_url = [];
  hot_tag = [];
  key_word = [];
  hot_time = [];
  bid_id = [];
  exec_id = [];
  user_id = [];
  user_ip = [];
  p_id = [];
  create_gid = [];
  size = [];
  order_id = [];
  creative_id = [];
  material_id = [];
  uud = [];
  creative = [];
  target_price_type = [];
  target_price = [];
  max_price = [];
  category = [];
  html = [];
  width = [];
  height = [];
  html_mraid = [];
  dest_url = [];
  click_url = [];
  materail_format = [];
  adirect_id = [];
  dev_type = [];
  cook_id = [];
  monitor_url = [];
}

-- `AdRtbProtocolInitParser(AdRtbResponse &)`. No key occurs twice.
unfoldable pub response_parser : Table Response
response_parser =
    (Key.adirect_region, string_slot (λ v r. record r { area = v }))
    ∷ (Key.device, string_slot (λ v r. record r { region = v }))
    ∷ (Key.hot_url, string_slot (λ v r. record r { hot_url = v }))
    ∷ (Key.hot_time, string_slot (λ v r. record r { hot_time = v }))
    ∷ (Key.hot_tag, string_slot (λ v r. record r { hot_tag = v }))
    ∷ (Key.rtb_bidid, string_slot (λ v r. record r { bid_id = v }))
    ∷ (Key.adirect_exec_id, string_slot (λ v r. record r { exec_id = v }))
    ∷ (Key.rtb_uid, string_slot (λ v r. record r { user_id = v }))
    ∷ (Key.rtb_ip, string_slot (λ v r. record r { user_ip = v }))
    ∷ (Key.adv_pid, string_slot (λ v r. record r { p_id = v }))
    ∷ (Key.adv_size, string_slot (λ v r. record r { size = v }))
    ∷ (Key.adirect_order_id, string_slot (λ v r. record r { order_id = v }))
    ∷ (Key.adv_creative_id, string_slot (λ v r. record r { creative_id = v }))
    ∷ (Key.create_group_id, string_slot (λ v r. record r { create_gid = v }))
    ∷ (Key.adirect_material_id, string_slot (λ v r. record r { material_id = v }))
    ∷ (Key.creative_id, string_slot (λ v r. record r { uud = v }))
    ∷ (Key.adv_creative_type, string_slot (λ v r. record r { creative = v }))
    ∷ (Key.adirect_billing_mode, string_slot (λ v r. record r { target_price_type = v }))
    ∷ (Key.adv_max_cpm_price, string_slot (λ v r. record r { max_price = v }))
    ∷ (Key.rtb_category, string_slot (λ v r. record r { category = v }))
    ∷ (Key.adv_html, string_slot (λ v r. record r { html = v }))
    ∷ (Key.mraid_material, string_slot (λ v r. record r { html_mraid = v }))
    ∷ (Key.adv_destination_url, string_slot (λ v r. record r { dest_url = v }))
    ∷ (Key.adv_click_url, string_slot (λ v r. record r { click_url = v }))
    ∷ (Key.duration, string_slot (λ v r. record r { duration = v }))
    ∷ (Key.advertiser_id, string_slot (λ v r. record r { advertiser_id = v }))
    ∷ (Key.target_price, string_slot (λ v r. record r { target_price = v }))
    ∷ (Key.material_format, string_slot (λ v r. record r { materail_format = v }))
    ∷ (Key.adirect_user_id, string_slot (λ v r. record r { adirect_id = v }))
    ∷ (Key.adirect_cookie_id, string_slot (λ v r. record r { cook_id = v }))
    ∷ (Key.rtb_anonymous_id, string_slot (λ v r. record r { tanx_id = v }))
    ∷ (Key.device_type, string_slot (λ v r. record r { dev_type = v }))
    ∷ (Key.keyword, string_slot (λ v r. record r { key_word = v }))
    ∷ (Key.hot_key, string_slot (λ v r. record r { hot_key = v }))
    ∷ (Key.monitor_url, list_slot (λ r. r.monitor_url) (λ v r. record r { monitor_url = v }))
    ∷ []

-- `0 == strncmp(s, "KW_", 3)`
unfoldable pub is_keyword : Bytes → Bool
is_keyword (a ∷ b ∷ c ∷ _) = (a == b'K') && ((b == b'W') && (c == b'_'))
is_keyword _ = false

-- `m_sHotKey` goes under one of two keys.
unfoldable pub hot_field : Bytes → Field
unfolding is_keyword
hot_field v = if is_keyword v then one Key.keyword v else one Key.hot_key v

-- The calls of AD_PROTOCOL_KV in `InternalToTlv(AdRtbResponse &)`, in order.
unfoldable pub response_fields : Response → List Field
unfolding hot_field
response_fields r =
    one Key.adirect_region r.area
    ∷ one Key.device r.region
    ∷ one Key.hot_url r.hot_url
    ∷ one Key.hot_time r.hot_time
    ∷ one Key.hot_tag r.hot_tag
    ∷ one Key.rtb_bidid r.bid_id
    ∷ one Key.adirect_exec_id r.exec_id
    ∷ one Key.rtb_uid r.user_id
    ∷ one Key.rtb_ip r.user_ip
    ∷ one Key.adv_pid r.p_id
    ∷ one Key.adv_size r.size
    ∷ one Key.adirect_order_id r.order_id
    ∷ one Key.adv_creative_id r.creative_id
    ∷ one Key.create_group_id r.create_gid
    ∷ one Key.adirect_material_id r.material_id
    ∷ one Key.creative_id r.uud
    ∷ one Key.adv_creative_type r.creative
    ∷ one Key.adirect_billing_mode r.target_price_type
    ∷ one Key.adv_max_cpm_price r.max_price
    ∷ one Key.rtb_category r.category
    ∷ one Key.adv_html r.html
    ∷ one Key.mraid_material r.html_mraid
    ∷ one Key.adv_destination_url r.dest_url
    ∷ one Key.adv_click_url r.click_url
    ∷ one Key.duration r.duration
    ∷ one Key.advertiser_id r.advertiser_id
    ∷ one Key.target_price r.target_price
    ∷ one Key.material_format r.materail_format
    ∷ one Key.adirect_user_id r.adirect_id
    ∷ one Key.adirect_cookie_id r.cook_id
    ∷ one Key.rtb_anonymous_id r.tanx_id
    ∷ one Key.device_type r.dev_type
    ∷ hot_field r.hot_key
    ∷ many Key.monitor_url r.monitor_url
    ∷ []
