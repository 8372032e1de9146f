-- ===== src/Protocol/Request.antt =====
-- `AdRtbRequest`, the table of its fields in `m_mParse`, and the order in which they are sent.
-- Left out: `m_cTime`, the clock reading that `clear` takes (see Pending).
pub mod Codec
pub mod Delivered
pub mod RoundTrip
pub mod Overrun
use ad_rtb_adapter.Base.{ℕ, Bool, false, List, [], ◌∷◌}
use ad_rtb_adapter.Protocol.Key
use ad_rtb_adapter.Protocol.Pairs.{string_slot, list_slot, Table, Field, one, many}
use ad_rtb_adapter.Protocol.Wire.{Bytes}

pub record Request : Type 0 where
  pub adx : ℕ
  pub flow : Bytes
  pub ad_view_screen : Bytes
  pub ad_view_type : Bytes
  pub bid_id : Bytes
  pub user_id : Bytes
  pub user_ip : Bytes
  pub area : Bytes
  pub p_id : Bytes
  pub slot_id : Bytes
  pub site_category : List Bytes
  pub size : Bytes
  pub user_agent : Bytes
  pub user_url : Bytes
  pub ua_list : List Bytes
  pub create : List Bytes
  pub category : List Bytes
  pub sensitive : List Bytes
  pub min_price : Bytes
  pub video_min_time : Bytes
  pub video_max_time : Bytes
  pub linearity : Bytes
  pub material_format : List Bytes
  pub mobile_operator : List Bytes
  pub mobile_device : List Bytes
  pub mobile_connect : List Bytes
  pub idfa : Bytes
  pub imei : Bytes
  pub android_id : Bytes
  pub transaction : Bytes
  pub dev_unique_type : Bytes
  pub lat : Bytes
  pub lon : Bytes
  pub crowd_category : List Bytes
  pub request_id : ℕ
  pub mobile : Bool
  pub para1 : Bytes
  pub para2 : Bytes
  pub para3 : Bytes
  pub para4 : Bytes
  pub para5 : Bytes

-- `clear()`
abbrev pub clear : Request
clear = record {
  adx = 0;
  flow = [];
  ad_view_screen = [];
  ad_view_type = [];
  bid_id = [];
  user_id = [];
  user_ip = [];
  area = [];
  p_id = [];
  slot_id = [];
  site_category = [];
  size = [];
  user_agent = [];
  user_url = [];
  ua_list = [];
  create = [];
  category = [];
  sensitive = [];
  min_price = [];
  video_min_time = [];
  video_max_time = [];
  linearity = [];
  material_format = [];
  mobile_operator = [];
  mobile_device = [];
  mobile_connect = [];
  idfa = [];
  imei = [];
  android_id = [];
  transaction = [];
  dev_unique_type = [];
  lat = [];
  lon = [];
  crowd_category = [];
  request_id = 0;
  mobile = false;
  para1 = [];
  para2 = [];
  para3 = [];
  para4 = [];
  para5 = [];
}

-- `AdRtbProtocolInitParser(AdRtbRequest &)`. No key occurs twice.
unfoldable pub request_parser : Table Request
request_parser =
    (Key.adirect_flow_type, string_slot (λ v r. record r { flow = v }))
    ∷ (Key.rtb_bidid, string_slot (λ v r. record r { bid_id = v }))
    ∷ (Key.rtb_uid, string_slot (λ v r. record r { user_id = v }))
    ∷ (Key.rtb_ip, string_slot (λ v r. record r { user_ip = v }))
    ∷ (Key.adv_pid, string_slot (λ v r. record r { p_id = v }))
    ∷ (Key.mobile_app, list_slot (λ r. r.site_category) (λ v r. record r { site_category = v }))
    ∷ (Key.adv_size, string_slot (λ v r. record r { size = v }))
    ∷ (Key.rtb_useragent, string_slot (λ v r. record r { user_agent = v }))
    ∷ (Key.rtb_user_url, string_slot (λ v r. record r { user_url = v }))
    ∷ (Key.device_unique_type, string_slot (λ v r. record r { dev_unique_type = v }))
    ∷ (Key.adv_view_screen, string_slot (λ v r. record r { ad_view_screen = v }))
    ∷ (Key.adv_view_type, string_slot (λ v r. record r { ad_view_type = v }))
    ∷ (Key.adv_exec_filter, list_slot (λ r. r.create) (λ v r. record r { create = v }))
    ∷ (Key.ad_category, list_slot (λ r. r.category) (λ v r. record r { category = v }))
    ∷ (Key.useragent_id, list_slot (λ r. r.ua_list) (λ v r. record r { ua_list = v }))
    ∷ (
      Key.material_format,
      list_slot (λ r. r.material_format) (λ v r. record r { material_format = v }),
    )
    ∷ (Key.sensitive_category, list_slot (λ r. r.sensitive) (λ v r. record r { sensitive = v }))
    ∷ (Key.adv_min_cpm_price, string_slot (λ v r. record r { min_price = v }))
    ∷ (Key.tencent_duration_min, string_slot (λ v r. record r { video_min_time = v }))
    ∷ (Key.tencent_duration_max, string_slot (λ v r. record r { video_max_time = v }))
    ∷ (Key.linearity, string_slot (λ v r. record r { linearity = v }))
    ∷ (
      Key.mobile_operator,
      list_slot (λ r. r.mobile_operator) (λ v r. record r { mobile_operator = v }),
    )
    ∷ (Key.device_type, list_slot (λ r. r.mobile_device) (λ v r. record r { mobile_device = v }))
    ∷ (
      Key.mobile_connect_type,
      list_slot (λ r. r.mobile_connect) (λ v r. record r { mobile_connect = v }),
    )
    ∷ (Key.transaction_type, string_slot (λ v r. record r { transaction = v }))
    ∷ (Key.device_idfa, string_slot (λ v r. record r { idfa = v }))
    ∷ (Key.device_imei, string_slot (λ v r. record r { imei = v }))
    ∷ (Key.device_android, string_slot (λ v r. record r { android_id = v }))
    ∷ []

-- The calls of AD_PROTOCOL_KV in `InternalToTlv(AdRtbRequest &)`, in order.
unfoldable pub request_fields : Request → List Field
request_fields r =
    one Key.adirect_flow_type r.flow
    ∷ one Key.rtb_bidid r.bid_id
    ∷ one Key.rtb_uid r.user_id
    ∷ one Key.rtb_ip r.user_ip
    ∷ one Key.adv_pid r.p_id
    ∷ many Key.mobile_app r.site_category
    ∷ one Key.adv_size r.size
    ∷ one Key.rtb_useragent r.user_agent
    ∷ one Key.rtb_user_url r.user_url
    ∷ one Key.device_unique_type r.dev_unique_type
    ∷ one Key.adv_view_screen r.ad_view_screen
    ∷ one Key.adv_view_type r.ad_view_type
    ∷ many Key.adv_exec_filter r.create
    ∷ many Key.crowd_category r.crowd_category
    ∷ many Key.ad_category r.category
    ∷ many Key.useragent_id r.ua_list
    ∷ many Key.material_format r.material_format
    ∷ many Key.sensitive_category r.sensitive
    ∷ one Key.adv_min_cpm_price r.min_price
    ∷ one Key.tencent_duration_min r.video_min_time
    ∷ one Key.tencent_duration_max r.video_max_time
    ∷ one Key.linearity r.linearity
    ∷ many Key.mobile_operator r.mobile_operator
    ∷ many Key.device_type r.mobile_device
    ∷ many Key.mobile_connect_type r.mobile_connect
    ∷ one Key.transaction_type r.transaction
    ∷ one Key.device_idfa r.idfa
    ∷ one Key.device_imei r.imei
    ∷ one Key.device_android r.android_id
    ∷ []
