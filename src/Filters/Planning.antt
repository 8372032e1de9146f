-- ===== src/Filters/Planning.antt =====
-- What the filters, the ranking and the engine read of an `AdPlanningUnit`.
use ad_rtb_adapter.Base.{ℕ, Bool, false, Option, none, List, []}
use ad_rtb_adapter.Strings.{Text}

-- `AdTime::AdTimeDay`: the day of the week, and a bit for each hour.
pub record Day : Type 0 where
  pub week : ℕ
  pub budget : ℕ
  pub hour : ℕ

pub record PidInfo : Type 0 where
  pub adx_id : ℕ
  pub mode : ℕ
  pub pid_list : List Text

pub record MaterialInfo : Type 0 where
  pub format : ℕ
  pub creative_type : ℕ
  pub width : ℕ
  pub height : ℕ
  pub category : Text
  pub video_time : ℕ
  pub uu_id : Text
  pub create_id : Text
  pub material_id : Text
  pub material_url : Text
  pub mraid_material_url : Text
  pub click_url : Text
  pub destination_url : Text
  pub monitor_url : List Text

pub record CreativeInfo : Type 0 where
  pub creative_group_id : Text
  pub adx_id : Text
  pub materials : List MaterialInfo

-- `AdMarkNode`
pub record MarkNode : Type 0 where
  pub type : ℕ
  pub key : Text

-- `AdAudienceNode`: each map of marks with their times, in the order of its keys.
pub record AudienceNode : Type 0 where
  pub type : ℕ
  pub search : List (Text × ℕ)
  pub visit : List (Text × ℕ)
  pub un_visit : List (Text × ℕ)

-- `push` is `m_stTime.bPush`, `nice` is `m_stOrder.m_uiNice`, the fields from `mobile` to `user_agent_type` are those of
-- `m_stMobile`, and `advanced_price` has the `m_iEprice` of each place.
pub record PlanningUnit : Type 0 where
  pub execute_id : ℕ
  pub push : Bool
  pub day : List Day
  pub pid_info : List PidInfo
  pub area : List Text
  pub creative_info : List (ℕ × CreativeInfo)
  pub mobile : Bool
  pub operator : List ℕ
  pub device_type : List ℕ
  pub connect_type : List ℕ
  pub user_agent_type : List ℕ
  pub ad_view_screen : List ℕ
  pub ad_view_type : List ℕ
  pub ban_content : List Text
  pub ban_pid_list : Option (List Text)
  pub target_price_type : ℕ
  pub target_price : ℕ
  pub advertiser : ℕ
  pub bid_mode : ℕ
  pub tanx_ad_id : Text
  pub advanced_price : Option (List (Text × ℕ))
  pub nice : ℕ
  pub key_words : List MarkNode
  pub audience : List AudienceNode

-- `clear()` of a material and of a unit
abbrev pub cleared_material : MaterialInfo
cleared_material = record {
  format = 0;
  creative_type = 0;
  width = 0;
  height = 0;
  category = [];
  video_time = 0;
  uu_id = [];
  create_id = [];
  material_id = [];
  material_url = [];
  mraid_material_url = [];
  click_url = [];
  destination_url = [];
  monitor_url = [];
}

abbrev pub cleared_unit : PlanningUnit
cleared_unit = record {
  execute_id = 0;
  push = false;
  day = [];
  pid_info = [];
  area = [];
  creative_info = [];
  mobile = false;
  operator = [];
  device_type = [];
  connect_type = [];
  user_agent_type = [];
  ad_view_screen = [];
  ad_view_type = [];
  ban_content = [];
  ban_pid_list = none;
  target_price_type = 0;
  target_price = 0;
  advertiser = 0;
  bid_mode = 0;
  tanx_ad_id = [];
  advanced_price = none;
  nice = 0;
  key_words = [];
  audience = [];
}
