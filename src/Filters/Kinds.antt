-- ===== src/Filters/Kinds.antt =====
-- The filters that mark, in the order of the AD_FILTERID numbers, with the bit that each has.
use ad_rtb_adapter.Base.{ℕ, List, [], ◌∷◌}
use ad_rtb_adapter.Filters.Keys.{
  time_keys, adexchange_keys, adexchange_asked, pid_keys, pid_asked, area_keys, area_asked,
  size_keys, size_asked, agent_keys, agent_asked, mobile_keys, mobile_asked,
}
use ad_rtb_adapter.Filters.Planning.{PlanningUnit}
use ad_rtb_adapter.Protocol.Request.{Request}
use ad_rtb_adapter.Strings.{Text, Libc}

pub data Kind : Type 0 where
  time : Kind
  adexchange : Kind
  pid : Kind
  area : Kind
  size : Kind
  agent : Kind
  operator : Kind
  device : Kind
  connect : Kind

abbrev pub flag : Kind → ℕ
flag time = 0x8000
flag adexchange = 0x4000
flag pid = 0x2000
flag area = 0x1000
flag size = 0x0800
flag agent = 0x0400
flag operator = 0x0080
flag device = 0x0040
flag connect = 0x0020

module _ (c : Libc) where
  -- The keys of a unit in each table.
  abbrev pub keys : Kind → PlanningUnit → List Text
  keys time u = time_keys c u
  keys adexchange u = adexchange_keys c u
  keys pid u = pid_keys c u
  keys area u = area_keys c u
  keys size u = size_keys c u
  keys agent u = agent_keys c u
  keys operator u = mobile_keys c u u.operator
  keys device u = mobile_keys c u u.device_type
  keys connect u = mobile_keys c u u.connect_type

  -- The keys that are looked up; `now` is the day of the week and the hour of the local time.
  abbrev pub asked : Kind → Text → Request → List Text
  asked time now q = now ∷ []
  asked adexchange now q = adexchange_asked c q
  asked pid now q = pid_asked c q
  asked area now q = area_asked c q
  asked size now q = size_asked c q
  asked agent now q = agent_asked c q
  asked operator now q = mobile_asked c q q.mobile_operator
  asked device now q = mobile_asked c q q.mobile_device
  asked connect now q = mobile_asked c q q.mobile_connect
