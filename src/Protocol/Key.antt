-- ===== src/Protocol/Key.antt =====
-- The keys of pairs, AD_PROTOCOL_KEY_*.
use ad_rtb_adapter.Base.{ℕ}

abbrev pub device_idfa : ℕ
device_idfa = 90

abbrev pub device_imei : ℕ
device_imei = 91

abbrev pub device_android : ℕ
device_android = 92

abbrev pub rtb_uid : ℕ
rtb_uid = 101

abbrev pub rtb_bidid : ℕ
rtb_bidid = 102

abbrev pub rtb_ip : ℕ
rtb_ip = 103

abbrev pub rtb_useragent : ℕ
rtb_useragent = 104

abbrev pub rtb_user_url : ℕ
rtb_user_url = 106

abbrev pub rtb_category : ℕ
rtb_category = 107

abbrev pub rtb_anonymous_id : ℕ
rtb_anonymous_id = 110

abbrev pub sensitive_category : ℕ
sensitive_category = 112

abbrev pub ad_category : ℕ
ad_category = 114

abbrev pub device_type : ℕ
device_type = 122

abbrev pub tencent_duration_min : ℕ
tencent_duration_min = 123

abbrev pub tencent_duration_max : ℕ
tencent_duration_max = 124

abbrev pub linearity : ℕ
linearity = 127

abbrev pub adirect_billing_mode : ℕ
adirect_billing_mode = 131

abbrev pub adirect_order_id : ℕ
adirect_order_id = 132

abbrev pub adirect_exec_id : ℕ
adirect_exec_id = 133

abbrev pub adirect_material_id : ℕ
adirect_material_id = 134

abbrev pub adirect_region : ℕ
adirect_region = 135

abbrev pub adirect_flow_type : ℕ
adirect_flow_type = 136

abbrev pub adv_pid : ℕ
adv_pid = 203

abbrev pub adv_size : ℕ
adv_size = 204

abbrev pub adv_view_type : ℕ
adv_view_type = 206

abbrev pub adv_exec_filter : ℕ
adv_exec_filter = 207

abbrev pub adv_min_cpm_price : ℕ
adv_min_cpm_price = 208

abbrev pub adv_view_screen : ℕ
adv_view_screen = 210

abbrev pub adv_max_cpm_price : ℕ
adv_max_cpm_price = 211

abbrev pub adv_html : ℕ
adv_html = 213

abbrev pub adv_click_url : ℕ
adv_click_url = 214

abbrev pub adv_creative_type : ℕ
adv_creative_type = 215

abbrev pub adv_destination_url : ℕ
adv_destination_url = 218

abbrev pub adv_creative_id : ℕ
adv_creative_id = 219

abbrev pub material_format : ℕ
material_format = 220

abbrev pub creative_id : ℕ
creative_id = 229

abbrev pub mobile_connect_type : ℕ
mobile_connect_type = 231

abbrev pub mobile_operator : ℕ
mobile_operator = 232

abbrev pub mobile_app : ℕ
mobile_app = 234

abbrev pub hot_key : ℕ
hot_key = 236

abbrev pub hot_url : ℕ
hot_url = 237

abbrev pub hot_time : ℕ
hot_time = 238

abbrev pub monitor_url : ℕ
monitor_url = 239

abbrev pub transaction_type : ℕ
transaction_type = 240

abbrev pub advertiser_id : ℕ
advertiser_id = 241

abbrev pub duration : ℕ
duration = 242

abbrev pub device_unique_type : ℕ
device_unique_type = 243

abbrev pub hot_tag : ℕ
hot_tag = 244

abbrev pub create_group_id : ℕ
create_group_id = 245

abbrev pub target_price : ℕ
target_price = 246

abbrev pub adirect_user_id : ℕ
adirect_user_id = 247

abbrev pub adirect_cookie_id : ℕ
adirect_cookie_id = 248

abbrev pub keyword : ℕ
keyword = 249

abbrev pub mraid_material : ℕ
mraid_material = 251

abbrev pub crowd_category : ℕ
crowd_category = 253

abbrev pub useragent_id : ℕ
useragent_id = 254

abbrev pub device : ℕ
device = 255
