-- ===== src/Engine/Build.antt =====
-- `AdRtbEngineBuild`: the response for the unit chosen.
use ad_rtb_adapter.Base.{ℕ, ◌&&◌, Option, none, some, List, [], ◌∷◌, ◌==◌, if◌then◌else◌}
use ad_rtb_adapter.Filters.Parameter.{find_id}
use ad_rtb_adapter.Filters.Planning.{MaterialInfo, CreativeInfo, PlanningUnit}
use ad_rtb_adapter.Protocol.Request.{Request}
use ad_rtb_adapter.Protocol.Response
use ad_rtb_adapter.Protocol.Response.{Response}
use ad_rtb_adapter.Rank.Choice.{UnitPrice}
use ad_rtb_adapter.Strings.{Text, c_str, snprintf, Libc}
use ad_rtb_adapter.Strings.Split.{str_split}

abbrev find_material : ℕ → ℕ → List MaterialInfo → Option MaterialInfo
find_material width height [] = none
find_material width height (m ∷ ms) =
    let rest = find_material width height ms in
    if (m.width == width) && (m.height == height) then some m else rest

abbrev first_or : Text → List Text → Text
first_or d [] = d
first_or d (x ∷ xs) = snprintf 256 (c_str x)

module _ (c : Libc) where
  abbrev sized_material : Option (List Text) → List MaterialInfo → Option MaterialInfo
  sized_material (some (w ∷ h ∷ [])) ms = find_material (c.atoi (c_str w)) (c.atoi (c_str h)) ms
  sized_material _ ms = none

  -- `AdRtbEngineGetMaterials`
  unfoldable pub get_materials : CreativeInfo → Text → Option MaterialInfo
  get_materials i size = sized_material (str_split (b'x' ∷ []) size) i.materials

  abbrev pub number : ℕ → Text
  number n = snprintf 256 (c.decimal n)

  -- The assignments to `ctRes`; `dev` is the DEV of the configuration's [GLOBAL].
  unfoldable pub filled :
      Text → Request → UnitPrice → PlanningUnit → CreativeInfo → MaterialInfo → Response
  filled dev q p u i m = record Response.clear {
    max_price = number p.price;
    adx = q.adx;
    flow = q.flow;
    bid_id = q.bid_id;
    p_id = q.p_id;
    area = q.area;
    click_url = m.click_url;
    dest_url = m.destination_url;
    html = m.material_url;
    html_mraid = m.mraid_material_url;
    category = m.category;
    create_gid = i.creative_group_id;
    creative_id = m.create_id;
    user_id = q.user_id;
    user_ip = q.user_ip;
    size = q.size;
    uud = m.uu_id;
    material_id = m.material_id;
    dev_type = first_or [] q.mobile_device;
    region = dev;
    duration = number m.video_time;
    materail_format = number m.format;
    creative = number m.creative_type;
    target_price_type = number u.target_price_type;
    exec_id = number u.execute_id;
    advertiser_id = number u.advertiser;
    target_price = number u.target_price;
    tanx_id = u.tanx_ad_id;
    monitor_url = m.monitor_url;
  }

  abbrev with_material :
      Text
      → Request
      → UnitPrice
      → PlanningUnit
      → CreativeInfo
      → Option MaterialInfo
      → Option Response
  with_material dev q p u i none = none
  with_material dev q p u i (some m) = some (filled dev q p u i m)

  abbrev with_creative :
      Text → Request → UnitPrice → PlanningUnit → Option CreativeInfo → Option Response
  with_creative dev q p u none = none
  with_creative dev q p u (some i) = with_material dev q p u i (get_materials i q.size)

  -- `AdRtbEngineBuild` into a cleared response; `none` is AD_FAILURE.
  abbrev pub engine_build : Text → Request → UnitPrice → PlanningUnit → Option Response
  engine_build dev q p u = with_creative dev q p u (find_id q.adx u.creative_info)

  -- The creative of the exchange that has the size of the request.
  abbrev pub creative_of : Request → PlanningUnit → Option MaterialInfo
  creative_of q u = elim (find_id q.adx u.creative_info) [
    | none ↦ none
    | some i ↦ get_materials i q.size
  ]
