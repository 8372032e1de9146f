-- ===== src/Filters/Parameter.antt =====
-- `AdFilterParameter`: drops the units that a filter before it did not mark, and those that are for
-- another flow, screen, view type or video size.
use ad_rtb_adapter.Base.{
  ℕ, Bool, true, false, ◌&&◌, ◌||◌, not, Option, none, some, List, [], ◌∷◌, bit_or, ltb, leb, ◌==◌,
  if◌then◌else◌,
}
use ad_rtb_adapter.Filters.Keys.{flow_mobile}
use ad_rtb_adapter.Filters.Planning.{MaterialInfo, CreativeInfo, PlanningUnit}
use ad_rtb_adapter.Filters.Results.{Results}
use ad_rtb_adapter.Protocol.Request.{Request}
use ad_rtb_adapter.Strings.{Text, c_str, Libc}
use ad_rtb_adapter.Strings.Split.{str_split}

abbrev flow_pc : ℕ
flow_pc = 0

abbrev flow_video : ℕ
flow_video = 1

-- AD_FILTER_NORMAL and AD_FILTER_MOBILE
abbrev pub normal : ℕ
normal = 0xfc00

abbrev pub mobile_mask : ℕ
mobile_mask = 0xe0

-- `map::find`
abbrev pub find_id {ℓ} : {A : Type ℓ} → ℕ → List (ℕ × A) → Option A
find_id id [] = none
find_id id ((k, a) ∷ m) = let rest = find_id id m in if id == k then some a else rest

abbrev pub find_unit : ℕ → List PlanningUnit → Option PlanningUnit
find_unit id [] = none
find_unit id (u ∷ us) = let rest = find_unit id us in if id == u.execute_id then some u else rest

-- The loops over `m_ltAdViewScreen` and `m_ltAdViewType`
abbrev screen_seen : ℕ → List ℕ → Bool
screen_seen view [] = false
screen_seen view (x ∷ xs) = (x == 0) || (leb view x || screen_seen view xs)

abbrev type_seen : ℕ → List ℕ → Bool
type_seen type [] = false
type_seen type (x ∷ xs) = (x == 0) || ((x == type) || type_seen type xs)

abbrev or_empty : List ℕ → Bool → Bool
or_empty [] seen = true
or_empty (x ∷ xs) seen = seen

abbrev sized_so : ℕ → ℕ → List MaterialInfo → Bool
sized_so width height [] = false
sized_so width height (m ∷ ms) =
    ((m.height == height) && (m.width == width)) || sized_so width height ms

abbrev creative_sized : ℕ → ℕ → Option CreativeInfo → Bool
creative_sized width height none = false
creative_sized width height (some i) = sized_so width height i.materials

module _ (c : Libc) where
  -- The sides of a video, when the request's size has exactly two pieces.
  abbrev pub sides : Option (List Text) → ℕ × ℕ
  sides (some (w ∷ h ∷ [])) = (c.atoi (c_str w), c.atoi (c_str h))
  sides _ = (0, 0)

  abbrev pub video_size : Request → ℕ × ℕ
  video_size q =
      if c.atoi (c_str q.flow) == flow_video then sides (str_split (b'x' ∷ []) q.size) else (0, 0)

  abbrev pub wrong_flow : Request → PlanningUnit → Bool
  wrong_flow q u =
      let flow = c.atoi (c_str q.flow) in
      ((flow == flow_mobile) && not u.mobile) || ((flow == flow_pc) && u.mobile)

  abbrev pub screen_fits : Request → PlanningUnit → Bool
  screen_fits q u =
      or_empty u.ad_view_screen (screen_seen (c.atoi (c_str q.ad_view_screen)) u.ad_view_screen)

  abbrev pub type_fits : Request → PlanningUnit → Bool
  type_fits q u = or_empty u.ad_view_type (type_seen (c.atoi (c_str q.ad_view_type)) u.ad_view_type)

  abbrev pub video_fits : Request → PlanningUnit → Bool
  video_fits q u =
      let size = video_size q in
      (ltb 0 size.1 && ltb 0 size.0) && creative_sized size.0 size.1 (find_id q.adx u.creative_info)

  -- The tests on a unit with all its marks.
  unfoldable pub unit_fits : Request → PlanningUnit → Bool
  unit_fits q u =
      if wrong_flow q u
      then false
      else if not (screen_fits q u)
      then false
      else if not (type_fits q u)
      then false
      else if c.atoi (c_str q.flow) == flow_video
      then video_fits q u
      else true

  abbrev pub known_fits : Request → Option PlanningUnit → Bool
  known_fits q none = false
  known_fits q (some u) = unit_fits q u

  unfoldable pub mask : Request → ℕ
  mask q = if c.atoi (c_str q.flow) == flow_mobile then bit_or normal mobile_mask else normal

  -- The pointer of an entry is followed in the planning data `us`, which has all of them.
  abbrev pub stays : List PlanningUnit → Request → ℕ → ℕ → Bool
  stays us q id match = if match == mask q then known_fits q (find_unit id us) else false

  abbrev pub parameter : List PlanningUnit → Request → Results → Results
  parameter us q [] = []
  parameter us q (e ∷ r) =
      let rest = parameter us q r in if stays us q e.id e.match then e ∷ rest else rest
