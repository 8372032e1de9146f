-- ===== src/Filters/Keys.antt =====
-- The keys under which each filter's `AddData` files a unit, and those that its `match` looks up.
use ad_rtb_adapter.Base.{
  ℕ, zero, suc, ◌+◌, ◌^◌, bit_and, Option, none, some, List, [], ◌∷◌, ◌++◌, map, get_or, is_empty,
  ◌==◌, if◌then◌else◌,
}
use ad_rtb_adapter.Filters.Planning.{Day, PidInfo, MaterialInfo, CreativeInfo, PlanningUnit}
use ad_rtb_adapter.Protocol.Request.{Request}
use ad_rtb_adapter.Strings.{Text, c_str, snprintf, Libc}

abbrev pub underline : Text
underline = b'_' ∷ []

abbrev pub flow_mobile : ℕ
flow_mobile = 2

abbrev adx_baidu : ℕ
adx_baidu = 6

-- "0", the key for every value
abbrev all_key : Text
all_key = b'0' ∷ []

-- AD_AREA_ALL
abbrev area_all : Text
area_all =
    b'0' ∷ b'0' ∷ b'8' ∷ b'6' ∷ b'-' ∷ b'f' ∷ b'f' ∷ b'f' ∷ b'f' ∷ b'-' ∷ b'f' ∷ b'f' ∷ b'f' ∷ b'f'
    ∷ []

module _ (c : Libc) where
  -- "%s_%dx%d"
  abbrev sized : Text → MaterialInfo → Text
  sized adx m = c_str adx ++ (underline ++ (c.decimal m.width ++ (b'x' ∷ c.decimal m.height)))

  -- `AdFilterTime`: the hours `h` to `h + n - 1` of a day whose bits are set
  abbrev hour_keys : Day → ℕ → ℕ → List Text
  hour_keys d zero h = []
  hour_keys d (suc n) h =
      let rest = hour_keys d n (h + 1) in
      if bit_and d.hour (2 ^ h) == 0
      then rest
      else snprintf 128 (c.decimal d.week ++ c.two_digits h) ∷ rest

  abbrev day_keys : List Day → List Text
  day_keys [] = []
  day_keys (d ∷ ds) = (if d.hour == 0 then [] else hour_keys d 24 0) ++ day_keys ds

  unfoldable pub time_keys : PlanningUnit → List Text
  time_keys u = if u.push then day_keys u.day else []

  abbrev adx_info_keys : List PidInfo → List Text
  adx_info_keys [] = []
  adx_info_keys (i ∷ is) =
      let rest = adx_info_keys is in
      if i.adx_id == 0 then rest else snprintf 32 (c.decimal i.adx_id) ∷ rest

  -- `AdFilterAdExchange`
  unfoldable pub adexchange_keys : PlanningUnit → List Text
  adexchange_keys u = if u.push then adx_info_keys u.pid_info else []

  unfoldable pub adexchange_asked : Request → List Text
  adexchange_asked q = snprintf 32 (c.decimal q.adx) ∷ []

  -- "%d_ALL"
  abbrev all_pids : ℕ → Text
  all_pids adx = snprintf 128 (c.decimal adx ++ (b'_' ∷ b'A' ∷ b'L' ∷ b'L' ∷ []))

  -- "%d_%s"
  abbrev fixed_pid : ℕ → Text → Text
  fixed_pid adx pid = snprintf 128 (c.decimal adx ++ (underline ++ c_str pid))

  -- "OTHER_%d_%s"
  abbrev other_pid : ℕ → Text → Text
  other_pid adx pid =
      snprintf 128
        (b'O' ∷ b'T' ∷ b'H' ∷ b'E' ∷ b'R' ∷ b'_' ∷ (c.decimal adx ++ (underline ++ c_str pid)))

  -- The modes AD_PID_MODE_ALL, AD_PID_MODE_FIXED and AD_PID_MODE_OTHER are 1, 2 and 3.
  abbrev mode_keys : PidInfo → List Text
  mode_keys i =
      if i.mode == 1
      then all_pids i.adx_id ∷ []
      else if i.mode == 2
      then map (fixed_pid i.adx_id) i.pid_list
      else if i.mode == 3
      then map (other_pid i.adx_id) i.pid_list
      else []

  abbrev pid_info_keys : List PidInfo → List Text
  pid_info_keys [] = []
  pid_info_keys (i ∷ is) = mode_keys i ++ pid_info_keys is

  -- `AdFilterPid`
  unfoldable pub pid_keys : PlanningUnit → List Text
  pid_keys u = if u.push then pid_info_keys u.pid_info else []

  unfoldable pub pid_asked : Request → List Text
  pid_asked q = all_pids q.adx ∷ fixed_pid q.adx q.p_id ∷ map (other_pid q.adx) q.site_category

  -- `AdFilterArea`
  unfoldable pub area_keys : PlanningUnit → List Text
  area_keys u = if u.push then u.area else []

  unfoldable pub area_asked : Request → List Text
  area_asked q = area_all ∷ q.area ∷ []

  abbrev creative_sizes : List (ℕ × CreativeInfo) → List Text
  creative_sizes [] = []
  creative_sizes ((k, i) ∷ is) =
      let rest = creative_sizes is in
      if is_empty i.creative_group_id
      then rest
      else if is_empty i.adx_id
      then rest
      else map (λ m. snprintf 128 (sized i.adx_id m)) i.materials ++ rest

  -- `AdFilterSize`
  unfoldable pub size_keys : PlanningUnit → List Text
  size_keys u = if u.push then creative_sizes u.creative_info else []

  unfoldable pub size_asked : Request → List Text
  size_asked q = snprintf 128 (c.decimal q.adx ++ (underline ++ c_str q.size)) ∷ []

  -- `AdFilterUserAgent`, which does not test `bPush`
  abbrev agents : List ℕ → List Text
  agents [] = all_key ∷ []
  agents (x ∷ xs) = map (λ x. snprintf 128 (c.decimal x)) (x ∷ xs)

  unfoldable pub agent_keys : PlanningUnit → List Text
  agent_keys u = agents u.user_agent_type

  unfoldable pub agent_asked : Request → List Text
  agent_asked q = all_key ∷ map (λ s. snprintf 128 (c_str s)) q.ua_list

  -- `AdFilterMobileOperator`, `AdFilterMobileDevice`, `AdFilterMobileConnect`
  abbrev pub mobile_keys : PlanningUnit → List ℕ → List Text
  mobile_keys u xs = if u.push then map (λ x. snprintf 128 (c.decimal x)) xs else []

  abbrev pub mobile_asked : Request → List Text → List Text
  mobile_asked q xs =
      if c.atoi (c_str q.flow) == flow_mobile
      then all_key ∷ map (λ s. snprintf 128 (c_str s)) xs
      else []

  -- "CRT_%s_%dx%d_%d" and "FMT_%s_%dx%d_%d"
  abbrev creative_ban : Text → MaterialInfo → ℕ → Text
  creative_ban adx m x =
      snprintf 128 (b'C' ∷ b'R' ∷ b'T' ∷ b'_' ∷ (sized adx m ++ (underline ++ c.decimal x)))

  abbrev format_ban : Text → MaterialInfo → ℕ → Text
  format_ban adx m x =
      snprintf 128 (b'F' ∷ b'M' ∷ b'T' ∷ b'_' ∷ (sized adx m ++ (underline ++ c.decimal x)))

  -- "CAT_" and two texts with "_" between
  abbrev pub category_ban : Text → Text → Text
  category_ban adx cat = snprintf 128 (b'C' ∷ b'A' ∷ b'T' ∷ b'_' ∷ (adx ++ (underline ++ cat)))

  -- "%c%c" of the first two characters; behind the end of a string stands a 0.
  abbrev first_two : Text → Text
  first_two s = get_or s 0 0 ∷ get_or s 1 0 ∷ []

  abbrev category_bans : Text → Text → List Text
  category_bans adx cat =
      if is_empty cat
      then []
      else category_ban (c_str adx) (c_str cat)
        ∷ (if c.atoi (c_str adx) == adx_baidu
            then category_ban (c_str adx) (first_two cat) ∷ []
            else [])

  abbrev material_bans : Text → MaterialInfo → List Text
  material_bans adx m =
      (if m.creative_type == 0 then [] else creative_ban adx m m.creative_type ∷ [])
      ++ ((if m.format == 0 then [] else format_ban adx m m.format ∷ [])
          ++ category_bans adx m.category)

  abbrev materials_bans : Text → List MaterialInfo → List Text
  materials_bans adx [] = []
  materials_bans adx (m ∷ ms) = material_bans adx m ++ materials_bans adx ms

  abbrev creative_bans : List (ℕ × CreativeInfo) → List Text
  creative_bans [] = []
  creative_bans ((k, i) ∷ is) =
      let rest = creative_bans is in
      if is_empty i.creative_group_id then rest else materials_bans i.adx_id i.materials ++ rest

  abbrev given : Option (List Text) → List Text
  given none = []
  given (some xs) = xs

  -- `AdFilterBan`
  unfoldable pub ban_keys : PlanningUnit → List Text
  ban_keys u =
      if u.push
      then u.ban_content ++ (given u.ban_pid_list ++ creative_bans u.creative_info)
      else []

  -- "CRT_%d_%s_%s"
  abbrev creative_asked : Request → Text → Text
  creative_asked q s = snprintf 128 (
      b'C'
      ∷ b'R'
      ∷ b'T'
      ∷ b'_'
      ∷ (c.decimal q.adx ++ (underline ++ (c_str q.size ++ (underline ++ c_str s)))))

  unfoldable pub ban_asked : Request → List Text
  ban_asked q =
      q.p_id
      ∷ (map (λ s. category_ban (c.decimal q.adx) (c_str s)) q.sensitive
          ++ (map (λ s. category_ban (c.decimal q.adx) (c_str s)) q.category
              ++ (map (creative_asked q) q.create
                  ++ (fixed_pid q.adx q.p_id ∷ map (fixed_pid q.adx) q.site_category))))
