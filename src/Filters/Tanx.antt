-- ===== src/Filters/Tanx.antt =====
-- `AdFilterTanx`: the categories that the exchange TanX excludes for a place, from two files of JSON
-- lines. What jsoncpp makes of a line is a parameter.
pub mod Excluded
pub mod Left
mod Tests
use ad_rtb_adapter.Base.{
  ℕ, ◌-◌, Bool, true, false, ◌&&◌, Option, none, some, List, [], ◌∷◌, ◌++◌, map, length, leb, ◌==◌,
  if◌then◌else◌, is_empty, nothing, same_text,
}
use ad_rtb_adapter.Filters.Keys.{category_ban}
use ad_rtb_adapter.Filters.Planning.{CreativeInfo, MaterialInfo, PlanningUnit}
use ad_rtb_adapter.Filters.Results.{Results, erase_keys}
use ad_rtb_adapter.Filters.Table.{Table, update_all}
use ad_rtb_adapter.Filters.TanxContent.{
  TanxContent, new_content, add_content, get_content, tanx_category, tanx_landing_page,
  tanx_creative_type, tanx_advertise, tanx_creative_level,
}
use ad_rtb_adapter.Protocol.Request.{Request}
use ad_rtb_adapter.Strings.{Text, Libc, c_str, snprintf}

-- AD_PROTOCOL_KEY_ADX_TANX
abbrev pub adx_tanx : ℕ
adx_tanx = 1

abbrev pub line_max : ℕ
line_max = 40960

-- `AdTanxDescription`
pub record Description : Type 0 where
  pub content : TanxContent
  pub interval : List Text
  pub area : List Text

-- The members of a line that are read, `none` where `isMember` says no; an `int` is modelled as the
-- UINT of the same bits. Members of other types than those asked for are not modelled.
pub record Value : Type 0 where
  pub filter_id : Option Text
  pub excluded_ad_category : Option (List ℕ)
  pub excluded_click_through_url : Option (List Text)
  pub excluded_filter : Option (List ℕ)
  pub excluded_brand_advertiser_id : Option (List Text)
  pub included_adboard_level : Option (List Text)
  pub include_area : Option (List ℕ)
  pub include_interval : Option (List ℕ)
  pub include_pid : Option (List Text)

abbrev pub Contents : Type 0
Contents = List (Text × TanxContent)

abbrev pub Places : Type 0
Places = List (Text × List Description)

abbrev pub content_of : Text → Contents → TanxContent
content_of key [] = new_content
content_of key ((k, x) ∷ m) = let rest = content_of key m in if same_text key k then x else rest

abbrev pub put_content : Text → TanxContent → Contents → Contents
put_content key x [] = (key, x) ∷ []
put_content key x ((k, y) ∷ m) =
    let rest = put_content key x m in if same_text key k then (k, x) ∷ m else (k, y) ∷ rest

-- `m_mPidDes[pid]`, and `push_back` to it
abbrev pub places_of : Text → Places → List Description
places_of key [] = []
places_of key ((k, ds) ∷ t) = let rest = places_of key t in if same_text key k then ds else rest

abbrev pub push_place : Text → Description → Places → Places
push_place key d [] = (key, d ∷ []) ∷ []
push_place key d ((k, ds) ∷ t) =
    let rest = push_place key d t in
    if same_text key k then (k, ds ++ d ∷ []) ∷ t else (k, ds) ∷ rest

abbrev pub texts : Option (List Text) → List Text
texts none = []
texts (some ss) = ss

-- The loops over the members.
abbrev pub add_contents : ℕ → List Text → TanxContent → TanxContent
add_contents n [] k = k
add_contents n (s ∷ ss) k = add_contents n ss (add_content s n k)

abbrev pub push_places : List Text → Description → Places → Places
push_places [] d t = t
push_places (p ∷ ps) d t = push_places ps d (push_place p d t)

-- The filter: `m_mPidDes` and the table of `AdMap`.
pub record Tanx : Type 0 where
  pub pid_des : Places
  pub table : Table

-- The lines that the loops over `fgets` parse; `tail` is whether the last piece was too long.
abbrev pub lines_of : Bool → List Text → List Text
lines_of tail [] = []
lines_of tail (l ∷ ls) =
    let long = leb (line_max - 1) (length (c_str l)) in
    let rest = lines_of long ls in
    if tail
    then rest
    else if long
    then rest
    else if same_text (c_str l) (b'^' ∷ b'D' ∷ [])
    then []
    else c_str l ∷ rest

module _ (c : Libc) where
  abbrev pub decimals : Option (List ℕ) → List Text
  decimals none = []
  decimals (some ns) = map (λ n. snprintf 128 (c.decimal n)) ns

  abbrev pub excluded : Value → TanxContent → TanxContent
  excluded v k = add_contents tanx_creative_level (texts v.included_adboard_level) (
      add_contents tanx_advertise (texts v.excluded_brand_advertiser_id) (
        add_contents tanx_creative_type (decimals v.excluded_filter) (
          add_contents tanx_landing_page (texts v.excluded_click_through_url)
            (add_contents tanx_category (decimals v.excluded_ad_category) k))))

  -- `ADFilterTanxParseContent`
  abbrev pub parse_content : Option Value → Contents → Contents
  parse_content none m = m
  parse_content (some v) m = elim v.filter_id [
    | none ↦ m
    | some id ↦ put_content id (excluded v (content_of id m)) m
  ]

  abbrev pub described : Text → Value → Contents → Description
  described id v m = record {
    content = content_of id m;
    interval = decimals v.include_interval;
    area = decimals v.include_area;
  }

  -- `ADFilterTanxParseDescreption`; that it adds an empty content for a new id changes no answer.
  abbrev pub parse_descreption : Contents → Option Value → Places → Places
  parse_descreption m none t = t
  parse_descreption m (some v) t = elim v.filter_id [
    | none ↦ t
    | some id ↦ push_places (texts v.include_pid) (described id v m) t
  ]

  abbrev pub parse_contents : List (Option Value) → Contents → Contents
  parse_contents [] m = m
  parse_contents (v ∷ vs) m = parse_contents vs (parse_content v m)

  abbrev pub parse_descreptions : Contents → List (Option Value) → Places → Places
  parse_descreptions m [] t = t
  parse_descreptions m (v ∷ vs) t = parse_descreptions m vs (parse_descreption m v t)

  -- `AdFilterTanxInit`, and whether it succeeds; a file is what `fgets` gives of it, and `none` if its
  -- name is empty or it is not there.
  pub tanx_init :
      (Text → Option Value) → Option (List Text) → Option (List Text) → Tanx → Tanx × Bool
  tanx_init parse none des f = (f, false)
  tanx_init parse (some ls) none f = (f, false)
  tanx_init parse (some ls) (some ds) f =
      let m = parse_contents (map parse (lines_of false ls)) [] in
      (record f { pid_des = parse_descreptions m (map parse (lines_of false ds)) f.pid_des }, true)

  -- The keys of `AddData`
  abbrev pub material_keys : Text → List MaterialInfo → List Text
  material_keys adx [] = []
  material_keys adx (m ∷ ms) =
      let rest = material_keys adx ms in
      if is_empty m.category then rest else category_ban c (c_str adx) (c_str m.category) ∷ rest

  abbrev pub creative_keys : List (ℕ × CreativeInfo) → List Text
  creative_keys [] = []
  creative_keys ((k, i) ∷ is) =
      let rest = creative_keys is in
      if is_empty i.creative_group_id then rest else material_keys i.adx_id i.materials ++ rest

  abbrev pub tanx_keys : PlanningUnit → List Text
  tanx_keys u = if u.push then creative_keys u.creative_info else []

  -- `AddData`
  abbrev pub tanx_add : PlanningUnit → Tanx → Tanx
  tanx_add u f = record f { table = update_all (tanx_keys u) u.execute_id f.table }

  abbrev pub tanx_add_all : List PlanningUnit → Tanx → Tanx
  tanx_add_all [] f = f
  tanx_add_all (u ∷ us) f = tanx_add_all us (tanx_add u f)

  abbrev pub category_key : ℕ → Text → Text
  category_key adx s = category_ban c (c.decimal adx) (c_str s)

  -- The keys that `match` looks up.
  abbrev pub tanx_asked : ℕ → List Description → List Text
  tanx_asked adx [] = []
  tanx_asked adx (d ∷ ds) =
      let rest = tanx_asked adx ds in
      if nothing d.area && nothing d.interval
      then map (category_key adx) (get_content tanx_category d.content) ++ rest
      else rest

  -- `match`
  unfoldable pub tanx_match : Tanx → Request → Results → Results
  tanx_match f q r =
      if q.adx == adx_tanx
      then erase_keys (tanx_asked q.adx (places_of q.p_id f.pid_des)) f.table r
      else r
