-- ===== src/Filters/TanxContent.antt =====
-- `AdTanxContent`: what the lines of a filter id exclude.
use ad_rtb_adapter.Base.{ℕ, List, [], ◌∷◌, ◌++◌, ◌==◌, if◌then◌else◌}
use ad_rtb_adapter.Strings.{Text}

abbrev pub tanx_category : ℕ
tanx_category = 0

abbrev pub tanx_landing_page : ℕ
tanx_landing_page = 1

abbrev pub tanx_creative_type : ℕ
tanx_creative_type = 2

abbrev pub tanx_advertise : ℕ
tanx_advertise = 3

abbrev pub tanx_creative_level : ℕ
tanx_creative_level = 4

-- `AdTanxContent`: the five lists of `m_vFilters`.
pub record TanxContent : Type 0 where
  pub category : List Text
  pub landing_page : List Text
  pub creative_type : List Text
  pub advertise : List Text
  pub creative_level : List Text

abbrev pub new_content : TanxContent
new_content = record {
  category = [];
  landing_page = [];
  creative_type = [];
  advertise = [];
  creative_level = [];
}

-- `add` and `get`
abbrev pub add_content : Text → ℕ → TanxContent → TanxContent
add_content s n k =
    if n == tanx_category
    then record k { category = k.category ++ s ∷ [] }
    else if n == tanx_landing_page
    then record k { landing_page = k.landing_page ++ s ∷ [] }
    else if n == tanx_creative_type
    then record k { creative_type = k.creative_type ++ s ∷ [] }
    else if n == tanx_advertise
    then record k { advertise = k.advertise ++ s ∷ [] }
    else if n == tanx_creative_level
    then record k { creative_level = k.creative_level ++ s ∷ [] }
    else k

abbrev pub get_content : ℕ → TanxContent → List Text
get_content n k =
    if n == tanx_landing_page
    then k.landing_page
    else if n == tanx_creative_type
    then k.creative_type
    else if n == tanx_advertise
    then k.advertise
    else if n == tanx_creative_level
    then k.creative_level
    else k.category
