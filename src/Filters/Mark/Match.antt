-- ===== src/Filters/Mark/Match.antt =====
-- `match` of `AdFilterMark`. What the caches know of the user is an argument; a set of units or of
-- key words is a list, since no result depends on its order.
use ad_rtb_adapter.Base.{
  nothing, ℕ, zero, suc, ◌-◌, Bool, true, false, ◌&&◌, ◌||◌, not, Option, none, some, List, [], ◌∷◌,
  ◌++◌, length, take, get_elem?, bit_or, ltb, ◌==◌, if◌then◌else◌, is_empty,
}
use ad_rtb_adapter.Acbm.{search_text}
use ad_rtb_adapter.Filters.Filed.{member}
use ad_rtb_adapter.Filters.Mark.{
  Mark, MarkInfo, AudienceInfo, mark_public, mark_private, keys_acc_cus, keys_dim_cus, cache_tag,
  merge_or, merge_and, no_audience,
}
use ad_rtb_adapter.Filters.Results.{Entry, Results}
use ad_rtb_adapter.Filters.Table.{find}
use ad_rtb_adapter.User.{UserMark, UserData, no_user, add_request_mark}
use ad_rtb_adapter.Strings.{Text, Libc}

abbrev pub Matches : Type 0
Matches = List (ℕ × List Text)

-- A fresh `AdRtbFilterResult`
abbrev pub fresh_entry : ℕ → Entry
fresh_entry id = record { id = id; match = 0; vip = false }

-- `mResult[id]`, which makes an entry where there is none.
abbrev pub touch : ℕ → Results → Results
touch id [] = fresh_entry id ∷ []
touch id (e ∷ r) =
    let rest = touch id r in
    if ltb id e.id then fresh_entry id ∷ e ∷ r else if id == e.id then e ∷ r else e ∷ rest

-- `mResult[id] = ctRes`
abbrev pub renew : ℕ → Results → Results
renew id [] = fresh_entry id ∷ []
renew id (e ∷ r) =
    let rest = renew id r in
    if ltb id e.id
    then fresh_entry id ∷ e ∷ r
    else if id == e.id
    then fresh_entry id ∷ r
    else e ∷ rest

-- Whether a key word that stands in a mark of the user counts.
unfoldable pub fits : MarkInfo → UserMark → Bool
fits k u =
    ((k.type == keys_acc_cus) && (length k.key == length u.mark))
    || ((k.type == keys_dim_cus)
        || ((u.tag == cache_tag) && ((k.type == mark_public) || (k.type == mark_private))))

abbrev pub fit_unit : Option MarkInfo → UserMark → List ℕ
fit_unit none u = []
fit_unit (some k) u = if fits k u then k.id ∷ [] else []

-- `setMatch`: the units of the key words in `mMatch` that count.
abbrev pub fit_units : List MarkInfo → Matches → UserMark → List ℕ
fit_units ks [] u = []
fit_units ks ((p, strs) ∷ m) u = fit_unit (get_elem? ks p) u ++ fit_units ks m u

-- The loop over `setMerge`, the ready units in `setMatch`. `mMatch` is asked for the pointer to the
-- unit, and holds pointers to key words, so that no string is pushed to `m_ltMarkInfo`.
abbrev pub touch_all : List ℕ → List ℕ → Results → Results
touch_all ready [] r = r
touch_all ready (id ∷ ids) r = touch_all ready ids (if member id ready then touch id r else r)

-- What one mark of the user does, when the search has given `m`: `mMatch` is kept for the next mark
-- when nothing in it fits this one.
abbrev pub after_search : Mark → List ℕ → UserMark → Results → Matches → Matches × Results
after_search f ready u r m =
    let ids = fit_units f.marks m u in if nothing ids then (m, r) else ([], touch_all ready ids r)

-- The loop over the marks of the user. `none` is a fault of the search.
abbrev pub match_marks : Mark → List ℕ → List UserMark → Matches → Results → Option Results
match_marks f ready [] m r = some r
match_marks f ready (u ∷ us) m r = elim (search_text f.acbm u.mark m) [
  | none ↦ none
  | some g ↦ let (m', r') = after_search f ready u r g.results in match_marks f ready us m' r'
]

-- `AdFilterMarkMatchMark`
unfoldable pub match_mark : Mark → List UserMark → List ℕ → Results → Option Results
match_mark f us ready r = if nothing ready then some r else match_marks f ready us [] r

-- `mMatch` of the audiences, by units.
abbrev pub Audiences : Type 0
Audiences = List (ℕ × AudienceInfo)

abbrev pub merged : AudienceInfo → AudienceInfo → AudienceInfo
merged i c = record c {
  type = i.type;
  search_mask = i.search_mask;
  search_match = bit_or c.search_match i.search_match;
  un_visit_mask = i.un_visit_mask;
  un_visit_match = bit_or c.un_visit_match i.un_visit_match;
  visit_mask = i.visit_mask;
  visit_match = bit_or c.visit_match i.visit_match;
  id = i.id;
}

abbrev pub merge : AudienceInfo → Audiences → Audiences
merge i [] = (i.id, merged i no_audience) ∷ []
merge i ((id, c) ∷ m) =
    let rest = merge i m in if i.id == id then (id, merged i c) ∷ m else (id, c) ∷ rest

abbrev pub merge_known : Option AudienceInfo → UserMark → Audiences → Audiences
merge_known none u m = m
merge_known (some i) u m = if ltb i.effective_time u.time then m else merge i m

abbrev pub merge_found : Mark → UserMark → List ℕ → Audiences → Audiences
merge_found f u [] m = m
merge_found f u (p ∷ ps) m = merge_found f u ps (merge_known (get_elem? f.audience p) u m)

abbrev pub found_of : Option (List ℕ) → List ℕ
found_of none = []
found_of (some ps) = ps

-- The prefixes of a mark from length `i` on, `n` of them, while they are no longer than `m_uiStrMaxLen`.
abbrev pub merge_prefixes : Mark → UserMark → ℕ → ℕ → Audiences → Audiences
merge_prefixes f u zero i m = m
merge_prefixes f u (suc n) i m =
    let rest =
      merge_prefixes f u n (suc i) (merge_found f u (found_of (find (take i u.mark) f.table)) m) in
    if ltb f.max_len i then m else rest

abbrev pub merge_marks : Mark → List UserMark → Audiences → Audiences
merge_marks f [] m = m
merge_marks f (u ∷ us) m =
    merge_marks f us (merge_prefixes f u (length u.mark - f.min_len) f.min_len m)

-- The test of a unit's bits.
abbrev pub reached : AudienceInfo → Bool
reached c =
    if c.type == merge_and
    then ((c.search_mask == c.search_match) && (c.visit_mask == c.visit_match))
      && (0 == c.un_visit_match)
    else if c.type == merge_or
    then (not (0 == c.search_match) || not (0 == c.un_visit_match)) || (c.un_visit_match == 0)
    else false

abbrev pub has : ℕ → Results → Bool
has id [] = false
has id (e ∷ r) = let rest = has id r in (id == e.id) || rest

abbrev pub renew_reached : Results → Audiences → Results → Results
renew_reached ready [] r = r
renew_reached ready ((id, c) ∷ m) r =
    renew_reached ready m (if reached c && has c.id ready then renew c.id r else r)

-- `AdFilterMarkMatchAudience`
unfoldable pub match_audience : Mark → List UserMark → Results → Results → Results
match_audience f us ready r =
    if nothing ready then r else renew_reached ready (merge_marks f us []) r

-- `AdFilterMarkVipUserTag`
abbrev pub vip_user : Libc → Text → Results → Results
vip_user c s [] = []
vip_user c s (e ∷ r) =
    (if not (is_empty s) && (c.atoi s == e.id) then record e { vip = true } else e) ∷ vip_user c s r

-- AD_ORDER_NICE, AD_ORDER_BASE, AD_ORDER_AUDIENCE
abbrev pub order_nice : ℕ
order_nice = 1

abbrev pub order_base : ℕ
order_base = 2

abbrev pub order_audience : ℕ
order_audience = 3

-- The first loop of `match`: the units by their `m_uiNice`.
abbrev pub nice_units : (ℕ → ℕ) → Results → List ℕ
nice_units nice [] = []
nice_units nice (e ∷ r) =
    let rest = nice_units nice r in if nice e.id == order_nice then e.id ∷ rest else rest

abbrev pub with_nice : (ℕ → ℕ) → ℕ → Results → Results
with_nice nice k [] = []
with_nice nice k (e ∷ r) =
    let rest = with_nice nice k r in if nice e.id == k then e ∷ rest else rest

abbrev pub add_request_marks : List Text → List UserMark → List UserMark
add_request_marks [] us = us
add_request_marks (s ∷ ss) us = add_request_marks ss (add_request_mark s cache_tag us)

-- What follows when the marks are there; `known` is whether the cache gave them.
abbrev pub match_user : Libc → Mark → (ℕ → ℕ) → Bool → Bool → UserData → Results → Option Results
match_user c f nice late known d r =
    if late
    then some []
    else elim (match_mark f d.marks (nice_units nice r) (with_nice nice order_base r)) [
      | none ↦ none
      | some r' ↦
          let r'' = match_audience f d.audience (with_nice nice order_audience r) r' in
          some (if known then vip_user c d.execute_id r'' else r'')
    ]

-- `match`; `nice` gives a unit's `m_uiNice`, `user` is what `AdUserInfoGet` gives, `crowd` is the
-- request's `m_ltCrowdCategory`, and `late` is what `checkLife` says.
unfoldable pub mark_match :
    Libc → Mark → (ℕ → ℕ) → Bool → Option UserData → List Text → Results → Option Results
mark_match c f nice late (some d) crowd r = match_user c f nice late true d r
mark_match c f nice late none [] r = some (with_nice nice order_base r)
mark_match c f nice late none (s ∷ ss) r =
    match_user c f nice late false (record no_user { marks = add_request_marks (s ∷ ss) [] }) r
