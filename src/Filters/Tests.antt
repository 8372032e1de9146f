-- ===== src/Filters/Tests.antt =====
-- Runs of the filters.
use ad_rtb_adapter.Base.{◌≡◌, refl, some, none, [], arith}
use ad_rtb_adapter.Filters.Keys.{
  time_keys, adexchange_keys, adexchange_asked, pid_keys, pid_asked, area_keys, area_asked,
  size_keys, size_asked, agent_keys, agent_asked, ban_keys, ban_asked,
}
use ad_rtb_adapter.Filters.Looked.{match_of}
use ad_rtb_adapter.Filters.Parameter.{mask, unit_fits, find_unit}
use ad_rtb_adapter.Filters.Run.{filters_update, filters_match}
use ad_rtb_adapter.Filters.Sample.{two_units, tuesday_nine, a_request}
use ad_rtb_adapter.Filters.Select.{is_some, bids, filters_match-filters_update}
use ad_rtb_adapter.Filters.Units.{Ascending, on_unit}
use ad_rtb_adapter.Strings.Sample.{sample_libc}
use ad_rtb_adapter.Strings.Split.{str_split}

two_units-Ascending : Ascending 0 two_units
two_units-Ascending = (omega arith, (omega arith, tt))

seven_bids :
    match_of 7 (
      filters_match sample_libc two_units
        (filters_update sample_libc two_units)
        tuesday_nine
        a_request
        [])
    ≡ some 0xfc00
unfolding filters_update filters_match time_keys adexchange_keys adexchange_asked pid_keys pid_asked
    area_keys area_asked size_keys size_asked agent_keys agent_asked ban_keys ban_asked mask
    unit_fits str_split
seven_bids = refl

nine_is_banned :
    match_of 9 (
      filters_match sample_libc two_units
        (filters_update sample_libc two_units)
        tuesday_nine
        a_request
        [])
    ≡ none
unfolding filters_update filters_match time_keys adexchange_keys adexchange_asked pid_keys pid_asked
    area_keys area_asked size_keys size_asked agent_keys agent_asked ban_keys ban_asked mask
    unit_fits str_split
nine_is_banned = refl

filters_match-filters_update_example :
    is_some (
      match_of 7 (
        filters_match sample_libc two_units
          (filters_update sample_libc two_units)
          tuesday_nine
          a_request
          []))
    ≡ on_unit (bids sample_libc tuesday_nine a_request) (find_unit 7 two_units)
filters_match-filters_update_example =
    filters_match-filters_update sample_libc tuesday_nine a_request 0 7 two_units
      two_units-Ascending
