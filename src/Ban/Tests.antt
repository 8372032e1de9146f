-- ===== src/Ban/Tests.antt =====
-- A run of the ban filter.
use ad_rtb_adapter.Base.{◌≡◌, refl, false, not, ◌&&◌, List, [], ◌∷◌}
use ad_rtb_adapter.Ban.{Redis, no_reply, reply, update, updates, fresh, matches, has}
use ad_rtb_adapter.Ban.Updates.{latest, matches-updates}
use ad_rtb_adapter.Protocol.Request

abbrev two_replies : List Redis
two_replies = reply ((1 ∷ []) ∷ (2 ∷ []) ∷ []) ∷ no_reply ∷ []

abbrev banned_place : Request.Request
banned_place = record Request.clear { p_id = 2 ∷ []; user_ip = 3 ∷ [] }

-- The place is on the list and the request is let through.
matches_test : matches (λ adx pid. pid) banned_place (updates two_replies fresh) ≡ false
unfolding matches update
matches_test = refl

matches-updates_example :
    matches (λ adx pid. pid) banned_place (updates two_replies fresh)
    ≡ not false && has (3 ∷ []) (latest two_replies [])
matches-updates_example = matches-updates (λ adx pid. pid) banned_place two_replies
