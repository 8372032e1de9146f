-- ===== src/Ban.antt =====
-- `AdAdpFilterBan`: which requests the adapter drops, by a table that is refilled from Redis.
-- The answers of Redis and the text that `snprintf` makes of "%d+%s" are parameters.
pub mod Updates
mod Tests
use ad_rtb_adapter.Base.{
  same_text, is_empty, ℕ, Bool, true, false, ◌&&◌, ◌||◌, List, [], ◌∷◌, ◌==◌, if◌then◌else◌,
}
use ad_rtb_adapter.Buff.PingPong.{PingPong, get, put, switch}
use ad_rtb_adapter.Protocol.Request.{Request}
use ad_rtb_adapter.Protocol.Wire.{Bytes}

-- The keys of a `map<string, UINT>`, all of whose values are 1.
abbrev pub Bans : Type 0
Bans = List Bytes

-- `find(k) != end()`
abbrev pub has : Bytes → Bans → Bool
has k [] = false
has k (x ∷ m) = same_text k x || has k m

-- `mBan[*iter] = 1` for each key of the reply, on the table as it is then.
abbrev pub fill : List Bytes → Bans → Bans
fill [] m = m
fill (k ∷ ks) m = fill ks (if has k m then m else k ∷ m)

-- `m_mBan`
abbrev pub Filter : Type 0
Filter = PingPong Bans

-- the constructor
abbrev pub fresh : Filter
fresh = record { request_a = []; request_b = []; first = false }

-- What Redis does on `Update`: the connection fails, the query fails, or the keys come.
pub data Redis : Type 0 where
  refused : Redis
  no_reply : Redis
  reply : List Bytes → Redis

-- `Update`, with whether it returns AD_SUCCESS. The back table is cleared and filled.
unfoldable pub update : Redis → Filter → Bool × Filter
update refused b = (false, b)
update no_reply b = (true, b)
update (reply ks) b = (true, switch (put true (fill ks []) b))

-- `Match`
unfoldable pub matches : (ℕ → Bytes → Bytes) → Request → Filter → Bool
matches print q b =
    let table = get false b in
    let b_pid = if is_empty q.p_id then false else has (print q.adx q.p_id) table in
    let b_ip = if is_empty q.user_ip then false else has q.user_ip table in b_ip && b_ip

-- The filter after some calls of `Update`.
abbrev pub updates : List Redis → Filter → Filter
updates [] b = b
updates (r ∷ rs) b = updates rs (update r b).1
