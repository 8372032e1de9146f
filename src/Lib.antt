-- ===== src/Lib.antt =====
-- AdRtbAdapter: a real-time-bidding adapter and its bidder, in C++.
--
-- The adapter takes bid requests from advertising exchanges, turns each into an `AdRtbRequest`, and
-- sends it to a bidder over the packet protocol of libtlv. The bidder looks up the area of the
-- user's address in an `AdIpArea`, passes the units it plans to show through its filters, chooses
-- one of those left by rank and chance, and answers with an `AdRtbResponse` over the same protocol.
-- The adapter turns that into the exchange's answer, or times the request out. Threads hand work to
-- each other through the buffers of libutil/inc/AdBuff.h.
--
-- The files:
--   Base: names of the libraries passed on, Boolean tests on numbers, lists measured by native
--     numbers, signed integers.
--   Protocol: libtlv/inc/AdRtbNetProtocol.h and libtlv/src/AdRtbNetProtocol.cpp.
--     Wire: bytes, big-endian words, results (`ok`, `failure` with the state it leaves, `fault`).
--     Head: `ADPROHEAD_S`, the constructor (`init`), the head's bytes (`put_head`, `get_head`) and
--       `TlvPacketLen` (`packet_len`).
--     Pairs: AD_PROTOCOL_KV (`put_pair`, `put_fields`) and the loop of the decoders (`parse`).
--     Packet, Zlib: the expand head, the test of the length, compression. zlib is a parameter, and
--       `IsZlib` is what its manual promises of `compress` and `uncompress`.
--     Key: the keys of pairs. Request, Response: inc/AdRtbBase.h, the tables of
--       `AdRtbProtocolInitParser`, and in Codec the functions `TlvToInternal` (`decode_request`,
--       `decode_response`) and `InternalToTlv` (`encode_request`, `encode_response`).
--     Short: packets shorter than a head.
--   Buff: libutil/inc/AdBuff.h. Ring: `AdRingBufferBase` and the classes on it; Ring/Queue: the ring
--     as a bounded queue; Ring/Access: the accesses of two threads;
--     Ring/Knows, Threads: the ring between them. LoopRead: `AdLRBuffer`.
--     PingPong: `AdPingPongBuffer`.
--   Area: libcommon/inc/AdIpArea.h and libcommon/src/AdIpArea.cpp: `AddTree` (`add_tree`), `Get`
--     (`get`), the loop of `Init` (`init`). Area/Lookup and Area/Prefix: the longest prefix;
--     Area/Nodes: the list of nodes to delete.
--   Pending: the adapter's list of requests that wait for the bidder, inc/AdParaList.h, with
--     `checkLife` of inc/AdRtbBase.h and `toNow` of libutil/inc/AdTime.h. Pending/Timeouts: how often
--     the list answers a request with a timeout, the calls of the adapter itself left aside.
--     Pending/Life: the age of a request.
--   Ban: adapter/AdAdpFilterBan.cpp, `Match` (`matches`) and `Update` (`update`), on a
--     Buff/PingPong; what Redis answers is a parameter.
--   Strings: what `c_str` and `snprintf` leave, and the C library as a parameter (`Libc`).
--     Strings/Split: `AdString::StrSplit` of libutil/inc/AdUtil.h (`str_split`); its fuel is the
--     length of the line, of which each round of the loop takes a part. Split/Fields: the fields of a
--     line.
--   Filters: ibidding/filter. Planning: the fields of `AdPlanningUnit` that are read. Table: `AdMap`.
--     Results: `AD_RESULT`. Keys, Kinds: the keys of the `AddData` and `match` of each filter.
--     Parameter: `AdFilterParameter`. Run: `FiltersUpdate` (`filters_update`) and `FiltersMatch`
--     (`filters_match`), with the filters 0 to 10. Filed, Units: what the tables have of a unit.
--     Marks: the bits of `m_uiMatch`. Looked, Kept, Marked: the results after each filter. Select:
--     the units left. RealTime: `AdFilterRealTime`, with `AddData` (`real_time_add`),
--     `AdFilterRealTimeUpdate` (`real_time_update`) and `match` (`real_time_match`); RealTime/Allowed,
--     Entries, Fresh, Stopped: when a unit goes on.
--   Filters/Mark: `AdFilterMark`, with `AddData` (`mark_add`). Mark/Match: `match` (`mark_match`),
--     `AdFilterMarkMatchMark` (`match_mark`) and `AdFilterMarkMatchAudience` (`match_audience`).
--     Mark/KeyWords: what an update files. Mark/Searched, Fits, Touched: what the key words reach.
--   Filters/Tanx: `AdFilterTanx` on Filters/TanxContent, with `AdFilterTanxInit` (`tanx_init`),
--     `AddData` (`tanx_add`) and `match` (`tanx_match`); what jsoncpp makes of a line is a parameter.
--     Tanx/Excluded, Left: what the files exclude, and which units are dropped.
--   Acbm: libutil/inc/AdAcbm.h and libutil/src/AdAcbm.cpp, `AdAcbmTreeAdd` (`tree_add`) and
--     `AdAcbmSearch` (`search_text`). Acbm/Tags: the tree as a map from patterns to labels. Acbm/Kept:
--     what the tree keeps of the patterns. Acbm/Still: the shifts of nodes, which nothing sets.
--     Acbm/Naive, Search, Pushed: what a search finds. The outer loop has as many rounds as the text
--     has bytes at most, since `iBase` goes back by one at least; that is its fuel.
--   User: ibidding/filter/src/AdUserInfo.cpp: the request to a cache server (`build_request`), the
--     parser of its reply (`user_parse`) and `AdUserInfoGet` (`user_get`). The ring of libconhash and
--     the exchange of datagrams are parameters. User/Last: the last pair of a reply.
--   Net: libnet/src/AdSession.cpp: `AdSessionCompletePacket` (`complete_packet`), `AdSessionRead`
--     (`read_pieces`), `AdSessionWrite` (`write_cache`, `write_queue`), on Net/Cache, the `AdCache` of
--     libutil/inc/AdUtil.h. What the socket gives and takes are arguments. Session/Cut: packets that
--     come in pieces.
--   Rank: ibidding/engine/src/AdRtbDealRank.cpp. Wet: `AdRtbRandWet`. Choice: `AdRtbRankStrategy`,
--     `AdRtbRankChoice`. Table, Groups, Third, Chosen: what they choose. What `rand()` returns, the
--     weights in percent and the price of the click model are parameters, since the source computes
--     the last two in floating point.
--   Engine: ibidding/engine/src/AdRtbEngine.cpp. Build: `AdRtbEngineBuild`. Run: `AdRtbEngineRun`
--     (`engine_run`, `engine_run_internal`), where the filters behind the ban filter are an argument
--     `later`. Left, Candidates, Ranked, Bid: what the engine bids for.
--     Engine/Protect: `AdRtbProtect` of ibidding/engine/src/AdRtbProtect.cpp, the weights of places, with
--     `AdRtbProtectInit` (`protect_init`) and `AdRtbProtectSearch` (`protect_search`).
--   Config: libutil/src/AdRtbConfig.cpp, `Load` (`load`), with its loop (`load_lines`) over the lines
--     that `fgets` gives (`fgets_lines`) and what it adds behind it (`with_checks`). Config/Printed:
--     loading what is printed.
--   A Tests module beside each of these runs the code on small inputs.
--
-- Bytes are numbers, and strings are lists of them. The fields of a head are numbers that the C++
-- types cut to a byte where the source writes them. `int` is a signed integer; where the source's
-- sum of two `int`s leaves the range, or an access leaves the buffer or reads freed memory, the model
-- faults. There are three exceptions: the fill of `AdRtbRandWet` leaves out writes behind its array,
-- which weights that are no shares of a whole would lead to; the position in a body that is decoded
-- is no `int`; and `inet_aton`, a parameter, gives an address for every text. The buffer an encoder is given is modelled by what is written from its start, so that a write behind its end
-- shows in the length. The loops are structural recursion: `parse` on the number of pairs that the
-- head announces, the tree's loops on the bits that are left, the lists' on the list; `StrSplit` and
-- the search of Acbm have fuel.
--
-- Not modelled: the `display` calls under `bPrint`, the readings of the clock, the calls of
-- `reserve`, and, as parts of their own, the adapter's threads and sockets, the
-- exchanges' messages, the loaders and status counters of the bidder's engine, its landing-page
-- filter, which has no table, and its frequency filter, which returns at once, the sockets, events
-- and threads of libnet, `AdAcbmTreeBuild` with its shifts, which the program never calls, and
-- the rest of libutil and libcommon. libjson, liblinear, libconhash and the headers of libextern are
-- copies of other projects, and the .pb files are generated.
pub mod Base
pub mod Protocol
pub mod Buff
pub mod Area
pub mod Pending
pub mod Ban
pub mod Strings
pub mod User
pub mod Acbm
pub mod Filters
pub mod Rank
pub mod Engine
pub mod Config
pub mod Net
