-- ===== src/Protocol/Request/Delivered.antt =====
-- What of an `AdRtbRequest` reaches the other side.
use ad_rtb_adapter.Base.{List, ◌∷◌, ◌≡◌, refl, inl, inr, ◌∙◌}
use ad_rtb_adapter.Protocol.Pairs.{Field, one, find, assign}
use ad_rtb_adapter.Protocol.Pairs.Encoded.{pairs_of}
use ad_rtb_adapter.Protocol.Pairs.Filled.{nonempties, fill, Fits, keep_all-fill}
use ad_rtb_adapter.Protocol.Pairs.Parsed.{keep_all}
use ad_rtb_adapter.Protocol.Request.{Request, clear, request_parser, request_fields}

-- Empty strings of a list are left out. The crowd category is sent under a key that the receiver's
-- table does not have; the area, the slot, the place, the parameters and the numbers are not sent.
abbrev pub delivered : Request → Request
delivered r = record clear {
  flow = r.flow;
  bid_id = r.bid_id;
  user_id = r.user_id;
  user_ip = r.user_ip;
  p_id = r.p_id;
  site_category = nonempties r.site_category;
  size = r.size;
  user_agent = r.user_agent;
  user_url = r.user_url;
  dev_unique_type = r.dev_unique_type;
  ad_view_screen = r.ad_view_screen;
  ad_view_type = r.ad_view_type;
  create = nonempties r.create;
  category = nonempties r.category;
  ua_list = nonempties r.ua_list;
  material_format = nonempties r.material_format;
  sensitive = nonempties r.sensitive;
  min_price = r.min_price;
  video_min_time = r.video_min_time;
  video_max_time = r.video_max_time;
  linearity = r.linearity;
  mobile_operator = nonempties r.mobile_operator;
  mobile_device = nonempties r.mobile_device;
  mobile_connect = nonempties r.mobile_connect;
  transaction = r.transaction;
  idfa = r.idfa;
  imei = r.imei;
  android_id = r.android_id;
}

-- All the pairs that are written: the one for the flow stands twice.
abbrev pub wire_fields : Request → List Field
wire_fields r = one 136 r.flow ∷ request_fields r

request_Fits : (r : Request) → Fits request_parser (wire_fields r) clear
unfolding request_fields request_parser find assign
request_Fits r = (
  inl refl,
  (
    inr refl,
    (
      inl refl,
      (
        inl refl,
        (
          inl refl,
          (
            inl refl,
            (
              (λ xs r. refl, λ xs ys r. refl, λ r. refl),
              (
                inl refl,
                (
                  inl refl,
                  (
                    inl refl,
                    (
                      inl refl,
                      (
                        inl refl,
                        (
                          inl refl,
                          (
                            (λ xs r. refl, λ xs ys r. refl, λ r. refl),
                            (
                              tt,
                              (
                                (λ xs r. refl, λ xs ys r. refl, λ r. refl),
                                (
                                  (λ xs r. refl, λ xs ys r. refl, λ r. refl),
                                  (
                                    (λ xs r. refl, λ xs ys r. refl, λ r. refl),
                                    (
                                      (λ xs r. refl, λ xs ys r. refl, λ r. refl),
                                      (
                                        inl refl,
                                        (
                                          inl refl,
                                          (
                                            inl refl,
                                            (
                                              inl refl,
                                              (
                                                (λ xs r. refl, λ xs ys r. refl, λ r. refl),
                                                (
                                                  (λ xs r. refl, λ xs ys r. refl, λ r. refl),
                                                  (
                                                    (λ xs r. refl, λ xs ys r. refl, λ r. refl),
                                                    (
                                                      inl refl,
                                                      (inl refl, (inl refl, (inl refl, tt))),
                                                    ),
                                                  ),
                                                ),
                                              ),
                                            ),
                                          ),
                                        ),
                                      ),
                                    ),
                                  ),
                                ),
                              ),
                            ),
                          ),
                        ),
                      ),
                    ),
                  ),
                ),
              ),
            ),
          ),
        ),
      ),
    ),
  ),
)

request_fill : (r : Request) → fill request_parser (wire_fields r) clear ≡ delivered r
unfolding request_fields request_parser find assign
request_fill r = refl

-- The pairs of a request, stored one after the other into a cleared request, give `delivered`.
pub keep_all-delivered :
    (r : Request) → keep_all request_parser (pairs_of (wire_fields r)) clear ≡ delivered r
keep_all-delivered r =
    keep_all-fill request_parser (wire_fields r) clear (request_Fits r) ∙ request_fill r
