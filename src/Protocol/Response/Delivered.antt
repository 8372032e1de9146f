-- ===== src/Protocol/Response/Delivered.antt =====
-- What of an `AdRtbResponse` reaches the other side.
use ad_rtb_adapter.Base.{[], ◌≡◌, refl, inl, inr, if◌then◌else◌, Bool-cases, ◌∙◌}
use ad_rtb_adapter.Protocol.Pairs.{find, assign}
use ad_rtb_adapter.Protocol.Pairs.Encoded.{pairs_of}
use ad_rtb_adapter.Protocol.Pairs.Filled.{nonempties, fill, Fits, keep_all-fill}
use ad_rtb_adapter.Protocol.Pairs.Parsed.{keep_all}
use ad_rtb_adapter.Protocol.Response.{
  Response, clear, response_parser, is_keyword, hot_field, response_fields,
}

-- A hot key that begins with "KW_" arrives as the keyword. Empty monitor addresses are left out.
-- The flow, the keyword, the width and the height are not sent.
abbrev pub delivered : Response → Response
delivered r = record clear {
  area = r.area;
  region = r.region;
  hot_url = r.hot_url;
  hot_time = r.hot_time;
  hot_tag = r.hot_tag;
  bid_id = r.bid_id;
  exec_id = r.exec_id;
  user_id = r.user_id;
  user_ip = r.user_ip;
  p_id = r.p_id;
  size = r.size;
  order_id = r.order_id;
  creative_id = r.creative_id;
  create_gid = r.create_gid;
  material_id = r.material_id;
  uud = r.uud;
  creative = r.creative;
  target_price_type = r.target_price_type;
  max_price = r.max_price;
  category = r.category;
  html = r.html;
  html_mraid = r.html_mraid;
  dest_url = r.dest_url;
  click_url = r.click_url;
  duration = r.duration;
  advertiser_id = r.advertiser_id;
  target_price = r.target_price;
  materail_format = r.materail_format;
  adirect_id = r.adirect_id;
  cook_id = r.cook_id;
  tanx_id = r.tanx_id;
  dev_type = r.dev_type;
  monitor_url = nonempties r.monitor_url;
  hot_key = if is_keyword r.hot_key then [] else r.hot_key;
  key_word = if is_keyword r.hot_key then r.hot_key else [];
}

response_Fits : (r : Response) → Fits response_parser (response_fields r) clear
unfolding response_fields hot_field response_parser find assign
response_Fits r = elim (Bool-cases (is_keyword r.hot_key)) [
  | inl e ↦
      rw (e, hot_field)
        (
          inl refl,
          (
            inl refl,
            (
              inl refl,
              (
                inl refl,
                (
                  inl refl,
                  (
                    inl refl,
                    (
                      inl refl,
                      (
                        inl refl,
                        (
                          inl refl,
                          (
                            inl refl,
                            (
                              inl refl,
                              (
                                inl refl,
                                (
                                  inl refl,
                                  (
                                    inl refl,
                                    (
                                      inl refl,
                                      (
                                        inl refl,
                                        (
                                          inl refl,
                                          (
                                            inl refl,
                                            (
                                              inl refl,
                                              (
                                                inl refl,
                                                (
                                                  inl refl,
                                                  (
                                                    inl refl,
                                                    (
                                                      inl refl,
                                                      (
                                                        inl refl,
                                                        (
                                                          inl refl,
                                                          (
                                                            inl refl,
                                                            (
                                                            inl refl,
                                                            (
                                                            inl refl,
                                                            (
                                                            inl refl,
                                                            (
                                                            inl refl,
                                                            (
                                                            inl refl,
                                                            (
                                                            inl refl,
                                                            (
                                                            inl refl,
                                                            (
                                                            (
                                                            λ xs r. refl,
                                                            λ xs ys r. refl,
                                                            λ r. refl,
                                                            ),
                                                            tt,
                                                            ),
                                                            ),
                                                            ),
                                                            ),
                                                            ),
                                                            ),
                                                            ),
                                                            ),
                                                          ),
                                                        ),
                                                      ),
                                                    ),
                                                  ),
                                                ),
                                              ),
                                            ),
                                          ),
                                        ),
                                      ),
                                    ),
                                  ),
                                ),
                              ),
                            ),
                          ),
                        ),
                      ),
                    ),
                  ),
                ),
              ),
            ),
          ),
        )
  | inr e ↦
      rw (e, hot_field)
        (
          inl refl,
          (
            inl refl,
            (
              inl refl,
              (
                inl refl,
                (
                  inl refl,
                  (
                    inl refl,
                    (
                      inl refl,
                      (
                        inl refl,
                        (
                          inl refl,
                          (
                            inl refl,
                            (
                              inl refl,
                              (
                                inl refl,
                                (
                                  inl refl,
                                  (
                                    inl refl,
                                    (
                                      inl refl,
                                      (
                                        inl refl,
                                        (
                                          inl refl,
                                          (
                                            inl refl,
                                            (
                                              inl refl,
                                              (
                                                inl refl,
                                                (
                                                  inl refl,
                                                  (
                                                    inl refl,
                                                    (
                                                      inl refl,
                                                      (
                                                        inl refl,
                                                        (
                                                          inl refl,
                                                          (
                                                            inl refl,
                                                            (
                                                            inl refl,
                                                            (
                                                            inl refl,
                                                            (
                                                            inl refl,
                                                            (
                                                            inl refl,
                                                            (
                                                            inl refl,
                                                            (
                                                            inl refl,
                                                            (
                                                            inl refl,
                                                            (
                                                            (
                                                            λ xs r. refl,
                                                            λ xs ys r. refl,
                                                            λ r. refl,
                                                            ),
                                                            tt,
                                                            ),
                                                            ),
                                                            ),
                                                            ),
                                                            ),
                                                            ),
                                                            ),
                                                            ),
                                                          ),
                                                        ),
                                                      ),
                                                    ),
                                                  ),
                                                ),
                                              ),
                                            ),
                                          ),
                                        ),
                                      ),
                                    ),
                                  ),
                                ),
                              ),
                            ),
                          ),
                        ),
                      ),
                    ),
                  ),
                ),
              ),
            ),
          ),
        )
]

response_fill : (r : Response) → fill response_parser (response_fields r) clear ≡ delivered r
unfolding response_fields hot_field response_parser find assign
response_fill r = elim (Bool-cases (is_keyword r.hot_key)) [
  | inl e ↦ rw (e, hot_field)
  | inr e ↦ rw (e, hot_field)
]

-- The pairs of a response, stored one after the other into a cleared response, give `delivered`.
pub keep_all-delivered :
    (r : Response) → keep_all response_parser (pairs_of (response_fields r)) clear ≡ delivered r
keep_all-delivered r =
    keep_all-fill response_parser (response_fields r) clear (response_Fits r) ∙ response_fill r
