-- ===== src/Filters/Tanx/Excluded.antt =====
-- What the two files of TanX make of a filter id and of a place.
use ad_rtb_adapter.Base.{
  ℕ, ◌≡◌, refl, ap, ◌∙◌, false, Option, none, some, List, [], ◌∷◌, ◌++◌, ◌==◌, if◌then◌else◌,
  same_text, Bool-cases, Option-cases, sym, inl, inr, append_assoc, append-nil,
}
use ad_rtb_adapter.Filters.Filed.{same_text→≡, same_text_sym}
use ad_rtb_adapter.Filters.Tanx.{
  Value, Description, Contents, Places, add_contents, content_of, put_content, places_of,
  push_place, texts, decimals, excluded, parse_contents,
}
use ad_rtb_adapter.Filters.TanxContent.{
  TanxContent, add_content, tanx_category, tanx_landing_page, tanx_creative_type, tanx_advertise,
  tanx_creative_level,
}
use ad_rtb_adapter.Strings.{Text, Libc}

content_of-put_content :
    (key id : Text) (x : TanxContent) (m : Contents)
    → content_of key (put_content id x m) ≡ (if same_text key id then x else content_of key m)
content_of-put_content key id x [] = refl
content_of-put_content key id x ((k, y) ∷ m) = elim (Bool-cases (same_text id k)) [
  | inl e ↦
      let eq : id ≡ k = same_text→≡ id k e in
      elim (Bool-cases (same_text key k)) [
        | inl h ↦ rw (e, eq, h) refl
        | inr h ↦ rw (e, eq, h) refl
      ]
  | inr e ↦ elim (Bool-cases (same_text key k)) [
    | inl h ↦
        let eq : key ≡ k = same_text→≡ key k h in
        let apart : same_text k id ≡ false = same_text_sym k id ∙ e in rw (e, h, eq, apart) refl
    | inr h ↦ rw (e, h) (content_of-put_content key id x m)
  ]
]

pub places_of-push_place :
    (key id : Text) (d : Description) (t : Places)
    → places_of key (push_place id d t)
      ≡ places_of key t ++ (if same_text key id then d ∷ [] else [])
places_of-push_place key id d [] = refl
places_of-push_place key id d ((k, ds) ∷ t) = elim (Bool-cases (same_text id k)) [
  | inl e ↦
      let eq : id ≡ k = same_text→≡ id k e in
      elim (Bool-cases (same_text key k)) [
        | inl h ↦ rw (e, eq, h) refl
        | inr h ↦ rw (e, eq, h) (sym (append-nil (places_of key t)))
      ]
  | inr e ↦ elim (Bool-cases (same_text key k)) [
    | inl h ↦
        let eq : key ≡ k = same_text→≡ key k h in
        let apart : same_text k id ≡ false = same_text_sym k id ∙ e in
        rw (e, h, eq, apart) (sym (append-nil ds))
    | inr h ↦ rw (e, h) (places_of-push_place key id d t)
  ]
]

add_content-other :
    (n : ℕ) (s : Text) (k : TanxContent)
    → (n == tanx_category) ≡ false
    → (add_content s n k).category ≡ k.category
add_content-other n s k h = rw h (elim (Bool-cases (n == tanx_landing_page)) [
  | inl a ↦ rw a refl
  | inr a ↦ rw a (elim (Bool-cases (n == tanx_creative_type)) [
    | inl b ↦ rw b refl
    | inr b ↦ rw b (elim (Bool-cases (n == tanx_advertise)) [
      | inl d ↦ rw d refl
      | inr d ↦
          rw d
            (elim (Bool-cases (n == tanx_creative_level)) [ inl e ↦ rw e refl | inr e ↦ rw e refl ])
    ])
  ])
])

add_contents-other :
    (n : ℕ) (ss : List Text) (k : TanxContent)
    → (n == tanx_category) ≡ false
    → (add_contents n ss k).category ≡ k.category
add_contents-other n [] k h = refl
add_contents-other n (s ∷ ss) k h =
    add_contents-other n ss (add_content s n k) h ∙ add_content-other n s k h

add_contents-category :
    (ss : List Text) (k : TanxContent)
    → (add_contents tanx_category ss k).category ≡ k.category ++ ss
add_contents-category [] k = sym (append-nil k.category)
add_contents-category (s ∷ ss) k =
    add_contents-category ss (add_content s tanx_category k) ∙ append_assoc k.category (s ∷ []) ss

module _ (c : Libc) where
  -- The categories that the lines of the first file exclude under the filter id `id`.
  abbrev pub categories : Text → List (Option Value) → List Text
  categories id [] = []
  categories id (none ∷ vs) = categories id vs
  categories id (some v ∷ vs) =
      let rest = categories id vs in
      elim v.filter_id [
        | none ↦ rest
        | some i ↦ if same_text id i then decimals c v.excluded_ad_category ++ rest else rest
      ]

  excluded-category :
      (v : Value) (k : TanxContent)
      → (excluded c v k).category ≡ k.category ++ decimals c v.excluded_ad_category
  excluded-category v k =
      let k1 = add_contents tanx_category (decimals c v.excluded_ad_category) k in
      let k2 = add_contents tanx_landing_page (texts v.excluded_click_through_url) k1 in
      let k3 = add_contents tanx_creative_type (decimals c v.excluded_filter) k2 in
      let k4 = add_contents tanx_advertise (texts v.excluded_brand_advertiser_id) k3 in
      add_contents-other tanx_creative_level (texts v.included_adboard_level) k4 refl
      ∙ add_contents-other tanx_advertise (texts v.excluded_brand_advertiser_id) k3 refl
      ∙ add_contents-other tanx_creative_type (decimals c v.excluded_filter) k2 refl
      ∙ add_contents-other tanx_landing_page (texts v.excluded_click_through_url) k1 refl
      ∙ add_contents-category (decimals c v.excluded_ad_category) k

  pub content_of-parse_contents :
      (id : Text) (vs : List (Option Value)) (m : Contents)
      → (content_of id (parse_contents c vs m)).category
        ≡ (content_of id m).category ++ categories id vs
  content_of-parse_contents id [] m = sym (append-nil (content_of id m).category)
  content_of-parse_contents id (none ∷ vs) m = content_of-parse_contents id vs m
  content_of-parse_contents id (some v ∷ vs) m = elim (Option-cases v.filter_id) [
    | inl e ↦ rw e (content_of-parse_contents id vs m)
    | inr (i, e) ↦
        let k = excluded c v (content_of i m) in
        rw e (
          content_of-parse_contents id vs (put_content i k m)
          ∙ ap (λ (x : TanxContent). x.category ++ categories id vs)
              (content_of-put_content id i k m)
          ∙ elim (Bool-cases (same_text id i)) [
            | inl h ↦
                rw (h, sym (same_text→≡ id i h))
                  (ap (λ (l : List Text). l ++ categories id vs)
                      (excluded-category v (content_of id m))
                    ∙ append_assoc (content_of id m).category (decimals c v.excluded_ad_category)
                        (categories id vs))
            | inr h ↦ rw h refl
          ])
  ]
