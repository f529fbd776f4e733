-- ===== src/Agents/Bubbles/Links.antt =====
-- What the bubbles of `agents/text_style.py` promise: a turn never goes out in more than twelve of
-- them, and the user gets the links.
use dot_backend.Prelude.{
  suc, ◌+◌, ◌≤◌, ◌≡◌, refl, ap, String, Bool, true, false, ◌||◌, List, [], ◌∷◌, ◌++◌, map, any,
  length, take, length-append, length-take-le, contains_text, contains_text_refl, All, arith, leb,
  if-elim, Bool-cases, inl, inr,
}
use dot_backend.Agents.Bubbles.{
  Regex, prepare_text_bubbles, prepare_app_completion_bubbles, prepare_trusted_link_bubbles,
  replace_last, place_url, place_urls, http_url,
}

abbrev pub shown_in : List String → String → Bool
shown_in bubbles url = any (contains_text url) bubbles

shown-append :
    (url : String) (xs ys : List String)
    → shown_in (xs ++ ys) url ≡ shown_in xs url || shown_in ys url
shown-append url [] ys = refl
shown-append url (x ∷ xs) ys = let rest = shown-append url xs ys in ground arith

shown_last : (url : String) (xs : List String) → shown_in (xs ++ url ∷ []) url ≡ true
shown_last url xs = ground (arith, shown-append url xs (url ∷ []), contains_text_refl url)

length-map : (f : String → String) (xs : List String) → length (map f xs) ≡ length xs
length-map f [] = refl
length-map f (x ∷ xs) = omega (arith, length-map f xs)

text_bubbles_le :
    (r : Regex) (messages : List String) → length (prepare_text_bubbles r messages) ≤ 12
unfolding prepare_text_bubbles
text_bubbles_le r messages = length-take-le 12 _

-- The message about a finished app has at most twelve bubbles, and one of them shows the app's URL,
-- whatever the model wrote.
pub prepare_app_completion_bubbles-shows :
    (r : Regex) (messages : List String) (app_url : String)
    → let bubbles = prepare_app_completion_bubbles r messages app_url in
      (length bubbles ≤ 12) × (shown_in bubbles app_url ≡ true)
unfolding prepare_app_completion_bubbles
prepare_app_completion_bubbles-shows r messages app_url =
    let bubbles = map (r.sub http_url app_url) (prepare_text_bubbles r messages) in
    if-elim (λ xs. (length xs ≤ 12) × (shown_in xs app_url ≡ true)) (shown_in bubbles app_url)
      bubbles (take 11 bubbles ++ app_url ∷ [])
      (λ h. (
        omega (
          arith,
          length-map (r.sub http_url app_url) (prepare_text_bubbles r messages),
          text_bubbles_le r messages,
        ),
        h,
      ))
      (λ _. (
        omega (arith, length-append (take 11 bubbles) (app_url ∷ []), length-take-le 11 bubbles),
        shown_last app_url (take 11 bubbles),
      ))

replace_last-length : (url : String) (bs : List String) → length (replace_last url bs) ≡ length bs
replace_last-length url [] = refl
replace_last-length url (b ∷ []) = refl
replace_last-length url (b ∷ c ∷ bs) = omega (arith, replace_last-length url (c ∷ bs))

place_url-length :
    (url : String) (bs : List String) → length bs ≤ 12 → length (place_url url bs) ≤ 12
place_url-length url bs h =
    if-elim (λ xs. length xs ≤ 12) (shown_in bs url) bs _ (λ _. h)
      λ _.
        if-elim (λ xs. length xs ≤ 12) (leb 12 (length bs)) (replace_last url bs) (bs ++ url ∷ [])
          (λ _. omega (arith, replace_last-length url bs))
          (λ e. ground (arith, length-append bs (url ∷ [])))

place_urls-length : (urls bs : List String) → length bs ≤ 12 → length (place_urls urls bs) ≤ 12
place_urls-length [] bs h = h
place_urls-length (url ∷ urls) bs h =
    place_urls-length urls (place_url url bs) (place_url-length url bs h)

-- However many links there are, a turn has at most twelve bubbles.
pub prepare_trusted_link_bubbles_le :
    (r : Regex) (messages urls : List String)
    → length (prepare_trusted_link_bubbles r messages urls) ≤ 12
unfolding prepare_trusted_link_bubbles
prepare_trusted_link_bubbles_le r messages urls =
    place_urls-length urls (prepare_text_bubbles r messages) (text_bubbles_le r messages)

-- Where there is room, a link is shown after it was placed, and the links before it still are.
room-cases {ℓ} :
    (P : List String → Type ℓ) (url : String) (bs : List String)
    → suc (length bs) ≤ 12
    → (shown_in bs url ≡ true → P bs)
    → P (bs ++ url ∷ [])
    → P (place_url url bs)
room-cases P url bs room there added = elim (Bool-cases (shown_in bs url)) [
  | inl e ↦ rw e (there e)
  | inr e ↦ let less : leb 12 (length bs) ≡ false = ground arith in rw (e, less) added
]

place_urls-keeps :
    (urls bs : List String) (u : String)
    → length bs + length urls ≤ 12
    → shown_in bs u ≡ true
    → shown_in (place_urls urls bs) u ≡ true
place_urls-keeps [] bs u room h = h
place_urls-keeps (url ∷ urls) bs u room h =
    room-cases (λ xs. shown_in (place_urls urls xs) u ≡ true) url bs (omega arith)
      (λ _. place_urls-keeps urls bs u (omega arith) h)
      (place_urls-keeps urls (bs ++ url ∷ []) u (omega (arith, length-append bs (url ∷ [])))
        (ground (arith, shown-append u bs (url ∷ []))))

place_urls-shows :
    (urls bs : List String)
    → length bs + length urls ≤ 12
    → All (λ u. shown_in (place_urls urls bs) u ≡ true) urls
place_urls-shows [] bs room = tt
place_urls-shows (url ∷ urls) bs room =
    room-cases (λ xs. All (λ u. shown_in (place_urls urls xs) u ≡ true) (url ∷ urls)) url bs
      (omega arith)
      (λ e. (place_urls-keeps urls bs url (omega arith) e, place_urls-shows urls bs (omega arith)))
      (
        place_urls-keeps urls (bs ++ url ∷ []) url (omega (arith, length-append bs (url ∷ [])))
            (shown_last url bs),
        place_urls-shows urls (bs ++ url ∷ []) (omega (arith, length-append bs (url ∷ []))),
      )

-- Where the bubbles of the model's text and the links together are at most twelve, every link is
-- shown in some bubble.
pub prepare_trusted_link_bubbles-shows :
    (r : Regex) (messages urls : List String)
    → length (prepare_text_bubbles r messages) + length urls ≤ 12
    → All (λ u. shown_in (prepare_trusted_link_bubbles r messages urls) u ≡ true) urls
unfolding prepare_trusted_link_bubbles
prepare_trusted_link_bubbles-shows r messages urls room =
    place_urls-shows urls (prepare_text_bubbles r messages) room

replace_last-replace_last :
    (u v : String) (bs : List String) → replace_last v (replace_last u bs) ≡ replace_last v bs
replace_last-replace_last u v [] = refl
replace_last-replace_last u v (b ∷ []) = refl
replace_last-replace_last u v (b ∷ c ∷ []) = refl
replace_last-replace_last u v (b ∷ c ∷ d ∷ bs) =
    ap (λ xs. b ∷ xs) (replace_last-replace_last u v (c ∷ d ∷ bs))

hidden-replace_last :
    (u v : String) (bs : List String)
    → contains_text u v ≡ false
    → shown_in bs u ≡ false
    → shown_in (replace_last v bs) u ≡ false
hidden-replace_last u v [] apart h = h
hidden-replace_last u v (b ∷ []) apart h = ground arith
hidden-replace_last u v (b ∷ c ∷ bs) apart h =
    let rest = hidden-replace_last u v (c ∷ bs) apart in ground arith

-- When the bubbles of the model's text are twelve and show neither of two links, of which none is
-- part of the other, the first link is not shown in any bubble: the second one takes its place.
pub prepare_trusted_link_bubbles-overwrites :
    (r : Regex) (messages : List String) (u v : String)
    → length (prepare_text_bubbles r messages) ≡ 12
    → shown_in (prepare_text_bubbles r messages) u ≡ false
    → shown_in (prepare_text_bubbles r messages) v ≡ false
    → contains_text u v ≡ false
    → contains_text v u ≡ false
    → shown_in (prepare_trusted_link_bubbles r messages (u ∷ v ∷ [])) u ≡ false
unfolding prepare_trusted_link_bubbles
prepare_trusted_link_bubbles-overwrites r messages u v full no_u no_v apart apart' =
    let bs = prepare_text_bubbles r messages in
    let at_limit : leb 12 (length bs) ≡ true = ground arith in
    let still : leb 12 (length (replace_last u bs)) ≡ true =
      ground (arith, replace_last-length u bs) in
    rw (no_u, at_limit, hidden-replace_last v u bs apart' no_v, still)
      (rw (replace_last-replace_last u v bs) (hidden-replace_last u v bs apart no_u))
