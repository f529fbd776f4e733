-- ===== src/Agents/Bubbles.antt =====
-- src/benji_api/agents/text_style.py: the bubbles that an answer is sent in, and the links that the
-- tools of the turn made and the user must get.
pub mod Links
use dot_backend.Prelude.{
  ℕ, String, Bool, true, false, not, ◌&&◌, Option, none, some, List, [], ◌∷◌, ◌++◌, map, any,
  length, take, leb, strip, is_blank, str_eq, starts_with, contains_text, if◌then◌else◌,
}
use dot_backend.Prelude.Json.{
  Json, Items, Fields, null, bool, int, float, text, array, object, nil, cons, end, get, as_text,
  fields_of, is_true,
}

-- A pattern of the `re` module, as its source and its flag.
pub record Pattern : Type 0 where
  pub source : String
  pub ignore_case : Bool

-- What the source uses of the `re` module: `pattern.sub(replacement, text)` and
-- `pattern.split(text)`.
pub record Regex : Type 0 where
  pub sub : Pattern → String → String → String
  pub split : Pattern → String → List String

abbrev pattern_of : String → Pattern
pattern_of source = record { source = source; ignore_case = false }

abbrev markdown_link : Pattern
markdown_link = pattern_of "\\[([^\\]\\n]+)\\]\\((https?://[^)\\s]+)\\)"

abbrev strong_asterisk : Pattern
strong_asterisk = pattern_of "\\*\\*([^*\\n]+)\\*\\*"

abbrev strong_underscore : Pattern
strong_underscore = pattern_of "__([^_\\n]+)__"

abbrev strikethrough : Pattern
strikethrough = pattern_of "~~([^~\\n]+)~~"

abbrev inline_code : Pattern
inline_code = pattern_of "`([^`\\n]+)`"

abbrev emphasis_asterisk : Pattern
emphasis_asterisk = pattern_of "(?<!\\*)\\*([^*\\n]+)\\*(?!\\*)"

abbrev heading : Pattern
heading = pattern_of "(?m)^#{1,6}\\s+"

abbrev blockquote : Pattern
blockquote = pattern_of "(?m)^>\\s?"

abbrev paragraph_break : Pattern
paragraph_break = pattern_of "\\n\\s*\\n+"

abbrev http_url : Pattern
http_url = record { source = "https?://\\S+"; ignore_case = true }

abbrev spaced_dash : Pattern
spaced_dash = pattern_of "\\s+—\\s+"

-- `DELIVERY_BUBBLE_SAFETY_LIMIT`
abbrev pub delivery_bubble_safety_limit : ℕ
delivery_bubble_safety_limit = 12

module _ (r : Regex) where
  abbrev unmark : List Pattern → String → String
  unmark [] clean = clean
  unmark (p ∷ ps) clean = unmark ps (r.sub p "\\1" clean)

  -- `plain_text_bubble`
  unfoldable pub plain_text_bubble : String → String
  plain_text_bubble s =
      let linked = r.sub markdown_link "\\1: \\2" (strip s) in
      let clean =
        unmark
          (strong_asterisk ∷ strong_underscore ∷ strikethrough ∷ inline_code ∷ emphasis_asterisk
            ∷ [])
          linked in
      let level = r.sub heading "" clean in
      strip (r.sub blockquote "" (r.sub spaced_dash ", " level))

  abbrev clean_paragraphs : List String → List String
  clean_paragraphs [] = []
  clean_paragraphs (p ∷ ps) =
      let rest = clean_paragraphs ps in
      if is_blank (plain_text_bubble p) then rest else plain_text_bubble p ∷ rest

  abbrev all_bubbles : List String → List String
  all_bubbles [] = []
  all_bubbles (message ∷ messages) =
      clean_paragraphs (r.split paragraph_break message) ++ all_bubbles messages

  -- `prepare_text_bubbles`
  unfoldable pub prepare_text_bubbles : List String → List String
  unfolding plain_text_bubble
  prepare_text_bubbles messages = take delivery_bubble_safety_limit (all_bubbles messages)

  -- `prepare_app_completion_bubbles`
  unfoldable pub prepare_app_completion_bubbles : List String → String → List String
  unfolding prepare_text_bubbles
  prepare_app_completion_bubbles messages app_url =
      let bubbles = map (r.sub http_url app_url) (prepare_text_bubbles messages) in
      if any (contains_text app_url) bubbles then bubbles else take 11 bubbles ++ app_url ∷ []

-- `_TRUSTED_LINK_FIELDS.get(name)`
abbrev trusted_link_field : String → Option String
trusted_link_field name =
    if str_eq name "create_custom_app_link"
    then some "app_url"
    else (if str_eq name "create_integration_connect_link" then some "connect_url" else none)

-- `str(call.get("name") or "")`: of a name that is no text, `str` gives none of the two names.
abbrev name_of : Json → String
name_of (text name) = name
name_of _ = ""

-- The result within the output, or the output itself.
abbrev result_of : Json → Fields → Fields
result_of (object fs) output = fs
result_of _ output = output

abbrev payload_of : Json → Fields
payload_of (object output) = result_of (get "result" output) output
payload_of _ = end

abbrev url_in : Fields → Option String → Option String
url_in call none = none
url_in call (some name) = as_text (get name (payload_of (get "output" call)))

-- The URL that a call of a link tool gave out, if it succeeded.
abbrev url_of_fields : Fields → Option String
url_of_fields call =
    if is_true (get "succeeded" call)
    then url_in call (trusted_link_field (name_of (get "name" call)))
    else none

abbrev url_of_call : Json → Option String
url_of_call (object call) = url_of_fields call
url_of_call _ = none

abbrev keep_url : List String → Option String → List String
keep_url urls none = urls
keep_url urls (some url) =
    if starts_with "https://" url && not (any (str_eq url) urls) then urls ++ url ∷ [] else urls

abbrev collect_urls : List String → Items → List String
collect_urls urls nil = urls
collect_urls urls (cons call calls) = collect_urls (keep_url urls (url_of_call call)) calls

-- `trusted_urls_from_tool_outputs`
unfoldable pub trusted_urls_from_tool_outputs : Json → List String
trusted_urls_from_tool_outputs (array calls) = collect_urls [] calls
trusted_urls_from_tool_outputs _ = []

-- `bubbles[-1] = url`
abbrev pub replace_last : String → List String → List String
replace_last url [] = []
replace_last url (b ∷ []) = url ∷ []
replace_last url (b ∷ c ∷ bs) = b ∷ replace_last url (c ∷ bs)

abbrev pub place_url : String → List String → List String
place_url url bubbles =
    if any (contains_text url) bubbles
    then bubbles
    else (if leb delivery_bubble_safety_limit (length bubbles)
        then replace_last url bubbles
        else bubbles ++ url ∷ [])

abbrev pub place_urls : List String → List String → List String
place_urls [] bubbles = bubbles
place_urls (url ∷ urls) bubbles = place_urls urls (place_url url bubbles)

-- `prepare_trusted_link_bubbles`
unfoldable pub prepare_trusted_link_bubbles : Regex → List String → List String → List String
prepare_trusted_link_bubbles r messages urls = place_urls urls (prepare_text_bubbles r messages)
