-- ===== src/Agents/BubbleTests.antt =====
-- A turn of the agent with links, as `agents/text_style.py` prepares it.
use dot_backend.Prelude.{
  ◌+◌, ◌≤◌, ◌≡◌, refl, String, true, false, List, [], ◌∷◌, All, length, arith, strip, lstrip,
  rstrip, contains_text, starts_with,
}
use dot_backend.Agents.Bubbles.{
  Regex, plain_text_bubble, prepare_text_bubbles, prepare_app_completion_bubbles,
  prepare_trusted_link_bubbles,
}
use dot_backend.Agents.Bubbles.Links.{
  shown_in, prepare_app_completion_bubbles-shows, prepare_trusted_link_bubbles-shows,
  prepare_trusted_link_bubbles-overwrites,
}

-- No text has markup, or more than one paragraph.
abbrev plain : Regex
plain = record { sub = λ p replacement s. s; split = λ p s. s ∷ [] }

abbrev answer : List String
answer = "done!" ∷ "here you go" ∷ []

abbrev links : List String
links = "https://a/1" ∷ "https://b/2" ∷ []

abbrev long_answer : List String
long_answer = "a" ∷ "b" ∷ "c" ∷ "d" ∷ "e" ∷ "f" ∷ "g" ∷ "h" ∷ "i" ∷ "j" ∷ "k" ∷ "l" ∷ []

prepare_app_completion_bubbles-shows_example :
    let bubbles = prepare_app_completion_bubbles plain answer "https://a/1" in
    (length bubbles ≤ 12) × (shown_in bubbles "https://a/1" ≡ true)
prepare_app_completion_bubbles-shows_example =
    prepare_app_completion_bubbles-shows plain answer "https://a/1"

room : length (prepare_text_bubbles plain answer) + length links ≤ 12
unfolding prepare_text_bubbles plain_text_bubble strip lstrip rstrip
room = omega arith

prepare_trusted_link_bubbles-shows_example :
    All (λ u. shown_in (prepare_trusted_link_bubbles plain answer links) u ≡ true) links
prepare_trusted_link_bubbles-shows_example =
    prepare_trusted_link_bubbles-shows plain answer links room

full : prepare_text_bubbles plain long_answer ≡ long_answer
unfolding prepare_text_bubbles plain_text_bubble strip lstrip rstrip
full = refl

prepare_trusted_link_bubbles-overwrites_example :
    shown_in (prepare_trusted_link_bubbles plain long_answer links) "https://a/1" ≡ false
unfolding prepare_text_bubbles plain_text_bubble strip lstrip rstrip contains_text starts_with
prepare_trusted_link_bubbles-overwrites_example =
    prepare_trusted_link_bubbles-overwrites plain long_answer "https://a/1" "https://b/2" refl refl
      refl refl refl
