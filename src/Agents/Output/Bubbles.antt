-- ===== src/Agents/Output/Bubbles.antt =====
-- What the parser of src/benji_api/agents/conversation_output.py lets through.
use dot_backend.Prelude.{
  has_visible, strip_idem, strip-has_visible, ◌≤◌, ◌≡◌, subst, String, true, false, Option, none,
  some, All, strip, is_blank, text_len, str_take_le, Bool-cases, inl, inr,
}
use dot_backend.Prelude.Json.{
  Json, Items, Fields, text, int, array, object, nil, cons, get, is_true,
}
use dot_backend.Agents.Output.{
  Checked, valid, invalid, ◌>>=◌, ConversationOutput, FollowUpProposal, clean_messages, proposed,
  follow_up_of, parse_language_preference, parse_reaction, read_fields, plain_answer, read_value,
  parse_conversation_output,
}

-- The message has a code point that is not white space, and none that is at its ends.
abbrev pub IsReadable : String → Type 0
IsReadable m = (has_visible m ≡ true) × (strip m ≡ m)

strip-IsReadable : (s : String) → is_blank (strip s) ≡ false → IsReadable (strip s)
strip-IsReadable s e = (strip-has_visible s e, strip_idem s)

clean_messages-full : (xs : Items) → All IsReadable (clean_messages xs)
unfolding clean_messages
clean_messages-full nil = tt
clean_messages-full (cons (text s) xs) = elim (Bool-cases (is_blank (strip s))) [
  | inl e ↦ rw e (clean_messages-full xs)
  | inr e ↦ rw e (strip-IsReadable s e, clean_messages-full xs)
]
clean_messages-full (cons _ xs) = clean_messages-full xs

-- The goal of a follow-up, if there is one, is short.
abbrev pub IsShort : Option FollowUpProposal → Type 0
IsShort none = Unit
IsShort (some f) = text_len f.goal ≤ 500

proposed-IsShort : (goal due : Json) → IsShort (proposed goal due)
proposed-IsShort (text goal) (int due) = elim (Bool-cases (is_blank (strip goal))) [
  | inl e ↦ rw (e, proposed) tt
  | inr e ↦ rw (e, proposed) (str_take_le 500 (strip goal))
]
proposed-IsShort (text goal) _ = tt
proposed-IsShort _ _ = tt

follow_up_of-IsShort : (v : Json) → IsShort (follow_up_of v)
follow_up_of-IsShort (object fs) = elim (Bool-cases (is_true (get "should_schedule" fs))) [
  | inl e ↦ rw (e, follow_up_of) (proposed-IsShort (get "goal" fs) (get "due_after_seconds" fs))
  | inr e ↦ rw (e, follow_up_of) tt
]
follow_up_of-IsShort _ = tt

abbrev Sendable : ConversationOutput → Type 0
Sendable o = All IsReadable o.messages × IsShort o.follow_up

abbrev WhenValid : Checked ConversationOutput → Type 0
WhenValid (valid o) = Sendable o
WhenValid (invalid e) = Unit

bind-WhenValid :
    {A : Type 0} (c : Checked A) (rest : A → Checked ConversationOutput)
    → ((a : A) → WhenValid (rest a))
    → WhenValid (c >>= rest)
bind-WhenValid (invalid e) rest h = tt
bind-WhenValid (valid a) rest h = h a

read_fields-WhenValid : (fs : Fields) (v : Json) → WhenValid (read_fields fs v)
read_fields-WhenValid fs (array xs) =
    bind-WhenValid (parse_language_preference (get "language_preference" fs)) _ λ language.
      bind-WhenValid (parse_reaction (get "reaction" fs)) _
        λ reaction. (clean_messages-full xs, follow_up_of-IsShort (get "follow_up" fs))
read_fields-WhenValid fs _ = tt

read_value-WhenValid : (t : String) (v : Option Json) → WhenValid (read_value t v)
read_value-WhenValid t none = elim (Bool-cases (is_blank (strip t))) [
  | inl e ↦ rw (e, plain_answer) tt
  | inr e ↦ rw (e, plain_answer) ((strip-IsReadable t e, tt), tt)
]
read_value-WhenValid t (some (object fs)) = read_fields-WhenValid fs (get "messages" fs)
read_value-WhenValid t (some _) = tt

-- Each message of an answer of the model that is accepted has a code point that is not white space
-- and none that is at its ends, and a follow-up that it proposes has a goal of at most 500 code
-- points.
pub parse_conversation_output-sendable :
    (loads : String → Option Json) (t : String) (o : ConversationOutput)
    → parse_conversation_output loads t ≡ valid o
    → All IsReadable o.messages × IsShort o.follow_up
unfolding parse_conversation_output
parse_conversation_output-sendable loads t o h =
    subst WhenValid h (read_value-WhenValid t (loads t))
