-- ===== src/Agents/Output.antt =====
-- src/benji_api/agents/conversation_output.py: the model's answer is read as messages with private
-- proposals. The schemas that are sent to the model are left out.
pub mod Bubbles
use dot_backend.Prelude.{
  ◌≡◌, String, Bool, true, false, ◌&&◌, ◌||◌, Option, none, some, List, [], ◌∷◌, str_eq, strip,
  is_blank, take_text, if◌then◌else◌,
}
use dot_backend.Prelude.Json.{
  ℤ, Json, Items, Fields, null, int, text, array, object, nil, cons, end, field, get, as_text,
  is_true,
}

pub data LanguageAction : Type 0 where
  keep set : LanguageAction

-- `LanguagePreference` of models/user.py
pub data LanguagePreference : Type 0 where
  auto english arabic_script egyptian_franco : LanguagePreference

pub record LanguagePreferenceProposal : Type 0 where
  pub action : LanguageAction
  pub mode : LanguagePreference

pub record FollowUpProposal : Type 0 where
  pub goal : String
  pub due_after_seconds : ℤ

pub record ConversationOutput : Type 0 where
  pub messages : List String
  pub follow_up : Option FollowUpProposal
  pub language_preference : Option LanguagePreferenceProposal
  pub reaction : Option String

-- The errors that the parser raises.
pub data OutputError : Type 0 where
  empty_turn not_object messages_not_array bad_language_preference bad_reaction : OutputError

pub data Checked (A : Type 0) : Type 0 where
  valid : A → Checked A
  invalid : OutputError → Checked A

infixl 5 ◌>>=◌
abbrev pub ◌>>=◌ : {A B : Type 0} → Checked A → (A → Checked B) → Checked B
invalid error >>= rest = invalid error
valid a >>= rest = rest a

abbrev parse_action : String → Option LanguageAction
parse_action s = if str_eq s "keep" then some keep else (if str_eq s "set" then some set else none)

abbrev parse_mode : String → Option LanguagePreference
parse_mode s =
    if str_eq s "auto"
    then some auto
    else (if str_eq s "english"
        then some english
        else (if str_eq s "arabic_script"
            then some arabic_script
            else (if str_eq s "egyptian_franco" then some egyptian_franco else none)))

-- `extra="forbid"`
abbrev only_known : Fields → Bool
only_known end = true
only_known (field k v fs) = (str_eq k "action" || str_eq k "mode") && only_known fs

abbrev proposal :
    Option LanguageAction → Option LanguagePreference → Option LanguagePreferenceProposal
proposal (some a) (some m) = some (record { action = a; mode = m })
proposal (some a) none = none
proposal none m = none

abbrev then_parse : {A : Type 0} → Option String → (String → Option A) → Option A
then_parse none parse = none
then_parse (some s) parse = parse s

-- `LanguagePreferenceProposal.model_validate`, with None for a ValidationError
abbrev validate_proposal : Json → Option LanguagePreferenceProposal
validate_proposal (object fs) =
    if only_known fs
    then proposal (then_parse (as_text (get "action" fs)) parse_action)
        (then_parse (as_text (get "mode" fs)) parse_mode)
    else none
validate_proposal _ = none

abbrev valid_proposal :
    Option LanguagePreferenceProposal → Checked (Option LanguagePreferenceProposal)
valid_proposal none = invalid bad_language_preference
valid_proposal (some p) = valid (some p)

-- `_parse_language_preference`
abbrev parse_language_preference : Json → Checked (Option LanguagePreferenceProposal)
parse_language_preference null = valid none
parse_language_preference v = valid_proposal (validate_proposal v)

abbrev is_reaction : String → Bool
is_reaction t =
    str_eq t "like"
    || str_eq t "love"
    || str_eq t "laugh"
    || str_eq t "emphasize"
    || str_eq t "question"

-- A list or an object as the type raises too, as it cannot be looked up in the set.
abbrev reaction_of : Json → Checked (Option String)
reaction_of (text t) =
    if str_eq t "none"
    then valid none
    else (if is_reaction t then valid (some t) else invalid bad_reaction)
reaction_of _ = invalid bad_reaction

-- `parse_reaction`
unfoldable pub parse_reaction : Json → Checked (Option String)
parse_reaction null = valid none
parse_reaction (object fs) = reaction_of (get "type" fs)
parse_reaction _ = invalid bad_reaction

-- The texts of the array that are not blank, stripped.
unfoldable pub clean_messages : Items → List String
clean_messages nil = []
clean_messages (cons (text s) xs) =
    let rest = clean_messages xs in if is_blank (strip s) then rest else strip s ∷ rest
clean_messages (cons _ xs) = clean_messages xs

abbrev proposed : Json → Json → Option FollowUpProposal
proposed (text goal) (int due) =
    if is_blank (strip goal)
    then none
    else some (record { goal = take_text 500 (strip goal); due_after_seconds = due })
proposed _ _ = none

abbrev follow_up_of : Json → Option FollowUpProposal
follow_up_of (object fs) =
    if is_true (get "should_schedule" fs)
    then proposed (get "goal" fs) (get "due_after_seconds" fs)
    else none
follow_up_of _ = none

abbrev read_fields : Fields → Json → Checked ConversationOutput
read_fields fs (array xs) = do
  language ← parse_language_preference (get "language_preference" fs)
  reaction ← parse_reaction (get "reaction" fs)
  valid (record {
    messages = clean_messages xs;
    follow_up = follow_up_of (get "follow_up" fs);
    language_preference = language;
    reaction = reaction;
  })
read_fields fs _ = invalid messages_not_array

abbrev plain_answer : String → Checked ConversationOutput
plain_answer t =
    if is_blank (strip t)
    then invalid empty_turn
    else valid (record {
      messages = strip t ∷ [];
      follow_up = none;
      language_preference = none;
      reaction = none;
    })

abbrev read_value : String → Option Json → Checked ConversationOutput
read_value t none = plain_answer t
read_value t (some (object fs)) = read_fields fs (get "messages" fs)
read_value t (some _) = invalid not_object

-- `parse_conversation_output`; `loads` is `json.loads`, with None for a JSONDecodeError.
unfoldable pub parse_conversation_output :
    (String → Option Json) → String → Checked ConversationOutput
parse_conversation_output loads t = read_value t (loads t)
