-- ===== src/Oracle.antt =====
-- The gods that answer prayers (internal/oracle: oracle.go, claude.go). The service that they speak
-- through is a function from the number of the call and the two prompts to its reply, and
-- `strings.TrimSpace` is an argument. An index beyond the word, where Go panics, gives 0.
pub mod Secrets
use Prim.Native.Char.{code}
use Prim.Native.String.{String}
use nytrpg.Prelude.{
  Bool, List, Option, [], false, get_or, if◌then◌else◌, ltb, none, not, some, suc, true, zero, ℕ,
  ◌%◌, ◌&&◌, ◌++◌, ◌+◌, ◌/◌, ◌==◌, ◌||◌, ◌∷◌,
}
use nytrpg.Game.Duel.Cleric.{is_minor}
use nytrpg.Game.Message.{PrayerKind}
use nytrpg.Net.Session.{call}
use nytrpg.Text.{Text, byte_len, to_upper}

-- The code points of a literal.
unfoldable pub text_of : String → Text
text_of String.[] = []
text_of (String.◌∷◌ c s) = code c ∷ text_of s

-- `Prayer`
pub record PrayerText : Type 0 where
  pub kind : PrayerKind
  pub word : Text
  pub at : ℕ

-- `God`
pub record God : Type 0 where
  pub name : Text
  pub title : Text
  pub color : Text
  pub persona : Text

-- `Answer`
pub record GodAnswer : Type 0 where
  pub god : God
  pub text : Text

vaelith : God
vaelith = record {
  name = text_of "Vaelith";
  title = text_of "Keeper of Riddles";
  color = text_of "#9d8cf2";
  persona =
      text_of
        "You are ancient and patient. You speak in archaic, formal verse, like an oracle carved in stone.";
}

brakka : God
brakka = record {
  name = text_of "Brakka";
  title = text_of "the Thunder Jester";
  color = text_of "#f2a93b";
  persona =
      text_of
        "You are loud, boastful and love a terrible pun. You speak in booming bursts and laugh at your own jokes, but your hint is always real.";
}

oma_sel : God
oma_sel = record {
  name = text_of "Oma Sel";
  title = text_of "Mother of Tides";
  color = text_of "#5fb4d9";
  persona =
      text_of
        "You are gentle and warm, and everything reminds you of the sea. You speak softly, in flowing images of water, shells and moonlight.";
}

nix : God
nix = record {
  name = text_of "Nix";
  title = text_of "the Whispering Void";
  color = text_of "#a3a8b3";
  persona =
      text_of
        "You are cold and terse. Few words, all lowercase, unsettling, as if whispered from the dark between the stars.";
}

sol_aureus : God
sol_aureus = record {
  name = text_of "Sol Aureus";
  title = text_of "the Radiant";
  color = text_of "#e8c872";
  persona =
      text_of
        "You are grandiose and vain. You speak of yourself in the third person and of light, gold and glory.";
}

-- `Gods`
unfoldable pub gods : List God
unfolding vaelith brakka oma_sel nix sol_aureus
gods = vaelith ∷ brakka ∷ oma_sel ∷ nix ∷ sol_aureus ∷ []

-- %d
digits : ℕ → ℕ → Text
digits zero n = []
digits (suc fuel) n =
    let higher = digits fuel (n / 10) in
    if ltb n 10 then (b'0' + n) ∷ [] else higher ++ (b'0' + n % 10) ∷ []

unfoldable pub decimal : ℕ → Text
unfolding digits
decimal n = digits (suc n) n

-- `systemPrompt`
unfoldable pub system_prompt : God → ℕ → Text
unfolding text_of decimal
system_prompt g word_length =
    text_of "You are "
    ++ g.name
    ++ text_of ", "
    ++ g.title
    ++ text_of
        ", a god in a fantasy word game. A mortal cleric, in the middle of a duel, prays to you for help guessing their secret "
    ++ decimal word_length
    ++ text_of "-letter word.\n\n"
    ++ g.persona
    ++ text_of
        "\n\nHow you answer:\n- Reply only with your words to the mortal: no preamble, quotation marks, stage directions or formatting.\n- At most 60 words.\n- Answer with a vague, mysterious riddle, but make it accurate, so a clever mortal can work it out.\n- Never state the answer outright."

-- `ordinal`
unfoldable pub ordinal : ℕ → Text
unfolding text_of decimal
ordinal n =
    if n == 1
    then text_of "1st"
    else if n == 2
    then text_of "2nd"
    else if n == 3
    then text_of "3rd"
    else decimal n ++ text_of "th"

abbrev minor_prompt : ℕ → ℕ → Text
minor_prompt letter at =
    text_of "The mortal prays for a hint about one letter of their word. The letter is "
    ++ letter ∷ text_of ", and it is the "
    ++ ordinal (at + 1)
    ++ text_of
        " letter of the word.\n\nGive a riddle that hints at both the letter and its position. Don't write the letter on its own or spell it out."

abbrev major_prompt : Text → Text
major_prompt word =
    text_of "The mortal prays for a hint about their whole word. The word is "
    ++ word
    ++ text_of ".\n\nGive a cryptic riddle about the word. Never write the word, or any form of it."

-- `userPrompt`
unfoldable pub user_prompt : PrayerText → Text
unfolding text_of ordinal
user_prompt p =
    if is_minor p.kind then minor_prompt (get_or p.word p.at 0) p.at else major_prompt p.word

abbrev pub is_prefix : Text → Text → Bool
is_prefix [] s = true
is_prefix (c ∷ p) [] = false
is_prefix (c ∷ p) (d ∷ s) = c == d && is_prefix p s

-- `strings.Contains`
unfoldable pub contains : Text → Text → Bool
contains [] word = is_prefix word []
contains (c ∷ s) word = is_prefix word (c ∷ s) || contains s word

-- `leaks`
unfoldable pub leaks : PrayerText → Text → Bool
unfolding contains to_upper
leaks p text = not (is_minor p.kind) && contains (to_upper text) p.word

-- A block of a reply: text, or something else.
pub data ReplyBlock : Type 0 where
  text_block : Text → ReplyBlock
  other_block : ReplyBlock

-- What the service replies: an error, or a response with its blocks that may be a refusal.
pub data ApiReply : Type 0 where
  api_error : ApiReply
  api_response : Bool → List ReplyBlock → ApiReply

abbrev pub text_blocks : List ReplyBlock → Text
text_blocks [] = []
text_blocks (text_block t ∷ bs) = t ++ text_blocks bs
text_blocks (other_block ∷ bs) = text_blocks bs

abbrev pub not_empty : Text → Option Text
not_empty [] = none
not_empty (c ∷ s) = some (c ∷ s)

-- `ask`, from the reply on; `none` is ErrUnanswered.
abbrev pub riddle_of : (Text → Text) → ApiReply → Option Text
riddle_of trim api_error = none
riddle_of trim (api_response true blocks) = none
riddle_of trim (api_response false blocks) = not_empty (trim (text_blocks blocks))

-- What a prayer came to: the answer, if there is one, and how often the service was called.
pub record PrayerResult : Type 0 where
  pub answer : Option GodAnswer
  pub calls : ℕ

module _ (trim : Text → Text) (api : ℕ → Text → Text → ApiReply) where
  abbrev pub ask_god : ℕ → God → PrayerText → Option Text
  ask_god call g p = riddle_of trim (api call (system_prompt g (byte_len p.word)) (user_prompt p))

  abbrev pub heed : God → PrayerText → ℕ → PrayerResult → Option Text → PrayerResult
  heed g p call again none = record { answer = none; calls = call + 1 }
  heed g p call again (some text) =
      if leaks p text
      then again
      else record { answer = some (record { god = g; text = text }); calls = call + 1 }

  -- The loop of `Pray`, with the tries that are left and the calls made.
  unfoldable pub try_prayer : ℕ → ℕ → God → PrayerText → PrayerResult
  unfolding system_prompt user_prompt byte_len leaks
  try_prayer zero call g p = record { answer = none; calls = call }
  try_prayer (suc n) call g p = heed g p call (try_prayer n (call + 1) g p) (ask_god call g p)

  -- `Claude.Pray`, with the draw below the number of gods.
  unfoldable pub pray_god : ℕ → PrayerText → PrayerResult
  unfolding try_prayer gods
  pray_god n p = try_prayer 2 0 (get_or gods n vaelith) p
