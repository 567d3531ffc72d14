-- ===== src/Tests/Gods.antt =====
-- Prayers that a god answers (internal/oracle).
use nytrpg.Prelude.{[], false, get_or, if◌then◌else◌, refl, some, ℕ, ◌==◌, ◌∷◌, ◌≡◌, ◌≢◌}
use nytrpg.Game.Message.{prayer_major, prayer_minor}
use nytrpg.Net.Session.{call}
use nytrpg.Oracle.{
  ApiReply, God, GodAnswer, PrayerText, api_response, contains, gods, leaks, pray_god, text_block,
  try_prayer,
}
use nytrpg.Oracle.Secrets.{pray_god-hides, pray_god-tells}
use nytrpg.Tests.{crane, slate}
use nytrpg.Text.{Text, byte_len, to_upper}

-- The first reply gives the word away.
abbrev blurting : ℕ → Text → Text → ApiReply
blurting call system user = api_response false (
    text_block (if call == 0 then b'c' ∷ b'r' ∷ b'a' ∷ b'n' ∷ b'e' ∷ [] else b'o' ∷ b'x' ∷ []) ∷ [])

abbrev about_crane : PrayerText
about_crane = record { kind = prayer_major; word = crane; at = 0 }

abbrev plain_text : Text → Text
plain_text s = s

abbrev no_god : God
no_god = record { name = []; title = []; color = []; persona = [] }

abbrev riddle : GodAnswer
riddle = record { god = get_or gods 0 no_god; text = b'o' ∷ b'x' ∷ [] }

second_reply : (pray_god plain_text blurting 0 about_crane).calls ≡ 2
unfolding pray_god try_prayer leaks contains to_upper
second_reply = refl

was_answered : (pray_god plain_text blurting 0 about_crane).answer ≡ some riddle
unfolding pray_god try_prayer leaks contains to_upper
was_answered = refl

pray_god-hides_example : to_upper (b'x' ∷ []) ≢ crane
pray_god-hides_example =
    pray_god-hides plain_text blurting 0 about_crane riddle (b'o' ∷ []) (b'x' ∷ []) [] was_answered
      refl refl

-- The third letter of both words is A.
abbrev third_of : Text → PrayerText
third_of word = record { kind = prayer_minor; word = word; at = 2 }

same_length : byte_len crane ≡ byte_len slate
unfolding byte_len
same_length = refl

pray_god-tells_example :
    pray_god plain_text blurting 0 (third_of crane)
    ≡ pray_god plain_text blurting 0 (third_of slate)
pray_god-tells_example =
    pray_god-tells plain_text blurting 0 (third_of crane) (third_of slate) refl refl refl refl
      same_length
