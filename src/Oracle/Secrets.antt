-- ===== src/Oracle/Secrets.antt =====
-- What a god's answer gives away, and what the gods are told (internal/oracle: leaks, userPrompt, Pray).
use nytrpg.Prelude.{
  Bool, Bool-cases, Option, [], ap, ap₂, arith, false, get_or, if◌then◌else◌, inl, inr, none, refl,
  some, suc, sym, true, zero, ℕ, ◌++◌, ◌+◌, ◌∙◌, ◌∷◌, ◌≡◌, ◌≢◌,
}
use nytrpg.Game.Duel.Cleric.{is_minor}
use nytrpg.Game.World.Invariant.{stands}
use nytrpg.Net.Session.{call}
use nytrpg.Oracle.{
  ApiReply, God, GodAnswer, PrayerResult, PrayerText, ask_god, contains, gods, heed, is_prefix,
  leaks, pray_god, riddle_of, system_prompt, try_prayer, user_prompt, vaelith,
}
use nytrpg.Text.{Text, byte_len, to_upper, upper}

is_prefix-append : (word s : Text) → is_prefix word (word ++ s) ≡ true
is_prefix-append [] s = refl
is_prefix-append (c ∷ word) s = ground (arith, is_prefix-append word s)

contains_prefix : (s word : Text) → is_prefix word s ≡ true → contains s word ≡ true
unfolding contains
contains_prefix [] word h = h
contains_prefix (c ∷ s) word h = rw h refl

contains-append :
    (before word after_it : Text) → contains (before ++ (word ++ after_it)) word ≡ true
unfolding contains
contains-append [] word after_it =
    contains_prefix (word ++ after_it) word (is_prefix-append word after_it)
contains-append (c ∷ before) word after_it = ground (arith, contains-append before word after_it)

to_upper-append : (s t : Text) → to_upper (s ++ t) ≡ to_upper s ++ to_upper t
unfolding to_upper
to_upper-append [] t = refl
to_upper-append (c ∷ s) t = ap (λ (r : Text). upper c ∷ r) (to_upper-append s t)

-- A text in which the word stands in capitals or not is a leak.
leaks_word :
    (p : PrayerText) (before spelled after_it : Text)
    → is_minor p.kind ≡ false
    → to_upper spelled ≡ p.word
    → leaks p (before ++ (spelled ++ after_it)) ≡ true
unfolding leaks
leaks_word p before spelled after_it major same =
    rw
      (
        major,
        to_upper-append before (spelled ++ after_it),
        to_upper-append spelled after_it,
        same,
        contains-append (to_upper before) p.word (to_upper after_it),
      )
      refl

minor_leaks : (p : PrayerText) (text : Text) → is_minor p.kind ≡ true → leaks p text ≡ false
unfolding leaks
minor_leaks p text h = rw h refl

minor_prompts :
    (p q : PrayerText)
    → is_minor p.kind ≡ true
    → is_minor q.kind ≡ true
    → p.at ≡ q.at
    → get_or p.word p.at 0 ≡ get_or q.word q.at 0
    → user_prompt p ≡ user_prompt q
unfolding user_prompt
minor_prompts p q minor_p minor_q same_place same_letter =
    rw (minor_p, minor_q, same_letter, same_place) refl

abbrev text_in : Option GodAnswer → Text
text_in none = []
text_in (some ans) = ans.text

leaked_not : {b : Bool} → b ≡ false → b ≡ true → ⊥
leaked_not h k = cc

module _ (trim : Text → Text) (api : ℕ → Text → Text → ApiReply) where
  heed-leaks :
      (call : ℕ) (g : God) (p : PrayerText) (again : PrayerResult) (o : Option Text)
      (ans : GodAnswer)
      → (again.answer ≡ some ans → leaks p ans.text ≡ false)
      → (heed trim api g p call again o).answer ≡ some ans
      → leaks p ans.text ≡ false
  heed-leaks call g p again none ans ih h = cc
  heed-leaks call g p again (some text) ans ih h = elim (Bool-cases (leaks p text)) [
    | inl leaked ↦ ih (rw (leaked, if◌then◌else◌) at h)
    | inr safe ↦
        let e : some (record { god = g; text = text }) ≡ some ans = rw (safe, if◌then◌else◌) at h in
        sym (ap (λ (o : Option GodAnswer). leaks p (text_in o)) e) ∙ safe
  ]

  try_prayer-leaks :
      (n call : ℕ) (g : God) (p : PrayerText) (ans : GodAnswer)
      → (try_prayer trim api n call g p).answer ≡ some ans
      → leaks p ans.text ≡ false
  unfolding try_prayer
  try_prayer-leaks zero call g p ans h = cc
  try_prayer-leaks (suc n) call g p ans h =
      heed-leaks call g p (try_prayer trim api n (call + 1) g p) (ask_god trim api call g p) ans
        (try_prayer-leaks n (call + 1) g p ans) h

  -- Whatever the service replies: in a god's answer to a major prayer, the word stands nowhere,
  -- in capitals or not.
  pub pray_god-hides :
      (n : ℕ) (p : PrayerText) (ans : GodAnswer) (before spelled after_it : Text)
      → (pray_god trim api n p).answer ≡ some ans
      → is_minor p.kind ≡ false
      → ans.text ≡ before ++ (spelled ++ after_it)
      → to_upper spelled ≢ p.word
  unfolding pray_god
  pray_god-hides n p ans before spelled after_it answered_ major stands same =
      leaked_not
        (sym (ap (leaks p) stands) ∙ try_prayer-leaks 2 0 (get_or gods n vaelith) p ans answered_)
        (leaks_word p before spelled after_it major same)

  heed_same :
      (call : ℕ) (g : God) (p q : PrayerText) (again again' : PrayerResult) (o : Option Text)
      → again ≡ again'
      → ((text : Text) → leaks p text ≡ leaks q text)
      → heed trim api g p call again o ≡ heed trim api g q call again' o
  heed_same call g p q again again' none same leak = refl
  heed_same call g p q again again' (some text) same leak = rw (same, leak text) refl

  try_prayer_same :
      (n call : ℕ) (g : God) (p q : PrayerText)
      → user_prompt p ≡ user_prompt q
      → byte_len p.word ≡ byte_len q.word
      → ((text : Text) → leaks p text ≡ leaks q text)
      → try_prayer trim api n call g p ≡ try_prayer trim api n call g q
  unfolding try_prayer
  try_prayer_same zero call g p q prompt len leak = refl
  try_prayer_same (suc n) call g p q prompt len leak =
      let asked : ask_god trim api call g p ≡ ask_god trim api call g q =
        ap₂ (λ (l : ℕ) (t : Text). riddle_of trim (api call (system_prompt g l) t)) len prompt in
      ap (heed trim api g p call (try_prayer trim api n (call + 1) g p)) asked
      ∙ heed_same call g p q _ _ (ask_god trim api call g q)
          (try_prayer_same n (call + 1) g p q prompt len leak) leak

  -- A minor prayer gives no more of the word away than its length, and the letter at its place: for
  -- two words that agree in these, whatever the service does with what it is told, the answer and
  -- the number of calls are the same.
  pub pray_god-tells :
      (n : ℕ) (p q : PrayerText)
      → is_minor p.kind ≡ true
      → is_minor q.kind ≡ true
      → p.at ≡ q.at
      → get_or p.word p.at 0 ≡ get_or q.word q.at 0
      → byte_len p.word ≡ byte_len q.word
      → pray_god trim api n p ≡ pray_god trim api n q
  unfolding pray_god
  pray_god-tells n p q minor_p minor_q same_place same_letter same_length =
      try_prayer_same 2 0 (get_or gods n vaelith) p q
        (minor_prompts p q minor_p minor_q same_place same_letter) same_length
        (λ text. minor_leaks p text minor_p ∙ sym (minor_leaks q text minor_q))
