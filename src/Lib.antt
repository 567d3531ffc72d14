-- ===== src/Lib.antt =====
-- The rules of nytrpg, as the server decides them: accounts, connections, the world, duels, ratings and
-- the daily Wordle.
--
-- Two players race to solve a word. The world goroutine handles one request, tick or answer at a
-- time, each to its end: a handler is here a function from the state of a duel to the next one.
--
--   Text          the Go strings that the game uses
--   Wordle.Score  internal/puzzles/wordle/game.go: Score, ScoreAny, colorsFor, allGreen;
--                 Counts and Laws say what the colors mean
--   Wordle.Puzzle internal/puzzles/wordle/words.go and duel.go: the word lists, the puzzle of duels
--   Wordle.Session  internal/puzzles/wordle/game.go: the daily game (sessions.start and guess)
--   Wordle.Service  internal/puzzles/wordle/service.go and internal/store/wordle.go: start and guess
--                 with the saved results
--   Classes       internal/classes/classes.go: the classes and what their abilities cost
--   Game.Message  internal/protocol/protocol.go: what the server tells the players of a duel
--   Game.Side     internal/game/duel.go and abilities.go: duelSide and its methods; Learn is learn
--                 and relearn, State is state
--   Game.Duel     internal/game/duel.go: duel, and send, syncDuel, castEvent and hostile
--     Eyes        internal/game/abilities.go: aimEye, watching, reaimEyes, sendEyes
--     Rogue       internal/game/rogue.go
--     Cleric      internal/game/cleric.go
--     Cast        internal/game/abilities.go: CastAbility, canCast, cast, ReshapeReality
--     Guess       internal/game/duel.go: DuelGuess, DuelTyping; internal/game/abilities.go:
--                 afterGuess, IllusionGuess
--     Tick        internal/game/abilities.go: tickDuels
--     Run         internal/game/duel.go: startDuel, and sequences of handlers
--     Invariant   what is true of a duel between two handlers, and that each handler keeps it
--     Outcome, Shield, Offers, Bounds  how a guess ends a duel; shields and prayers; the words on offer;
--                 what eyes read
--   Game.Lobby    internal/game/duel.go: challenges (Challenge, RespondDuel, cancelChallenges,
--                 expireChallenges) and who is in a duel (ForfeitDuel, endDuel, leaveDuels)
--   Game.World    the world that players walk in
--     Grid        internal/game/grid.go
--     State       internal/game/world.go: newEntity, removeEntity, setRating, entityMoved; inBounds of
--                 worldmap.go
--     Move        internal/game/movement.go
--     Players     internal/game/world.go: Join, Leave; presence.go, chat.go
--     Profile     internal/game/profile.go
--     Interact    internal/game/worldmap.go: findInteractable, distToInteractable, InRange
--     Replicate   internal/game/replication.go and step of world.go; Picture is applyWorldUpdate of
--                 client/src/game.ts
--     Invariant, Mirror, Watch, Events, Budget, Travel  what holds of the grid, of what clients show, and of
--                 the movement allowance, under all commands
--   Ranked.Elo    internal/ranked/elo.go: ratings, Settle and Stakes
--   Ranked.Records  internal/ranked/service.go and internal/store/ranked.go: saving and loading
--   Game.Duel.Finish  internal/game/duel.go: endDuel, settleRanked
--   Net.Session   internal/netconn/session.go: Send, the read loop, the router
--   Ranked.Ladder internal/ranked/ladder.go: the ranks
--   Accounts.Characters  internal/characters/characters.go and internal/store/characters.go: the handlers
--                 for an account's characters, and their table
--   Accounts.Players  internal/store/players.go: the table of players
--   Accounts.Auth  internal/auth/auth.go: sign-up, login and tokens
--   Wordle.Leaderboard  internal/puzzles/wordle/service.go (HandleLeaderboard) and
--                 internal/store/wordle.go (WordleLeaderboard)
--   Oracle        internal/oracle/oracle.go and claude.go: what the gods are told and may answer
--   Server        internal/server/server.go: handleWS, takeOver, join and leave, with Serve of
--                 internal/netconn/session.go and internal/game/presence.go
--     Slots, Steps, Stages, Single, Frames, Waiting, Handover  who holds a player's slot, what each event
--                 does to it, and how the next connection gets it
--     Owner, Each, Origin  who is behind a connection
--   Store         internal/store/store.go: migrate
--   Tests         examples at concrete inputs
--
-- Times are natural numbers of nanoseconds, and 0 is Go's zero time; a handler reads the clock once.
-- Random numbers come from an arbitrary stream, reduced to the range asked for; rand.Perm is taken as
-- documented, a random order made of such draws. Strings are lists of code points; ToUpper is written
-- out for the code points that it takes to ASCII letters. A `*duelSide` is a seat of the duel, so that
-- nothing is shared but through the duel. Energy and rows are natural numbers: the checks before each
-- subtraction make it exact. `best` is an exact fraction in place of a float64. A key of a map that is
-- not there, and an index out of bounds, which would panic in Go, give a default; the invariant keeps
-- eyes, destroyed letters and rows in bounds. Messages are appended to a list with the client that
-- gets them. A prayer waits in a list until its answer is handled; its slots are counted in each duel,
-- where the source counts those of the whole server. Colors are those of letters, where the source
-- compares bytes: the same for ASCII words.
--
-- Loops with a bound in the source (100 tries for a new word) have that bound. The energy loop of a
-- tick has a bound computed from the clock.
--
-- In the world, a player's entity is a number into one store, which the grid, the player and the lists
-- of changed entities share. Distances are exact and count in 1/(2*10^9) px, so that the allowance per
-- nanosecond is a whole number; float64 rounding is left out there. float64 of the ratings is a record
-- of operations, `Floats`, of which nothing is assumed but where a theorem says so.
--
-- The server's connections are known by number. Each event of a connection is one step, and steps of
-- different connections come in any order; only the Join of a connection is run before its Leave. A
-- connection that waits may try again at any time and give up at any time; its claim and its look
-- through the open sessions are one step, and so is a call of Send. bcrypt, jwt, the service
-- behind the gods and `strings.TrimSpace` are arguments; what a theorem needs of bcrypt and jwt is the
-- record IsAuthLibrary.
--
-- A word list's scanner, the word of a date (a hash and a seeded generator), the date of a time and
-- whether a date was played are arguments of the definitions that use them.
--
-- Not modelled: names, descriptions and pictures of abilities, the texts of divine banners, the hook
-- by which tests choose a fate, the JSON of the world map, how chat is trimmed, deadlines of
-- connections and when a ping is due, the decoding of messages and their limits, configuration and
-- shutdown, code generators and load bots.
pub mod Prelude
pub mod Text
pub mod Wordle
pub mod Accounts
pub mod Classes
pub mod Game
pub mod Net
pub mod Oracle
pub mod Ranked
pub mod Server
pub mod Store
pub mod Tests
