-- ===== src/Classes.antt =====
-- The registry of classes and abilities (internal/classes/classes.go). Names, descriptions, icons
-- and sprites are left out: nothing decides by them.
use mathlib.Core.Logic.{ite}
use nytrpg.Prelude.{
  Bool, List, Option, [], false, get_elem?, if◌then◌else◌, leb, negsuc, none, pos, some, ℕ, ℤ, ◌∷◌,
}

-- The class of a character; `other` is any id that is not registered.
pub data ClassId : Type 0 where
  knight wizard rogue cleric other : ClassId

pub data AbilityId : Type 0 where
  slash shields_up determination pommel_strike cripple : AbilityId
  scry seeing_eye magic_missile illusion reshape_reality : AbilityId
  pickpocket cheat feint under_their_nose confuse : AbilityId
  minor_prayer mend purify major_prayer divine_intervention : AbilityId
  aggressive wise sneaky divine_will : AbilityId

pub AbilityId-discrete : Discrete AbilityId
AbilityId-discrete = hlevel

-- AbilityTarget of internal/protocol/protocol.go.
pub data AbilityTarget : Type 0 where
  target_none target_opponent_tile target_letter : AbilityTarget
  target_word target_own_row target_colors : AbilityTarget

pub record Ability : Type 0 where
  pub id : AbilityId
  pub cost : ℕ
  pub once : Bool
  pub target : AbilityTarget

abbrev pub ability_slots : ℕ
ability_slots = 5

abbrev ability : AbilityId → ℕ → AbilityTarget → Ability
ability i c t = record { id = i; cost = c; once = false; target = t }

-- The `Abilities` of each class of `all`, in slot order.
pub abilities_of : ClassId → List Ability
abilities_of knight =
    ability slash 2 target_opponent_tile
    ∷ ability shields_up 2 target_none
    ∷ ability determination 3 target_none
    ∷ ability pommel_strike 3 target_none
    ∷ ability cripple 8 target_none
    ∷ []
abilities_of wizard =
    ability scry 2 target_letter
    ∷ ability seeing_eye 5 target_none
    ∷ ability magic_missile 6 target_none
    ∷ ability illusion 8 target_none
    ∷ ability reshape_reality 12 target_word
    ∷ []
abilities_of rogue =
    ability pickpocket 2 target_opponent_tile
    ∷ ability cheat 5 target_none
    ∷ ability feint 6 target_colors
    ∷ ability under_their_nose 7 target_colors
    ∷ ability confuse 10 target_none
    ∷ []
abilities_of cleric =
    ability minor_prayer 2 target_none
    ∷ ability mend 3 target_own_row
    ∷ ability purify 4 target_none
    ∷ ability major_prayer 6 target_none
    ∷ ability divine_intervention 10 target_none
    ∷ []
abilities_of other = []

-- `AbilityAt`: the ability in a slot, `none` for a bad slot or an unknown class.
unfoldable pub ability_at : ClassId → ℤ → Option Ability
unfolding abilities_of
ability_at c (negsuc n) = none
ability_at c (pos slot) = if leb ability_slots slot then none else get_elem? (abilities_of c) slot

-- `PassiveOf`
unfoldable pub passive_of : ClassId → Option AbilityId
passive_of knight = some aggressive
passive_of wizard = some wise
passive_of rogue = some sneaky
passive_of cleric = some divine_will
passive_of other = none

find_cost : AbilityId → List Ability → Option ℕ
find_cost i [] = none
find_cost i (a ∷ abilities) = ite (AbilityId-discrete a.id i) (some a.cost) (find_cost i abilities)

-- `abilityCost` of internal/game/abilities.go: `none` is -1.
unfoldable pub ability_cost : ClassId → AbilityId → Option ℕ
unfolding find_cost abilities_of AbilityId-discrete
ability_cost c i = find_cost i (abilities_of c)
