-- ===== src/Contracts/Wire/Names.antt =====
-- Each `Literal` of app/contracts/messages.py reads back from its name.
use lingo_async.Prelude.{◌≡◌, refl, some}
use lingo_async.Contracts.Messages.{
  Source, lesson, review, manual, quest, streak, Modality, recognition, production, Rating, again,
  hard, good, easy, Tier, free, supporter, patron, lifetime, Change, new, upgraded, downgraded,
  churned,
}
use lingo_async.Contracts.Literals.{
  source_named, modality_named, rating_named, tier_named, change_named,
}
use lingo_async.Contracts.Wire.{source_name, modality_name, rating_name, tier_name, change_name}

pub source_named-name : (x : Source) → source_named (source_name x) ≡ some x
source_named-name lesson = refl
source_named-name review = refl
source_named-name manual = refl
source_named-name quest = refl
source_named-name streak = refl

pub modality_named-name : (x : Modality) → modality_named (modality_name x) ≡ some x
modality_named-name recognition = refl
modality_named-name production = refl

pub rating_named-name : (x : Rating) → rating_named (rating_name x) ≡ some x
rating_named-name again = refl
rating_named-name hard = refl
rating_named-name good = refl
rating_named-name easy = refl

pub tier_named-name : (x : Tier) → tier_named (tier_name x) ≡ some x
tier_named-name free = refl
tier_named-name supporter = refl
tier_named-name patron = refl
tier_named-name lifetime = refl

pub change_named-name : (x : Change) → change_named (change_name x) ≡ some x
change_named-name new = refl
change_named-name upgraded = refl
change_named-name downgraded = refl
change_named-name churned = refl
