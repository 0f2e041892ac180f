-- ===== src/Store/Locks/Tests.antt =====
-- The locker at concrete inputs.
use tg_files.Common.{Text, codes, ◌≡◌, refl, [], ◌∷◌, none, ◌≤◌, true, false}
use tg_files.Store.Locks.{
  KeyedLocker, outside, holding, composite, enter, set_locked, leave, new_keyed_locker, Steps,
  enters, locks, unlocks, leaves, rests, goes,
}
use tg_files.Store.Locks.Counting.{sum, holds_name}
use tg_files.Store.Locks.Exclusion.{Steps-holds_name, Steps-AreOutside}

abbrev photos : Text
photos = codes "photos"

abbrev sea : Text
sea = composite photos (codes "sea")

-- One goroutine locks and unlocks, and a second one stays outside.
abbrev entered : KeyedLocker
entered = (enter sea new_keyed_locker).1

held_once :
    Steps new_keyed_locker
      (outside ∷ outside ∷ [])
      (set_locked 0 true entered)
      (holding sea 0 ∷ outside ∷ [])
unfolding enter new_keyed_locker
held_once =
    goes (enters new_keyed_locker [] (outside ∷ []) sea)
      (goes (locks entered [] (outside ∷ []) sea 0 refl) (rests _ _))

abbrev released : KeyedLocker
released = leave sea 0 (set_locked 0 false (set_locked 0 true entered))

whole_cycle : Steps new_keyed_locker (outside ∷ []) released (outside ∷ [])
unfolding enter new_keyed_locker
whole_cycle = goes (enters new_keyed_locker [] [] sea) (
    goes (locks entered [] [] sea 0 refl) (
      goes (unlocks (set_locked 0 true entered) [] [] sea 0)
        (goes (leaves (set_locked 0 false (set_locked 0 true entered)) [] [] sea 0) (rests _ _))))

Steps-holds_name_example :
    sum (holds_name (composite photos (codes "sea"))) (holding sea 0 ∷ outside ∷ []) ≤ 1
Steps-holds_name_example =
    Steps-holds_name (set_locked 0 true entered) (outside ∷ outside ∷ [])
      (holding sea 0 ∷ outside ∷ []) photos (codes "sea") (refl, (refl, tt)) held_once

Steps-AreOutside_example : released.locks sea ≡ none
Steps-AreOutside_example =
    Steps-AreOutside released (outside ∷ []) (outside ∷ []) sea (refl, tt) whole_cycle (refl, tt)
