-- ===== src/Container/Tests.antt =====
-- A list of two elements, built and taken apart.
use wasigoc.Common.{ℕ, ◌≡◌, refl, [], ◌∷◌, none}
use wasigoc.Common.{some}
use wasigoc.Container.Linked.Insert.{insert_before-IsList}
use wasigoc.Container.Linked.{Store, insert_before, push_back, remove}
use wasigoc.Container.Linked.Laws.{IsList, remove-IsList}
use wasigoc.Container.Linked.Push.{push_back-IsList}

-- The list is at address 0.
abbrev empty : Store ℕ
empty = record {
  cells = λ p. record { next = none; prev = none; list = none; value = 0 };
  head = none;
  tail = none;
  n = 0;
}

empty-IsList : IsList 0 empty []
empty-IsList = record { starts = refl; ends = refl; counted = refl; chain = tt; distinct = tt }

abbrev one : Store ℕ
one = push_back 0 1 10 empty

one-IsList : IsList 0 one ((1, 10) ∷ [])
one-IsList = push_back-IsList 0 1 10 empty [] tt empty-IsList

abbrev two : Store ℕ
two = push_back 0 2 20 one

two-IsList : IsList 0 two ((1, 10) ∷ (2, 20) ∷ [])
two-IsList = push_back-IsList 0 2 20 one ((1, 10) ∷ []) (refl, tt) one-IsList

remove-IsList_example : ((remove 0 1 two).0 ≡ 10) × IsList 0 (remove 0 1 two).1 ((2, 20) ∷ [])
remove-IsList_example = remove-IsList 0 1 10 two [] ((2, 20) ∷ []) two-IsList

insert_before-IsList_example :
    (s' : Store ℕ) × (insert_before 0 3 30 (some 2) two ≡ some s')
    × IsList 0 s' ((1, 10) ∷ (3, 30) ∷ (2, 20) ∷ [])
insert_before-IsList_example =
    insert_before-IsList 0 3 2 30 20 two ((1, 10) ∷ []) [] (refl, (refl, tt)) two-IsList
