-- ===== src/Files/Count/Samples.antt =====
-- A directory in two batches.
use dankgo.Prelude.{◌+◌, ◌≤◌, ◌≡◌, false, none, [], ◌∷◌, inr}
use dankgo.Prelude.Text.{codes}
use dankgo.Files.Count.{
  Reading, count_cap, count_children, count_children-expected, expected, all_visible, visible,
}

abbrev reading : Reading
reading = record {
  batches = (codes "a" ∷ codes ".b" ∷ []) ∷ (codes "c" ∷ []) ∷ [];
  last = [];
  failure = none;
}

count_children-expected_example :
    (count_children (codes "/d") false (inr reading)
      ≡ expected false (codes "/d") (all_visible false reading.batches) reading)
    × ((count_children (codes "/d") false (inr reading)).count
        ≤ count_cap + visible false reading.last)
count_children-expected_example = count_children-expected (codes "/d") false reading
