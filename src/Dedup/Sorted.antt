-- ===== src/Dedup/Sorted.antt =====
-- Sorting keeps what is in the list.
use parser_os_worker.Base.{Bool, List, String, [], any, ap, arith, refl, ◌||◌, ◌∙◌, ◌∷◌, ◌≡◌}
use parser_os_worker.Dedup.{insert_sorted, sorted}

module _ (p : String → Bool) where
  any-insert_sorted : (s : String) (l : List String) → any p (insert_sorted s l) ≡ (p s || any p l)
  unfolding insert_sorted
  any-insert_sorted s [] = refl
  any-insert_sorted s (t ∷ l) = ground (arith, any-insert_sorted s l)

  pub any-sorted : (l : List String) → any p (sorted l) ≡ any p l
  unfolding sorted
  any-sorted [] = refl
  any-sorted (s ∷ l) = any-insert_sorted s (sorted l) ∙ ap (λ b. p s || b) (any-sorted l)
