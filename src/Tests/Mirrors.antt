-- ===== src/Tests/Mirrors.antt =====
-- A night's write-back: one head was retrained, and an old one was pruned.
use parser_os_worker.Base.{
  List, String, [], if◌then◌else◌, none, refl, some, some-injective, some-ne-none, str_eq, sym, ℕ,
  ◌∙◌, ◌∷◌, ◌≡◌, ◌≢◌,
}
use parser_os_worker.Service.{answer}
use parser_os_worker.WriteBack.{
  Counts, Folder, LocalFile, folder, no_subfolders, persisted, subfolder, walk, write_back,
}
use parser_os_worker.WriteBack.Laws.{mirror, prunable}
use parser_os_worker.WriteBack.Memory.{memory, memory-IsLawful, memory-IsReliable, stored}
use parser_os_worker.WriteBack.Mirror.Whole.{write_back-mirror}
use parser_os_worker.WriteBack.Safety.{write_back-keeps}

abbrev head : LocalFile
head = record { name = "h_1.json"; size = answer 1; content = answer (1 ∷ []) }

abbrev night : Folder
night = folder [] (subfolder "_head_registry" (folder (head ∷ []) no_subfolders) no_subfolders)

abbrev before : List (String × List ℕ)
before = ("_head_registry/h_0.json", 7 ∷ []) ∷ ("_training_deepseek.db", 2 ∷ []) ∷ []

abbrev Holds : String → List ℕ → Type 0
Holds n body = body ≡ (if str_eq n "_head_registry/h_0.json" then 7 ∷ [] else 1 ∷ [])

write_back-keeps_example :
    stored "_training_deepseek.db" (write_back memory "account" night before).1 ≢ none
unfolding prunable
write_back-keeps_example =
    write_back-keeps memory "account" night before "_training_deepseek.db" memory-IsLawful refl
      (some-ne-none (2 ∷ []))

write_back-mirror_example :
    ((n : Counts) × ((write_back memory "account" night before).0 ≡ persisted n))
    × (stored "_head_registry/h_0.json" (write_back memory "account" night before).1
        ≡ mirror night "_head_registry/h_0.json" (some (7 ∷ [])))
unfolding walk
write_back-mirror_example =
    write_back-mirror memory "account" night before "_head_registry/h_0.json" Holds memory-IsLawful
      memory-IsReliable (λ n a b p q e. p ∙ sym q) refl
      (((((1 ∷ []), refl, refl, refl), tt), (refl, tt)), ((tt, tt), ((tt, tt), ((tt, tt), tt)))) tt
      tt (λ body e. sym (some-injective (7 ∷ []) body e))

gone : mirror night "_head_registry/h_0.json" (some (7 ∷ [])) ≡ none
unfolding mirror walk
gone = refl
