-- ===== src/Dictionary/Tests.antt =====
-- A dictionary of parameters.
use area.Common.{ℕ, ◌≡◌, refl, none, some, List, [], ◌∷◌, codes, lower, eq_text}
use area.Collections.{same_key}
use area.Dictionary.{CaseInsensitiveDict, get_item, set_item, del_item, update, copy}
use area.Dictionary.Refines.{
  Method, set_at, delete_at, update_with, copied, run_methods, replay, IsRefined,
  run_methods-refines,
}

abbrev parameters : CaseInsensitiveDict ℕ
parameters =
    record { key = codes "Port"; value = 5432 } ∷ record { key = codes "ttl"; value = 30 } ∷ []

-- A key is set in another spelling.
respelled : get_item (set_item parameters (codes "TTL") 20) (codes "ttl") ≡ some 20
unfolding get_item set_item same_key eq_text lower
respelled = refl

abbrev calls : List (Method ℕ)
calls =
    set_at (codes "Port") 5432
    ∷ update_with parameters
    ∷ set_at (codes "TTL") 20
    ∷ copied
    ∷ delete_at (codes "PORT")
    ∷ []

-- Both spellings of a key are one key.
called : run_methods calls [] ≡ some (record { key = codes "TTL"; value = 20 } ∷ [])
unfolding run_methods get_item set_item del_item update copy same_key eq_text lower
called = refl

-- A key that is missing raises a KeyError.
missing : run_methods (delete_at (codes "ttl") ∷ calls) [] ≡ none
unfolding run_methods del_item
missing = refl

run_methods-refines_example : IsRefined (run_methods calls []) (replay calls (λ _. none))
run_methods-refines_example = run_methods-refines calls
