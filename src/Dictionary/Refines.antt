-- ===== src/Dictionary/Refines.antt =====
-- The dictionary under any sequence of calls, against a function on lower-cased keys.
use area.Common.{
  ◌≡◌, refl, sym, ap, ◌∙◌, true, Option, none, some, List, [], ◌∷◌, some_of, Text, lower, eq_text,
  if◌then◌else◌,
}
use area.Collections.{same_key}
use area.Dictionary.{Entry, CaseInsensitiveDict, get_item, set_item, del_item, update, keys, copy}
use area.Dictionary.Distinct.{
  has_value, keys-get_item, set_item-distinct, del_item-has_value, Kept, del_item-Kept,
}
use area.Dictionary.Laws.{distinct, get_item-set_item, copy-eq, Deleted, del_item-Deleted}

-- What is read of a dictionary, for each lower-cased key.
abbrev pub View : Type 0 → Type 0
View V = Text → Option V

-- A call that changes a dictionary; `copied` goes on with the copy.
pub data Method (V : Type 0) : Type 0 where
  set_at : Text → V → Method V
  delete_at : Text → Method V
  update_with : List (Entry V) → Method V
  copied : Method V

module _ {V : Type 0} where
  abbrev continue :
      Option (CaseInsensitiveDict V)
      → (CaseInsensitiveDict V → Option (CaseInsensitiveDict V))
      → Option (CaseInsensitiveDict V)
  continue none f = none
  continue (some d) f = f d

  -- The dictionary after the calls; none if one of them raises a KeyError.
  unfoldable pub run_methods :
      List (Method V) → CaseInsensitiveDict V → Option (CaseInsensitiveDict V)
  run_methods [] d = some d
  run_methods (set_at key value ∷ ms) d = run_methods ms (set_item d key value)
  run_methods (delete_at key ∷ ms) d = continue (del_item d key) (run_methods ms)
  run_methods (update_with es ∷ ms) d = run_methods ms (update d es)
  run_methods (copied ∷ ms) d = run_methods ms (copy d)

  -- The same calls on a function from lower-cased keys.
  abbrev pub replaced_at : View V → Text → Option V → View V
  replaced_at f key value other = if eq_text other key then value else f other

  unfoldable pub replaced_all : View V → List (Entry V) → View V
  replaced_all f [] = f
  replaced_all f (e ∷ es) = replaced_all (replaced_at f (lower e.key) (some e.value)) es

  unfoldable pub replay : List (Method V) → View V → Option (View V)
  replay [] f = some f
  replay (set_at key value ∷ ms) f = replay ms (replaced_at f (lower key) (some value))
  replay (delete_at key ∷ ms) f =
      let rest = replay ms (replaced_at f (lower key) none) in
      if has_value (f (lower key)) then rest else none
  replay (update_with es ∷ ms) f = replay ms (replaced_all f es)
  replay (copied ∷ ms) f = replay ms f

  -- The keys differ up to case, and each of them reads as the view says in every spelling.
  abbrev IsRead : CaseInsensitiveDict V → View V → Type 0
  IsRead d f = (distinct d ≡ true) × ((key : Text) → get_item d key ≡ f (lower key))

  -- Both raise or both return; and the keys that are listed are those with a value.
  abbrev pub IsRefined : Option (CaseInsensitiveDict V) → Option (View V) → Type 0
  IsRefined none none = Unit
  IsRefined none (some f) = ⊥
  IsRefined (some d) none = ⊥
  IsRefined (some d) (some f) =
      (distinct d ≡ true)
      × ((key : Text)
          → (get_item d key ≡ f (lower key))
            × (some_of (eq_text (lower key)) (keys d) ≡ has_value (f (lower key))))

  set_item-IsRead :
      (d : CaseInsensitiveDict V) (f : View V) (key : Text) (value : V)
      → IsRead d f
      → IsRead (set_item d key value) (replaced_at f (lower key) (some value))
  unfolding same_key
  set_item-IsRead d f key value (h, g) = (
    set_item-distinct d key value h,
    λ other.
        get_item-set_item d key value other
        ∙ ap (λ r. if eq_text (lower other) (lower key) then some value else r) (g other),
  )

  update-IsRead :
      (d : CaseInsensitiveDict V) (f : View V) (es : List (Entry V))
      → IsRead d f
      → IsRead (update d es) (replaced_all f es)
  unfolding update replaced_all
  update-IsRead d f [] h = h
  update-IsRead d f (e ∷ es) h =
      update-IsRead (set_item d e.key e.value) (replaced_at f (lower e.key) (some e.value)) es
        (set_item-IsRead d f e.key e.value h)

  delete-IsRead :
      (d d' : CaseInsensitiveDict V) (f : View V) (key : Text)
      → ((other : Text) → get_item d other ≡ f (lower other))
      → distinct d' ≡ true
      → Deleted d key (some d')
      → IsRead d' (replaced_at f (lower key) none)
  unfolding same_key
  delete-IsRead d d' f key g h r = (
    h,
    λ other. r other ∙ ap (λ x. if eq_text (lower other) (lower key) then none else x) (g other),
  )

  run_methods-IsRefined :
      (ms : List (Method V)) (d : CaseInsensitiveDict V) (f : View V)
      → IsRead d f
      → IsRefined (run_methods ms d) (replay ms f)
  unfolding run_methods replay
  run_methods-IsRefined [] d f (h, g) =
      (h, λ key. (g key, keys-get_item d key ∙ ap has_value (g key)))
  run_methods-IsRefined (set_at key value ∷ ms) d f h =
      run_methods-IsRefined ms (set_item d key value) _ (set_item-IsRead d f key value h)
  run_methods-IsRefined (update_with es ∷ ms) d f h =
      run_methods-IsRefined ms (update d es) _ (update-IsRead d f es h)
  run_methods-IsRefined (copied ∷ ms) d f h = rw (copy-eq d h.0) (run_methods-IsRefined ms d f h)
  run_methods-IsRefined (delete_at key ∷ ms) d f (h, g) =
      go (del_item d key) (del_item-has_value d key ∙ ap has_value (g key)) (del_item-Kept d key h)
        (del_item-Deleted d key h) (λ d' f'. run_methods-IsRefined ms d' f')
    where
      go :
          (o : Option (CaseInsensitiveDict V))
          → has_value o ≡ has_value (f (lower key))
          → Kept o
          → Deleted d key o
          → ((d' : CaseInsensitiveDict V) (f' : View V)
              → IsRead d' f'
              → IsRefined (run_methods ms d') (replay ms f'))
          → IsRefined (continue o (run_methods ms)) (
              if has_value (f (lower key))
              then replay ms (replaced_at f (lower key) none)
              else none)
      go none b k r later = rw (sym b) tt
      go (some d') b k r later = rw (sym b) (later d' _ (delete-IsRead d d' f key g k r))

  -- From the empty dictionary, any sequence of calls raises a KeyError exactly if the same calls on a
  -- function from lower-cased keys delete a key without a value; otherwise no two keys agree up to
  -- case, each key reads in every spelling as the function does on its lower-cased form, and the keys
  -- that keys lists are those with a value.
  pub run_methods-refines :
      (ms : List (Method V)) → IsRefined (run_methods ms []) (replay ms (λ _. none))
  run_methods-refines ms =
      run_methods-IsRefined ms [] (λ _. none)
        (unfold distinct in refl, λ key. unfold get_item in refl)
