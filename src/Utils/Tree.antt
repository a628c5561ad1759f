-- ===== src/Utils/Tree.antt =====
-- Configurations: dictionaries of values that may be dictionaries, as JSON and YAML give them.
use area.Common.{
  ◌≡◌, refl, subst, inl, inr, arith, Bool-cases, and-eq-true, Bool, true, false, not, ◌&&◌, Option,
  none, some, Text, eq_text, eq_of_eq_text, eq_text_refl, if◌then◌else◌,
}

-- Of a value that is neither `None` nor a dictionary, its type and what `str` makes of it are kept.
-- The keys of a dictionary are in order, each of them once.
mutual
  pub data Value : Type 0 where
    none_value : Value
    other : Text → Text → Value
    dict : Dict → Value

  pub data Dict : Type 0 where
    nil : Dict
    cons : Text → Value → Dict → Dict

-- `d.get(key)`, where a key that is missing differs from one that has `None`.
unfoldable pub get : Dict → Text → Option Value
get nil key = none
get (cons name value rest) key =
    let later = get rest key in if eq_text key name then some value else later

-- `d[key] = value`
unfoldable pub set : Dict → Text → Value → Dict
set nil key v = cons key v nil
set (cons name value rest) key v =
    let later = set rest key v in
    if eq_text key name then cons name v rest else cons name value later

-- `d.pop(key, None)`
unfoldable pub pop : Dict → Text → Dict
pop nil key = nil
pop (cons name value rest) key =
    let later = pop rest key in if eq_text key name then later else cons name value later

-- What is left for a key, if anything.
unfoldable pub put : Dict → Text → Option Value → Dict
unfolding set pop
put d key none = pop d key
put d key (some v) = set d key v

pub eq_text-differ : (s t : Text) → eq_text s t ≡ false → eq_text t s ≡ false
eq_text-differ s t h = elim (Bool-cases (eq_text t s)) [
  | inl e ↦ cc (eq_text_refl s, eq_of_eq_text t s e)
  | inr e ↦ e
]

get-pop : (d : Dict) (key k : Text) → get (pop d key) k ≡ (if eq_text k key then none else get d k)
unfolding get pop
get-pop nil key k = ground arith
get-pop (cons name value rest) key k = elim (Bool-cases (eq_text key name)) [
  | inl e ↦ rw (e, eq_of_eq_text key name e, get-pop rest name k) (ground arith)
  | inr e ↦ rw e (elim (Bool-cases (eq_text k name)) [
    | inl f ↦ rw (eq_of_eq_text k name f, eq_text-differ key name e, eq_text_refl name) refl
    | inr f ↦ rw (f, get-pop rest key k) refl
  ])
]

get-set :
    (d : Dict) (key : Text) (v : Value) (k : Text)
    → get (set d key v) k ≡ (if eq_text k key then some v else get d k)
unfolding get set
get-set nil key v k = refl
get-set (cons name value rest) key v k = elim (Bool-cases (eq_text key name)) [
  | inl e ↦ rw (e, eq_of_eq_text key name e) (ground arith)
  | inr e ↦
      rw (e, get-set rest key v k)
        (elim (Bool-cases (eq_text k name)) [
          | inl f ↦ rw (eq_of_eq_text k name f, eq_text-differ key name e, eq_text_refl name) refl
          | inr f ↦ rw f refl
        ])
]

-- A key has what was left for it, and the other keys have what they had.
pub get-put :
    (d : Dict) (key : Text) (v : Option Value) (k : Text)
    → get (put d key v) k ≡ (if eq_text k key then v else get d k)
unfolding put
get-put d key none k = get-pop d key k
get-put d key (some v) k = get-set d key v k

pop-get : (d : Dict) (key : Text) → get d key ≡ none → pop d key ≡ d
unfolding get pop
pop-get nil key h = refl
pop-get (cons name value rest) key h = elim (Bool-cases (eq_text key name)) [
  | inl e ↦ cc (rw e at h)
  | inr e ↦ rw (e, pop-get rest key (rw e at h)) refl
]

set-get : (d : Dict) (key : Text) (v : Value) → get d key ≡ some v → set d key v ≡ d
unfolding get set
set-get nil key v h = cc
set-get (cons name value rest) key v h = elim (Bool-cases (eq_text key name)) [
  | inl e ↦ rw e (cc (rw e at h))
  | inr e ↦ rw (e, set-get rest key v (rw e at h)) refl
]

-- Leaving a key what it has changes nothing.
pub put-get : (d : Dict) (key : Text) (v : Option Value) → get d key ≡ v → put d key v ≡ d
unfolding put
put-get d key none h = pop-get d key h
put-get d key (some v) h = set-get d key v h

-- Whether a value is there.
abbrev pub is_some : Option Value → Bool
is_some none = false
is_some (some v) = true

-- No key is there twice, in any dictionary.
unfoldable mutual
  unfolding get

  pub distinct : Dict → Bool
  distinct nil = true
  distinct (cons name value rest) =
      not (is_some (get rest name)) && distinct_value value && distinct rest

  pub distinct_value : Value → Bool
  distinct_value none_value = true
  distinct_value (other kind text) = true
  distinct_value (dict d) = distinct d

-- No dictionary has the value `None`.
unfoldable mutual
  pub none_free : Dict → Bool
  none_free nil = true
  none_free (cons name value rest) = none_free_value value && none_free rest

  pub none_free_value : Value → Bool
  none_free_value none_value = false
  none_free_value (other kind text) = true
  none_free_value (dict d) = none_free d

pub none_free-get :
    (d : Dict) (key : Text) (v : Value)
    → none_free d ≡ true
    → get d key ≡ some v
    → none_free_value v ≡ true
unfolding none_free get
none_free-get nil key v h e = cc
none_free-get (cons name value rest) key v h e =
    let (a, b) = and-eq-true (none_free_value value) (none_free rest) h in
    elim (Bool-cases (eq_text key name)) [
      | inl t ↦ subst (λ v. none_free_value v ≡ true) (some_inj (rw t at e)) a
      | inr t ↦ none_free-get rest key v b (rw t at e)
    ]
  where
    some_inj : {v w : Value} → some v ≡ some w → v ≡ w
    some_inj e = cc
