-- ===== src/Tags/Filter.antt =====
-- The filter loses nothing that the properties read.
use area.Common.{
  pos, ◌≡◌, refl, sym, ap, subst, ◌∙◌, inl, inr, arith, Bool-cases, Bool, true, false, not, ◌&&◌,
  ◌||◌, Option, none, some, [], ◌∷◌, keep, every, Text, codes, eq_text, eq_of_eq_text,
  if◌then◌else◌,
}
use area.Tags.{
  TagValue, Tag, Tags, has_tag, get_tag, is_true, number_of, priority_tag, bool_tag, clonefrom,
  nofailover, failover_priority, noloadbalance, nosync, sync_priority, filter_tags, kept, nostream,
  replicatefrom,
}

-- The keys of a dictionary are distinct.
unfoldable pub distinct_names : Tags → Bool
unfolding has_tag
distinct_names [] = true
distinct_names (t ∷ ts) = not (has_tag ts t.name) && distinct_names ts

get_tag-absent : (ts : Tags) (name : Text) → has_tag ts name ≡ false → get_tag ts name ≡ none
unfolding get_tag has_tag
get_tag-absent [] name h = refl
get_tag-absent (t ∷ ts) name h = ground (arith, get_tag-absent ts name)

get_tag-keep-absent :
    (p : Tag → Bool) (ts : Tags) (name : Text)
    → has_tag ts name ≡ false
    → get_tag (keep p ts) name ≡ none
unfolding get_tag has_tag
get_tag-keep-absent p [] name h = refl
get_tag-keep-absent p (t ∷ ts) name h = ground (arith, get_tag-keep-absent p ts name)

-- A filter that keeps a key.
get_tag-keep :
    (p : Tag → Bool) (ts : Tags) (name : Text)
    → ((t : Tag) → eq_text t.name name ≡ true → p t ≡ true)
    → get_tag (keep p ts) name ≡ get_tag ts name
unfolding get_tag
get_tag-keep p [] name h = refl
get_tag-keep p (t ∷ ts) name h = elim (Bool-cases (eq_text t.name name)) [
  | inl e ↦ rw (h t e, e)
  | inr e ↦ ground (arith, get_tag-keep p ts name h)
]

distinct_rest : (t : Tag) (ts : Tags) → distinct_names (t ∷ ts) ≡ true → distinct_names ts ≡ true
unfolding distinct_names
distinct_rest t ts d = ground arith

-- The first key is not there again.
first_gone :
    (t : Tag) (ts : Tags) (name : Text)
    → distinct_names (t ∷ ts) ≡ true
    → eq_text t.name name ≡ true
    → has_tag ts name ≡ false
unfolding distinct_names
first_gone t ts name d e =
    subst (λ n. has_tag ts n ≡ false) (eq_of_eq_text t.name name e) (absent d)
  where
    absent : (not (has_tag ts t.name) && distinct_names ts) ≡ true → has_tag ts t.name ≡ false
    absent k = ground arith

-- A filter that keeps a key if its value counts as true.
is_true-get_tag-keep :
    (p : Tag → Bool) (ts : Tags) (name : Text)
    → distinct_names ts ≡ true
    → ((t : Tag) → eq_text t.name name ≡ true → p t ≡ is_true t.value)
    → is_true (get_tag (keep p ts) name) ≡ is_true (get_tag ts name)
unfolding get_tag distinct_names is_true
is_true-get_tag-keep p [] name d h = refl
is_true-get_tag-keep p (t ∷ ts) name d h = elim (Bool-cases (eq_text t.name name)) [
  | inl e ↦ elim (Bool-cases (is_true t.value)) [
    | inl v ↦ rw (h t e, v, e)
    | inr v ↦ rw (h t e, v, e, get_tag-keep-absent p ts name (first_gone t ts name d e)) (sym v)
  ]
  | inr e ↦ ground (arith, is_true-get_tag-keep p ts name (distinct_rest t ts d) h)
]

bool_tag-none : (x : Option TagValue) → bool_tag x none ≡ is_true x
unfolding bool_tag is_true number_of
bool_tag-none none = refl
bool_tag-none (some v) = refl

priority_tag-none :
    (x : Option TagValue) → priority_tag x none ≡ (if is_true x then pos 0 else pos 1)
unfolding priority_tag number_of
priority_tag-none x = refl

-- Both properties of a pair of tags are the same after a filter that keeps the priority, and the
-- Boolean tag if it counts as true or there is a priority.
module _ (p : Tag → Bool) (tags : Tags) (name priority : Text) (d : distinct_names tags ≡ true)
    (kp : (t : Tag) → eq_text t.name priority ≡ true → p t ≡ true)
    (kn : (t : Tag)
      → eq_text t.name name ≡ true
      → p t ≡ (is_true t.value || has_tag tags priority)) where
  pair_filtered :
      (bool_tag (get_tag (keep p tags) name) (get_tag (keep p tags) priority)
        ≡ bool_tag (get_tag tags name) (get_tag tags priority))
      × (priority_tag (get_tag (keep p tags) name) (get_tag (keep p tags) priority)
          ≡ priority_tag (get_tag tags name) (get_tag tags priority))
  pair_filtered = elim (Bool-cases (has_tag tags priority)) [
    | inl h ↦
        let n = get_tag-keep p tags name (λ t e. kn t e ∙ ground arith) in
        let q = get_tag-keep p tags priority kp in (rw (n, q), rw (n, q))
    | inr h ↦
        let n = is_true-get_tag-keep p tags name d (λ t e. kn t e ∙ ground arith) in
        let q = get_tag-keep-absent p tags priority h in
        let a = get_tag-absent tags priority h in
        (
          rw (q, a, bool_tag-none (get_tag (keep p tags) name), bool_tag-none (get_tag tags name))
              n,
          rw (
            q,
            a,
            priority_tag-none (get_tag (keep p tags) name),
            priority_tag-none (get_tag tags name),
            n,
          ),
        )
  ]

-- What `_filter_tags` does with a tag depends on its name and value alone.
kept-eq :
    (tags : Tags) (name : Text) (t : Tag)
    → eq_text t.name name ≡ true
    → kept tags t ≡ kept tags (record { name = name; value = t.value })
kept-eq tags name t e =
    ap (λ n. kept tags (record { name = n; value = t.value })) (eq_of_eq_text t.name name e)

-- What `parse_bool` gives, with False for None.
unfoldable pub flag_of : Option TagValue → Bool
flag_of x = elim x [ none ↦ false | some v ↦ elim v.flag [ none ↦ false | some b ↦ b ] ]

-- Values that `parse_bool` reads as True count as true.
unfoldable pub flags_agree : Tags → Bool
flags_agree ts = every (λ t. not (flag_of t.value) || is_true t.value) ts

flag_of-get_tag-keep :
    (p : Tag → Bool) (ts : Tags) (name : Text)
    → distinct_names ts ≡ true
    → every (λ t. not (flag_of t.value) || is_true t.value) ts ≡ true
    → ((t : Tag) → eq_text t.name name ≡ true → p t ≡ is_true t.value)
    → flag_of (get_tag (keep p ts) name) ≡ flag_of (get_tag ts name)
unfolding get_tag
flag_of-get_tag-keep p [] name d w h = refl
flag_of-get_tag-keep p (t ∷ ts) name d w h = elim (Bool-cases (eq_text t.name name)) [
  | inl e ↦ elim (Bool-cases (is_true t.value)) [
    | inl v ↦ rw (h t e, v, e)
    | inr v ↦
        rw (h t e, v, e, get_tag-keep-absent p ts name (first_gone t ts name d e))
          (unfold flag_of in sym (unread v w))
  ]
  | inr e ↦ ground (arith, flag_of-get_tag-keep p ts name (distinct_rest t ts d) (later w) h)
]
  where
    unread :
        is_true t.value ≡ false
        → ((not (flag_of t.value) || is_true t.value)
            && every (λ t. not (flag_of t.value) || is_true t.value) ts)
          ≡ true
        → flag_of t.value ≡ false
    unread v w = ground arith

    later :
        ((not (flag_of t.value) || is_true t.value)
            && every (λ t. not (flag_of t.value) || is_true t.value) ts)
          ≡ true
        → every (λ t. not (flag_of t.value) || is_true t.value) ts ≡ true
    later w = ground arith

-- For a dictionary, whose keys are distinct, `_filter_tags` changes none of the properties, if
-- values that `parse_bool` reads as True count as true.
pub filter_tags-properties :
    (tags : Tags)
    → distinct_names tags ≡ true
    → flags_agree tags ≡ true
    → (nofailover (filter_tags tags) ≡ nofailover tags)
      × (failover_priority (filter_tags tags) ≡ failover_priority tags)
      × (nosync (filter_tags tags) ≡ nosync tags)
      × (sync_priority (filter_tags tags) ≡ sync_priority tags)
      × (clonefrom (filter_tags tags) ≡ clonefrom tags)
      × (noloadbalance (filter_tags tags) ≡ noloadbalance tags)
      × (nostream (filter_tags tags) ≡ nostream tags)
      × (replicatefrom (filter_tags tags) ≡ replicatefrom tags)
unfolding filter_tags nofailover failover_priority nosync sync_priority clonefrom noloadbalance
    nostream replicatefrom flags_agree flag_of eq_text
filter_tags-properties tags d w =
    let (f, fp) =
      pair_filtered (kept tags) tags (codes "nofailover") (codes "failover_priority") d
        (λ t e. kept-eq tags _ t e) (λ t e. kept-eq tags _ t e ∙ ground arith) in
    let (s, sp) =
      pair_filtered (kept tags) tags (codes "nosync") (codes "sync_priority") d
        (λ t e. kept-eq tags _ t e) (λ t e. kept-eq tags _ t e ∙ ground arith) in
    (
      f,
      fp,
      s,
      sp,
      is_true-get_tag-keep (kept tags) tags (codes "clonefrom") d
          (λ t e. kept-eq tags _ t e ∙ ground arith),
      is_true-get_tag-keep (kept tags) tags (codes "noloadbalance") d
          (λ t e. kept-eq tags _ t e ∙ ground arith),
      flag_of-get_tag-keep (kept tags) tags (codes "nostream") d w
          (λ t e. kept-eq tags _ t e ∙ ground arith),
      ap (λ x. elim x as (λ _. Option Text) [ none ↦ none | some v ↦ some v.text ])
          (get_tag-keep (kept tags) tags (codes "replicatefrom") (λ t e. kept-eq tags _ t e)),
    )
