-- ===== src/Sync/Written.antt =====
-- What is read from the /sync key after it was written.
use area.Common.{
  ℤ, pos, ◌≡◌, refl, sym, ap, ◌∙◌, inl, inr, arith, Bool-cases, and-eq-true, Bool, true, not, ◌&&◌,
  nonzero, Option, some, List, [], ◌∷◌, every, is_empty, Text, ltb_text, if◌then◌else◌, negsuc,
  zero, suc, subst,
}
use area.Sync.Names.{join, str_to_list, insert, sorted}
use area.Sync.State.{
  SyncState, sync_state, from_node, voters, members, or_empty, is_set, is_empty_state,
}
use area.Sync.Commas.{plain, str_to_list-join}

insert-every :
    (p : Text → Bool) (s : Text) (ss : List Text)
    → p s ≡ true
    → every p ss ≡ true
    → every p (insert s ss) ≡ true
unfolding insert
insert-every p s [] k h = rw k
insert-every p s (t ∷ ss) k h =
    let (a, b) = and-eq-true (p t) (every p ss) h in
    elim (Bool-cases (ltb_text t s)) [
      | inl e ↦ rw (e, a, insert-every p s ss k b)
      | inr e ↦ rw (e, k, a, b)
    ]

pub sorted-every :
    (p : Text → Bool) (ss : List Text) → every p ss ≡ true → every p (sorted ss) ≡ true
unfolding sorted
sorted-every p [] h = refl
sorted-every p (s ∷ ss) h =
    let (a, b) = and-eq-true (p s) (every p ss) h in
    insert-every p s (sorted ss) a (sorted-every p ss b)

-- A joined list of names is empty only if there are none.
join-is_set :
    (s : Text) (ss : List Text) → every plain (s ∷ ss) ≡ true → is_set (some (join (s ∷ ss))) ≡ true
unfolding join is_set
join-is_set [] ss h = cc
join-is_set (c ∷ s) [] h = refl
join-is_set (c ∷ s) (t ∷ ss) h = refl

sorted-parts :
    (s : Text) (ss : List Text) → (x : Text) × (xs : List Text) × (sorted (s ∷ ss) ≡ x ∷ xs)
unfolding sorted insert
sorted-parts s ss = go (sorted ss)
  where
    go : (ts : List Text) → (x : Text) × (xs : List Text) × (insert s ts ≡ x ∷ xs)
    go [] = (s, [], refl)
    go (t ∷ ts) = elim (Bool-cases (ltb_text t s)) [
      | inl e ↦ (t, insert s ts, rw e)
      | inr e ↦ (s, t ∷ ts, rw e)
    ]

kept_quorum : (set : Bool) (q : ℤ) → set ≡ true → (if set && nonzero q then q else pos 0) ≡ q
kept_quorum set (negsuc n) h = ground arith
kept_quorum set (pos zero) h = ground arith
kept_quorum set (pos (suc n)) h = ground arith

module _ {Version : Type 0} where
  voters-eq :
      (s : SyncState Version)
      → is_set s.leader ≡ true
      → is_set s.sync_standby ≡ true
      → voters s ≡ str_to_list (or_empty s.sync_standby)
  unfolding voters is_empty_state
  voters-eq s l b = rw (l, b)

  pub members-eq :
      (s : SyncState Version) → is_set s.leader ≡ true → members s ≡ or_empty s.leader ∷ voters s
  unfolding members
  members-eq s l = rw l

  written_voters :
      (version : Option Version) (leader : Text) (standbys : List Text) (q : ℤ)
      → is_set (some leader) ≡ true
      → every plain standbys ≡ true
      → voters (from_node version (some (sync_state (some leader) standbys (some q))))
        ≡ sorted standbys
  unfolding from_node sync_state voters is_empty_state or_empty is_set sorted
  written_voters version leader [] q l h = rw l
  written_voters version leader (s ∷ ss) q l h =
      let (x, xs, e) = sorted-parts s ss in
      let k = sorted-every plain (s ∷ ss) h in
      let b =
        subst (λ ts. is_set (some (join ts)) ≡ true) (sym e)
          (join-is_set x xs (subst (λ ts. every plain ts ≡ true) e k)) in
      voters-eq (from_node version (some (sync_state (some leader) (s ∷ ss) (some q)))) l b
      ∙ str_to_list-join (sorted (s ∷ ss)) k

  -- The key that is written for a leader with a name and for standbys whose names have neither commas
  -- nor spaces and are not empty is read back as that leader, the sorted standbys and the quorum.
  pub from_node-sync_state :
      (version : Option Version) (leader : Text) (standbys : List Text) (q : ℤ)
      → is_set (some leader) ≡ true
      → every plain standbys ≡ true
      → (let s = from_node version (some (sync_state (some leader) standbys (some q))) in
          (s.leader ≡ some leader)
          × (voters s ≡ sorted standbys)
          × (members s ≡ leader ∷ sorted standbys)
          × (s.quorum ≡ q))
  unfolding from_node sync_state members or_empty is_set
  from_node-sync_state version leader standbys q l h =
      let v = written_voters version leader standbys q l h in
      (
        refl,
        v,
        members-eq (from_node version (some (sync_state (some leader) standbys (some q)))) l
            ∙ ap (λ vs. leader ∷ vs) v,
        kept_quorum (not (is_empty leader)) q l,
      )
