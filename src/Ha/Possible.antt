-- ===== src/Ha/Possible.antt =====
-- `is_failover_possible` holds only if there is a node that can take over.
use area.Common.{
  ℕ, suc, ◌≤◌, ℤ, pos, negsuc, ◌+ℤ◌, ◌≤ℤ◌, ◌<ℤ◌, ltb_ℤ, leb_ℤ, int_laws, eq_of_parts, ◌≡◌, refl,
  subst, ◌∙◌, inl, inr, arith, Bool-cases, Bool, true, false, ◌&&◌, Option, some, List, [], ◌∷◌,
  map, keep, length, get_elem?, if◌then◌else◌,
}
use area.Cluster.Member.{Member}
use area.Ha.Status.{ApiResponse, MemberStatus, fetch_node_status}
use area.Ha.Node.{Ha}
use area.Ha.Candidates.{
  is_candidate, get_failover_candidates, is_promotable, count_promotable, check_quorum,
  is_failover_possible,
}

module _ {Version : Type 0} (ha : Ha Version) (request : Member → Option ApiResponse) where
  abbrev fetch : Member → MemberStatus
  fetch = fetch_node_status request

  -- The candidates that pass the tests.
  abbrev pub promotable : ℤ → Bool → List Member
  promotable cluster_lsn exclude =
      keep (λ m. is_promotable ha cluster_lsn (fetch m)) (get_failover_candidates ha exclude)

  count_promotable-eq :
      (cluster_lsn : ℤ) (ms : List Member) (n : ℤ)
      → count_promotable ha cluster_lsn (map fetch ms) n
        ≡ n +ℤ pos (length (keep (λ m. is_promotable ha cluster_lsn (fetch m)) ms))
  unfolding count_promotable
  count_promotable-eq lsn [] n = eq_of_parts n (n +ℤ pos 0) (omega int_laws)
  count_promotable-eq lsn (m ∷ ms) n =
      step (is_promotable ha lsn (fetch m)) (λ k. count_promotable-eq lsn ms k)
    where
      rest : List Member
      rest = keep (λ m. is_promotable ha lsn (fetch m)) ms

      shift : (k : ℕ) → n +ℤ pos 1 +ℤ pos k ≡ n +ℤ pos (suc k)
      shift k = eq_of_parts (n +ℤ pos 1 +ℤ pos k) (n +ℤ pos (suc k)) (omega int_laws)

      step :
          (b : Bool)
          → ((k : ℤ) → count_promotable ha lsn (map fetch ms) k ≡ k +ℤ pos (length rest))
          → count_promotable ha lsn (map fetch ms) (if b then n +ℤ pos 1 else n)
            ≡ n +ℤ pos (length (if b then m ∷ rest else rest))
      step true ih = ih (n +ℤ pos 1) ∙ shift (length rest)
      step false ih = ih n

  -- The tests that made a candidate count.
  abbrev pub Found : (Member → Bool) → (Member → Bool) → List Member → Type 0
  Found p q ms = (i : ℕ) × (m : Member) × (get_elem? ms i ≡ some m) × (q m ≡ true) × (p m ≡ true)

  first : (p q : Member → Bool) (ms : List Member) → 1 ≤ length (keep p (keep q ms)) → Found p q ms
  first p q [] h = absurd (omega arith)
  first p q (m ∷ ms) h = elim (Bool-cases (q m)) [
    | inl e ↦ elim (Bool-cases (p m)) [
      | inl f ↦ (0, m, refl, e, f)
      | inr f ↦ later (first p q ms (rw (e, f) at h))
    ]
    | inr e ↦ later (first p q ms (rw e at h))
  ]
    where
      later : Found p q ms → Found p q (m ∷ ms)
      later (i, n, g, a, b) = (suc i, n, g, a, b)

  counted :
      (votes q : ℤ) (check : Bool) (n : ℕ)
      → votes ≡ negsuc 0 +ℤ pos n
      → (if check && ltb_ℤ votes q then false else leb_ℤ (pos 0) votes) ≡ true
      → (1 ≤ n) × (check ≡ true → q <ℤ pos n)
  counted votes q check n e h =
      let le : pos 0 ≤ℤ votes = at_least h in
      let le' : pos 0 ≤ℤ negsuc 0 +ℤ pos n = subst (λ v. pos 0 ≤ℤ v) e le in
      (
        omega int_laws,
        λ c.
            let k : q ≤ℤ votes = enough c h in
            let k' : q ≤ℤ negsuc 0 +ℤ pos n = subst (λ v. q ≤ℤ v) e k in omega int_laws,
      )
    where
      at_least :
          (if check && ltb_ℤ votes q then false else leb_ℤ (pos 0) votes) ≡ true → pos 0 ≤ℤ votes
      at_least h = ground arith

      enough :
          check ≡ true
          → (if check && ltb_ℤ votes q then false else leb_ℤ (pos 0) votes) ≡ true
          → q ≤ℤ votes
      enough c h = ground arith

  -- If a failover is possible, then some member is a candidate, answers that it may be promoted and is
  -- near enough to the leader's position and timeline; and where the quorum counts, more nodes than the
  -- quorum do so.
  pub is_failover_possible-Found :
      (cluster_lsn : ℤ) (exclude : Bool)
      → is_failover_possible ha request cluster_lsn exclude ≡ true
      → Found
          (λ m. is_promotable ha cluster_lsn (fetch m))
          (is_candidate ha exclude)
          ha.cluster.members
        × (check_quorum ha exclude ≡ true
            → ha.cluster.sync.quorum <ℤ pos (length (promotable cluster_lsn exclude)))
  unfolding is_failover_possible get_failover_candidates
  is_failover_possible-Found lsn exclude h =
      let (k, q) =
        counted _ ha.cluster.sync.quorum (check_quorum ha exclude) (length (promotable lsn exclude))
          (count_promotable-eq lsn (get_failover_candidates ha exclude) (negsuc 0)) h in
      (
        first (λ m. is_promotable ha lsn (fetch m)) (is_candidate ha exclude) ha.cluster.members k,
        q,
      )
