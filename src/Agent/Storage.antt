-- ===== src/Agent/Storage.antt =====
-- The choice of the disk and the time of the next check.
use ftserver.Run.{
  ok, out_of_bounds, or_fault, ◌>>=◌, Ensures, Ensures->>=, Ensures-mono, or_fault-Ensures, Run,
}
use ftserver.Agent.{DiskSettings, wrapped, has_space, search, find_storage, next_noon, settled}
use ftserver.Base.{
  ℕ, zero, suc, ◌+◌, ◌≤◌, ◌<◌, ◌≡◌, ◌⊎◌, inl, inr, refl, subst, true, false, Option, none, some,
  Text, ◌==◌, ==_iff, Bool-cases, arith, sym, ap, if_true, if_false, length, get_elem?, Bool, ltb,
  List, [], ◌∷◌, ◌∙◌, if◌then◌else◌,
}

-- The next check is at noon of this day or the following one, and at least ten seconds away.
next_noon-lands :
    (now : ℕ)
    → now < 86400
    → (10 ≤ next_noon now) × ((now + next_noon now ≡ 43200) ⊎ (now + next_noon now ≡ 43200 + 86400))
unfolding next_noon
next_noon-lands now h = ground arith

elem_there {ℓ} :
    {A : Type ℓ} (xs : List A) (i : ℕ) → i < length xs → (x : A) × (get_elem? xs i ≡ some x)
elem_there [] i h = absurd (omega (arith, h))
elem_there (x ∷ xs) zero h = (x, refl)
elem_there (x ∷ xs) (suc i) h = elem_there xs i (omega arith)

elem_outside {ℓ} : {A : Type ℓ} (xs : List A) (i : ℕ) → length xs ≤ i → get_elem? xs i ≡ none
elem_outside [] i h = refl
elem_outside (x ∷ xs) zero h = absurd (omega arith)
elem_outside (x ∷ xs) (suc i) h = elem_outside xs i (omega arith)

module _ (available : Text → ℕ) (p : DiskSettings) where
  -- The disk k places after the one that the search begins with, going round.
  abbrev pub disk_after : ℕ → ℕ
  disk_after k = wrapped p.n_storage (wrapped p.n_storage p.i_storage + k)

  -- The path of the index has enough space, or not.
  abbrev pub Answers : Bool → ℕ → Type 0
  Answers answer i =
      (path : Text) × (get_elem? p.path_storage i ≡ some path)
      × (has_space available p path ≡ answer)

  -- The first disk with enough space from place s on, or none if there is none.
  abbrev pub IsFirstFree : ℕ → Option ℕ → Type 0
  IsFirstFree s none = (k : ℕ) → s ≤ k → k < p.n_storage → Answers false (disk_after k)
  IsFirstFree s (some i) =
      (k : ℕ) × (k < p.n_storage)
      × (i ≡ disk_after k)
      × Answers true i
      × ((m : ℕ) → s ≤ m → m < k → Answers false (disk_after m))

  Full-from :
      (s m : ℕ)
      → Answers false (disk_after s)
      → (suc s ≤ m → Answers false (disk_after m))
      → s ≤ m
      → Answers false (disk_after m)
  Full-from s m e h le = elim (Bool-cases (s == m)) [
    | inl same ↦ subst (λ k. Answers false (disk_after k)) ((==_iff s m).0 same) e
    | inr other ↦ h (ground arith)
  ]

  IsFirstFree-extend :
      (s : ℕ) (o : Option ℕ)
      → Answers false (disk_after s)
      → IsFirstFree (suc s) o
      → IsFirstFree s o
  IsFirstFree-extend s none e h = λ k le lt. Full-from s k e (λ x. h k x lt) le
  IsFirstFree-extend s (some i) e (k, lt, at, free, before) =
      (k, lt, at, free, λ m le l. Full-from s m e (λ x. before m x l) le)

  -- One round of the search, at the index of a path.
  search-round :
      (rounds s x : ℕ)
      → s < p.n_storage
      → wrapped p.n_storage x ≡ disk_after s
      → Ensures (IsFirstFree (suc s)) (search available rounds p (disk_after s + 1))
      → Ensures (IsFirstFree s) (search available (suc rounds) p x)
  unfolding search
  search-round rounds s x lt e ih = rw e (
      Ensures->>= (λ path. get_elem? p.path_storage (disk_after s) ≡ some path) (IsFirstFree s)
        (or_fault (get_elem? p.path_storage (disk_after s)) out_of_bounds) _
        (or_fault-Ensures (get_elem? p.path_storage (disk_after s)) out_of_bounds)
        λ path h. elim (Bool-cases (has_space available p path)) [
          | inl free ↦
              subst (Ensures (IsFirstFree s)) (sym (if_true _ _ free))
                (s, lt, refl, (path, h, free), λ m le l. absurd (omega arith))
          | inr full ↦ subst (Ensures (IsFirstFree s)) (sym (if_false _ _ full)) (
              Ensures-mono (IsFirstFree (suc s)) (IsFirstFree s)
                (search available rounds p (disk_after s + 1))
                (λ o f. IsFirstFree-extend s o (path, h, full) f) ih)
        ])

  search-IsFirstFree :
      (rounds s x : ℕ)
      → wrapped p.n_storage p.i_storage < p.n_storage
      → wrapped p.n_storage x ≡ disk_after s
      → s + rounds ≡ p.n_storage
      → Ensures (IsFirstFree s) (search available rounds p x)
  search-IsFirstFree zero s x i e n = unfold search in λ k a lt. absurd (omega arith)
  search-IsFirstFree (suc rounds) s x i e n =
      search-round rounds s x (omega arith) e
        (search-IsFirstFree rounds (suc s) (disk_after s + 1) i (ground arith) (omega arith))

  -- One round, once its index is that of a path.
  search-there :
      (rounds x i : ℕ) (path : Text)
      → wrapped p.n_storage x ≡ i
      → get_elem? p.path_storage i ≡ some path
      → search available (suc rounds) p x
        ≡ (if has_space available p path then ok (some i) else search available rounds p (i + 1))
  unfolding search
  search-there rounds x i path e h =
      ap
        (λ j. or_fault (get_elem? p.path_storage j) out_of_bounds >>= λ path.
          if has_space available p path then ok (some j) else search available rounds p (j + 1))
        e
      ∙ ap
          (λ q. or_fault q out_of_bounds >>= λ path.
            if has_space available p path then ok (some i) else search available rounds p (i + 1))
          h

  answer :
      (path : Text) (m r : Run (Option ℕ)) (i : ℕ)
      → m ≡ (if has_space available p path then ok (some i) else r)
      → (o : Option ℕ) × (r ≡ ok o)
      → (o : Option ℕ) × (m ≡ ok o)
  answer path m r i begun (o, go) = elim (Bool-cases (has_space available p path)) [
    | inl free ↦ (some i, begun ∙ if_true _ _ free)
    | inr full ↦ (o, begun ∙ if_false _ _ full ∙ go)
  ]

  -- With as many paths as disks the search does not fault.
  search_ends :
      (rounds s x : ℕ)
      → p.n_storage ≤ length p.path_storage
      → wrapped p.n_storage p.i_storage < p.n_storage
      → wrapped p.n_storage x ≡ disk_after s
      → s + rounds ≡ p.n_storage
      → (o : Option ℕ) × (search available rounds p x ≡ ok o)
  search_ends zero s x all i e n = unfold search in (none, refl)
  search_ends (suc rounds) s x all i e n =
      let at : disk_after s < length p.path_storage = ground arith in
      let (path, h) = elem_there p.path_storage (disk_after s) at in
      answer path _ _ (disk_after s) (search-there rounds x (disk_after s) path e h)
        (search_ends rounds (suc s) (disk_after s + 1) all i (ground arith) (omega arith))

  -- An index far outside is not that of a path.
  search_outside :
      (rounds x : ℕ)
      → length p.path_storage ≤ wrapped p.n_storage x
      → 0 < rounds
      → Ensures (IsFirstFree 0) (search available rounds p x)
  unfolding search
  search_outside zero x out more = absurd (omega arith)
  search_outside (suc rounds) x out more =
      rw (elem_outside p.path_storage (wrapped p.n_storage x) out) tt

  found :
      length p.path_storage ≡ p.n_storage
      → 0 < p.n_storage
      → Ensures (IsFirstFree 0) (search available p.n_storage p p.i_storage)
  found all some_ = elim (Bool-cases (ltb (wrapped p.n_storage p.i_storage) p.n_storage)) [
    | inl lt ↦
        let in_range : wrapped p.n_storage p.i_storage < p.n_storage = ground arith in
        search-IsFirstFree p.n_storage 0 p.i_storage in_range (ground arith) (omega arith)
    | inr out ↦ search_outside p.n_storage p.i_storage (ground arith) some_
  ]

  -- From any index, if there are as many paths as disks and the search does not read outside them.
  pub find_storage-found :
      length p.path_storage ≡ p.n_storage
      → 0 < p.n_storage
      → Ensures (λ r. IsFirstFree 0 r.0) (find_storage available p)
  unfolding find_storage
  find_storage-found all some_ =
      Ensures->>= (IsFirstFree 0) (λ (r : Option ℕ × DiskSettings). IsFirstFree 0 r.0)
        (search available p.n_storage p p.i_storage) _ (found all some_) λ o f. f

  -- find_storage returns the first disk with enough free space, beginning with the present one and
  -- going round through all of them, and none only if every disk is full; it does not fault, if the
  -- present index is that of a disk and every disk has a path.
  pub find_storage-IsFirstFree :
      p.i_storage < p.n_storage
      → p.n_storage ≤ length p.path_storage
      → (r : Option ℕ × DiskSettings) × (find_storage available p ≡ ok r) × IsFirstFree 0 r.0
  unfolding find_storage
  find_storage-IsFirstFree i all =
      let in_range : wrapped p.n_storage p.i_storage < p.n_storage = ground arith in
      let first : wrapped p.n_storage p.i_storage ≡ disk_after 0 = ground arith in
      let (o, go) = search_ends p.n_storage 0 p.i_storage all in_range first (omega arith) in
      (
        (o, settled available p o),
        ap (λ m. m >>= λ o. ok (o, settled available p o)) go,
        subst (Ensures (IsFirstFree 0)) go
            (search-IsFirstFree p.n_storage 0 p.i_storage in_range first (omega arith)),
      )
