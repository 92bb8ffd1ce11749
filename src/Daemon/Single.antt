-- ===== src/Daemon/Single.antt =====
-- Several processes that are started and end: one instance at a time.
use ftserver.Daemon.{PidFile, PidCalls, pid_text, is_proc_singleton}
use ftserver.Base.{
  ℕ, ◌≡◌, ◌≢◌, ◌⊎◌, inl, inr, refl, ap, ◌∙◌, subst, Bool, true, false, Option, none, some, List, [],
  ◌∷◌, ◌==◌, if◌then◌else◌, if_true, if_false, ==_iff, length, take, take_all, arith, Bool-cases,
}

-- A lock that another process holds is not granted.
abbrev pub Excludes : (ℕ → Option ℕ → Bool) → Type 0
Excludes granted = (p q : ℕ) → p ≢ q → granted p (some q) ≡ false

-- What isProcSingleton answers and leaves.
abbrev Told : (ℕ → Option ℕ → Bool) → ℕ → PidFile → Bool × PidFile → Type 0
Told granted pid f (told, f') =
    ((told ≡ true)
      × (granted pid f.holder ≡ true)
      × (f'.holder ≡ some pid)
      × (f'.content ≡ pid_text pid))
    ⊎ ((told ≡ false) × ((f' ≡ f) ⊎ (granted pid f.holder ≡ true)))

all_written : (pid n : ℕ) → n ≡ length (pid_text pid) → take n (pid_text pid) ≡ pid_text pid
all_written pid n e = take_all n (pid_text pid) (omega (arith, e))

is_proc_singleton-Told :
    (granted : ℕ → Option ℕ → Bool) (c : PidCalls) (pid : ℕ) (f : PidFile)
    → Told granted pid f (is_proc_singleton granted c pid f)
unfolding is_proc_singleton
is_proc_singleton-Told granted c pid f = elim (Bool-cases c.opens) [
  | inr no_ ↦ rw no_ (inr (refl, inl refl))
  | inl a ↦ rw a (elim (Bool-cases (granted pid f.holder)) [
    | inr no_ ↦ rw no_ (inr (refl, inl refl))
    | inl g ↦ rw g (elim (Bool-cases c.truncates) [
      | inr no_ ↦ rw no_ (inr (refl, inr refl))
      | inl t ↦ rw t (elim (Bool-cases (c.written == length (pid_text pid))) [
        | inr no_ ↦ rw no_ (inr (refl, inr refl))
        | inl n ↦ rw n (elim (Bool-cases c.gets) [
          | inr no_ ↦ rw no_ (inr (refl, inr refl))
          | inl e ↦ rw e (elim (Bool-cases c.sets) [
            | inr no_ ↦ rw no_ (inr (refl, inr refl))
            | inl h ↦ rw h (inl (refl, refl, refl, all_written pid c.written ((==_iff _ _).0 n)))
          ])
        ])
      ])
    ])
  ])
]

-- The processes that were told to go on and have not ended, and the file.
pub record Host : Type 0 where
  pub file : PidFile
  pub running : List ℕ

abbrev pub released : ℕ → PidFile → PidFile
released p f = elim f.holder [
  | none ↦ f
  | some q ↦ if q == p then record f { holder = none } else f
]

abbrev pub remove : ℕ → List ℕ → List ℕ
remove p [] = []
remove p (q ∷ qs) = let rest = remove p qs in if q == p then rest else q ∷ rest

abbrev pub IsNew : ℕ → List ℕ → Type 0
IsNew p [] = Unit {0}
IsNew p (q ∷ qs) = (p ≢ q) × IsNew p qs

-- A process starts and asks, or a process ends, with which its lock goes.
pub data Step (granted : ℕ → Option ℕ → Bool) (h : Host) : Host → Type 0 where
  starts :
      (c : PidCalls) (p : ℕ)
      → IsNew p h.running
      → Step granted h (record h {
        file = (is_proc_singleton granted c p h.file).1;
        running = if (is_proc_singleton granted c p h.file).0 then p ∷ h.running else h.running;
      })
  ends :
      (p : ℕ) → Step granted h (record h { file = released p h.file; running = remove p h.running })

pub data Reach (granted : ℕ → Option ℕ → Bool) (h : Host) : Host → Type 0 where
  here : Reach granted h h
  next : {k m : Host} → Reach granted h k → Step granted k m → Reach granted h m

-- At most one process runs; it holds the lock, and its number is in the file.
abbrev pub IsSingle : Host → Type 0
IsSingle h =
    (h.running ≡ [])
    ⊎ ((p : ℕ) × (h.running ≡ p ∷ []) × (h.file.holder ≡ some p) × (h.file.content ≡ pid_text p))

starts-IsSingle :
    (granted : ℕ → Option ℕ → Bool) (p : ℕ) (h : Host) (r : Bool × PidFile)
    → Excludes granted
    → IsNew p h.running
    → Told granted p h.file r
    → IsSingle h
    → IsSingle (record h { file = r.1; running = if r.0 then p ∷ h.running else h.running })
starts-IsSingle granted p h r x n (inl (t, g, l, c)) (inl none_) =
    inr (p, if_true _ _ t ∙ ap (λ qs. p ∷ qs) none_, l, c)
starts-IsSingle granted p h r x n (inr (t, _)) (inl none_) = inl (if_false _ _ t ∙ none_)
starts-IsSingle granted p h r x n t (inr (q, one, l, c)) =
    let other : p ≢ q = (subst (IsNew p) one n).0 in
    let no_ : granted p h.file.holder ≡ false = ap (granted p) l ∙ x p q other in
    elim t [
      | inl (_, g, _, _) ↦ let bad : ⊥ = cc in absurd bad
      | inr (t, inr g) ↦ let bad : ⊥ = cc in absurd bad
      | inr (t, inl same) ↦
          inr (q, if_false _ _ t ∙ one, ap (λ f. f.holder) same ∙ l, ap (λ f. f.content) same ∙ c)
    ]

ends-IsSingle :
    (p : ℕ) (h : Host)
    → IsSingle h
    → IsSingle (record h { file = released p h.file; running = remove p h.running })
ends-IsSingle p h (inl none_) = inl (ap (remove p) none_)
ends-IsSingle p h (inr (q, one, l, c)) = elim (Bool-cases (q == p)) [
  | inl same ↦ inl (ap (remove p) one ∙ if_true _ _ same)
  | inr other ↦
      let kept : released p h.file ≡ h.file =
        ap
          (λ o. elim o [
            | none ↦ h.file
            | some q ↦ if q == p then record (h.file) { holder = none } else h.file
          ])
          l
        ∙ if_false _ _ other in
      inr (
        q,
        ap (remove p) one ∙ if_false _ _ other,
        ap (λ f. f.holder) kept ∙ l,
        ap (λ f. f.content) kept ∙ c,
      )
]

Step-IsSingle :
    {granted : ℕ → Option ℕ → Bool} {h k : Host}
    → Step granted h k
    → Excludes granted
    → IsSingle h
    → IsSingle k
Step-IsSingle {granted} {h} (starts c p n) x i =
    starts-IsSingle granted p h (is_proc_singleton granted c p h.file) x n
      (is_proc_singleton-Told granted c p h.file) i
Step-IsSingle {granted} {h} (ends p) x i = ends-IsSingle p h i

-- If a lock that one process holds is granted to no other, then however processes start, ask
-- isProcSingleton and end, and however their calls on the pid file fail: at most one process that was
-- told to go on is running, it holds the lock, and the pid file consists of its number.
pub Reach-IsSingle :
    {granted : ℕ → Option ℕ → Bool} {h k : Host}
    → Excludes granted
    → IsSingle h
    → Reach granted h k
    → IsSingle k
Reach-IsSingle x i here = i
Reach-IsSingle x i (next r s) = Step-IsSingle s x (Reach-IsSingle x i r)
