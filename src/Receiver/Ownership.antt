-- ===== src/Receiver/Ownership.antt =====
-- The file objects that a receiver shares with the writer: whose they are, and what one message's
-- handling may do to them.
use ftserver.Run.{ok, Ensures, Ensures->>=}
use ftserver.Files.{FileInfo, new_file_info}
use ftserver.Writer.{FileWritter, new_file}
use ftserver.Tcp.Circular.{CircularBuffer}
use ftserver.Protocol.Boost.{BoostText}
use ftserver.Protocol.{Floats, AsciiProtoFileinfo}
use ftserver.Receiver.{
  FileReceiver, State, waiting, ready, complete, failure, count, held, needs_new, make_file,
  describe, described, take_fileinfo, notify_status, current, connection, write_status,
}
use ftserver.Base.{
  ℕ, ◌≤◌, ◌<◌, ◌≡◌, ◌≢◌, inl, inr, refl, sym, ap, ◌∙◌, subst, false, Option, none, some, List, [],
  ◌∷◌, ◌++◌, arith, Bool-cases, leb, leb→le, leb-false, if◌then◌else◌, if_true, if_false, length,
  get_elem?, set, length-set, length-append, get_elem?-set_ne, get_elem?-append, ℤ, pos, negsuc,
}

abbrev pub AllBelow : ℕ → List ℕ → Type 0
AllBelow n [] = Unit {0}
AllBelow n (k ∷ ks) = (k < n) × AllBelow n ks

count_above : (n k : ℕ) (ks : List ℕ) → AllBelow n ks → n ≤ k → count k ks ≡ 0
count_above n k [] h le = refl
count_above n k (j ∷ ks) h le = ground (arith, count_above n k ks h.1 le)

below_of_count : (n k : ℕ) (ks : List ℕ) → AllBelow n ks → 0 < count k ks → k < n
below_of_count n k ks h c = elim (Bool-cases (leb n k)) [
  | inl le ↦ absurd (omega (arith, count_above n k ks h (leb→le n k le)))
  | inr lt ↦ leb-false n k lt
]

pub AllBelow-mono : (m n : ℕ) (ks : List ℕ) → m ≤ n → AllBelow m ks → AllBelow n ks
AllBelow-mono m n [] le h = tt
AllBelow-mono m n (k ∷ ks) le h = (omega (arith, h.0), AllBelow-mono m n ks le h.1)

AllBelow-append : (n : ℕ) (xs ys : List ℕ) → AllBelow n xs → AllBelow n ys → AllBelow n (xs ++ ys)
AllBelow-append n [] ys h k = k
AllBelow-append n (x ∷ xs) ys h k = (h.0, AllBelow-append n xs ys h.1 k)

AllBelow-insert :
    (n k : ℕ) (xs ys : List ℕ) → k < n → AllBelow n (xs ++ ys) → AllBelow n ((xs ++ k ∷ []) ++ ys)
AllBelow-insert n k [] ys lt h = (lt, h)
AllBelow-insert n k (x ∷ xs) ys lt h = (h.0, AllBelow-insert n k xs ys lt h.1)

-- No one else points to the object.
abbrev pub Owned : Option ℕ → List ℕ → Type 0
Owned none ks = Unit {0}
Owned (some k) ks = count k ks ≡ 0

-- While file data may arrive, the receiver's object is its own.
abbrev pub Private : State → Option ℕ → List ℕ → Type 0
Private ready p ks = Owned p ks
Private _ p ks = Unit {0}

pub Owned-Private : (s : State) (p : Option ℕ) (ks : List ℕ) → Owned p ks → Private s p ks
Owned-Private ready p ks h = h
Owned-Private waiting p ks h = tt
Owned-Private complete p ks h = tt
Owned-Private failure p ks h = tt

pub handed_below :
    (n k : ℕ) (w : FileWritter) (saving : List ℕ)
    → k < n
    → AllBelow n (w.quenf ++ saving)
    → AllBelow n ((new_file k w).quenf ++ saving)
unfolding new_file
handed_below n k w saving lt h = elim (Bool-cases w.running) [
  | inl on ↦ rw on (AllBelow-insert n k w.quenf saving lt h)
  | inr off ↦ rw off h
]

module _ (cb : CircularBuffer) (fl : Floats) (b : BoostText) where
  abbrev Receiver : Type 0
  Receiver = FileReceiver cb fl b

  pub record IsSafe (r : Receiver) : Type 0 where
    pub below : AllBelow (length r.files) (held cb fl b r)
    pub private : Private r.state r.fileptr (held cb fl b r)

  -- Every object that someone else points to is as it was.
  abbrev pub Keeps : Receiver → Receiver → Type 0
  Keeps r r' = (k : ℕ) → 0 < count k (held cb fl b r) → get_elem? r'.files k ≡ get_elem? r.files k

  -- A step from r that keeps what others hold, adds no holder, and ends with an object of its own.
  pub record Owning (r r' : Receiver) : Type 0 where
    pub same_held : held cb fl b r' ≡ held cb fl b r
    pub longer : length r.files ≤ length r'.files
    pub keeps : Keeps r r'
    pub owned : Owned r'.fileptr (held cb fl b r)

  -- A step that ends safe.
  pub record Safely (r r' : Receiver) : Type 0 where
    pub safe : IsSafe r'
    pub keeps : Keeps r r'

  pub current-Ensures :
      (r : Receiver)
      → Ensures
          (λ (q : ℕ × FileInfo). (r.fileptr ≡ some q.0) × (get_elem? r.files q.0 ≡ some q.1))
          (current cb fl b r)
  unfolding current
  current-Ensures r = ground arith

  needs_new-Owned :
      (r : Receiver) (size : ℤ)
      → needs_new cb fl b r size ≡ false
      → Owned r.fileptr (held cb fl b r)
  needs_new-Owned r size e = ground arith

  make_file-Owning :
      (size : ℤ) (r : Receiver)
      → AllBelow (length r.files) (held cb fl b r)
      → Ensures (Owning r) (make_file cb fl b size r)
  unfolding make_file new_file_info
  make_file-Owning (negsuc n) r h = tt
  make_file-Owning (pos n) r h = record {
    same_held = refl;
    longer = omega (arith, length-append {0} r.files _);
    keeps = λ k c. get_elem?-append r.files _ k (below_of_count _ k _ h c);
    owned = count_above _ _ _ h (omega arith);
  }

  -- An object that nobody holds is another than those that are held.
  pub other_object : (k j : ℕ) (ks : List ℕ) → count k ks ≡ 0 → 0 < count j ks → k ≢ j
  other_object k j ks e c same = omega (arith, subst (λ x. 0 < count x ks) (sym same) c)

  -- Writing into an object of its own.
  pub set-Owning :
      (r r' : Receiver) (k : ℕ) (f : FileInfo)
      → Owning r r'
      → r'.fileptr ≡ some k
      → Owning r (record r' { files = set r'.files k f })
  set-Owning r r' k f o e = record {
    same_held = o.same_held;
    longer = omega (arith, o.longer, length-set {0} r'.files k f);
    keeps = λ j c.
        get_elem?-set_ne r'.files k j f
          (other_object k j (held cb fl b r) (subst (λ q. Owned q (held cb fl b r)) e o.owned) c)
        ∙ o.keeps j c;
    owned = o.owned;
  }

  describe-Owning :
      (p : AsciiProtoFileinfo) (r r' : Receiver)
      → Owning r r'
      → Ensures (Owning r) (describe cb fl b p r')
  unfolding describe
  describe-Owning p r r' o =
      Ensures->>= _ (Owning r) (current cb fl b r')
        (λ q. ok (record r' { files = set r'.files q.0 (described cb fl b p q.1) }))
        (current-Ensures r') λ q e. set-Owning r r' q.0 (described cb fl b p q.1) o e.0

  pub take_fileinfo-Owning :
      (p : AsciiProtoFileinfo) (r : Receiver)
      → AllBelow (length r.files) (held cb fl b r)
      → Ensures (Owning r) (take_fileinfo cb fl b p r)
  unfolding take_fileinfo
  take_fileinfo-Owning p r h =
      Ensures->>= (Owning r) (Owning r)
        (if needs_new cb fl b r p.filesize then make_file cb fl b p.filesize r else ok r)
        (describe cb fl b p)
        (elim (Bool-cases (needs_new cb fl b r p.filesize)) [
          | inl new ↦
              subst (Ensures (Owning r)) (sym (if_true _ _ new)) (make_file-Owning p.filesize r h)
          | inr old ↦ subst (Ensures (Owning r)) (sym (if_false _ _ old)) (record {
            same_held = refl;
            longer = omega arith;
            keeps = λ k c. refl;
            owned = needs_new-Owned r p.filesize old;
          })
        ])
        (λ r' o. describe-Owning p r r' o)

  -- A status report touches the state, the output area and the socket alone.
  pub record Reported (status : State) (r r' : Receiver) : Type 0 where
    pub files : r'.files ≡ r.files
    pub held_same : held cb fl b r' ≡ held cb fl b r
    pub fileptr : r'.fileptr ≡ r.fileptr
    pub state : r'.state ≡ status

  pub notify_status-Reported :
      (status : State) (r : Receiver) → Ensures (Reported status r) (notify_status cb fl b status r)
  unfolding notify_status write_status connection
  notify_status-Reported status r = ground arith

  -- A step that touches neither the objects nor what decides whose they are.
  pub record Untouched (r r' : Receiver) : Type 0 where
    pub files : r'.files ≡ r.files
    pub held_same : held cb fl b r' ≡ held cb fl b r
    pub fileptr : r'.fileptr ≡ r.fileptr
    pub state : r'.state ≡ r.state

  pub Untouched-IsSafe : (r r' : Receiver) → IsSafe r → Untouched r r' → IsSafe r'
  Untouched-IsSafe r r' s u = record {
    below = rw (u.files, u.held_same) s.below;
    private = rw (u.state, u.fileptr, u.held_same) s.private;
  }

  pub Untouched-Safely : (r r' : Receiver) → IsSafe r → Untouched r r' → Safely r r'
  Untouched-Safely r r' s u = record {
    safe = Untouched-IsSafe r r' s u;
    keeps = λ k c. ap (λ fs. get_elem? fs k) u.files;
  }

  pub Untouched-trans : (r r' r'' : Receiver) → Untouched r r' → Safely r' r'' → Safely r r''
  Untouched-trans r r' r'' u s = record {
    safe = s.safe;
    keeps = λ k c. s.keeps k (rw u.held_same c) ∙ ap (λ fs. get_elem? fs k) u.files;
  }

  -- An object of its own, then a report: safe whatever is reported.
  pub Owning-Safely :
      (status : State) (r r' r'' : Receiver)
      → AllBelow (length r.files) (held cb fl b r)
      → Owning r r'
      → Reported status r' r''
      → Safely r r''
  Owning-Safely status r r' r'' h o q = record {
    safe = record {
      below = rw (q.files, q.held_same, o.same_held) (AllBelow-mono _ _ _ o.longer h);
      private = Owned-Private _ _ _ (rw (q.fileptr, q.held_same, o.same_held) o.owned);
    };
    keeps = λ k c. ap (λ fs. get_elem? fs k) q.files ∙ o.keeps k c;
  }
