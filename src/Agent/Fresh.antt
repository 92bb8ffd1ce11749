-- ===== src/Agent/Fresh.antt =====
-- Which entries the clearing of old data is to leave, and the cases of what it does with one.
use ftserver.Run.{Run, ok, ◌>>=◌}
use ftserver.Agent.Clearing.{Node, free_template_directory}
use ftserver.Agent.{
  Entry, kept, removed, thinned, days3, days10, of_gwac, template_action, directory_action,
}
use ftserver.Base.{
  ◌/◌, ◌≡◌, refl, ap, ◌∙◌, Bool, true, false, not, ◌&&◌, ◌||◌, List, [], ◌∷◌, leb, ltb,
  if◌then◌else◌, if_false, arith, Bool-cases, inl, inr, ◌⊎◌,
}

-- What the clearing is for, as a test: an entry of another program, or a young one.
abbrev pub all {ℓ} : {A : Type ℓ} → (A → Bool) → List A → Bool
all p [] = true
all p (x ∷ xs) = p x && all p xs

abbrev pub filter {ℓ} : {A : Type ℓ} → (A → Bool) → List A → List A
filter p [] = []
filter p (x ∷ xs) = let rest = filter p xs in if p x then x ∷ rest else rest

abbrev pub small : Entry → Bool
small e = leb (e.size / 1024) 100

abbrev pub foreign : Node → Bool
foreign x = not (of_gwac x.entry)

-- Only regular files stand below the entries.
abbrev pub all_plain : List Node → Bool
all_plain ds = all (λ x. all (λ e. e.is_regular_file) x.inside) ds

-- An entry of a template directory that stays: another program's, or not older than ten days and,
-- if it is a regular file, not older than three.
abbrev pub lasts : Node → Bool
lasts x =
    foreign x || (leb x.entry.age days10 && (not x.entry.is_regular_file || leb x.entry.age days3))

-- A directory that loses its large files.
abbrev pub thins : Node → Bool
thins x = of_gwac x.entry && x.entry.is_directory && ltb days3 x.entry.age

abbrev pub thinned_node : Node → Node
thinned_node x = if thins x then record x { inside = filter small x.inside } else x

pub free_template_directory-eq-filter :
    (es : List Entry)
    → all (λ e. e.is_regular_file) es ≡ true
    → free_template_directory es ≡ ok (filter small es)
unfolding free_template_directory directory_action
free_template_directory-eq-filter [] h = refl
free_template_directory-eq-filter (x ∷ xs) h =
    let plain : x.is_regular_file ≡ true = ground arith in
    let more : all (λ e. e.is_regular_file) xs ≡ true = ground arith in
    if_false _ _ (ap not plain)
    ∙ ap
        (λ (m : Run (List Entry)).
          m >>= λ r. ok (elim (directory_action x) [ removed ↦ r | _ ↦ x ∷ r ]))
        (free_template_directory-eq-filter xs more)
    ∙ ap ok (elim (Bool-cases (small x)) [ inl s ↦ ground (arith, s) | inr l ↦ ground (arith, l) ])

-- The branches of the loop, by what they find.
abbrev Cases : Node → Type 0
Cases x =
    ((template_action x.entry ≡ kept) × (lasts x ≡ true) × (thins x ≡ false))
    ⊎ ((template_action x.entry ≡ removed) × (lasts x ≡ false))
    ⊎ ((template_action x.entry ≡ thinned) × (lasts x ≡ true) × (thins x ≡ true))

pub template_action-Cases : (x : Node) → Cases x
unfolding template_action
template_action-Cases x = elim (Bool-cases (of_gwac x.entry)) [
  | inr f ↦ inl (ground (arith, f), ground (arith, f), ground (arith, f))
  | inl g ↦
      elim (Bool-cases
        (ltb days10 x.entry.age || (x.entry.is_regular_file && ltb days3 x.entry.age))) [
          | inl o ↦ inr (inl (ground (arith, g, o), ground (arith, g, o)))
          | inr y ↦ elim (Bool-cases (ltb days3 x.entry.age && x.entry.is_directory)) [
            | inl t ↦
                inr (inr (ground (arith, g, y, t), ground (arith, g, y), ground (arith, g, t)))
            | inr n ↦ inl (ground (arith, g, y, n), ground (arith, g, y, n), ground (arith, g, n))
          ]
        ]
]
