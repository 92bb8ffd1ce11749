-- ===== src/Agent/Cleared.antt =====
-- What the clearing of old data leaves in the directories.
use ftserver.Run.{Run, ok, out_of_bounds, or_fault, ◌>>=◌}
use ftserver.Agent.Clearing.{
  Node, clear_storage, clear_with, clear_entry, clear_template, clear_templates, free_template,
  after_freeing,
}
use ftserver.Agent.{
  DiskSettings, Entry, days3, storage_action, cleaned, free_storage, find_storage, free_with,
  next_disk, Freeing,
}
use ftserver.Base.{
  ℕ, ◌/◌, ◌^◌, ◌≤◌, ◌≡◌, refl, sym, ap, ◌∙◌, Bool, true, ◌||◌, none, some, List, [], ◌∷◌, ◌++◌, map,
  Text, leb, if◌then◌else◌, if_true, length, get_elem?, set, arith, inl, inr, le→leb, Bool-cases,
}
use ftserver.Agent.Fresh.{
  all, filter, foreign, all_plain, template_action-Cases, lasts, thinned_node,
  free_template_directory-eq-filter,
}

-- What the clearing is to leave of a template directory.
abbrev pub cleared : List Node → List Node
cleared xs = map thinned_node (filter lasts xs)

clear_entry-eq-cleared :
    (x : Node)
    → all (λ e. e.is_regular_file) x.inside ≡ true
    → clear_entry x ≡ ok (cleared (x ∷ []))
unfolding clear_entry clear_with
clear_entry-eq-cleared x h = elim (template_action-Cases x) [
  | inl (e, l, t) ↦ rw (e, l, t) refl
  | inr (inl (e, l)) ↦ rw (e, l) refl
  | inr (inr (e, l, t)) ↦
      ap (λ a. clear_with a x) e
      ∙ ap (λ (m : Run (List Entry)). m >>= λ es. ok (record x { inside = es } ∷ []))
          (free_template_directory-eq-filter x.inside h)
      ∙ rw (l, t) refl
]

cleared-cons : (x : Node) (xs : List Node) → cleared (x ∷ xs) ≡ cleared (x ∷ []) ++ cleared xs
cleared-cons x xs = elim (Bool-cases (lasts x)) [ inl l ↦ rw l refl | inr n ↦ rw n refl ]

clear_template-eq-cleared :
    (xs : List Node) → all_plain xs ≡ true → clear_template xs ≡ ok (cleared xs)
unfolding clear_template
clear_template-eq-cleared [] h = refl
clear_template-eq-cleared (x ∷ xs) h =
    ap (λ (m : Run (List Node)). m >>= λ ys. clear_template xs >>= λ rest. ok (ys ++ rest))
      (clear_entry-eq-cleared x (ground (arith, h)))
    ∙ ap (λ (m : Run (List Node)). m >>= λ rest. ok (cleared (x ∷ []) ++ rest))
        (clear_template-eq-cleared xs (ground (arith, h)))
    ∙ ap ok (sym (cleared-cons x xs))

clear_templates-eq-cleared :
    (ds : List (List Node))
    → all all_plain ds ≡ true
    → clear_templates (length ds) ds ≡ ok (map cleared ds)
unfolding clear_templates
clear_templates-eq-cleared [] h = refl
clear_templates-eq-cleared (d ∷ ds) h =
    ap
      (λ (m : Run (List Node)). m >>= λ d'. clear_templates (length ds) ds >>= λ ds'. ok (d' ∷ ds'))
      (clear_template-eq-cleared d (ground (arith, h)))
    ∙ ap (λ (m : Run (List (List Node))). m >>= λ ds'. ok (cleared d ∷ ds'))
        (clear_templates-eq-cleared ds (ground (arith, h)))

-- When the first template directory has no more free space than the minimum, and below the entries of
-- the template directories stand regular files only, the clearing ends without a fault. In each
-- template directory, of the entries whose names begin with G, those older than ten days and the
-- regular files older than three are gone, and directories older than three have lost just their
-- files of more than 100 KB; everything else is as it was, in the order it had.
pub free_template-eq-cleared :
    (available : Text → ℕ) (p : DiskSettings) (ds : List (List Node)) (path : Text)
    → get_elem? p.path_template 0 ≡ some path
    → available path / 2 ^ 30 ≤ p.min_disk_template
    → length ds ≡ p.n_template
    → all all_plain ds ≡ true
    → free_template available p ds ≡ ok (map cleared ds)
unfolding free_template
free_template-eq-cleared available p ds path at low n plain =
    ap
      (λ o. or_fault o out_of_bounds >>= λ path.
        if leb (available path / 2 ^ 30) p.min_disk_template
        then clear_templates p.n_template ds
        else ok ds)
      at
    ∙ if_true _ _ (le→leb _ _ low)
    ∙ ap (λ m. clear_templates m ds) (sym n)
    ∙ clear_templates-eq-cleared ds plain

-- An entry of another program, or one that is not older than three days.
abbrev pub storage_lasts : Node → Bool
storage_lasts x = foreign x || leb x.entry.age days3

clear_storage-eq-filter : (xs : List Node) → clear_storage xs ≡ filter storage_lasts xs
unfolding clear_storage storage_action
clear_storage-eq-filter [] = refl
clear_storage-eq-filter (x ∷ xs) = ground (arith, clear_storage-eq-filter xs)

-- When every disk is full, and the disk after the current one has a path and a directory, the
-- clearing turns to it: it becomes the current one, and only its directory changes. Just the entries
-- whose names begin with G and that are older than three days are gone from it; all others stay, in
-- the order they had.
pub free_storage-clears :
    (available : Text → ℕ) (p p' : DiskSettings) (ds : List (List Node)) (d : List Node)
    (path : Text)
    → find_storage available p ≡ ok (none, p')
    → get_elem? p.path_storage (next_disk available p) ≡ some path
    → get_elem? ds (next_disk available p) ≡ some d
    → (r : Freeing available × DiskSettings) × (free_storage available p ≡ ok r)
      × (r.1.i_storage ≡ next_disk available p)
      × (after_freeing available r.0 ds ≡ set ds (next_disk available p) (filter storage_lasts d))
unfolding free_storage after_freeing
free_storage-clears available p p' ds d path none_free named at = (
  (cleaned (next_disk available p), record p' { i_storage = next_disk available p }),
  ap (λ m. m >>= free_with available p) none_free
      ∙ ap
          (λ o. or_fault o out_of_bounds >>= λ _.
            ok (cleaned (next_disk available p), record p' { i_storage = next_disk available p }))
          named,
  refl,
  ap (λ o. elim o [ none ↦ ds | some d ↦ set ds (next_disk available p) (clear_storage d) ]) at
      ∙ ap (set ds (next_disk available p)) (clear_storage-eq-filter d),
)
