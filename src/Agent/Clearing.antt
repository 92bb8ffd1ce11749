-- ===== src/Agent/Clearing.antt =====
-- src/TransferAgent.cpp: what the clearing of old data does to the directories. A directory is the
-- list of its entries; what stands below an entry is given one level deep.
use ftserver.Run.{Run, ok, fault, uncaught, out_of_bounds, or_fault, ◌>>=◌}
use ftserver.Agent.{
  DiskSettings, Entry, Action, kept, removed, thinned, storage_action, template_action,
  directory_action, Freeing, nothing, moved, cleaned, free_storage,
}
use ftserver.Base.{
  ℕ, zero, suc, ◌/◌, ◌^◌, Bool, not, none, some, List, [], ◌∷◌, ◌++◌, Text, leb, if◌then◌else◌,
  get_elem?, set,
}

-- An entry with the entries below it.
pub record Node : Type 0 where
  pub entry : Entry
  pub inside : List Entry

-- The loop of free_template_directory. file_size fails on an entry that is not a regular file.
unfoldable pub free_template_directory : List Entry → Run (List Entry)
free_template_directory [] = ok []
free_template_directory (x ∷ xs) =
    let after = free_template_directory xs in
    if not x.is_regular_file
    then fault uncaught
    else after >>= λ rest. ok (elim (directory_action x) [ removed ↦ rest | _ ↦ x ∷ rest ])

-- The loop of free_storage over the entries of a directory.
unfoldable pub clear_storage : List Node → List Node
clear_storage [] = []
clear_storage (x ∷ xs) =
    let rest = clear_storage xs in elim (storage_action x.entry) [ removed ↦ rest | _ ↦ x ∷ rest ]

-- One entry in the loop of free_template: what is left of it.
unfoldable pub clear_with : Action → Node → Run (List Node)
clear_with kept x = ok (x ∷ [])
clear_with removed x = ok []
clear_with thinned x = free_template_directory x.inside >>= λ es. ok (record x { inside = es } ∷ [])

unfoldable pub clear_entry : Node → Run (List Node)
unfolding clear_with
clear_entry x = clear_with (template_action x.entry) x

unfoldable pub clear_template : List Node → Run (List Node)
clear_template [] = ok []
clear_template (x ∷ xs) =
    let after = clear_template xs in clear_entry x >>= λ ys. after >>= λ rest. ok (ys ++ rest)

-- `for (int i = 0; i < param_.nTemplate; ++i)`, with the rounds left.
unfoldable pub clear_templates : ℕ → List (List Node) → Run (List (List Node))
clear_templates zero ds = ok ds
clear_templates (suc rounds) [] = fault out_of_bounds
clear_templates (suc rounds) (d ∷ ds) =
    let after = clear_templates rounds ds in
    clear_template d >>= λ d'. after >>= λ ds'. ok (d' ∷ ds')

-- free_template, on the directories of the paths in their order.
unfoldable pub free_template : (Text → ℕ) → DiskSettings → List (List Node) → Run (List (List Node))
free_template available p ds = or_fault (get_elem? p.path_template 0) out_of_bounds >>= λ path.
    if leb (available path / 2 ^ 30) p.min_disk_template
    then clear_templates p.n_template ds
    else ok ds

-- free_storage on the directories of the disks: the entries of the disk that is cleaned go.
unfoldable pub after_freeing :
    (available : Text → ℕ) → Freeing available → List (List Node) → List (List Node)
after_freeing available nothing ds = ds
after_freeing available (moved i) ds = ds
after_freeing available (cleaned i) ds = elim (get_elem? ds i) [
  | none ↦ ds
  | some d ↦ set ds i (clear_storage d)
]

-- What the thread leaves behind: the outcome for the storage, the settings, and the directories.
pub record Cleared (available : Text → ℕ) : Type 0 where
  pub freeing : Freeing available
  pub settings : DiskSettings
  pub storage : List (List Node)
  pub template : List (List Node)

-- One round of thread_autofree before its sleep, with bFreeStorage and bFreeTemplate, the free space
-- then and the free space after the storage is cleared.
unfoldable pub autofree_round :
    Bool
    → Bool
    → (before after : Text → ℕ) → DiskSettings
    → (storage template : List (List Node)) → Run (Cleared before)
unfolding free_template after_freeing
autofree_round free_disks free_models before after p storage template =
    (if free_disks then free_storage before p else ok (nothing, p)) >>= λ r.
    (if free_models then free_template after r.1 template else ok template) >>= λ template'.
    ok (record {
      freeing = r.0;
      settings = r.1;
      storage = after_freeing before r.0 storage;
      template = template';
    })
