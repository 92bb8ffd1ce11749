-- ===== src/Files/Sized.antt =====
-- File objects whose arrays have the sizes that they were made for.
use ftserver.Files.{FileInfo}
use ftserver.Base.{ℕ, zero, suc, ◌≡◌, some, List, [], ◌∷◌, ◌++◌, length, get_elem?, set, subst}

abbrev pub AllSized : List FileInfo → Type 0
AllSized files =
    (k : ℕ) (f : FileInfo) → get_elem? files k ≡ some f → length f.filedata ≡ f.filesize

IsSized-some :
    (g f : FileInfo)
    → some g ≡ some f
    → length g.filedata ≡ g.filesize
    → length f.filedata ≡ f.filesize
IsSized-some g f e h = let same : g ≡ f = cc in subst (λ x. length x.filedata ≡ x.filesize) same h

pub set-AllSized :
    (files : List FileInfo) (k : ℕ) (g : FileInfo)
    → AllSized files
    → length g.filedata ≡ g.filesize
    → AllSized (set files k g)
set-AllSized [] k g h s j f e = h j f e
set-AllSized (x ∷ xs) zero g h s zero f e = IsSized-some g f e s
set-AllSized (x ∷ xs) zero g h s (suc j) f e = h (suc j) f e
set-AllSized (x ∷ xs) (suc k) g h s zero f e = h zero f e
set-AllSized (x ∷ xs) (suc k) g h s (suc j) f e = set-AllSized xs k g (λ i. h (suc i)) s j f e

pub end-AllSized :
    (files : List FileInfo) (g : FileInfo)
    → AllSized files
    → length g.filedata ≡ g.filesize
    → AllSized (files ++ g ∷ [])
end-AllSized [] g h s zero f e = IsSized-some g f e s
end-AllSized [] g h s (suc j) f e = let bad : ⊥ = cc in absurd bad
end-AllSized (x ∷ xs) g h s zero f e = h zero f e
end-AllSized (x ∷ xs) g h s (suc j) f e = end-AllSized xs g (λ i. h (suc i)) s j f e
