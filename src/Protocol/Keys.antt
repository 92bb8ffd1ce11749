-- ===== src/Protocol/Keys.antt =====
-- Comparing keywords: iequals on two texts is equality of their lower-case forms, which decides
-- every comparison between the keywords of the source.
use ftserver.Protocol.Boost.{BoostText, to_lower}
use ftserver.Protocol.{
  Floats, fileinfo_key, filestat_key, nonempty, AsciiProtoFileinfo, AsciiProtoFilestat,
}
use ftserver.Protocol.Numbers.{atoi}
use ftserver.Base.{
  ◌≡◌, refl, sym, Bool, true, false, map, Text, codes, [], ◌∷◌, if◌then◌else◌, text_eq, text_eq_iff,
  ◌↔◌,
}

same_truth : (a b : Bool) → (a ≡ true) ↔ (b ≡ true) → a ≡ b
same_truth true true h = refl
same_truth false false h = refl
same_truth true false h = sym (h.0 refl)
same_truth false true h = h.1 refl

module _ (fl : Floats) (b : BoostText) where
  open b use {iequals, iequals_iff}

  pub iequals_text : (x y : Text) → iequals x y ≡ text_eq (map to_lower x) (map to_lower y)
  iequals_text x y = same_truth _ _ (
    λ e. (text_eq_iff _ _).1 ((iequals_iff x y).0 e),
    λ e. (iequals_iff x y).1 ((text_eq_iff _ _).0 e),
  )

  -- What each keyword that CompactFileInfo prints sets, when its member is still empty.
  pub fileinfo_key-group_id :
      (v : Text) (p : AsciiProtoFileinfo)
      → p.gid ≡ []
      → (if nonempty v then fileinfo_key fl b (codes "group_id") v p else p)
        ≡ record p { base = record (p.base) { gid = v } }
  unfolding fileinfo_key text_eq
  fileinfo_key-group_id [] p e = rw (← e)
  fileinfo_key-group_id (c ∷ v) p e = simp iequals_text

  pub fileinfo_key-unit_id :
      (v : Text) (p : AsciiProtoFileinfo)
      → p.uid ≡ []
      → (if nonempty v then fileinfo_key fl b (codes "unit_id") v p else p)
        ≡ record p { base = record (p.base) { uid = v } }
  unfolding fileinfo_key text_eq
  fileinfo_key-unit_id [] p e = rw (← e)
  fileinfo_key-unit_id (c ∷ v) p e = simp iequals_text

  pub fileinfo_key-cam_id :
      (v : Text) (p : AsciiProtoFileinfo)
      → p.cid ≡ []
      → (if nonempty v then fileinfo_key fl b (codes "cam_id") v p else p)
        ≡ record p { base = record (p.base) { cid = v } }
  unfolding fileinfo_key text_eq
  fileinfo_key-cam_id [] p e = rw (← e)
  fileinfo_key-cam_id (c ∷ v) p e = simp iequals_text

  pub fileinfo_key-grid_id :
      (v : Text) (p : AsciiProtoFileinfo)
      → p.grid ≡ []
      → (if nonempty v then fileinfo_key fl b (codes "grid_id") v p else p) ≡ record p { grid = v }
  unfolding fileinfo_key text_eq
  fileinfo_key-grid_id [] p e = rw (← e)
  fileinfo_key-grid_id (c ∷ v) p e = simp iequals_text

  pub fileinfo_key-field_id :
      (v : Text) (p : AsciiProtoFileinfo)
      → p.field ≡ []
      → (if nonempty v then fileinfo_key fl b (codes "field_id") v p else p)
        ≡ record p { field = v }
  unfolding fileinfo_key text_eq
  fileinfo_key-field_id [] p e = rw (← e)
  fileinfo_key-field_id (c ∷ v) p e = simp iequals_text

  pub fileinfo_key-tmobs :
      (v : Text) (p : AsciiProtoFileinfo)
      → p.tmobs ≡ []
      → (if nonempty v then fileinfo_key fl b (codes "tmobs") v p else p) ≡ record p { tmobs = v }
  unfolding fileinfo_key text_eq
  fileinfo_key-tmobs [] p e = rw (← e)
  fileinfo_key-tmobs (c ∷ v) p e = simp iequals_text

  pub fileinfo_key-subpath :
      (v : Text) (p : AsciiProtoFileinfo)
      → p.subpath ≡ []
      → (if nonempty v then fileinfo_key fl b (codes "subpath") v p else p)
        ≡ record p { subpath = v }
  unfolding fileinfo_key text_eq
  fileinfo_key-subpath [] p e = rw (← e)
  fileinfo_key-subpath (c ∷ v) p e = simp iequals_text

  pub fileinfo_key-filename :
      (v : Text) (p : AsciiProtoFileinfo)
      → p.filename ≡ []
      → (if nonempty v then fileinfo_key fl b (codes "filename") v p else p)
        ≡ record p { filename = v }
  unfolding fileinfo_key text_eq
  fileinfo_key-filename [] p e = rw (← e)
  fileinfo_key-filename (c ∷ v) p e = simp iequals_text

  pub fileinfo_key-filesize :
      (v : Text) (p : AsciiProtoFileinfo)
      → fileinfo_key fl b (codes "filesize") v p ≡ record p { filesize = atoi v }
  unfolding fileinfo_key text_eq
  fileinfo_key-filesize v p = simp iequals_text

  pub filestat_key-status :
      (v : Text) (p : AsciiProtoFilestat)
      → filestat_key fl b (codes "status") v p ≡ record p { status = atoi v }
  unfolding filestat_key text_eq
  filestat_key-status v p = simp iequals_text
