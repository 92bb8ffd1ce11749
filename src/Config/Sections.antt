-- ===== src/Config/Sections.antt =====
-- What LoadFile makes of the sections of a file.
use ftserver.Config.{
  Translator, Section, ParamConfig, unsigned16, number_path, index_path, directory_path, root_path,
  url_default, notify_default, get_text, get_int, get_bool, root_paths, load_server, load_ntp,
  load_database, load_storage, load_template, load_section, storage_entries, template_entries,
}
use ftserver.Protocol.Numbers.{show_int, decimal}
use ftserver.Base.{
  text_eq, ℕ, suc, ◌+◌, ◌≡◌, ap, ◌∙◌, Bool, true, none, some, List, [], ◌∷◌, ◌++◌, Text, codes, ℤ,
  pos, pos_part, arith,
}

-- The section shows what was written into it: each value at its path.
abbrev pub Shows : List (Text × Text) → Section → Type 0
Shows [] s = Unit {0}
Shows ((path, value) ∷ es) s = (s path ≡ some value) × Shows es s

module _ (tr : Translator) where
  pub get_int-none :
      (s : Section) (path : Text) (default : ℤ)
      → s path ≡ none
      → get_int tr s path default ≡ default
  get_int-none s path default e = ground (arith, e)

  get_bool-none :
      (s : Section) (path : Text) (default : Bool)
      → s path ≡ none
      → get_bool tr s path default ≡ default
  get_bool-none s path default e = ground (arith, e)

  get_text-none :
      (s : Section) (path default : Text) → s path ≡ none → get_text tr s path default ≡ default
  get_text-none s path default e = ground (arith, e)

  get_int-written :
      (s : Section) (path : Text) (default z : ℤ)
      → s path ≡ some (tr.of_int z)
      → get_int tr s path default ≡ z
  get_int-written s path default z e = ground (arith, e, tr.to_int-of_int z)

  get_bool-written :
      (s : Section) (path : Text) (default t : Bool)
      → s path ≡ some (tr.of_bool t)
      → get_bool tr s path default ≡ t
  get_bool-written s path default t e = ground (arith, e, tr.to_bool-of_bool t)

  get_text-written :
      (s : Section) (path default t : Text) → s path ≡ some t → get_text tr s path default ≡ t
  get_text-written s path default t e = ground (arith, e)

  pub load_server-default :
      (s : Section) (p : ParamConfig)
      → s (codes "Server.<xmlattr>.Port") ≡ none
      → load_section tr (codes "Server") s p ≡ record p { port = 4020 }
  unfolding load_section load_server text_eq
  load_server-default s p e = λ i. record p { port = unsigned16 (get_int-none s _ (pos 4020) e i) }

  pub load_ntp-default :
      (s : Section) (p : ParamConfig)
      → s (codes "NTP.<xmlattr>.Enable") ≡ none
      → s (codes "NTP.<xmlattr>.IP") ≡ none
      → s (codes "NTP.<xmlattr>.Difference") ≡ none
      → load_section tr (codes "NTP") s p
        ≡ record p { b_ntp = true; ip_ntp = codes "172.28.1.3"; diff_ntp = pos 100 }
  unfolding load_section load_ntp text_eq
  load_ntp-default s p e f g = λ i. record p {
    b_ntp = get_bool-none s _ true e i;
    ip_ntp = get_text-none s _ (codes "172.28.1.3") f i;
    diff_ntp = get_int-none s _ (pos 100) g i;
  }

  pub load_database-default :
      (s : Section) (p : ParamConfig)
      → s (codes "Database.<xmlattr>.Enable") ≡ none
      → s (codes "Database.<xmlattr>.URL") ≡ none
      → load_section tr (codes "Database") s p ≡ record p { b_db = true; url_db = url_default }
  unfolding load_section load_database text_eq
  load_database-default s p e f = λ i. record p {
    b_db = get_bool-none s _ true e i;
    url_db = get_text-none s _ url_default f i;
  }

  root_paths-cons :
      (s : Section) (i rounds : ℕ) (t : Text)
      → s (root_path i) ≡ some t
      → root_paths tr s i (suc rounds) ≡ t ∷ root_paths tr s (i + 1) rounds
  unfolding root_paths
  root_paths-cons s i rounds t e =
      ap (λ x. x ∷ root_paths tr s (i + 1) rounds) (get_text-written s (root_path i) _ t e)

  three_paths :
      (s : Section) (n : ℤ) (t u v : Text)
      → n ≡ pos 3
      → s (codes "PathRoot#1.<xmlattr>.Name") ≡ some t
      → s (codes "PathRoot#2.<xmlattr>.Name") ≡ some u
      → s (codes "PathRoot#3.<xmlattr>.Name") ≡ some v
      → root_paths tr s 1 (pos_part n) ≡ t ∷ u ∷ v ∷ []
  unfolding root_paths root_path show_int decimal
  three_paths s n t u v e a c d =
      ap (λ z. root_paths tr s 1 (pos_part z)) e
      ∙ root_paths-cons s 1 2 t a
      ∙ ap (λ x. t ∷ x) (root_paths-cons s 2 1 u c ∙ ap (λ x. u ∷ x) (root_paths-cons s 3 0 v d))

  two_paths :
      (s : Section) (n : ℤ) (t u : Text)
      → n ≡ pos 2
      → s (codes "PathRoot#1.<xmlattr>.Name") ≡ some t
      → s (codes "PathRoot#2.<xmlattr>.Name") ≡ some u
      → root_paths tr s 1 (pos_part n) ≡ t ∷ u ∷ []
  unfolding root_paths root_path show_int decimal
  two_paths s n t u e a c =
      ap (λ z. root_paths tr s 1 (pos_part z)) e
      ∙ root_paths-cons s 1 1 t a
      ∙ ap (λ x. t ∷ x) (root_paths-cons s 2 0 u c)

  pub load_storage-written :
      (s : Section) (p : ParamConfig)
      → Shows (storage_entries tr) s
      → load_section tr (codes "LocalStorage") s p ≡ record p {
        b_free_storage = true;
        min_disk_storage = pos 100;
        n_storage = pos 3;
        i_storage = pos 0;
        i_old = pos 0;
        path_storage = p.path_storage ++ codes "/data1" ∷ codes "/data2" ∷ codes "/data3" ∷ [];
        b_notify_storage = true;
        path_notify_storage = notify_default;
      }
  unfolding load_section load_storage storage_entries text_eq
  load_storage-written s p (a0, (a1, (a2, (a3, (a4, (a5, (a6, (a7, (a8, _))))))))) =
      let n : get_int tr s number_path (pos 1) ≡ pos 3 = get_int-written s _ (pos 1) (pos 3) a2 in
      let at : get_int tr s index_path (pos 0) ≡ pos 0 = get_int-written s _ (pos 0) (pos 0) a3 in
      λ i. record p {
        b_free_storage = get_bool-written s _ true true a0 i;
        min_disk_storage = get_int-written s _ (pos 100) (pos 100) a1 i;
        n_storage = n i;
        i_storage = at i;
        i_old = at i;
        path_storage = p.path_storage ++ three_paths s _ _ _ _ n a4 a5 a6 i;
        b_notify_storage = get_bool-written s _ true true a7 i;
        path_notify_storage = get_text-written s _ notify_default _ a8 i;
      }

  pub load_template-written :
      (s : Section) (p : ParamConfig)
      → Shows (template_entries tr) s
      → load_section tr (codes "Template") s p ≡ record p {
        b_free_template = true;
        min_disk_template = pos 1000;
        n_template = pos 2;
        path_template =
            p.path_template ++ codes "/data/GWAC/output" ∷ codes "/data/GWAC/gwacsub" ∷ [];
      }
  unfolding load_section load_template template_entries text_eq
  load_template-written s p (a0, (a1, (a2, (a3, (a4, _))))) =
      let n : get_int tr s directory_path (pos 1) ≡ pos 2 =
        get_int-written s _ (pos 1) (pos 2) a2 in
      λ i. record p {
        b_free_template = get_bool-written s _ true true a0 i;
        min_disk_template = get_int-written s _ (pos 1000) (pos 1000) a1 i;
        n_template = n i;
        path_template = p.path_template ++ two_paths s _ _ _ n a3 a4 i;
      }
