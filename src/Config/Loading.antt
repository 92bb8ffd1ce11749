-- ===== src/Config/Loading.antt =====
-- What LoadFile makes of a file.
use ftserver.Run.{ok}
use ftserver.Config.{
  Translator, Section, Document, ParamConfig, unsigned16, iequals, load_server, load_ntp,
  load_database, load_storage, load_template, load_section, load_sections, init_settings,
  storage_entries, template_entries, load_file,
}
use ftserver.Base.{
  text_eq, ◌≡◌, refl, ap, ◌∙◌, Bool, true, false, ◌||◌, none, some, [], ◌∷◌, Text, codes,
  if◌then◌else◌, pos, arith,
}
use ftserver.Config.Sections.{
  Shows, get_int-none, load_server-default, load_ntp-default, load_database-default,
  load_storage-written, load_template-written,
}

module _ (tr : Translator) where
  -- What the library shows of the file that InitFile writes.
  pub record IsInitial (server ntp database storage template : Section) : Type 0 where
    pub no_port : server (codes "Server.<xmlattr>.Port") ≡ none
    pub no_enable : ntp (codes "NTP.<xmlattr>.Enable") ≡ none
    pub no_ip : ntp (codes "NTP.<xmlattr>.IP") ≡ none
    pub no_difference : ntp (codes "NTP.<xmlattr>.Difference") ≡ none
    pub no_database : database (codes "Database.<xmlattr>.Enable") ≡ none
    pub no_url : database (codes "Database.<xmlattr>.URL") ≡ none
    pub storage_shows : Shows (storage_entries tr) storage
    pub template_shows : Shows (template_entries tr) template

  abbrev pub initial : (server ntp database storage template version date : Section) → Document
  initial server ntp database storage template version date =
      (codes "version", version)
      ∷ (codes "date", date)
      ∷ (codes "Server", server)
      ∷ (codes "NTP", ntp)
      ∷ (codes "Database", database)
      ∷ (codes "LocalStorage", storage)
      ∷ (codes "Template", template)
      ∷ []

  load_other :
      (s : Section) (p : ParamConfig)
      → (load_section tr (codes "version") s p ≡ p) × (load_section tr (codes "date") s p ≡ p)
  unfolding load_section text_eq
  load_other s p = (refl, refl)

  -- LoadFile reads back the settings of InitFile from what the library shows of the file that
  -- InitFile wrote, whatever the settings were before and whether the file can still be written.
  pub load_file-init_settings :
      (writes : Bool) (filepath : Text) (p : ParamConfig)
      (server ntp database storage template version date : Section)
      → IsInitial server ntp database storage template
      → load_file tr writes filepath
          (some (initial server ntp database storage template version date))
          p
        ≡ ok (init_settings tr filepath p)
  unfolding load_file load_sections init_settings
  load_file-init_settings writes filepath p server ntp database storage template version date i =
      let q0 : ParamConfig = record p { pathxml = filepath; path_storage = [] } in
      let q2 : ParamConfig = record q0 { port = 4020 } in
      let q3 : ParamConfig = record q2 {
        b_ntp = true;
        ip_ntp = codes "172.28.1.3";
        diff_ntp = pos 100;
      } in
      let d3 : Document = (codes "LocalStorage", storage) ∷ (codes "Template", template) ∷ [] in
      let d2 : Document = (codes "Database", database) ∷ d3 in
      let d1 : Document = (codes "NTP", ntp) ∷ d2 in
      ap ok (
        ap (λ q. load_sections tr ((codes "date", date) ∷ (codes "Server", server) ∷ d1) q)
          (load_other version q0).0
        ∙ ap (λ q. load_sections tr ((codes "Server", server) ∷ d1) q) (load_other date q0).1
        ∙ ap (load_sections tr d1) (load_server-default tr server q0 i.no_port)
        ∙ ap (load_sections tr d2) (load_ntp-default tr ntp q2 i.no_enable i.no_ip i.no_difference)
        ∙ ap (load_sections tr d3) (load_database-default tr database q3 i.no_database i.no_url)
        ∙ ap (λ q. load_section tr (codes "Template") template q)
            (load_storage-written tr storage _ i.storage_shows)
        ∙ load_template-written tr template _ i.template_shows)

  -- Whether a section is one that sets the port.
  abbrev pub has_server : Document → Bool
  has_server [] = false
  has_server ((name, s) ∷ rest) = iequals name (codes "Server") || has_server rest

  -- No section has a section named Server inside itself.
  abbrev pub NoInnerServer : Document → Type 0
  NoInnerServer [] = Unit {0}
  NoInnerServer ((name, s) ∷ rest) = (s (codes "Server.<xmlattr>.Port") ≡ none) × NoInnerServer rest

  load_section-port :
      (name : Text) (s : Section) (p : ParamConfig)
      → s (codes "Server.<xmlattr>.Port") ≡ none
      → (load_section tr name s p).port ≡ (if iequals name (codes "Server") then 4020 else p.port)
  unfolding load_section load_server load_ntp load_database load_storage load_template
  load_section-port name s p e =
      ground (arith, ap unsigned16 (get_int-none tr s (codes "Server.<xmlattr>.Port") (pos 4020) e))

  -- The port that LoadFile sets does not depend on the port that the file gives: unless some section
  -- contains a further section named Server, it is 4020 if there is a Server section, and is left as
  -- it was if there is none.
  pub load_sections-port :
      (doc : Document) (p : ParamConfig)
      → NoInnerServer doc
      → (load_sections tr doc p).port ≡ (if has_server doc then 4020 else p.port)
  unfolding load_sections
  load_sections-port [] p h = refl
  load_sections-port ((name, s) ∷ rest) p h = ground (
    arith,
    load_sections-port rest (load_section tr name s p) h.1,
    load_section-port name s p h.0,
  )
