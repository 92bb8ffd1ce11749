-- ===== src/Tests/Config.antt =====
-- Runs of the settings file, with numbers written in two bytes.
use ftserver.Config.{
  Translator, Section, Document, ParamConfig, load_file, load_sections, init_settings,
  storage_entries, template_entries,
}
use ftserver.Config.Loading.{
  IsInitial, initial, load_file-init_settings, has_server, load_sections-port,
}
use ftserver.Config.Sections.{Shows}
use ftserver.Agent.Service.{Surroundings, make_service, start_service}
use ftserver.Agent.Starting.{Starts, start_service-Starts}
use ftserver.Run.{ok, Ensures}
use ftserver.Base.{
  ◌*◌, ◌^◌, ◌≡◌, refl, Bool, true, false, Option, none, some, List, [], ◌∷◌, Text, codes, text_eq,
  ◌==◌, if◌then◌else◌, ℤ, pos, negsuc, length,
}

abbrev of_int : ℤ → Text
of_int (pos n) = b'+' ∷ n ∷ []
of_int (negsuc n) = b'-' ∷ n ∷ []

abbrev to_int : Text → Option ℤ
to_int (c ∷ n ∷ []) = if c == b'+' then some (pos n) else some (negsuc n)
to_int _ = none

abbrev of_bool : Bool → Text
of_bool true = codes "true"
of_bool false = codes "false"

abbrev to_bool : Text → Option Bool
to_bool (c ∷ _) = some (c == b't')
to_bool [] = none

pub to_int-of_int : (z : ℤ) → to_int (of_int z) ≡ some z
to_int-of_int (pos n) = refl
to_int-of_int (negsuc n) = refl

pub to_bool-of_bool : (t : Bool) → to_bool (of_bool t) ≡ some t
to_bool-of_bool true = refl
to_bool-of_bool false = refl

abbrev pub translator : Translator
translator = record {
  of_int = of_int;
  to_int = to_int;
  of_bool = of_bool;
  to_bool = to_bool;
  to_int-of_int = to_int-of_int;
  to_bool-of_bool = to_bool-of_bool;
}

-- The section that shows these entries.
abbrev section_of : List (Text × Text) → Section
section_of [] path = none
section_of ((k, v) ∷ es) path = if text_eq k path then some v else section_of es path

abbrev port_entry : Section
port_entry = section_of ((codes "<xmlattr>.Port", of_int (pos 5000)) ∷ [])

abbrev storage : Section
storage = section_of (storage_entries translator)

abbrev template : Section
template = section_of (template_entries translator)

storage-Shows : Shows (storage_entries translator) storage
unfolding storage_entries text_eq
storage-Shows = (refl, (refl, (refl, (refl, (refl, (refl, (refl, (refl, (refl, tt)))))))))

template-Shows : Shows (template_entries translator) template
unfolding template_entries text_eq
template-Shows = (refl, (refl, (refl, (refl, (refl, tt)))))

abbrev no_section : Section
no_section path = none

written : IsInitial translator port_entry no_section no_section storage template
unfolding text_eq
written = record {
  no_port = refl;
  no_enable = refl;
  no_ip = refl;
  no_difference = refl;
  no_database = refl;
  no_url = refl;
  storage_shows = storage-Shows;
  template_shows = template-Shows;
}

abbrev pub unset : ParamConfig
unset = record {
  port = 0;
  b_ntp = false;
  ip_ntp = [];
  diff_ntp = pos 0;
  b_db = false;
  url_db = [];
  b_free_storage = false;
  min_disk_storage = pos 0;
  n_storage = pos 1;
  i_storage = pos 0;
  i_old = pos 0;
  path_storage = codes "/data" ∷ [];
  b_notify_storage = false;
  path_notify_storage = [];
  b_free_template = false;
  min_disk_template = pos 0;
  n_template = pos 1;
  path_template = codes "/data" ∷ [];
  pathxml = [];
}

load_file-init_settings_example :
    load_file translator false
      (codes "/etc/f.xml")
      (some (
        initial translator port_entry no_section no_section storage template no_section no_section))
      unset
    ≡ ok (init_settings translator (codes "/etc/f.xml") unset)
load_file-init_settings_example =
    load_file-init_settings translator false (codes "/etc/f.xml") unset port_entry no_section
      no_section storage template no_section no_section written

abbrev one_server : Document
one_server = (codes "server", port_entry) ∷ []

one_server-plain : port_entry (codes "Server.<xmlattr>.Port") ≡ none
unfolding text_eq
one_server-plain = refl

load_sections-port_example :
    (load_sections translator one_server unset).port
    ≡ (if has_server translator one_server then 4020 else 0)
load_sections-port_example = load_sections-port translator one_server unset (one_server-plain, tt)

abbrev pub surroundings : Surroundings
surroundings = record {
  available = λ path. length path * 2 ^ 30;
  time = codes "2017-11-23T15:29:38";
  opened = true;
  thrown = none;
}

start_service-Starts_example :
    Ensures
      (Starts surroundings (make_service unset))
      (start_service surroundings (make_service unset))
start_service-Starts_example = start_service-Starts surroundings (make_service unset)
