-- ===== src/Config.antt =====
-- src/parameter.h, struct param_config. The XML file is seen as boost::property_tree shows it: the
-- sections below the root in their order, each by what its get finds at a path. How a path's text
-- becomes a number or a truth value, and back, is the translators' of that library, a parameter.
pub mod Sections
pub mod Loading
use ftserver.Run.{Run, ok, fault, uncaught}
use ftserver.Protocol.Boost.{to_lower}
use ftserver.Protocol.Numbers.{show_int}
use ftserver.Base.{
  ℕ, zero, suc, ◌+◌, ◌-◌, ◌%◌, ◌^◌, ◌≡◌, Bool, true, false, ◌&&◌, Option, none, some, List, [], ◌∷◌,
  ◌++◌, map, Text, codes, text_eq, if◌then◌else◌, ℤ, pos, negsuc, pos_part, ◌==ℤ◌,
}

-- What the library's stream translators do with numbers and truth values.
pub record Translator : Type 0 where
  pub of_int : ℤ → Text
  pub to_int : Text → Option ℤ
  pub of_bool : Bool → Text
  pub to_bool : Text → Option Bool
  pub to_int-of_int : (z : ℤ) → to_int (of_int z) ≡ some z
  pub to_bool-of_bool : (t : Bool) → to_bool (of_bool t) ≡ some t

-- A section: the text that stands at a path, if any.
abbrev pub Section : Type 0
Section = Text → Option Text

abbrev pub Document : Type 0
Document = List (Text × Section)

pub record ParamConfig : Type 0 where
  pub port : ℕ
  pub b_ntp : Bool
  pub ip_ntp : Text
  pub diff_ntp : ℤ
  pub b_db : Bool
  pub url_db : Text
  pub b_free_storage : Bool
  pub min_disk_storage : ℤ
  pub n_storage : ℤ
  pub i_storage : ℤ
  pub i_old : ℤ
  pub path_storage : List Text
  pub b_notify_storage : Bool
  pub path_notify_storage : Text
  pub b_free_template : Bool
  pub min_disk_template : ℤ
  pub n_template : ℤ
  pub path_template : List Text
  pub pathxml : Text

-- The conversion of an int to uint16_t.
abbrev pub unsigned16 : ℤ → ℕ
unsigned16 (pos n) = n % 2 ^ 16
unsigned16 (negsuc n) = 2 ^ 16 - 1 - n % 2 ^ 16

-- The paths that are read and written, after the section's name.
abbrev pub enable_path : Text
enable_path = codes "AutoFree.<xmlattr>.Enable"

abbrev pub capacity_path : Text
capacity_path = codes "AutoFree.<xmlattr>.MinimumCapacity"

abbrev pub number_path : Text
number_path = codes "DiskNumber.<xmlattr>.Value"

abbrev pub index_path : Text
index_path = codes "DiskIndex.<xmlattr>.Value"

abbrev pub notify_path : Text
notify_path = codes "Notify.<xmlattr>.Enable"

abbrev pub notify_file_path : Text
notify_file_path = codes "Notify.<xmlattr>.FilePath"

abbrev pub directory_path : Text
directory_path = codes "Directory.<xmlattr>.Number"

-- boost::format("PathRoot#%d.<xmlattr>.Name") % i
unfoldable pub root_path : ℕ → Text
root_path i = codes "PathRoot#" ++ show_int (pos i) ++ codes ".<xmlattr>.Name"

abbrev pub url_default : Text
url_default = codes "http://172.28.8.8:8080/gwebend/"

abbrev pub notify_default : Text
notify_default = codes "/data/GWAC/xMatch_Dir/LocalStorage.txt"

-- boost::iequals
abbrev pub iequals : Text → Text → Bool
iequals a c = text_eq (map to_lower a) (map to_lower c)

module _ (tr : Translator) where
  open tr use {of_int, to_int, of_bool, to_bool}

  -- ptree::get with a default: where nothing stands, or what stands there does not translate.
  abbrev pub get_text : Section → Text → Text → Text
  get_text s path default = elim (s path) [ none ↦ default | some t ↦ t ]

  abbrev or_default {ℓ} : {A : Type ℓ} → A → Option A → A
  or_default default none = default
  or_default default (some a) = a

  abbrev pub get_int : Section → Text → ℤ → ℤ
  get_int s path default = elim (s path) [ none ↦ default | some t ↦ or_default default (to_int t) ]

  abbrev pub get_bool : Section → Text → Bool → Bool
  get_bool s path default = elim (s path) [
    | none ↦ default
    | some t ↦ or_default default (to_bool t)
  ]

  -- `for (int i = 1; i <= n; ++i)`, with the rounds left: the paths that are appended.
  pub root_paths : Section → ℕ → ℕ → List Text
  root_paths s i zero = []
  root_paths s i (suc rounds) =
      get_text s (root_path i) (codes "/data") ∷ root_paths s (i + 1) rounds

  -- The branches of LoadFile's loop.
  unfoldable pub load_server : Section → ParamConfig → ParamConfig
  load_server s p = record p {
    port = unsigned16 (get_int s (codes "Server.<xmlattr>.Port") (pos 4020));
  }

  unfoldable pub load_ntp : Section → ParamConfig → ParamConfig
  load_ntp s p = record p {
    b_ntp = get_bool s (codes "NTP.<xmlattr>.Enable") true;
    ip_ntp = get_text s (codes "NTP.<xmlattr>.IP") (codes "172.28.1.3");
    diff_ntp = get_int s (codes "NTP.<xmlattr>.Difference") (pos 100);
  }

  unfoldable pub load_database : Section → ParamConfig → ParamConfig
  load_database s p = record p {
    b_db = get_bool s (codes "Database.<xmlattr>.Enable") true;
    url_db = get_text s (codes "Database.<xmlattr>.URL") url_default;
  }

  unfoldable pub load_storage : Section → ParamConfig → ParamConfig
  load_storage s p =
      let n = get_int s number_path (pos 1) in
      let i = get_int s index_path (pos 0) in
      record p {
        b_free_storage = get_bool s enable_path true;
        min_disk_storage = get_int s capacity_path (pos 100);
        n_storage = n;
        i_storage = i;
        i_old = i;
        path_storage = p.path_storage ++ root_paths s 1 (pos_part n);
        b_notify_storage = get_bool s notify_path true;
        path_notify_storage = get_text s notify_file_path notify_default;
      }

  unfoldable pub load_template : Section → ParamConfig → ParamConfig
  load_template s p =
      let n = get_int s directory_path (pos 1) in
      record p {
        b_free_template = get_bool s enable_path true;
        min_disk_template = get_int s capacity_path (pos 1000);
        n_template = n;
        path_template = p.path_template ++ root_paths s 1 (pos_part n);
      }

  -- One child of the root.
  unfoldable pub load_section : Text → Section → ParamConfig → ParamConfig
  load_section name s p =
      if iequals name (codes "Server")
      then load_server s p
      else if iequals name (codes "NTP")
      then load_ntp s p
      else if iequals name (codes "Database")
      then load_database s p
      else if iequals name (codes "LocalStorage")
      then load_storage s p
      else if iequals name (codes "Template")
      then load_template s p
      else p

  pub load_sections : Document → ParamConfig → ParamConfig
  load_sections [] p = p
  load_sections ((name, s) ∷ rest) p = load_sections rest (load_section name s p)

  -- InitFile: the settings, and what is added below each section's node, in order.
  unfoldable pub init_settings : Text → ParamConfig → ParamConfig
  init_settings filepath p = record {
    port = 4020;
    b_ntp = true;
    ip_ntp = codes "172.28.1.3";
    diff_ntp = pos 100;
    b_db = true;
    url_db = url_default;
    b_free_storage = true;
    min_disk_storage = pos 100;
    n_storage = pos 3;
    i_storage = pos 0;
    i_old = pos 0;
    path_storage = codes "/data1" ∷ codes "/data2" ∷ codes "/data3" ∷ [];
    b_notify_storage = true;
    path_notify_storage = notify_default;
    b_free_template = true;
    min_disk_template = pos 1000;
    n_template = pos 2;
    path_template = p.path_template ++ codes "/data/GWAC/output" ∷ codes "/data/GWAC/gwacsub" ∷ [];
    pathxml = filepath;
  }

  unfoldable pub storage_entries : List (Text × Text)
  storage_entries =
      (enable_path, of_bool true)
      ∷ (capacity_path, of_int (pos 100))
      ∷ (number_path, of_int (pos 3))
      ∷ (index_path, of_int (pos 0))
      ∷ (codes "PathRoot#1.<xmlattr>.Name", codes "/data1")
      ∷ (codes "PathRoot#2.<xmlattr>.Name", codes "/data2")
      ∷ (codes "PathRoot#3.<xmlattr>.Name", codes "/data3")
      ∷ (notify_path, of_bool true)
      ∷ (notify_file_path, notify_default)
      ∷ []

  unfoldable pub template_entries : List (Text × Text)
  template_entries =
      (enable_path, of_bool true)
      ∷ (capacity_path, of_int (pos 1000))
      ∷ (directory_path, of_int (pos 2))
      ∷ (codes "PathRoot#1.<xmlattr>.Name", codes "/data/GWAC/output")
      ∷ (codes "PathRoot#2.<xmlattr>.Name", codes "/data/GWAC/gwacsub")
      ∷ []

  -- InitFile, with whether the file can be written: write_xml throws if not, and nothing catches that.
  unfoldable pub init_file : Bool → Text → ParamConfig → Run ParamConfig
  init_file writes filepath p = if writes then ok (init_settings filepath p) else fault uncaught

  -- LoadFile, with the document that read_xml gives, `none` for an xml_parser_error.
  unfoldable pub load_file : Bool → Text → Option Document → ParamConfig → Run ParamConfig
  load_file writes filepath none p = init_file writes filepath (record p { path_storage = [] })
  load_file writes filepath (some doc) p =
      ok (load_sections doc (record p { pathxml = filepath; path_storage = [] }))

  -- ~param_config: what is put below the first LocalStorage section before the file is written.
  unfoldable pub index_update : ParamConfig → Option (Text × Text)
  index_update p = if p.i_storage ==ℤ p.i_old then none else some (index_path, of_int p.i_storage)
