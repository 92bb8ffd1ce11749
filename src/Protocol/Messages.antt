-- ===== src/Protocol/Messages.antt =====
-- src/AsciiProtocolBase.h and src/AsciiProtocol.h: the four messages. A shared pointer to a message is
-- an `Option`, a std::string a list of bytes.
use ftserver.Base.{[], Text, codes, ℤ, pos}

-- The type float with the C library's atof, and a value as an ostream prints it.
pub record Floats : Type 1 where
  pub Float : Type 0
  pub flt_min : Float
  pub atof : Text → Float
  pub show : Float → Text

-- ascii_proto_base
pub record AsciiProtoBase : Type 0 where
  pub type : Text
  pub utc : Text
  pub gid : Text
  pub uid : Text
  pub cid : Text

abbrev pub new_base : Text → AsciiProtoBase
new_base type = record { type = type; utc = []; gid = []; uid = []; cid = [] }

pub record AsciiProtoFileinfo : Type 0 where
  pub base : AsciiProtoBase
  pub open base use *
  pub grid : Text
  pub field : Text
  pub tmobs : Text
  pub subpath : Text
  pub filename : Text
  pub filesize : ℤ

pub record AsciiProtoFilestat : Type 0 where
  pub base : AsciiProtoBase
  pub open base use *
  pub status : ℤ

-- The constructors of the two structs.
abbrev pub make_apfileinfo : AsciiProtoFileinfo
make_apfileinfo = record {
  base = new_base (codes "fileinfo");
  grid = [];
  field = [];
  tmobs = [];
  subpath = [];
  filename = [];
  filesize = pos 0;
}

abbrev pub make_apfilestat : AsciiProtoFilestat
make_apfilestat = record { base = new_base (codes "filestat"); status = pos 0 }

module _ (fl : Floats) where
  open fl use {Float, flt_min}

  pub record AsciiProtoCooler : Type 0 where
    pub base : AsciiProtoBase
    pub open base use *
    pub voltage : Float
    pub current : Float
    pub hotend : Float
    pub coolget : Float
    pub coolset : Float

  pub record AsciiProtoVacuum : Type 0 where
    pub base : AsciiProtoBase
    pub open base use *
    pub voltage : Float
    pub current : Float
    pub pressure : Text

  abbrev pub make_apcooler : AsciiProtoCooler
  make_apcooler = record {
    base = new_base (codes "cooler");
    voltage = flt_min;
    current = flt_min;
    hotend = flt_min;
    coolget = flt_min;
    coolset = flt_min;
  }

  abbrev pub make_apvacuum : AsciiProtoVacuum
  make_apvacuum = record {
    base = new_base (codes "vacuum");
    voltage = flt_min;
    current = flt_min;
    pressure = [];
  }

  -- The values behind an `apbase`.
  pub data Proto : Type 0 where
    cooler : AsciiProtoCooler → Proto
    vacuum : AsciiProtoVacuum → Proto
    fileinfo : AsciiProtoFileinfo → Proto
    filestat : AsciiProtoFilestat → Proto
