-- ===== src/Protocol.antt =====
-- src/AsciiProtocol.h and src/AsciiProtocol.cpp: the printing of the messages of Protocol/Messages
-- (Compact…, without the output buffers, which Protocol/Output.antt has) and their parsing (Resolve).
pub mod Messages
pub mod Boost
pub mod Numbers
pub mod Output
pub mod Tokens
pub mod Keys
pub mod RoundTrip
pub use Messages.{
  Floats, AsciiProtoBase, new_base, AsciiProtoFileinfo, AsciiProtoFilestat, make_apfileinfo,
  make_apfilestat, AsciiProtoCooler, AsciiProtoVacuum, make_apcooler, make_apvacuum, Proto, cooler,
  vacuum, fileinfo, filestat,
}
use Boost.{BoostText, is_space, is_punct}
use Numbers.{show_int, atoi}
use ftserver.Base.{
  ℕ, ◌≡◌, Bool, true, false, not, ◌&&◌, ◌||◌, Option, none, some, List, [], ◌∷◌, ◌++◌, map, Text,
  codes, ◌==◌, if◌then◌else◌, ℤ, pos, c_str,
}

abbrev pub nonempty : Text → Bool
nonempty [] = false
nonempty (_ ∷ _) = true

module _ (fl : Floats) where
  open fl use {atof, show}

  module _ (b : BoostText) where
    open b use {split, trim, trim_right_if, iequals, format_kv}

    -- join_kv, with the value as it is streamed.
    abbrev pub join_kv : Text → Text → Text → Text
    join_kv output keyword value = output ++ format_kv keyword value

    abbrev time_kv : Text → Text → Text
    time_kv output [] = output
    time_kv output (c ∷ utc) = join_kv output (codes "time") (c ∷ utc)

    -- The text that the Compact functions hand to output_compacted.
    unfoldable pub compact_cooler : AsciiProtoCooler fl → Text
    compact_cooler p =
        let o1 = time_kv (p.type ++ codes " ") p.utc in
        let o2 = join_kv o1 (codes "group_id") p.gid in
        let o3 = join_kv o2 (codes "unit_id") p.uid in
        let o4 = join_kv o3 (codes "cam_id") p.cid in
        let o5 = join_kv o4 (codes "voltage") (show p.voltage) in
        let o6 = join_kv o5 (codes "current") (show p.current) in
        let o7 = join_kv o6 (codes "hotend") (show p.hotend) in
        let o8 = join_kv o7 (codes "coolget") (show p.coolget) in
        join_kv o8 (codes "coolset") (show p.coolset)

    unfoldable pub compact_vacuum : AsciiProtoVacuum fl → Text
    compact_vacuum p =
        let o1 = time_kv (p.type ++ codes " ") p.utc in
        let o2 = join_kv o1 (codes "group_id") p.gid in
        let o3 = join_kv o2 (codes "unit_id") p.uid in
        let o4 = join_kv o3 (codes "cam_id") p.cid in
        let o5 = join_kv o4 (codes "voltage") (show p.voltage) in
        let o6 = join_kv o5 (codes "current") (show p.current) in
        join_kv o6 (codes "pressure") p.pressure

    unfoldable pub compact_fileinfo : AsciiProtoFileinfo → Text
    compact_fileinfo p =
        let o1 = join_kv (p.type ++ codes " ") (codes "group_id") p.gid in
        let o2 = join_kv o1 (codes "unit_id") p.uid in
        let o3 = join_kv o2 (codes "cam_id") p.cid in
        let o4 = join_kv o3 (codes "grid_id") p.grid in
        let o5 = join_kv o4 (codes "field_id") p.field in
        let o6 = join_kv o5 (codes "tmobs") p.tmobs in
        let o7 = join_kv o6 (codes "subpath") p.subpath in
        let o8 = join_kv o7 (codes "filename") p.filename in
        join_kv o8 (codes "filesize") (show_int p.filesize)

    unfoldable pub compact_filestat : AsciiProtoFilestat → Text
    compact_filestat p = join_kv (p.type ++ codes " ") (codes "status") (show_int p.status)

    -- The first token as the keyword and the second as the value, each trimmed.
    pub first_two : List Text → Text × Text
    first_two [] = ([], [])
    first_two (k ∷ []) = (trim k, [])
    first_two (k ∷ v ∷ _) = (trim k, trim v)

    -- resolve_kv: the result, the keyword and the value.
    unfoldable pub resolve_kv : Text → Bool × Text × Text
    unfolding first_two
    resolve_kv kv =
        let (keyword, value) = first_two (split (λ c. c == b'=') kv) in
        (nonempty keyword && nonempty value, keyword, value)

    -- The loops of resolve_cooler and its three siblings: what one key does, and the walk.
    pub cooler_key : Text → Text → AsciiProtoCooler fl → AsciiProtoCooler fl
    cooler_key k v p =
        if iequals k (codes "group_id")
        then record p { base = record (p.base) { gid = v } }
        else if iequals k (codes "unit_id")
        then record p { base = record (p.base) { uid = v } }
        else if iequals k (codes "cam_id")
        then record p { base = record (p.base) { cid = v } }
        else if iequals k (codes "voltage")
        then record p { voltage = atof v }
        else if iequals k (codes "current")
        then record p { current = atof v }
        else if iequals k (codes "hotend")
        then record p { hotend = atof v }
        else if iequals k (codes "coolget")
        then record p { coolget = atof v }
        else if iequals k (codes "coolset")
        then record p { coolset = atof v }
        else if iequals k (codes "time")
        then record p { base = record (p.base) { utc = v } }
        else p

    pub vacuum_key : Text → Text → AsciiProtoVacuum fl → AsciiProtoVacuum fl
    vacuum_key k v p =
        if iequals k (codes "group_id")
        then record p { base = record (p.base) { gid = v } }
        else if iequals k (codes "unit_id")
        then record p { base = record (p.base) { uid = v } }
        else if iequals k (codes "cam_id")
        then record p { base = record (p.base) { cid = v } }
        else if iequals k (codes "voltage")
        then record p { voltage = atof v }
        else if iequals k (codes "current")
        then record p { current = atof v }
        else if iequals k (codes "pressure")
        then record p { pressure = v }
        else if iequals k (codes "time")
        then record p { base = record (p.base) { utc = v } }
        else p

    pub fileinfo_key : Text → Text → AsciiProtoFileinfo → AsciiProtoFileinfo
    fileinfo_key k v p =
        if iequals k (codes "group_id")
        then record p { base = record (p.base) { gid = v } }
        else if iequals k (codes "unit_id")
        then record p { base = record (p.base) { uid = v } }
        else if iequals k (codes "cam_id")
        then record p { base = record (p.base) { cid = v } }
        else if iequals k (codes "grid_id")
        then record p { grid = v }
        else if iequals k (codes "field_id")
        then record p { field = v }
        else if iequals k (codes "tmobs")
        then record p { tmobs = v }
        else if iequals k (codes "subpath")
        then record p { subpath = v }
        else if iequals k (codes "filename")
        then record p { filename = v }
        else if iequals k (codes "filesize")
        then record p { filesize = atoi v }
        else p

    pub filestat_key : Text → Text → AsciiProtoFilestat → AsciiProtoFilestat
    filestat_key k v p = if iequals k (codes "status") then record p { status = atoi v } else p

    -- `for (it = tokens.begin(); …)`, over what a key does to a message.
    pub walk {ℓ} : {P : Type ℓ} → (Text → Text → P → P) → List Text → P → P
    walk key [] p = p
    walk key (t ∷ ts) p = let (ok, k, v) = resolve_kv t in walk key ts (if ok then key k v p else p)

    abbrev pub resolve_cooler : List Text → AsciiProtoCooler fl
    resolve_cooler tokens = walk cooler_key tokens (make_apcooler fl)

    abbrev pub resolve_vacuum : List Text → AsciiProtoVacuum fl
    resolve_vacuum tokens = walk vacuum_key tokens (make_apvacuum fl)

    abbrev pub resolve_fileinfo : List Text → AsciiProtoFileinfo
    resolve_fileinfo tokens = walk fileinfo_key tokens make_apfileinfo

    abbrev pub resolve_filestat : List Text → AsciiProtoFilestat
    resolve_filestat tokens = walk filestat_key tokens make_apfilestat

    -- The two scanning loops of Resolve over a C string (its bytes before the NUL).
    pub type_of : Text → Text
    type_of [] = []
    type_of (c ∷ s) = elim (c == b' ') [ true ↦ [] | false ↦ c ∷ type_of s ]

    pub skip_blanks : Text → Text
    skip_blanks [] = []
    skip_blanks (c ∷ s) = elim (c == b' ') [ true ↦ skip_blanks s | false ↦ c ∷ s ]

    pub after_type : Text → Text
    unfolding skip_blanks
    after_type [] = []
    after_type (c ∷ s) = elim (c == b' ') [ true ↦ skip_blanks s | false ↦ after_type s ]

    -- `if (*ptr) split(tokens, ptr, ",", token_compress_on);`
    abbrev pub tokens_of : Text → List Text
    tokens_of [] = []
    tokens_of (c ∷ s) = split (λ d. d == b',') (c ∷ s)

    -- type[0], which is NUL for the empty text.
    abbrev first_byte : Text → ℕ
    first_byte [] = 0
    first_byte (c ∷ _) = c

    unfoldable pub dispatch : Text → List Text → Option (Proto fl)
    unfolding walk resolve_kv cooler_key vacuum_key fileinfo_key filestat_key
    dispatch type tokens =
        let ch = first_byte type in
        if ch == b'a'
        then none
        else if ch == b'b'
        then none
        else if ch == b'c'
        then (if iequals type (codes "cooler") then some (cooler (resolve_cooler tokens)) else none)
        else if ch == b'f'
        then (if iequals type (codes "fileinfo")
            then some (fileinfo (resolve_fileinfo tokens))
            else if iequals type (codes "filestat")
            then some (filestat (resolve_filestat tokens))
            else none)
        else if ch == b'v'
        then (if iequals type (codes "vacuum") then some (vacuum (resolve_vacuum tokens)) else none)
        else none

    -- Resolve, which takes its argument as a C string.
    unfoldable pub resolve : Text → Option (Proto fl)
    unfolding dispatch type_of after_type
    resolve rcvd = let s = c_str rcvd in dispatch (type_of s) (tokens_of (after_type s))
