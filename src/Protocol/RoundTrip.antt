-- ===== src/Protocol/RoundTrip.antt =====
-- Resolve after CompactFileInfo and CompactFileStat: the two messages that the file server and its
-- clients exchange.
use ftserver.Protocol.Boost.{BoostText, LastNot}
use ftserver.Protocol.Numbers.{
  show_int, atoi-show_int, IsInt32, Digits, decimal-Digits, decimal-cons,
}
use ftserver.Protocol.{
  Floats, fileinfo, filestat, AsciiProtoFileinfo, make_apfileinfo, make_apfilestat,
  compact_fileinfo, compact_filestat, resolve, dispatch, fileinfo_key, filestat_key, nonempty,
  resolve_fileinfo, resolve_filestat, tokens_of,
}
use ftserver.Protocol.Tokens.{
  Field, IsClean, AreFields, trimmed, joined, joins, trim_right_if-joins, resolve-joined,
  walk-tokens, assign,
}
use ftserver.Protocol.Keys
use ftserver.Protocol.Keys.{iequals_text}
use ftserver.Base.{
  ℕ, suc, ◌≡◌, ◌≢◌, refl, sym, ap, ◌∙◌, subst, true, some, List, [], ◌∷◌, ◌++◌, Text, codes,
  text_eq, arith, ℤ, pos, negsuc, if_true,
}

-- What a printed number looks like to the parser and to the trimming.
Digits-IsClean : (t : Text) → Digits t → IsClean t
Digits-IsClean [] d = record { no_comma = tt; no_equals = tt; no_nul = tt; front = tt; back = tt }
Digits-IsClean (c ∷ []) d = record {
  no_comma = (ground arith, tt);
  no_equals = (ground arith, tt);
  no_nul = (ground arith, tt);
  front = ground arith;
  back = ground arith;
}
Digits-IsClean (c ∷ e ∷ t) d =
    let r = Digits-IsClean (e ∷ t) d.2 in
    record {
      no_comma = (ground arith, r.no_comma);
      no_equals = (ground arith, r.no_equals);
      no_nul = (ground arith, r.no_nul);
      front = ground arith;
      back = r.back;
    }

Digits-LastNot : (t : Text) → Digits t → LastNot trimmed t
Digits-LastNot [] d = tt
Digits-LastNot (c ∷ []) d = ground arith
Digits-LastNot (c ∷ e ∷ t) d = Digits-LastNot (e ∷ t) d.2

-- The same with a sign in front.
minus-IsClean : (c : ℕ) (t : Text) → Digits (c ∷ t) → IsClean (b'-' ∷ c ∷ t)
minus-IsClean c t d =
    let r = Digits-IsClean (c ∷ t) d in
    record {
      no_comma = (refl, r.no_comma);
      no_equals = (refl, r.no_equals);
      no_nul = (refl, r.no_nul);
      front = refl;
      back = r.back;
    }

abbrev pub IsNumber : Text → Type 0
IsNumber t = IsClean t × (t ≢ []) × LastNot trimmed t

pub show_int-IsNumber : (z : ℤ) → IsNumber (show_int z)
unfolding show_int
show_int-IsNumber (pos n) =
    let (c, cs, e) = decimal-cons (suc n) n (omega arith) in
    let d : Digits (c ∷ cs) = subst Digits e (decimal-Digits (suc n) n) in
    subst IsNumber (sym e) (Digits-IsClean (c ∷ cs) d, λ x. cc, Digits-LastNot (c ∷ cs) d)
show_int-IsNumber (negsuc n) =
    let (c, cs, e) = decimal-cons (suc (suc n)) (suc n) (omega arith) in
    let d : Digits (c ∷ cs) = subst Digits e (decimal-Digits (suc (suc n)) (suc n)) in
    subst (λ t. IsNumber (b'-' ∷ t)) (sym e)
      (minus-IsClean c cs d, λ x. cc, Digits-LastNot (c ∷ cs) d)

-- A file description that the format can carry.
pub record IsSendable (p : AsciiProtoFileinfo) : Type 0 where
  pub type_is : p.type ≡ codes "fileinfo"
  pub no_utc : p.utc ≡ []
  pub gid : IsClean p.gid
  pub uid : IsClean p.uid
  pub cid : IsClean p.cid
  pub grid : IsClean p.grid
  pub field : IsClean p.field
  pub tmobs : IsClean p.tmobs
  pub subpath : IsClean p.subpath
  pub filename : IsClean p.filename
  pub filesize : IsInt32 p.filesize

nonempty-ne : (t : Text) → t ≢ [] → nonempty t ≡ true
nonempty-ne [] h = absurd (h refl)
nonempty-ne (c ∷ t) h = refl

abbrev first_field : AsciiProtoFileinfo → Field
first_field p = (codes "group_id", p.gid)

abbrev other_fields : AsciiProtoFileinfo → List Field
other_fields p =
    (codes "unit_id", p.uid)
    ∷ (codes "cam_id", p.cid)
    ∷ (codes "grid_id", p.grid)
    ∷ (codes "field_id", p.field)
    ∷ (codes "tmobs", p.tmobs)
    ∷ (codes "subpath", p.subpath)
    ∷ (codes "filename", p.filename)
    ∷ (codes "filesize", show_int p.filesize)
    ∷ []

module _ (fl : Floats) (b : BoostText) where
  open b use {trim_right_if, iequals}

  compact_fileinfo-joins :
      (p : AsciiProtoFileinfo)
      → compact_fileinfo fl b p ≡ joins fl b (p.type ++ codes " ") (first_field p) (other_fields p)
  unfolding compact_fileinfo
  compact_fileinfo-joins p = refl

  pub compact_filestat-joins :
      (z : ℤ)
      → compact_filestat fl b (record make_apfilestat { status = z })
        ≡ joins fl b (codes "filestat ") (codes "status", show_int z) []
  unfolding compact_filestat
  compact_filestat-joins z = refl

  assign_fileinfo :
      (p : AsciiProtoFileinfo)
      → IsSendable p
      → assign fl b (fileinfo_key fl b) (first_field p ∷ other_fields p) make_apfileinfo ≡ p
  assign_fileinfo p s =
      let q : AsciiProtoFileinfo = make_apfileinfo in
      let q1 : AsciiProtoFileinfo = record q { base = record (q.base) { gid = p.gid } } in
      let q2 : AsciiProtoFileinfo = record q1 { base = record (q1.base) { uid = p.uid } } in
      let q3 : AsciiProtoFileinfo = record q2 { base = record (q2.base) { cid = p.cid } } in
      let q4 : AsciiProtoFileinfo = record q3 { grid = p.grid } in
      let q5 : AsciiProtoFileinfo = record q4 { field = p.field } in
      let q6 : AsciiProtoFileinfo = record q5 { tmobs = p.tmobs } in
      let q7 : AsciiProtoFileinfo = record q6 { subpath = p.subpath } in
      let q8 : AsciiProtoFileinfo = record q7 { filename = p.filename } in
      rw
        (
          Keys.fileinfo_key-group_id fl b p.gid q refl,
          Keys.fileinfo_key-unit_id fl b p.uid q1 refl,
          Keys.fileinfo_key-cam_id fl b p.cid q2 refl,
          Keys.fileinfo_key-grid_id fl b p.grid q3 refl,
          Keys.fileinfo_key-field_id fl b p.field q4 refl,
          Keys.fileinfo_key-tmobs fl b p.tmobs q5 refl,
          Keys.fileinfo_key-subpath fl b p.subpath q6 refl,
          Keys.fileinfo_key-filename fl b p.filename q7 refl,
        )
        (if_true _ q8 (nonempty-ne (show_int p.filesize) (show_int-IsNumber p.filesize).1)
          ∙ Keys.fileinfo_key-filesize fl b (show_int p.filesize) q8
          ∙ (λ i. record p {
            base = record (p.base) { type = sym s.type_is i; utc = sym s.no_utc i };
            filesize = atoi-show_int p.filesize s.filesize i;
          }))

  dispatch_fileinfo :
      (tokens : List Text)
      → dispatch fl b (codes "fileinfo") tokens ≡ some (fileinfo (resolve_fileinfo fl b tokens))
  unfolding dispatch text_eq
  dispatch_fileinfo tokens = simp iequals_text

  dispatch_filestat :
      (tokens : List Text)
      → dispatch fl b (codes "filestat") tokens ≡ some (filestat (resolve_filestat fl b tokens))
  unfolding dispatch text_eq
  dispatch_filestat tokens = simp iequals_text

  sendable_fields :
      (p : AsciiProtoFileinfo) → IsSendable p → AreFields (first_field p ∷ other_fields p)
  sendable_fields p s = (
    ground arith,
    s.gid,
    (
      ground arith,
      s.uid,
      (
        ground arith,
        s.cid,
        (
          ground arith,
          s.grid,
          (
            ground arith,
            s.field,
            (
              ground arith,
              s.tmobs,
              (
                ground arith,
                s.subpath,
                (ground arith, s.filename, (ground arith, (show_int-IsNumber p.filesize).0, tt)),
              ),
            ),
          ),
        ),
      ),
    ),
  )

  -- Resolve reads back every file description that CompactFileInfo prints and output_compacted
  -- trims, if its type is the constructor's, it carries no time, its texts hold no comma, no equals
  -- sign, no NUL and no space at their ends (they may be empty), and its size is a value of `int`.
  pub resolve-compact_fileinfo :
      (p : AsciiProtoFileinfo)
      → IsSendable p
      → resolve fl b (trim_right_if trimmed (compact_fileinfo fl b p)) ≡ some (fileinfo p)
  resolve-compact_fileinfo p s =
      let (clean, ne, last) = show_int-IsNumber p.filesize in
      ap (λ t. resolve fl b (trim_right_if trimmed t)) (compact_fileinfo-joins p)
      ∙ ap (resolve fl b) (
          trim_right_if-joins fl b (p.type ++ codes " ") (first_field p) (other_fields p)
            (ne, last))
      ∙ ap (λ t. resolve fl b ((t ++ codes " ") ++ joined (first_field p) (other_fields p)))
          s.type_is
      ∙ resolve-joined fl b (codes "fileinfo") (first_field p) (other_fields p) (ground arith)
          (ground arith) (sendable_fields p s)
      ∙ dispatch_fileinfo (tokens_of fl b (joined (first_field p) (other_fields p)))
      ∙ ap (λ q. some (fileinfo q))
          (walk-tokens fl b (fileinfo_key fl b) (first_field p) (other_fields p) make_apfileinfo
              (sendable_fields p s)
            ∙ assign_fileinfo p s)

  -- Resolve reads back every status message that CompactFileStat prints and output_compacted trims, if
  -- it is as its constructor leaves it but for the status, and the status is a value of `int`.
  pub resolve-compact_filestat :
      (z : ℤ)
      → IsInt32 z
      → resolve fl b
          (trim_right_if trimmed (compact_filestat fl b (record make_apfilestat { status = z })))
        ≡ some (filestat (record make_apfilestat { status = z }))
  resolve-compact_filestat z h =
      let (clean, ne, last) = show_int-IsNumber z in
      let f : Field = (codes "status", show_int z) in
      ap (λ t. resolve fl b (trim_right_if trimmed t)) (compact_filestat-joins z)
      ∙ ap (resolve fl b) (trim_right_if-joins fl b (codes "filestat ") f [] (ne, last))
      ∙ resolve-joined fl b (codes "filestat") f [] (ground arith) (ground arith)
          (ground arith, clean, tt)
      ∙ dispatch_filestat (tokens_of fl b (joined f []))
      ∙ ap (λ q. some (filestat q))
          (walk-tokens fl b (filestat_key fl b) f [] make_apfilestat (ground arith, clean, tt)
            ∙ if_true _ make_apfilestat (nonempty-ne (show_int z) ne)
            ∙ Keys.filestat_key-status fl b (show_int z) make_apfilestat
            ∙ ap (λ v. record make_apfilestat { status = v }) (atoi-show_int z h))
