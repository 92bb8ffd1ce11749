-- ===== src/Transfer/Registering.antt =====
-- src/FileWritter.cpp, the registration of a stored file in save_first, with what DataTransfer makes of
-- it: the form that is posted, and the answer, which is copied into an area of 200 bytes.
use ftserver.Run.{Run, ok, fault, out_of_bounds, ◌>>=◌, uninitialised}
use ftserver.Files.{FileInfo}
use ftserver.Transfer.{
  Request, Outcome, answered, contents, Result, gwac_success, printed, url_max_length,
  make_data_transfer, init_parameter, reg_orig_image, upload, upload_datas, insert, insert_all,
  judge, usable,
}
use ftserver.Transfer.Upload.{ask-judge}
use ftserver.Base.{
  ◌<◌, ◌≤◌, not, arith, length-append, ℕ, ◌+◌, ◌≡◌, refl, ap, ◌∙◌, Bool, true, false, none, some,
  [], ◌∷◌, ◌++◌, Text, codes, c_str, leb, if◌then◌else◌, if_false, length,
}

-- `char status[200];`
abbrev pub status_size : ℕ
status_size = 200

-- The texts of failures are not modelled, nor their length.
abbrev pub status_written : Result → Run Result
status_written r = elim r.status [ none ↦ ok r | some t ↦ do t' ← printed status_size t; ok r ]

module _ (perform : Request → Outcome) where
  -- db_->regOrigImage(…, status), for the data base at a root url.
  unfoldable pub register_file : Text → FileInfo → Text → Run Result
  register_file root f path = do
    r ←
        reg_orig_image perform (make_data_transfer perform root) f.gid f.uid f.cid f.grid f.field
          f.filename path f.tmobs true
    status_written r

-- The form: its fields in the order of their keys.
abbrev pub registration_request : Text → FileInfo → Text → Request
registration_request root f path = record {
  url = root ++ codes "regOrigImg.action";
  parts =
      contents (codes "camId") f.cid
      ∷ contents (codes "fieldId") f.field
      ∷ contents (codes "genTime") f.tmobs
      ∷ contents (codes "gridId") f.grid
      ∷ contents (codes "groupId") f.gid
      ∷ contents (codes "imgName") f.filename
      ∷ contents (codes "imgPath") path
      ∷ contents (codes "unitId") f.uid
      ∷ [];
}

if_kept :
    (b : Bool) (t : Text) (r : Result)
    → ((if b then ok t else fault out_of_bounds) >>= λ _. ok r)
      ≡ (if b then ok r else fault out_of_bounds)
if_kept true t r = refl
if_kept false t r = refl

usable_page : (root : Text) → usable (some (root ++ codes "regOrigImg.action")) ≡ true
usable_page [] = refl
usable_page (c ∷ root) = refl

module _ (perform : Request → Outcome) (root : Text) (f : FileInfo) (path : Text) where
  reg_orig_image-post :
      length root ≤ 10222
      → reg_orig_image perform
          (make_data_transfer perform root)
          f.gid
          f.uid
          f.cid
          f.grid
          f.field
          f.filename
          path
          f.tmobs
          true
        ≡ judge (registration_request root f path) (perform (registration_request root f path))
  unfolding reg_orig_image make_data_transfer init_parameter upload upload_datas insert_all insert
  reg_orig_image-post short =
      let q : Request = registration_request root f path in
      let fits : length q.url < url_max_length =
        omega (arith, short, length-append {0} root (codes "regOrigImg.action")) in
      if_false _ _ (ap not (usable_page root)) ∙ ask-judge perform q (perform q) fits

  length-newline : (t : Text) → length (t ++ codes "\n") + 1 ≡ length t + 2
  length-newline t = omega (arith, length-append {0} t (codes "\n"))

  -- If the root url has at most 10222 bytes, and the server answers with 200 and a body to the form of just
  -- the identifiers, name, path and time of a file, posted to the page regOrigImg.action below the
  -- root, then registering the file posts that form and reports success with the answer, when that has
  -- at most 198 bytes before its NUL; a longer answer is written past the status area.
  pub register_file-answered :
      (c : ℕ) (cs : Text)
      → length root ≤ 10222
      → perform (registration_request root f path) ≡ answered 200 true (c ∷ cs)
      → register_file perform root f path ≡ (
          if leb (length (c_str (c ∷ cs))) 198
          then ok (record {
            code = gwac_success;
            status = some (c_str (c ∷ cs) ++ codes "\n");
            request = some (registration_request root f path);
          })
          else fault out_of_bounds)
  unfolding register_file judge
  register_file-answered c cs short h =
      let q : Request = registration_request root f path in
      let t : Text = c_str (c ∷ cs) in
      let done : Result = record {
        code = gwac_success;
        status = some (t ++ codes "\n");
        request = some q;
      } in
      let fits : leb (length (t ++ codes "\n") + 1) status_size ≡ leb (length t) 198 =
        ground (arith, length-newline t) in
      ap (λ m. m >>= status_written) (reg_orig_image-post short ∙ ap (λ o. judge q o) h)
      ∙ ap
          (λ (u : Bool). (if u then ok (t ++ codes "\n") else fault out_of_bounds) >>= λ _. ok done)
          fits
      ∙ if_kept (leb (length t) 198) (t ++ codes "\n") done

  -- Without a body, what malloc left is printed.
  register_file_empty :
      length root ≤ 10222
      → perform (registration_request root f path) ≡ answered 200 true []
      → register_file perform root f path ≡ fault uninitialised
  unfolding register_file judge
  register_file_empty short h =
      ap (λ m. m >>= status_written)
        (reg_orig_image-post short ∙ ap (λ o. judge (registration_request root f path) o) h)
