-- ===== src/Transfer.antt =====
-- src/DataTransfer.h and src/DataTransfer.cpp, class DataTransfer: forms posted to the web server of
-- the data base. libcurl is a parameter: the outcome of one request. What is printed on the console
-- and the text of error messages are left out; the status text of a success is the server's answer.
pub mod Upload
pub mod Registering
pub mod Memory
use ftserver.Run.{Run, ok, fault, out_of_bounds, ◌>>=◌, uninitialised}
use ftserver.Base.{
  leb, ◌/◌, ℕ, zero, suc, ◌+◌, ◌≡◌, Bool, true, false, not, ◌&&◌, Option, none, some, List, [], ◌∷◌,
  ◌++◌, map, Text, codes, c_str, ◌==◌, ltb, if◌then◌else◌, ℤ, pos, length,
}
use ftserver.Protocol.Numbers.{show_int}

-- The GWAC_… result codes of data.h that DataTransfer.cpp returns.
abbrev pub gwac_success : ℕ
gwac_success = 0

abbrev pub gwac_function_input_null : ℕ
gwac_function_input_null = 3004

abbrev pub gwac_function_input_empty : ℕ
gwac_function_input_empty = 3005

abbrev pub gwac_status_str_null : ℕ
gwac_status_str_null = 3006

abbrev pub gwac_send_data_error : ℕ
gwac_send_data_error = 3008

abbrev pub Pair : Type 0
Pair = Text × Text

-- multimap::insert: after the entries whose keys are not greater.
abbrev pub text_ltb : Text → Text → Bool
text_ltb [] [] = false
text_ltb [] (_ ∷ _) = true
text_ltb (_ ∷ _) [] = false
text_ltb (x ∷ xs) (y ∷ ys) = if ltb x y then true else if x == y then text_ltb xs ys else false

pub insert : Pair → List Pair → List Pair
insert e [] = e ∷ []
insert e (f ∷ fs) = let rest = insert e fs in if text_ltb e.0 f.0 then e ∷ f ∷ fs else f ∷ rest

pub insert_all : List Pair → List Pair → List Pair
unfolding insert
insert_all [] m = m
insert_all (e ∷ es) m = insert_all es (insert e m)

-- A part of the form: a field with its contents, or a file with its path.
pub data Part : Type 0 where
  contents : Text → Text → Part
  file : Text → Text → Part

-- How a request ends: no session, an error of curl_easy_perform, or the code that curl_easy_getinfo
-- reports, whether that call succeeds, and the text that WriteMemoryCallback has gathered.
pub data Outcome : Type 0 where
  no_session : Outcome
  failed : Outcome
  answered : ℕ → Bool → Text → Outcome

-- One request as it is given to libcurl.
pub record Request : Type 0 where
  pub url : Text
  pub parts : List Part

-- The result code, the status text of a success, and the request that was made, if any.
pub record Result : Type 0 where
  pub code : ℕ
  pub status : Option Text
  pub request : Option Request

abbrev pub refused : ℕ → Result
refused code = record { code = code; status = none; request = none }

-- URL_MAX_LENGTH, the area of the url.
abbrev pub url_max_length : ℕ
url_max_length = 10240

-- sprintf into an area of this size, with the NUL at the end.
abbrev pub printed : ℕ → Text → Run Text
printed size t = if leb (length t + 1) size then ok t else fault out_of_bounds

-- `char flagStr[10];` with "%d" or "%ld".
abbrev pub flag_text : ℤ → Run Text
flag_text n = printed 10 (show_int n)

-- The milliseconds as "%03ld".
abbrev pub three_digits : ℕ → Text
three_digits n =
    (if ltb n 10 then codes "00" else if ltb n 100 then codes "0" else []) ++ show_int (pos n)

-- dateToStr, from the seconds as strftime prints them and the microseconds, into `char dateStr[40]`.
unfoldable pub date_to_str : Text → ℕ → Run Text
date_to_str time_string tv_usec =
    printed 40 (time_string ++ codes "." ++ three_digits (tv_usec / 1000))

-- The parts in the order in which uploadDatas adds them.
abbrev pub form : Text → List Pair → List Pair → List Part
form path params files =
    map (λ e. contents e.0 e.1) params ++ map (λ e. file e.0 (path ++ e.1)) files

-- WriteMemoryCallback over the chunks that arrive, while memory can be had.
unfoldable pub write_memory_callback : Text → Text → Text
write_memory_callback memory chunk = memory ++ chunk

-- What uploadDatas makes of the request's outcome.
-- An answer without a body leaves the byte of malloc(1) as it is, and that is printed as a text.
abbrev pub success : Request → Text → Run Result
success q [] = fault uninitialised
success q (c ∷ memory) = ok (record {
  code = gwac_success;
  status = some (c_str (c ∷ memory) ++ codes "\n");
  request = some q;
})

unfoldable pub judge : Request → Outcome → Run Result
judge q no_session = ok (refused gwac_send_data_error)
judge q failed = ok (record { code = gwac_send_data_error; status = none; request = some q })
judge q (answered http_code known memory) =
    if http_code == 200 && known
    then success q memory
    else ok (record { code = gwac_send_data_error; status = none; request = some q })

abbrev pub is_empty : List Pair → Bool
is_empty [] = true
is_empty (_ ∷ _) = false

-- The checks on the url: a null one or an empty one.
abbrev pub usable : Option Text → Bool
usable none = false
usable (some []) = false
usable (some (_ ∷ _)) = true

abbrev pub url_text : Option Text → Text
url_text none = []
url_text (some t) = t

-- ENUM_MSG of AllHeader.h.
pub data MsgType : Type 0 where
  state error other : MsgType

abbrev pub msg_type_field : MsgType → List Pair
msg_type_field error = (codes "msgType", codes "error") ∷ []
msg_type_field state = (codes "msgType", codes "state") ∷ []
msg_type_field other = []

module _ (perform : Request → Outcome) where
  -- With a session or without one; the session's url is printed into its area first.
  abbrev pub ask : Request → Outcome → Run Result
  ask q no_session = judge q no_session
  ask q o = do url ← printed url_max_length q.url; judge q o

  abbrev pub post : Request → Run Result
  post q = ask q (perform q)

  -- uploadDatas; `has_status` is whether statusstr is not null.
  unfoldable pub upload_datas : Option Text → Text → List Pair → List Pair → Bool → Run Result
  upload_datas url path params files false = ok (refused gwac_status_str_null)
  upload_datas url path params files true =
      if not (usable url)
      then ok (refused gwac_function_input_null)
      else if is_empty params && is_empty files
      then ok (refused gwac_function_input_empty)
      else post (record { url = url_text url; parts = form path params files })

  -- The urls after initParameter; joinStr puts a page behind the root.
  abbrev pub join_str : Text → Text → Text
  join_str s1 s2 = s1 ++ s2

  pub record DataTransfer : Type 0 where
    pub root_url : Text
    pub ot1_list_url : Option Text
    pub image_quality_file_url : Option Text
    pub look_back_result_url : Option Text
    pub send_ot2_cut_image_list_url : Option Text
    pub send_log_msg_url : Option Text
    pub send_mag_calibration_url : Option Text
    pub send_fits_preview_url : Option Text
    pub get_ot2_cut_image_list_url : Option Text
    pub ot2_tmpl_cut_image_list_url : Option Text
    pub reg_orig_img_url : Option Text

  -- initParameter, once malloc has given every text its place.
  unfoldable pub init_parameter : Text → DataTransfer
  init_parameter url =
      let upload = some (join_str url (codes "commonFileUpload.action")) in
      record {
        root_url = url;
        ot1_list_url = upload;
        image_quality_file_url = upload;
        look_back_result_url = some (join_str url (codes "otLookBack.action"));
        send_ot2_cut_image_list_url = upload;
        send_log_msg_url = some (join_str url (codes "commonLog.action"));
        send_mag_calibration_url = upload;
        send_fits_preview_url = upload;
        get_ot2_cut_image_list_url = upload;
        ot2_tmpl_cut_image_list_url = upload;
        reg_orig_img_url = some (join_str url (codes "regOrigImg.action"));
      }

  -- The constructor.
  unfoldable pub make_data_transfer : Text → DataTransfer
  unfolding init_parameter
  make_data_transfer url = record (init_parameter url) { get_ot2_cut_image_list_url = none }

  -- The functions that send: the fields and the files that each inserts, and the url it posts to.
  pub upload : Option Text → Text → List Pair → List Pair → Bool → Run Result
  unfolding insert_all
  upload url path params files = upload_datas url path (insert_all params []) (insert_all files [])

  abbrev file_type : Text → List Pair
  file_type name = (codes "fileType", name) ∷ []

  abbrev file_upload : Text → Pair
  file_upload name = (codes "fileUpload", name)

  unfoldable pub reg_orig_image :
      DataTransfer → Text → Text → Text → Text → Text → Text → Text → Text → Bool → Run Result
  reg_orig_image d group_id unit_id cam_id grid_id field_id img_name img_path gen_time =
      upload d.reg_orig_img_url []
        ((codes "groupId", group_id)
          ∷ (codes "unitId", unit_id)
          ∷ (codes "camId", cam_id)
          ∷ (codes "gridId", grid_id)
          ∷ (codes "fieldId", field_id)
          ∷ (codes "imgName", img_name)
          ∷ (codes "imgPath", img_path)
          ∷ (codes "genTime", gen_time)
          ∷ [])
        []

  unfoldable pub send_ot1_list_file : DataTransfer → Text → Text → Bool → Run Result
  send_ot1_list_file d path name =
      upload d.ot1_list_url path (file_type (codes "crsot1")) (file_upload name ∷ [])

  unfoldable pub send_ot2_cut_image : DataTransfer → Text → List Text → Bool → Run Result
  send_ot2_cut_image d path names =
      upload d.send_ot2_cut_image_list_url path (file_type (codes "ot2im")) (map file_upload names)

  unfoldable pub send_ot2_cut_image_ref : DataTransfer → Text → List Text → Bool → Run Result
  send_ot2_cut_image_ref d path names =
      upload d.send_ot2_cut_image_list_url path (file_type (codes "ot2imr")) (map file_upload names)

  unfoldable pub send_image_quality_file : DataTransfer → Text → Text → Bool → Run Result
  send_image_quality_file d path name =
      upload d.image_quality_file_url path (file_type (codes "imqty")) (file_upload name ∷ [])

  unfoldable pub send_fits_preview : DataTransfer → Text → Text → Bool → Run Result
  send_fits_preview d path name =
      upload d.send_fits_preview_url path (file_type (codes "impre")) (file_upload name ∷ [])

  unfoldable pub send_mag_calibration_file : DataTransfer → Text → Text → Bool → Run Result
  send_mag_calibration_file d path name =
      upload d.send_mag_calibration_url path (file_type (codes "magclb")) (file_upload name ∷ [])

  unfoldable pub send_look_back_result : DataTransfer → Text → ℤ → Bool → Run Result
  send_look_back_result d ot2_name flag has_status = do
    t ← flag_text flag
    upload d.look_back_result_url [] ((codes "ot2name", ot2_name) ∷ (codes "flag", t) ∷ []) []
        has_status

  -- sendLogMsg, on the members of the message: its time is that of date_to_str.
  unfoldable pub send_log_msg : DataTransfer → MsgType → ℤ → Text → ℕ → Text → Bool → Run Result
  unfolding date_to_str
  send_log_msg d msgtype msgmark time_string tv_usec msgtext has_status = do
    t ← flag_text msgmark
    date ← date_to_str time_string tv_usec
    upload d.send_log_msg_url []
        (((codes "logType", codes "logchb") ∷ msg_type_field msgtype)
          ++ (codes "msgCode", t) ∷ (codes "msgDate", date) ∷ (codes "msgContent", msgtext) ∷ [])
        [] has_status
