-- ===== src/Transfer/Memory.antt =====
-- The memory of a DataTransfer of src/DataTransfer.cpp: its constructor and destructor, what uploadDatas
-- allocates and frees, and WriteMemoryCallback. Blocks are counted; a pointer is seen through whether it
-- is not NULL. What libcurl allocates is its own.
use ftserver.Run.{Run, ok, fault, null_pointer, ◌>>=◌}
use ftserver.Base.{
  ℕ, ◌+◌, ◌-◌, ◌≡◌, ap, subst, ◌∙◌, Bool, true, false, not, ◌&&◌, List, [], ◌∷◌, if◌then◌else◌,
  arith, refl,
}

-- A block, if malloc gave one.
abbrev pub bit : Bool → ℕ
bit true = 1
bit false = 0

-- The members that are freed.
pub record Blocks : Type 0 where
  pub ot1_list_url : Bool
  pub image_quality_file_url : Bool
  pub look_back_result_url : Bool
  pub send_ot2_cut_image_list_url : Bool
  pub send_log_msg_url : Bool
  pub send_mag_calibration_url : Bool
  pub send_fits_preview_url : Bool
  pub get_ot2_cut_image_list_url : Bool
  pub ot2_tmpl_cut_image_list_url : Bool
  pub reg_orig_img_url : Bool
  pub tmp_chunk : Bool

-- The mallocs of initParameter, by whether each gives a block, with the blocks that are live after them.
unfoldable pub init_blocks : (ℕ → Bool) → ℕ → Blocks × ℕ
init_blocks gives live = (
  record {
    ot1_list_url = gives 0;
    image_quality_file_url = gives 1;
    look_back_result_url = gives 2;
    send_ot2_cut_image_list_url = gives 3;
    send_log_msg_url = gives 4;
    send_mag_calibration_url = gives 5;
    send_fits_preview_url = gives 6;
    get_ot2_cut_image_list_url = gives 7;
    ot2_tmpl_cut_image_list_url = gives 8;
    reg_orig_img_url = gives 9;
    tmp_chunk = gives 10;
  },
  live
      + bit (gives 0)
      + bit (gives 1)
      + bit (gives 2)
      + bit (gives 3)
      + bit (gives 4)
      + bit (gives 5)
      + bit (gives 6)
      + bit (gives 7)
      + bit (gives 8)
      + bit (gives 9)
      + bit (gives 10),
)

-- The constructor sets getOt2CutImageListUrl to NULL after initParameter.
unfoldable pub construct : (ℕ → Bool) → ℕ → Blocks × ℕ
unfolding init_blocks
construct gives live =
    let (blocks, live') = init_blocks gives live in
    (record blocks { get_ot2_cut_image_list_url = false }, live')

-- The destructor frees what is not NULL.
unfoldable pub destroy : Blocks → ℕ → ℕ
destroy b live =
    live
    - bit b.ot1_list_url
    - bit b.get_ot2_cut_image_list_url
    - bit b.image_quality_file_url
    - bit b.look_back_result_url
    - bit b.ot2_tmpl_cut_image_list_url
    - bit b.send_ot2_cut_image_list_url
    - bit b.send_log_msg_url
    - bit b.send_mag_calibration_url
    - bit b.send_fits_preview_url
    - bit b.reg_orig_img_url
    - bit b.tmp_chunk

-- WriteMemoryCallback for the chunks that arrive, by whether realloc gives a block: memory, and the live
-- blocks. A realloc that fails keeps the old block, and ends the transfer.
unfoldable pub write_blocks : List Bool → Bool → ℕ → Bool × ℕ
write_blocks [] memory live = (memory, live)
write_blocks (true ∷ chunks) memory live = write_blocks chunks true (live - bit memory + 1)
write_blocks (false ∷ chunks) memory live = (false, live)

-- What a call of uploadDatas meets: whether the checks at its start let it go on, whether there is a
-- session, what malloc gives for memory, reqErrorBuf and fullUrl, the chunks, and whether the server
-- answers 200, when memory is printed as a text.
pub record UploadCall : Type 0 where
  pub accepted : Bool
  pub session : Bool
  pub gives_memory : Bool
  pub gives_error_buf : Bool
  pub gives_full_url : Bool
  pub chunks : List Bool
  pub success : Bool

-- uploadDatas: `tmpChunk->memory = malloc(1)`, the two areas of a session, which memset takes to be
-- there, and the three calls of free at its end.
unfoldable pub upload_blocks : Blocks → UploadCall → ℕ → Run ℕ
unfolding write_blocks
upload_blocks b u live =
    if not u.accepted
    then ok live
    else if not b.tmp_chunk
    then fault null_pointer
    else if not u.session
    then ok (live + bit u.gives_memory)
    else if not (u.gives_error_buf && u.gives_full_url)
    then fault null_pointer
    else let (memory, live') =
        write_blocks u.chunks u.gives_memory (live + bit u.gives_memory + 2) in
      if u.success && not memory then fault null_pointer else ok (live' - 2 - bit memory)

pub upload_all_blocks : Blocks → List UploadCall → ℕ → Run ℕ
upload_all_blocks b [] live = ok live
upload_all_blocks b (u ∷ us) live = do live' ← upload_blocks b u live; upload_all_blocks b us live'

-- A DataTransfer from its construction to its destruction.
unfoldable pub life : (ℕ → Bool) → List UploadCall → ℕ → Run ℕ
unfolding construct upload_all_blocks destroy
life gives us live = do
  let (b, live1) = construct gives live
  live2 ← upload_all_blocks b us live1
  ok (destroy b live2)

-- The block that a failing realloc leaves, among these chunks.
abbrev pub lost_chunk : List Bool → Bool → ℕ
lost_chunk [] memory = 0
lost_chunk (true ∷ chunks) memory = lost_chunk chunks true
lost_chunk (false ∷ chunks) memory = bit memory

-- What a call leaves behind.
abbrev pub lost : UploadCall → ℕ
lost u =
    if not u.accepted
    then 0
    else if not u.session
    then bit u.gives_memory
    else lost_chunk u.chunks u.gives_memory

abbrev pub lost_all : List UploadCall → ℕ
lost_all [] = 0
lost_all (u ∷ us) = lost u + lost_all us

-- Whether memory is not NULL after these chunks.
abbrev pub kept_memory : List Bool → Bool → Bool
kept_memory [] memory = memory
kept_memory (true ∷ chunks) memory = kept_memory chunks true
kept_memory (false ∷ chunks) memory = false

write_blocks-kept :
    (chunks : List Bool) (memory : Bool) (live : ℕ)
    → (write_blocks chunks memory live).0 ≡ kept_memory chunks memory
unfolding write_blocks
write_blocks-kept [] memory live = refl
write_blocks-kept (true ∷ chunks) memory live = write_blocks-kept chunks true _
write_blocks-kept (false ∷ chunks) memory live = refl

-- A session finds its two areas, and memory is there where a successful answer is printed: malloc gave
-- it, or realloc did when something arrived.
abbrev pub AreGiven : List UploadCall → Type 0
AreGiven [] = Unit {0}
AreGiven (u ∷ us) =
    ((u.gives_error_buf ≡ true)
      × (u.gives_full_url ≡ true)
      × ((u.success && not (kept_memory u.chunks u.gives_memory)) ≡ false))
    × AreGiven us

write_blocks-lost :
    (chunks : List Bool) (memory : Bool) (live : ℕ)
    → let (memory', live') = write_blocks chunks memory (live + bit memory) in
      live' ≡ live + bit memory' + lost_chunk chunks memory
unfolding write_blocks
write_blocks-lost [] memory live = omega arith
write_blocks-lost (true ∷ chunks) memory live =
    let same : live + bit true ≡ live + bit memory - bit memory + 1 = omega arith in
    subst
      (λ n.
        (write_blocks chunks true n).1
        ≡ live + bit (write_blocks chunks true n).0 + lost_chunk chunks true)
      same (write_blocks-lost chunks true live)
write_blocks-lost (false ∷ chunks) memory live = omega arith

upload_blocks-lost :
    (b : Blocks) (u : UploadCall) (live : ℕ)
    → b.tmp_chunk ≡ true
    → u.gives_error_buf ≡ true
    → u.gives_full_url ≡ true
    → (u.success && not (kept_memory u.chunks u.gives_memory)) ≡ false
    → upload_blocks b u live ≡ ok (live + lost u)
unfolding upload_blocks
upload_blocks-lost b u live t e f s = ground (
  arith,
  s,
  write_blocks-lost u.chunks u.gives_memory (live + 2),
  write_blocks-kept u.chunks u.gives_memory (live + bit u.gives_memory + 2),
)

destroy-construct :
    (gives : ℕ → Bool) (live extra : ℕ)
    → destroy (construct gives live).0 ((construct gives live).1 + extra)
      ≡ live + bit (gives 7) + extra
unfolding construct destroy init_blocks
destroy-construct gives live extra = omega arith

upload_all_blocks-lost :
    (b : Blocks) (us : List UploadCall) (live : ℕ)
    → b.tmp_chunk ≡ true
    → AreGiven us
    → upload_all_blocks b us live ≡ ok (live + lost_all us)
unfolding upload_all_blocks
upload_all_blocks-lost b [] live t g = ap ok (omega arith)
upload_all_blocks-lost b (u ∷ us) live t ((e, f, s), g) =
    ap (λ m. m >>= upload_all_blocks b us) (upload_blocks-lost b u live t e f s)
    ∙ upload_all_blocks-lost b us (live + lost u) t g
    ∙ ap ok (omega arith)

pub life-lost :
    (gives : ℕ → Bool) (us : List UploadCall) (live : ℕ)
    → gives 10 ≡ true
    → AreGiven us
    → life gives us live ≡ ok (live + bit (gives 7) + lost_all us)
unfolding life
life-lost gives us live t g =
    let (b, live1) = construct gives live in
    ap (λ m. m >>= λ live2. ok (destroy b live2))
      (upload_all_blocks-lost b us live1 (unfold construct init_blocks in t) g)
    ∙ ap ok (destroy-construct gives live (lost_all us))
