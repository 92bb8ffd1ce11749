-- ===== src/Files.antt =====
-- struct FileInfo of src/FileWritter.h: a file on its way to the disk, and the objects of that
-- type that are shared between the receivers and the writer.
pub mod Assembly
pub mod Sized
use ftserver.Run.{Run, ok, fault, out_of_bounds, bad_length, or_fault, ◌>>=◌}
use ftserver.Base.{
  ℕ, ◌+◌, ◌≤◌, ◌≡◌, Bool, List, [], ◌∷◌, ◌++◌, Text, leb, if◌then◌else◌, length, splice, replicate,
  ℤ, pos, negsuc,
}

pub record FileInfo : Type 0 where
  pub gid : Text
  pub uid : Text
  pub cid : Text
  pub grid : Text
  pub field : Text
  pub tmobs : Text
  pub subpath : Text
  pub filename : Text
  pub filesize : ℕ
  pub rcvsize : ℕ
  pub filedata : Text

-- FileInfo(_filesize), whose `new char[filesize]` throws for a negative length. The bytes of the
-- new array are not initialised; they are zero here and never read before they are written.
unfoldable pub new_file_info : ℤ → Run FileInfo
new_file_info (negsuc n) = fault bad_length
new_file_info (pos n) = ok (record {
  gid = [];
  uid = [];
  cid = [];
  grid = [];
  field = [];
  tmobs = [];
  subpath = [];
  filename = [];
  filesize = n;
  rcvsize = 0;
  filedata = replicate n 0;
})

-- DataArrive: the object after, and whether the file is complete. The memcpy faults where it
-- would write past the array.
unfoldable pub data_arrive : Text → FileInfo → Run (FileInfo × Bool)
data_arrive data_ f =
    if leb (f.rcvsize + length data_) (length f.filedata)
    then ok (
      record f { filedata = splice f.filedata f.rcvsize data_; rcvsize = f.rcvsize + length data_ },
      leb f.filesize (f.rcvsize + length data_),
    )
    else fault out_of_bounds

-- The array has the announced length, and no more is counted than was stored.
pub record IsStored (f : FileInfo) : Type 0 where
  pub sized : length f.filedata ≡ f.filesize
  pub counted : f.rcvsize ≤ f.filesize
