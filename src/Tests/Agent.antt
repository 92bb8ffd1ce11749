-- ===== src/Tests/Agent.antt =====
-- Runs of the choice of the disk, of an upload and of the message queue.
use ftserver.Agent.{DiskSettings, find_storage, search, Freeing}
use ftserver.Agent.Storage.{IsFirstFree, find_storage-IsFirstFree}
use ftserver.Agent.{Entry, free_storage}
use ftserver.Agent.Clearing.{Node, free_template, after_freeing}
use ftserver.Agent.Cleared.{cleared, storage_lasts, free_template-eq-cleared, free_storage-clears}
use ftserver.Agent.Fresh.{filter}
use ftserver.Run.{ok, fault, out_of_bounds}
use ftserver.Files.{FileInfo}
use ftserver.Transfer.Registering.{register_file, register_file-answered}
use ftserver.Transfer.{Request, Outcome, Pair, answered}
use ftserver.Transfer.Memory.{UploadCall, life, life-lost}
use ftserver.MessageQueue.{
  MessageQueue, SharedQueue, MsgUnit, insert_message, urgent, stop, all_calls, stop-all_calls,
}
use ftserver.Base.{
  replicate, ℕ, none, map, set, Bool, ◌*◌, ◌^◌, ◌≡◌, refl, true, false, List, [], ◌∷◌, Text, codes,
  length, arith, Option,
}

abbrev two_disks : DiskSettings
two_disks = record {
  n_storage = 2;
  i_storage = 1;
  min_disk_storage = 3;
  path_storage = codes "/data" ∷ codes "/d" ∷ [];
  n_template = 0;
  min_disk_template = 0;
  path_template = [];
}

-- As many gigabytes as the path has letters.
abbrev by_length : Text → ℕ
by_length path = length path * 2 ^ 30

find_storage-IsFirstFree_example :
    (r : Option ℕ × DiskSettings) × (find_storage by_length two_disks ≡ ok r)
    × IsFirstFree by_length two_disks 0 r.0
find_storage-IsFirstFree_example =
    find_storage-IsFirstFree by_length two_disks (omega arith) (omega arith)

abbrev always_ok : Request → Outcome
always_ok q = answered 200 true (codes "stored")

abbrev one_field : List Pair
one_field = (codes "fileType", codes "imqty") ∷ []

abbrev root : Text
root = codes "http://127.0.0.1/"

-- A queue that keeps what it would hand out.
abbrev sorted_queue : SharedQueue
sorted_queue = record {
  Box = List (ℕ × MsgUnit);
  created = [];
  send = λ b m p. insert_message p m b;
  contents = λ b. b;
  contents-created = refl;
  contents-send = λ b m p. refl;
}

abbrev loaded : MessageQueue sorted_queue
loaded = record {
  open_ = true;
  box =
      (10, record { id = 129; par1 = 3; par2 = 0 })
      ∷ (1, record { id = 130; par1 = 4; par2 = 0 })
      ∷ [];
  funcs = λ p. p ∷ [];
}

stop-all_calls_example : stop sorted_queue loaded ≡ all_calls loaded.funcs (urgent loaded.box)
stop-all_calls_example = stop-all_calls sorted_queue loaded refl (refl, tt)

abbrev named : Text → ℕ → ℕ → Bool → Bool → Entry
named name age size regular directory = record {
  filename = name;
  age = age;
  size = size;
  is_regular_file = regular;
  is_directory = directory;
}

-- An old directory with a large file, a file of the last day, and another program's directory.
abbrev template_nodes : List Node
template_nodes =
    record {
      entry = named (codes "G12") 400000 0 false true;
      inside = named (codes "a") 0 204800 true false ∷ [];
    }
    ∷ record { entry = named (codes "G13") 80000 100 true false; inside = [] }
    ∷ record { entry = named (codes "home") 900000 0 false true; inside = [] }
    ∷ []

abbrev full_disks : DiskSettings
full_disks = record two_disks {
  min_disk_storage = 9;
  n_template = 1;
  min_disk_template = 9;
  path_template = codes "/t" ∷ [];
}

free_template-eq-cleared_example :
    free_template by_length full_disks (template_nodes ∷ [])
    ≡ ok (map cleared (template_nodes ∷ []))
free_template-eq-cleared_example =
    free_template-eq-cleared by_length full_disks (template_nodes ∷ []) (codes "/t") refl
      (omega arith) refl refl

none_free : find_storage by_length full_disks ≡ ok (none, full_disks)
unfolding find_storage search
none_free = refl

free_storage-clears_example :
    (r : Freeing by_length × DiskSettings) × (free_storage by_length full_disks ≡ ok r)
    × (r.1.i_storage ≡ 0)
    × (after_freeing by_length r.0 (template_nodes ∷ [] ∷ [])
        ≡ set (template_nodes ∷ [] ∷ []) 0 (filter storage_lasts template_nodes))
free_storage-clears_example =
    free_storage-clears by_length full_disks full_disks (template_nodes ∷ [] ∷ []) template_nodes
      (codes "/data") none_free refl refl

abbrev small_file : FileInfo
small_file = record {
  gid = codes "001";
  uid = codes "002";
  cid = codes "12";
  grid = [];
  field = [];
  tmobs = codes "2017-11-23T15:29:38";
  subpath = codes "G12";
  filename = codes "a.fit";
  filesize = 1;
  rcvsize = 1;
  filedata = codes "x";
}

abbrev long_answer : Request → Outcome
long_answer q = answered 200 true (replicate 300 b'a')

register_file-answered_example :
    register_file long_answer root small_file (codes "/data/G12/a.fit") ≡ fault out_of_bounds
register_file-answered_example =
    register_file-answered long_answer root small_file (codes "/data/G12/a.fit") b'a'
      (replicate 299 b'a') (omega arith) refl

-- A call with a session whose second chunk finds no memory, and a call without one.
abbrev two_calls : List UploadCall
two_calls =
    record {
      accepted = true;
      session = true;
      gives_memory = true;
      gives_error_buf = true;
      gives_full_url = true;
      chunks = true ∷ false ∷ [];
      success = false;
    }
    ∷ record {
      accepted = true;
      session = false;
      gives_memory = true;
      gives_error_buf = true;
      gives_full_url = true;
      chunks = [];
      success = false;
    }
    ∷ []

life-lost_example : life (λ i. true) two_calls 5 ≡ ok 8
life-lost_example =
    life-lost (λ i. true) two_calls 5 refl ((refl, refl, refl), ((refl, refl, refl), tt))
