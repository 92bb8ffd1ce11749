-- ===== src/Tcp/Circular.antt =====
-- `boost::circular_buffer<char>`, which tcpasio.cpp uses for its two byte queues and which is not
-- part of this repository: the operations that are called, with their documented behaviour.
use ftserver.Base.{ℕ, ◌≤◌, ◌<◌, ◌≡◌, [], ◌∷◌, ◌++◌, Text, length, drop}

-- `items` lists the bytes from the front; indexing `crcrcv_[j]` reads its j-th entry.
pub record CircularBuffer : Type 1 where
  pub Buf : Type 0
  pub items : Buf → Text
  pub capacity : Buf → ℕ
  pub push_back : Buf → ℕ → Buf
  pub erase_begin : Buf → ℕ → Buf
  pub set_capacity : Buf → ℕ → Buf
  pub clear : Buf → Buf
  pub empty : Buf
  pub length-items-le : (b : Buf) → length (items b) ≤ capacity b
  pub items-push_back :
      (b : Buf) (c : ℕ) → length (items b) < capacity b → items (push_back b c) ≡ items b ++ c ∷ []
  pub items-push_back_full :
      (b : Buf) (c : ℕ)
      → capacity b ≤ length (items b)
      → items (push_back b c) ≡ drop 1 (items b ++ c ∷ [])
  pub capacity-push_back : (b : Buf) (c : ℕ) → capacity (push_back b c) ≡ capacity b
  pub items-erase_begin :
      (b : Buf) (n : ℕ) → n ≤ length (items b) → items (erase_begin b n) ≡ drop n (items b)
  pub capacity-erase_begin : (b : Buf) (n : ℕ) → capacity (erase_begin b n) ≡ capacity b
  pub items-set_capacity :
      (b : Buf) (n : ℕ) → length (items b) ≤ n → items (set_capacity b n) ≡ items b
  pub capacity-set_capacity : (b : Buf) (n : ℕ) → capacity (set_capacity b n) ≡ n
  pub items-clear : (b : Buf) → items (clear b) ≡ []
  pub capacity-clear : (b : Buf) → capacity (clear b) ≡ capacity b
  pub items-empty : items empty ≡ []
  pub capacity-empty : capacity empty ≡ 0
