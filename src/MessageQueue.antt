-- ===== src/MessageQueue.antt =====
-- src/MessageQueue.h and src/MessageQueue.cpp: functions registered for message numbers, the two
-- ways to send a message, and the thread that calls the functions. The queue of
-- boost::interprocess is a parameter, which hands out the oldest message of the highest priority.
use ftserver.Base.{
  ℕ, ◌-◌, ◌≡◌, ap, ◌∙◌, Bool, true, false, ◌&&◌, List, [], ◌∷◌, ◌++◌, map, ltb, leb, ◌==◌,
  if◌then◌else◌, if_true, if_false, Bool-cases, inl, inr, refl, subst, sym,
}

abbrev pub mqfunc_size : ℕ
mqfunc_size = 1024

abbrev pub msg_quit : ℕ
msg_quit = 0

abbrev pub msg_user : ℕ
msg_user = 128

-- MSG_UNIT, with an id that is not negative.
pub record MsgUnit : Type 0 where
  pub id : ℕ
  pub par1 : ℕ
  pub par2 : ℕ

-- `pos >= 0 && pos < MQFUNC_SIZE` with pos = id - MSG_USER.
abbrev pub in_range : ℕ → Bool
in_range id = leb msg_user id && ltb (id - msg_user) mqfunc_size

-- Behind the last message of the same or a higher priority.
abbrev pub insert_message : ℕ → MsgUnit → List (ℕ × MsgUnit) → List (ℕ × MsgUnit)
insert_message p m [] = (p, m) ∷ []
insert_message p m ((q, n) ∷ ms) =
    let rest = insert_message p m ms in if leb p q then (q, n) ∷ rest else (p, m) ∷ (q, n) ∷ ms

-- boost::interprocess::message_queue, seen through what receive would hand out, one message after
-- another, each with its priority.
pub record SharedQueue : Type 1 where
  pub Box : Type 0
  pub created : Box
  pub send : Box → MsgUnit → ℕ → Box
  pub contents : Box → List (ℕ × MsgUnit)
  pub contents-created : contents created ≡ []
  pub contents-send :
      (b : Box) (m : MsgUnit) (p : ℕ) → contents (send b m p) ≡ insert_message p m (contents b)

-- The calls that one message causes, each a slot and the two parameters.
abbrev pub calls : (ℕ → List ℕ) → MsgUnit → List (ℕ × ℕ × ℕ)
calls funcs msg =
    if in_range msg.id then map (λ s. (s, msg.par1, msg.par2)) (funcs (msg.id - msg_user)) else []

-- thread_message on the messages in the order in which the queue hands them out: the calls made.
unfoldable pub thread_message : (ℕ → List ℕ) → List (ℕ × MsgUnit) → List (ℕ × ℕ × ℕ)
thread_message funcs [] = []
thread_message funcs ((_, msg) ∷ msgs) =
    let rest = thread_message funcs msgs in
    calls funcs msg ++ (if msg.id == msg_quit then [] else rest)

abbrev pub quit : MsgUnit
quit = record { id = msg_quit; par1 = 0; par2 = 0 }

abbrev pub all_calls : (ℕ → List ℕ) → List MsgUnit → List (ℕ × ℕ × ℕ)
all_calls funcs [] = []
all_calls funcs (msg ∷ msgs) = calls funcs msg ++ all_calls funcs msgs

-- The messages that SendMessage has sent, where they stand before all that were posted.
abbrev pub urgent : List (ℕ × MsgUnit) → List MsgUnit
urgent [] = []
urgent ((p, m) ∷ ms) = let rest = urgent ms in if leb 10 p then m ∷ rest else []

abbrev pub NoQuit : List MsgUnit → Type 0
NoQuit [] = Unit {0}
NoQuit (msg ∷ msgs) = ((msg.id == msg_quit) ≡ false) × NoQuit msgs

thread_message-quit :
    (funcs : ℕ → List ℕ) (ms : List (ℕ × MsgUnit))
    → NoQuit (urgent ms)
    → thread_message funcs (insert_message 10 quit ms) ≡ all_calls funcs (urgent ms)
unfolding thread_message
thread_message-quit funcs [] h = refl
thread_message-quit funcs ((p, m) ∷ ms) h = elim (Bool-cases (leb 10 p)) [
  | inl ahead ↦
      let (n, more) : NoQuit (m ∷ urgent ms) = subst NoQuit (if_true _ _ ahead) h in
      ap (thread_message funcs) (if_true _ _ ahead)
      ∙ ap
          (λ b.
            calls funcs m ++ (if b then [] else thread_message funcs (insert_message 10 quit ms)))
          n
      ∙ ap (λ c. calls funcs m ++ c) (thread_message-quit funcs ms more)
      ∙ ap (all_calls funcs) (sym (if_true _ _ ahead))
  | inr behind ↦
      ap (thread_message funcs) (if_false _ _ behind)
      ∙ ap (all_calls funcs) (sym (if_false _ _ behind))
]

module _ (sq : SharedQueue) where
  open sq use {Box, created, send, contents, contents-send}

  -- A slot is the number of the function that is connected.
  pub record MessageQueue : Type 0 where
    pub open_ : Bool
    pub box : Box
    pub funcs : ℕ → List ℕ

  -- MessageQueue(), before Start.
  unfoldable pub make_message_queue : MessageQueue
  make_message_queue = record { open_ = false; box = created; funcs = λ pos_. [] }

  -- RegisterMessage: its result, and the queue after.
  unfoldable pub register_message : ℕ → ℕ → MessageQueue → Bool × MessageQueue
  register_message id slot q = (
    in_range id,
    if in_range id
        then record q {
          funcs = λ pos_. if pos_ == id - msg_user then q.funcs pos_ ++ slot ∷ [] else q.funcs pos_;
        }
        else q,
  )

  -- Start: its result, with whether the shared queue can be created.
  unfoldable pub start : Bool → MessageQueue → Bool × MessageQueue
  start creates q =
      if q.open_
      then (true, q)
      else if creates
      then (true, record q { open_ = true; box = created })
      else (false, q)

  unfoldable pub post_message : MsgUnit → MessageQueue → MessageQueue
  post_message msg q = if q.open_ then record q { box = send q.box msg 1 } else q

  unfoldable pub send_message : MsgUnit → MessageQueue → MessageQueue
  send_message msg q = if q.open_ then record q { box = send q.box msg 10 } else q

  -- Stop sends MSG_QUIT ahead of what is posted: the calls that the thread still makes.
  unfoldable pub stop : MessageQueue → List (ℕ × ℕ × ℕ)
  unfolding send_message
  stop q = thread_message q.funcs (contents (send_message quit q).box)

  -- Stop of a started queue whose urgent messages have no MSG_QUIT among them: the thread still makes
  -- the calls of the urgent messages, in order, and then ends: what was posted is never handled.
  pub stop-all_calls :
      (q : MessageQueue)
      → q.open_ ≡ true
      → NoQuit (urgent (contents q.box))
      → stop q ≡ all_calls q.funcs (urgent (contents q.box))
  unfolding stop send_message
  stop-all_calls q o h =
      ap (λ (x : MessageQueue). thread_message q.funcs (contents x.box)) (if_true _ q o)
      ∙ ap (thread_message q.funcs) (contents-send q.box quit 10)
      ∙ thread_message-quit q.funcs (contents q.box) h
