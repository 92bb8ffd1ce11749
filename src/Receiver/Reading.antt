-- ===== src/Receiver/Reading.antt =====
-- The read callback and its handlers, and the file objects that others hold.
use ftserver.Receiver.Ownership.{
  IsSafe, Owning, Safely, current-Ensures, set-Owning, take_fileinfo-Owning, Reported,
  notify_status-Reported, Untouched, Untouched-IsSafe, Untouched-Safely, Untouched-trans,
  Owning-Safely, AllBelow-mono, Owned, Private, Owned-Private,
}
use ftserver.Run.{ok, ◌>>=◌, Ensures, Ensures->>=, Ensures-mono, any-Ensures}
use ftserver.Files.{FileInfo, data_arrive}
use ftserver.Tcp.Circular.{CircularBuffer}
use ftserver.Tcp.{TcpClient, lookup, read, tcp_pack_size}
use ftserver.Protocol.Boost.{BoostText}
use ftserver.Protocol.{Floats, Proto, cooler, vacuum, fileinfo, filestat, resolve}
use ftserver.Receiver.{
  FileReceiver, State, waiting, ready, complete, failure, held, take_fileinfo, on_message,
  read_line, on_network_receive, network_receive, receive_data, receive_in, notify_status, current,
  connection, stored_data, receive_from, receive_message,
}
use ftserver.Base.{
  ℕ, not, ◌≡◌, inl, inr, refl, sym, ap, ◌∙◌, subst, Bool, true, false, Option, none, some, Text,
  codes, c_str, arith, ◌==◌, Bool-cases, if_true, if_false, get_elem?, set, ℤ, pos,
}

module _ (cb : CircularBuffer) (fl : Floats) (b : BoostText) where
  abbrev Receiver : Type 0
  Receiver = FileReceiver cb fl b

  on_message-Safely :
      (m : Option (Proto fl)) (r : Receiver)
      → IsSafe cb fl b r
      → Ensures (Safely cb fl b r) (on_message cb fl b m r)
  unfolding on_message connection
  on_message-Safely (some (fileinfo p)) r s =
      Ensures->>= (Owning cb fl b r) (Safely cb fl b r) (take_fileinfo cb fl b p r)
        (notify_status cb fl b ready) (take_fileinfo-Owning cb fl b p r s.below)
        λ r' o.
          Ensures-mono (Reported cb fl b ready r') (Safely cb fl b r)
            (notify_status cb fl b ready r')
            (λ r'' q. Owning-Safely cb fl b ready r r' r'' s.below o q)
            (notify_status-Reported cb fl b ready r')
  on_message-Safely (some (filestat p)) r s = Untouched-Safely cb fl b r r s (ground arith)
  on_message-Safely (some (cooler p)) r s = Untouched-Safely cb fl b r r s (ground arith)
  on_message-Safely (some (vacuum p)) r s = Untouched-Safely cb fl b r r s (ground arith)
  on_message-Safely none r s =
      Ensures-mono (Untouched cb fl b r) (Safely cb fl b r) _
        (λ r' u. Untouched-Safely cb fl b r r' s u) (ground arith)

  read_line-Untouched :
      (z : ℤ) (r : Receiver) (c : TcpClient cb)
      → Ensures (Untouched cb fl b r) (read_line cb fl b z r c)
  unfolding read_line
  read_line-Untouched z r c = ground arith

  pub on_network_receive-Safely :
      (r : Receiver) → IsSafe cb fl b r → Ensures (Safely cb fl b r) (on_network_receive cb fl b r)
  unfolding on_network_receive connection
  on_network_receive-Safely r s =
      Ensures->>= (λ _. Unit {0}) (Safely cb fl b r) (connection cb fl b r)
        (receive_message cb fl b r) (ground arith)
        λ c _.
          let at = lookup cb (some (codes "\n")) (pos 1) (pos 0) c in
          unfold receive_message in
          Ensures->>= (Untouched cb fl b r) (Safely cb fl b r) (read_line cb fl b at r c)
            (λ r'. on_message cb fl b (resolve fl b (c_str r'.bufrcv)) r')
            (read_line-Untouched at r c)
            λ r' u.
              Ensures-mono (Safely cb fl b r') (Safely cb fl b r) _
                (λ r'' q. Untouched-trans cb fl b r r' r'' u q)
                (on_message-Safely _ r' (Untouched-IsSafe cb fl b r r' s u))

  -- An object of its own, and nothing else that decides whose it is changed.
  Owning-then-Safely :
      (r r' r'' : Receiver)
      → IsSafe cb fl b r
      → Owning cb fl b r r'
      → Untouched cb fl b r' r''
      → Safely cb fl b r r''
  Owning-then-Safely r r' r'' s o u = record {
    safe = record {
      below = rw (u.files, u.held_same, o.same_held) (AllBelow-mono _ _ _ o.longer s.below);
      private = Owned-Private _ _ _ (rw (u.fileptr, u.held_same, o.same_held) o.owned);
    };
    keeps = λ k c. ap (λ fs. get_elem? fs k) u.files ∙ o.keeps k c;
  }

  stored_data-Untouched :
      (r : Receiver) (c' : TcpClient cb) (data_ : Text) (k : ℕ) (f' : FileInfo) (done : Bool)
      → Untouched cb fl b
          (record r { files = set r.files k f' })
          (stored_data cb fl b r c' data_ k (f', done))
  unfolding stored_data
  stored_data-Untouched r c' data_ k f' true = record {
    files = refl;
    held_same = refl;
    fileptr = refl;
    state = refl;
  }
  stored_data-Untouched r c' data_ k f' false = record {
    files = refl;
    held_same = refl;
    fileptr = refl;
    state = refl;
  }

  receive_from-Safely :
      (r : Receiver) (c : TcpClient cb)
      → IsSafe cb fl b r
      → Owned r.fileptr (held cb fl b r)
      → Ensures (Safely cb fl b r) (receive_from cb fl b r c)
  unfolding receive_from
  receive_from-Safely r c s o =
      let got = read cb (pos tcp_pack_size) (pos 0) c in
      Ensures->>= _ (Safely cb fl b r) (current cb fl b r)
        (λ q.
          data_arrive got.0 q.1 >>= (λ arrived. ok (stored_data cb fl b r got.1 got.0 q.0 arrived)))
        (current-Ensures cb fl b r)
        λ q e.
          Ensures->>= (λ _. Unit {0}) (Safely cb fl b r) (data_arrive got.0 q.1)
            (λ arrived. ok (stored_data cb fl b r got.1 got.0 q.0 arrived)) (any-Ensures _)
            λ a _.
              Owning-then-Safely r (record r { files = set r.files q.0 a.0 }) _ s
                (set-Owning cb fl b r r q.0 a.0
                  (record {
                    same_held = refl;
                    longer = omega arith;
                    keeps = λ k c. refl;
                    owned = o;
                  })
                  e.0)
                (stored_data-Untouched r got.1 got.0 q.0 a.0 a.1)

  receive_in-Safely :
      (st : State) (r : Receiver)
      → st ≡ r.state
      → IsSafe cb fl b r
      → Ensures (Safely cb fl b r) (receive_in cb fl b st r)
  unfolding receive_in receive_data connection
  receive_in-Safely ready r e s =
      Ensures->>= (λ _. Unit {0}) (Safely cb fl b r) (connection cb fl b r) (receive_from cb fl b r)
        (any-Ensures _)
        λ c _.
          receive_from-Safely r c s
            (subst (λ x. Private x r.fileptr (held cb fl b r)) (sym e) s.private)
  receive_in-Safely waiting r e s = Untouched-Safely cb fl b r _ s (ground arith)
  receive_in-Safely complete r e s = Untouched-Safely cb fl b r r s (ground arith)
  receive_in-Safely failure r e s = Untouched-Safely cb fl b r r s (ground arith)

  pub network_receive-Safely :
      (ec : ℕ) (r : Receiver)
      → IsSafe cb fl b r
      → Ensures (Safely cb fl b r) (network_receive cb fl b ec r)
  unfolding network_receive
  network_receive-Safely ec r s = elim (Bool-cases (not (ec == 0))) [
    | inl failed ↦
        subst (Ensures (Safely cb fl b r)) (sym (if_true _ _ failed))
          (Untouched-Safely cb fl b r _ s (ground arith))
    | inr fine ↦
        subst (Ensures (Safely cb fl b r)) (sym (if_false _ _ fine))
          (receive_in-Safely r.state r refl s)
  ]
