-- ===== src/Receiver/Shared.antt =====
-- The file objects that a receiver shares with the writer, over whatever comes to the receiver.
use ftserver.Tcp.{TcpClient, Call, handle_read}
use ftserver.Receiver.Ownership.{
  IsSafe, Keeps, Safely, current-Ensures, Reported, notify_status-Reported, Untouched-Safely,
  AllBelow, handed_below,
}
use ftserver.Run.{Run, ok, ◌>>=◌, Ensures, Ensures->>=, Ensures-mono, any-Ensures}
use ftserver.Files.{FileInfo}
use ftserver.Writer.{new_file}
use ftserver.Tcp.Circular.{CircularBuffer}
use ftserver.Protocol.Boost.{BoostText}
use ftserver.Protocol.{Floats}
use ftserver.Receiver.{
  FileReceiver, State, waiting, complete, failure, Message, network_receive_msg, network_close_msg,
  receive_complete_msg, held, on_network_close, on_receive_complete, network_receive, notify_status,
  handler, current, report_file, network_read, called, connection,
}
use ftserver.Base.{
  ℕ, ◌≡◌, inl, inr, refl, sym, ap, ◌∙◌, subst, some, List, [], ◌∷◌, arith, ◌==◌, Bool-cases,
  if_true, if_false, length, get_elem?, get_elem?-lt, Text,
}
use ftserver.Receiver.Reading.{on_network_receive-Safely, network_receive-Safely}

module _ (cb : CircularBuffer) (fl : Floats) (b : BoostText) where
  abbrev Receiver : Type 0
  Receiver = FileReceiver cb fl b

  -- After a report the state goes back to waiting.
  waiting-Safely :
      (status : State) (r r' r'' : Receiver)
      → AllBelow (length r'.files) (held cb fl b r')
      → Keeps cb fl b r r'
      → Reported cb fl b status r' r''
      → Safely cb fl b r (record r'' { state = waiting })
  waiting-Safely status r r' r'' h k q = record {
    safe = record { below = rw (q.files, q.held_same) h; private = tt };
    keeps = λ j c. ap (λ fs. get_elem? fs j) q.files ∙ k j c;
  }

  report_file-Safely :
      (r : Receiver) (k : ℕ) (f : FileInfo)
      → IsSafe cb fl b r
      → get_elem? r.files k ≡ some f
      → Ensures
          (λ r'. Safely cb fl b r (record r' { state = waiting }))
          (report_file cb fl b r (k, f))
  unfolding report_file
  report_file-Safely r k f s e =
      let r1 : Receiver = record r { fwptr = new_file k r.fwptr } in
      elim (Bool-cases (f.filesize == f.rcvsize)) [
        | inl full ↦ subst (Ensures _) (sym (if_true _ _ full)) (
            Ensures-mono (Reported cb fl b complete r1) _ (notify_status cb fl b complete r1)
              (λ r2 q.
                waiting-Safely complete r r1 r2
                  (handed_below _ k r.fwptr r.saving (get_elem?-lt r.files k e) s.below)
                  (λ j c. refl) q)
              (notify_status-Reported cb fl b complete r1))
        | inr short ↦ subst (Ensures _) (sym (if_false _ _ short)) (
            Ensures-mono (Reported cb fl b failure r) _ (notify_status cb fl b failure r)
              (λ r2 q. waiting-Safely failure r r r2 s.below (λ j c. refl) q)
              (notify_status-Reported cb fl b failure r))
      ]

  on_receive_complete-Safely :
      (r : Receiver) → IsSafe cb fl b r → Ensures (Safely cb fl b r) (on_receive_complete cb fl b r)
  unfolding on_receive_complete
  on_receive_complete-Safely r s =
      Ensures->>= _ (Safely cb fl b r) (current cb fl b r)
        (λ file. report_file cb fl b r file >>= (λ r'. ok (record r' { state = waiting })))
        (current-Ensures cb fl b r)
        λ q e.
          Ensures->>= (λ r'. Safely cb fl b r (record r' { state = waiting })) (Safely cb fl b r)
            (report_file cb fl b r q) (λ r'. ok (record r' { state = waiting }))
            (report_file-Safely r q.0 q.1 s e.1) λ r' d. d

  -- The callbacks of a read, once the connection has taken the bytes.
  called-Safely :
      (ec : ℕ) (calls : List Call) (r : Receiver) (c : TcpClient cb)
      → IsSafe cb fl b r
      → Ensures (Safely cb fl b r) (called cb fl b ec calls (record r { tcpptr = some c }))
  called-Safely ec [] r c s = Untouched-Safely cb fl b r _ s (ground arith)
  called-Safely ec (x ∷ xs) r c s =
      let r1 : Receiver = record r { tcpptr = some c } in
      let s1 : IsSafe cb fl b r1 = record { below = s.below; private = s.private } in
      Ensures-mono (Safely cb fl b r1) (Safely cb fl b r) (network_receive cb fl b ec r1)
        (λ r' q. record { safe = q.safe; keeps = q.keeps })
        (network_receive-Safely cb fl b ec r1 s1)

  -- The end of an asynchronous read on the connection.
  network_read-Safely :
      (ec : ℕ) (arrived : Text) (r : Receiver)
      → IsSafe cb fl b r
      → Ensures (Safely cb fl b r) (network_read cb fl b ec arrived r)
  unfolding network_read
  network_read-Safely ec arrived r s =
      Ensures->>= (λ _. Unit {0}) (Safely cb fl b r) (connection cb fl b r) _ (any-Ensures _)
        λ c _.
          let p = handle_read cb ec arrived c in
          let r1 : Receiver = record r { tcpptr = some p.0 } in
          Ensures->>= (Safely cb fl b r) (Safely cb fl b r) (called cb fl b ec p.1 r1) _
            (called-Safely ec p.1 r p.0 s)
            λ r' q. record {
              safe = record { below = q.safe.below; private = q.safe.private };
              keeps = q.keeps;
            }

  -- What reaches a receiver: bytes or an error on its connection, or the next message of its queue.
  pub data Event : Type 0 where
    arrives : ℕ → Text → Event
    handles : Message → Event

  unfoldable pub step : Event → Receiver → Run Receiver
  step (arrives ec bytes) r = network_read cb fl b ec bytes r
  step (handles m) r = handler cb fl b m r

  step-Safely :
      (e : Event) (r : Receiver) → IsSafe cb fl b r → Ensures (Safely cb fl b r) (step e r)
  unfolding step on_network_close
  step-Safely (arrives ec bytes) r s = network_read-Safely ec bytes r s
  step-Safely (handles network_receive_msg) r s = on_network_receive-Safely cb fl b r s
  step-Safely (handles network_close_msg) r s = Untouched-Safely cb fl b r _ s (ground arith)
  step-Safely (handles receive_complete_msg) r s = on_receive_complete-Safely r s

  unfoldable pub run_events : List Event → Receiver → Run Receiver
  run_events [] r = ok r
  run_events (e ∷ es) r = do r' ← step e r; run_events es r'

  run_events-IsSafe :
      (es : List Event) (r : Receiver)
      → IsSafe cb fl b r
      → Ensures (IsSafe cb fl b) (run_events es r)
  unfolding run_events
  run_events-IsSafe [] r s = s
  run_events-IsSafe (e ∷ es) r s =
      Ensures->>= (Safely cb fl b r) (IsSafe cb fl b) (step e r) (run_events es) (step-Safely e r s)
        λ r' q. run_events-IsSafe es r' q.safe

  pub run_events-Safely :
      (es : List Event) (e : Event) (r : Receiver)
      → IsSafe cb fl b r
      → Ensures (λ r'. Ensures (Safely cb fl b r') (step e r')) (run_events es r)
  run_events-Safely es e r s =
      Ensures-mono (IsSafe cb fl b) (λ r'. Ensures (Safely cb fl b r') (step e r'))
        (run_events es r) (λ r' q. step-Safely e r' q) (run_events-IsSafe es r s)
