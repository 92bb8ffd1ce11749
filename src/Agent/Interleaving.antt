-- ===== src/Agent/Interleaving.antt =====
-- One connection while the writer's thread works: files come in and are saved in any order of the two.
use ftserver.Run.{ok, ◌>>=◌}
use ftserver.Writer.{FileSystem}
use ftserver.Writer.Drain.{AreDistinct}
use ftserver.Writer.Saving.{IsWritable}
use ftserver.Tcp.Circular.{CircularBuffer}
use ftserver.Protocol.Boost.{BoostText}
use ftserver.Protocol.{Floats}
use ftserver.Receiver.Session.{Sending, AreSound}
use ftserver.Receiver.Sequence.{AreHeld}
use ftserver.Agent.Sessions.{announced_paths}
use ftserver.Base.{
  ◌≡◌, refl, sym, ap, ◌∙◌, subst, List, [], ◌∷◌, ◌++◌, append_assoc, append-nil, Text, ℕ,
}
use ftserver.Agent.System.{System, Act, sends, saves, sent_by, turns, act, run_acts, IsOrderly}
use ftserver.Agent.Steps.{IsOrderly-sends, IsOrderly-saved, IsOrderly-idle}

module _ (cb : CircularBuffer) (fl : Floats) (b : BoostText) (fs : FileSystem) where
  -- One turn of the thread.
  IsOrderly-turn :
      (root : Text) (landed queued others : List Sending) (y : System cb fl b fs) (ks : List ℕ)
      → IsOrderly cb fl b fs root landed queued y
      → y.receiver.fwptr.quenf ≡ ks
      → AreHeld cb fl b y.receiver.files queued ks
      → IsWritable fs
      → AreDistinct (announced_paths cb fl b fs root (landed ++ (queued ++ others)))
      → (y' : System cb fl b fs) × (landed' : List Sending) × (queued' : List Sending) × (act cb fl
            b fs saves y
          ≡ ok y')
        × IsOrderly cb fl b fs root landed' queued' y'
        × (landed' ++ queued' ≡ landed ++ queued)
  IsOrderly-turn root landed [] others y [] o q h can apart =
      let (y', go, o') = IsOrderly-idle cb fl b fs root landed y o q in
      (y', landed, [], go, o', refl)
  IsOrderly-turn root landed (s ∷ queued) others y (k ∷ ks) o q h can apart =
      let (y', go, o') =
        IsOrderly-saved cb fl b fs root landed queued (queued ++ others) s y k ks o q can apart in
      (y', landed ++ s ∷ [], queued, go, o', append_assoc landed (s ∷ []) queued)
  IsOrderly-turn root landed [] others y (k ∷ ks) o q h can apart = absurd h
  IsOrderly-turn root landed (s ∷ queued) others y [] o q h can apart = absurd h

  -- A turn for each file of the queue.
  run_turns-IsOrderly :
      (root : Text) (landed queued : List Sending) (y : System cb fl b fs) (ks : List ℕ)
      → IsOrderly cb fl b fs root landed queued y
      → y.receiver.fwptr.quenf ≡ ks
      → AreHeld cb fl b y.receiver.files queued ks
      → IsWritable fs
      → AreDistinct (announced_paths cb fl b fs root (landed ++ queued))
      → (y' : System cb fl b fs) × (run_acts cb fl b fs (turns queued) y ≡ ok y')
        × IsOrderly cb fl b fs root (landed ++ queued) [] y'
  unfolding run_acts
  run_turns-IsOrderly root landed [] y ks o q h can apart =
      (y, refl, subst (λ ss. IsOrderly cb fl b fs root ss [] y) (sym (append-nil landed)) o)
  run_turns-IsOrderly root landed (s ∷ queued) y (k ∷ ks) o q h can apart =
      let (y1, go, o1) =
        IsOrderly-saved cb fl b fs root landed queued queued s y k ks o q can apart in
      let e : (landed ++ s ∷ []) ++ queued ≡ landed ++ s ∷ queued =
        append_assoc landed (s ∷ []) queued in
      let (y2, rest, o2) =
        run_turns-IsOrderly root (landed ++ s ∷ []) queued y1 y1.receiver.fwptr.quenf o1 refl
          o1.holds can
          (subst (λ ss. AreDistinct (announced_paths cb fl b fs root ss)) (sym e) apart) in
      (
        y2,
        ap (λ m. m >>= run_acts cb fl b fs (turns queued)) go ∙ rest,
        subst (λ ss. IsOrderly cb fl b fs root ss [] y2) e o2,
      )
  run_turns-IsOrderly root landed (s ∷ queued) y [] o q h can apart = absurd h

  same_files :
      (landed queued landed' queued' rest : List Sending)
      → landed' ++ queued' ≡ landed ++ queued
      → landed' ++ (queued' ++ rest) ≡ landed ++ (queued ++ rest)
  same_files landed queued landed' queued' rest e =
      sym (append_assoc landed' queued' rest)
      ∙ ap (λ ss. ss ++ rest) e
      ∙ append_assoc landed queued rest

  -- The outcome of acts: the run succeeds and ends orderly, and nothing is lost.
  record Ends (root : Text) (landed queued : List Sending) (acts : List Act)
      (y y' : System cb fl b fs) : Type 0 where
    on_disk : List Sending
    in_queue : List Sending
    runs : run_acts cb fl b fs acts y ≡ ok y'
    orderly : IsOrderly cb fl b fs root on_disk in_queue y'
    all : on_disk ++ in_queue ≡ landed ++ (queued ++ sent_by acts)

  run_acts-Ends :
      (root : Text) (acts : List Act) (landed queued : List Sending) (y : System cb fl b fs)
      → IsOrderly cb fl b fs root landed queued y
      → AreSound cb fl b (sent_by acts)
      → IsWritable fs
      → AreDistinct (announced_paths cb fl b fs root (landed ++ (queued ++ sent_by acts)))
      → (y' : System cb fl b fs) × Ends root landed queued acts y y'
  unfolding run_acts
  run_acts-Ends root [] landed queued y o v can apart = (
    y,
    record {
      on_disk = landed;
      in_queue = queued;
      runs = refl;
      orderly = o;
      all = ap (λ ss. landed ++ ss) (sym (append-nil queued));
    },
  )
  run_acts-Ends root (sends s ∷ acts) landed queued y o (v, vs) can apart =
      let (y1, go, o1) = IsOrderly-sends cb fl b fs root landed queued y s o v in
      let e : landed ++ ((queued ++ s ∷ []) ++ sent_by acts)
          ≡ landed ++ (queued ++ s ∷ sent_by acts) =
        ap (λ ss. landed ++ ss) (append_assoc queued (s ∷ []) (sent_by acts)) in
      let (y2, x) =
        run_acts-Ends root acts landed (queued ++ s ∷ []) y1 o1 vs can
          (subst (λ ss. AreDistinct (announced_paths cb fl b fs root ss)) (sym e) apart) in
      (
        y2,
        record {
          on_disk = x.on_disk;
          in_queue = x.in_queue;
          runs = ap (λ m. m >>= run_acts cb fl b fs acts) go ∙ x.runs;
          orderly = x.orderly;
          all = x.all ∙ e;
        },
      )
  run_acts-Ends root (saves ∷ acts) landed queued y o v can apart =
      let (y1, landed1, queued1, go, o1, same) =
        IsOrderly-turn root landed queued (sent_by acts) y y.receiver.fwptr.quenf o refl o.holds can
          apart in
      let e = same_files landed queued landed1 queued1 (sent_by acts) same in
      let (y2, x) =
        run_acts-Ends root acts landed1 queued1 y1 o1 v can
          (subst (λ ss. AreDistinct (announced_paths cb fl b fs root ss)) (sym e) apart) in
      (
        y2,
        record {
          on_disk = x.on_disk;
          in_queue = x.in_queue;
          runs = ap (λ m. m >>= run_acts cb fl b fs acts) go ∙ x.runs;
          orderly = x.orderly;
          all = x.all ∙ e;
        },
      )

  -- A connection waits for a line, the thread goes on after a save that succeeded, some files are on the
  -- disk and some in the queue. Then sound files are sent over the connection and the thread has its
  -- turns, in any order of the two; directories can be made and files written, and the files go to
  -- different places. Nothing faults; the files that were there, then queued, then sent are, in this
  -- order, those that are then on the disk, with the bytes sent, followed by those that are then in the
  -- queue, their objects unchanged; and as many further turns as there are files in the queue bring all
  -- to the disk and empty the queue.
  pub run_acts-IsOrderly :
      (root : Text) (acts : List Act) (landed queued : List Sending) (y : System cb fl b fs)
      → IsOrderly cb fl b fs root landed queued y
      → AreSound cb fl b (sent_by acts)
      → IsWritable fs
      → AreDistinct (announced_paths cb fl b fs root (landed ++ (queued ++ sent_by acts)))
      → (y1 : System cb fl b fs) × (y2 : System cb fl b fs) × (landed' : List Sending)
        × (queued' : List Sending) × (run_acts cb fl b fs acts y ≡ ok y1)
        × IsOrderly cb fl b fs root landed' queued' y1
        × (landed' ++ queued' ≡ landed ++ (queued ++ sent_by acts))
        × (run_acts cb fl b fs (turns queued') y1 ≡ ok y2)
        × IsOrderly cb fl b fs root (landed ++ (queued ++ sent_by acts)) [] y2
  run_acts-IsOrderly root acts landed queued y o v can apart =
      let (y1, x) = run_acts-Ends root acts landed queued y o v can apart in
      let (y2, go, o2) =
        run_turns-IsOrderly root x.on_disk x.in_queue y1 y1.receiver.fwptr.quenf x.orderly refl
          x.orderly.holds can
          (subst (λ ss. AreDistinct (announced_paths cb fl b fs root ss)) (sym x.all) apart) in
      (
        y1,
        y2,
        x.on_disk,
        x.in_queue,
        x.runs,
        x.orderly,
        x.all,
        go,
        subst (λ ss. IsOrderly cb fl b fs root ss [] y2) x.all o2,
      )
