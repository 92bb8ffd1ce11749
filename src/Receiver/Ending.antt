-- ===== src/Receiver/Ending.antt =====
-- The packets of a file have arrived, and their message is handled.
use ftserver.Run.{ok}
use ftserver.Files.{FileInfo}
use ftserver.Files.Assembly.{stored, full}
use ftserver.Writer.{new_file}
use ftserver.Tcp.Circular.{CircularBuffer}
use ftserver.Tcp.{tcp_pack_size}
use ftserver.Protocol.Boost.{BoostText}
use ftserver.Protocol.Output.{IsRing, after_line-IsRing}
use ftserver.Protocol.{Floats}
use ftserver.Protocol.Numbers.{show_int, decimal}
use ftserver.Receiver.Packets.{IsComplete}
use ftserver.Receiver.Announce.{IsAnnounced}
use ftserver.Receiver.Delivery.{handed_over, report, report-IsShort, on_receive_complete-hands_over}
use ftserver.Receiver.Ownership.{
  AllBelow, Keeps, Safely, Owned, Private, handed_below, other_object,
}
use ftserver.Receiver.{FileReceiver, complete, receive_complete_msg, held, count}
use ftserver.Base.{
  ◌≤◌, ◌≡◌, refl, sym, ap, ◌∙◌, subst, true, some, [], ◌∷◌, ◌++◌, codes, length, pos_part, ℕ, arith,
  take, append_assoc, get_elem?-lt, if_true,
}
use ftserver.Receiver.Session.{
  Sending, content_of, IsSound, handle_first, take_message, IsIdle, IsReceived,
}

module _ (cb : CircularBuffer) (fl : Floats) (b : BoostText) where
  abbrev Receiver : Type 0
  Receiver = FileReceiver cb fl b

  -- The last message of a transfer, after the announcement left r1 and the packets r2.
  module _ (s : Sending) (r r1 r2 : Receiver) (k : ℕ) (g : FileInfo) (v : IsSound cb fl b s)
      (a : IsAnnounced cb fl b s.announced r r1 k g) (q : Safely cb fl b r r1)
      (c : IsComplete cb fl b r1 k (full g (content_of s)) r2) (run : r.fwptr.running ≡ true) where
    abbrev pub final : Receiver
    final = handed_over cb fl b k (record r2 { posted = [] })

    writer_unchanged : r2.fwptr ≡ r.fwptr
    writer_unchanged = c.rest.fwptr ∙ a.writer_same

    saving_unchanged : r2.saving ≡ r.saving
    saving_unchanged = c.rest.saving ∙ a.saving_same

    held_announced : held cb fl b r1 ≡ held cb fl b r
    held_announced = λ i. (a.writer_same i).quenf ++ a.saving_same i

    held_complete : held cb fl b r2 ≡ held cb fl b r1
    held_complete = λ i. (c.rest.fwptr i).quenf ++ c.rest.saving i

    -- The object is the receiver's own.
    nobody_else : count k (held cb fl b r) ≡ 0
    nobody_else =
        let owned : Owned r1.fileptr (held cb fl b r1) =
          subst (λ st. Private st r1.fileptr (held cb fl b r1)) a.receiving.is_ready
            q.safe.private in
        subst (λ ks. count k ks ≡ 0) held_announced
          (subst (λ p. Owned p (held cb fl b r1)) a.receiving.current_file owned)

    ring_ready : IsRing r2.ring
    ring_ready = subst IsRing (sym c.rest.ring) a.ring_ready

    final-runs : final.fwptr ≡ record (r.fwptr) { quenf = r.fwptr.quenf ++ k ∷ [] }
    unfolding new_file
    final-runs = ap (new_file k) writer_unchanged ∙ if_true _ _ run

    pub final-IsIdle : tcp_pack_size ≤ length r.bufrcv → IsIdle cb fl b final
    final-IsIdle room = record {
      client = c.receiving.client;
      slot = c.receiving.slot;
      more = c.receiving.more;
      connected = c.receiving.connected;
      registered = c.receiving.registered;
      plain = c.receiving.plain;
      waits = refl;
      sized = c.rest.sized a.sized;
      ring = after_line-IsRing (report complete) r2.ring ring_ready (report-IsShort complete).1;
      nothing = refl;
      runs = ap (λ w. w.running) final-runs ∙ run;
      below =
          handed_below (length r2.files) k r2.fwptr r2.saving
            (get_elem?-lt r2.files k c.receiving.content)
            (subst (λ n. AllBelow n (held cb fl b r2)) (sym c.rest.length_same)
              (subst (AllBelow (length r1.files)) (sym held_complete) q.safe.below));
      room = omega (arith, room, a.area, c.rest.area);
    }

    final-kept : Keeps cb fl b r final
    final-kept j n =
        c.rest.elsewhere k j a.receiving.current_file
          (other_object cb fl b k j (held cb fl b r) nobody_else n)
        ∙ q.keeps j n

    pub final-IsReceived : IsReceived cb fl b s r final
    unfolding show_int decimal
    final-IsReceived =
        let bytes : stored g ++ content_of s ≡ content_of s =
          ap (λ m. take m g.filedata ++ content_of s) a.empty in
        let n : g.filesize ≡ length (content_of s) = ap pos_part (a.size ∙ v.size) in
        record {
          number = k;
          file = g;
          content =
              c.receiving.content ∙ λ i. some (record g { filedata = bytes i; rcvsize = n i });
          names = a.names;
          queued = final-runs;
          saving_same = saving_unchanged;
          kept = final-kept;
          told =
              ap (λ t. t ++ (codes "filestat status=2\n") ∷ []) (c.rest.sent ∙ a.told)
              ∙ append_assoc r.sent ((codes "filestat status=1\n") ∷ [])
                  ((codes "filestat status=2\n") ∷ []);
        }

    pub final-reached : r.posted ≡ [] → take_message cb fl b r2 ≡ ok final
    final-reached nothing =
        ap (λ ms. handle_first cb fl b ms r2)
          (c.posted ∙ ap (λ ms. ms ++ receive_complete_msg ∷ []) (a.posted_same ∙ nothing))
        ∙ on_receive_complete-hands_over cb fl b (record r2 { posted = [] }) k _ c.receiving.client
            c.receiving.current_file c.receiving.content refl ring_ready c.receiving.connected
