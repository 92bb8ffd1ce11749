-- ===== src/Files/Assembly.antt =====
-- What becomes of the bytes that arrive for a file.
use ftserver.Run.{Run, ok, fault, out_of_bounds, ◌>>=◌}
use ftserver.Files.{FileInfo, data_arrive, IsStored}
use ftserver.Base.{
  ◌+◌, ◌≤◌, ◌<◌, ◌≡◌, ◌↔◌, leb→le, leb-false, ◌⊎◌, inl, inr, refl, sym, ap, ◌∙◌, Bool, true, List,
  [], ◌∷◌, ◌++◌, Text, leb, if_true, if_false, length, splice, take, arith, length-splice,
  append_assoc, append-nil, length-append, length-take, take-append, take_all, Bool-cases,
}

-- The bytes stored so far.
abbrev pub stored : FileInfo → Text
stored f = take f.rcvsize f.filedata

-- The object after bytes that fit.
abbrev pub grown : Text → FileInfo → FileInfo
grown data_ f = record f {
  filedata = splice f.filedata f.rcvsize data_;
  rcvsize = f.rcvsize + length data_;
}

stored-grown :
    (data_ : Text) (f : FileInfo)
    → f.rcvsize + length data_ ≤ length f.filedata
    → stored (grown data_ f) ≡ stored f ++ data_
stored-grown data_ f h =
    let front : Text = take f.rcvsize f.filedata ++ data_ in
    take-append (f.rcvsize + length data_) front _ (
      omega (
        arith,
        length-append {0} (take f.rcvsize f.filedata) data_,
        length-take {0} f.rcvsize f.filedata,
      ))
    ∙ take_all _ front (
        omega (
          arith,
          length-append {0} (take f.rcvsize f.filedata) data_,
          length-take {0} f.rcvsize f.filedata,
        ))

-- DataArrive on a stored file either writes outside the array, exactly when more bytes arrive than
-- were announced, or appends them to what was stored, and reports the file as complete exactly
-- when the count then equals the announced size: it never completes with another count.
pub data_arrive-cases :
    (data_ : Text) (f : FileInfo)
    → IsStored f
    → ((f.filesize < f.rcvsize + length data_) × (data_arrive data_ f ≡ fault out_of_bounds))
      ⊎ ((done : Bool) × (data_arrive data_ f ≡ ok (grown data_ f, done))
          × IsStored (grown data_ f)
          × (stored (grown data_ f) ≡ stored f ++ data_)
          × ((done ≡ true) ↔ ((grown data_ f).rcvsize ≡ f.filesize)))
unfolding data_arrive
data_arrive-cases data_ f s =
    elim (Bool-cases (leb (f.rcvsize + length data_) (length f.filedata))) [
      | inl fits ↦ inr (
        leb f.filesize (f.rcvsize + length data_),
        if_true _ _ fits,
        record {
          sized = length-splice f.filedata f.rcvsize data_ (leb→le _ _ fits) ∙ s.sized;
          counted = omega (arith, leb→le _ _ fits, s.sized);
        },
        stored-grown data_ f (leb→le _ _ fits),
        ground (arith, leb→le _ _ fits, s.sized),
      )
      | inr over ↦ inl (omega (arith, leb-false _ _ over, s.sized), if_false _ _ over)
    ]

-- DataArrive for packet after packet.
pub arrive_all : List Text → FileInfo → Run FileInfo
arrive_all [] f = ok f
arrive_all (d ∷ ds) f = do (f', done) ← data_arrive d f; arrive_all ds f'

abbrev pub total : List Text → Text
total [] = []
total (d ∷ ds) = d ++ total ds

pub arrive-fits :
    (data_ : Text) (f : FileInfo)
    → IsStored f
    → f.rcvsize + length data_ ≤ f.filesize
    → data_arrive data_ f ≡ ok (grown data_ f, leb f.filesize (f.rcvsize + length data_))
unfolding data_arrive
arrive-fits data_ f s h = ground (arith, s.sized)

arrive-over :
    (data_ : Text) (f : FileInfo)
    → IsStored f
    → f.filesize < f.rcvsize + length data_
    → data_arrive data_ f ≡ fault out_of_bounds
unfolding data_arrive
arrive-over data_ f s h = ground (arith, s.sized)

pub grown-IsStored :
    (data_ : Text) (f : FileInfo)
    → IsStored f
    → f.rcvsize + length data_ ≤ f.filesize
    → IsStored (grown data_ f)
grown-IsStored data_ f s h = record {
  sized = length-splice f.filedata f.rcvsize data_ (omega (arith, s.sized)) ∙ s.sized;
  counted = h;
}

-- Packets whose bytes add up to what is missing complete the file: its array is then what was
-- stored followed by the packets in order, and nothing but the array and the count changes.
pub arrive_all-total :
    (ds : List Text) (f : FileInfo)
    → IsStored f
    → f.rcvsize + length (total ds) ≡ f.filesize
    → arrive_all ds f ≡ ok (record f { filedata = stored f ++ total ds; rcvsize = f.filesize })
unfolding arrive_all
arrive_all-total [] f s e =
    let full : f.rcvsize ≡ f.filesize = omega arith in
    λ i. ok (record f {
      filedata =
          (sym (take_all f.rcvsize f.filedata (omega (arith, s.sized)))
              ∙ sym (append-nil (stored f)))
            i;
      rcvsize = full i;
    })
arrive_all-total (d ∷ ds) f s e =
    let fits : f.rcvsize + length d ≤ f.filesize = omega (arith, length-append {0} d (total ds)) in
    rw (arrive-fits d f s fits) (
      arrive_all-total ds (grown d f) (grown-IsStored d f s fits)
        (omega (arith, length-append {0} d (total ds)))
      ∙ (λ i. ok (record f {
        filedata =
            (ap (λ t. t ++ total ds) (stored-grown d f (omega (arith, s.sized)))
                ∙ append_assoc (stored f) d (total ds))
              i;
        rcvsize = f.filesize;
      })))

-- The object after packets that fit.
abbrev pub grow_all : List Text → FileInfo → FileInfo
grow_all [] f = f
grow_all (d ∷ ds) f = grow_all ds (grown d f)

-- The object after all that was announced.
abbrev pub full : FileInfo → Text → FileInfo
full f t = record f { filedata = stored f ++ t; rcvsize = f.filesize }

grow_all-total :
    (ds : List Text) (f : FileInfo)
    → IsStored f
    → f.rcvsize + length (total ds) ≡ f.filesize
    → arrive_all ds f ≡ ok (grow_all ds f)
unfolding arrive_all
grow_all-total [] f s e = refl
grow_all-total (d ∷ ds) f s e =
    let fits : f.rcvsize + length d ≤ f.filesize = omega (arith, length-append {0} d (total ds)) in
    rw (arrive-fits d f s fits) (
      grow_all-total ds (grown d f) (grown-IsStored d f s fits)
        (omega (arith, length-append {0} d (total ds))))

pub grow_all-full :
    (ds : List Text) (f : FileInfo)
    → IsStored f
    → f.rcvsize + length (total ds) ≡ f.filesize
    → grow_all ds f ≡ full f (total ds)
grow_all-full ds f s e = cc (grow_all-total ds f s e, arrive_all-total ds f s e)

-- If more bytes arrive than were announced, some packet is written past the end of the array,
-- however the bytes are cut into packets.
pub arrive_all-over :
    (ds : List Text) (f : FileInfo)
    → IsStored f
    → f.filesize < f.rcvsize + length (total ds)
    → arrive_all ds f ≡ fault out_of_bounds
unfolding arrive_all
arrive_all-over [] f s h = absurd (omega (arith, s.counted))
arrive_all-over (d ∷ ds) f s h = elim (Bool-cases (leb (f.rcvsize + length d) f.filesize)) [
  | inl fits ↦ rw (arrive-fits d f s (leb→le _ _ fits)) (
      arrive_all-over ds (grown d f) (grown-IsStored d f s (leb→le _ _ fits))
        (omega (arith, length-append {0} d (total ds))))
  | inr over ↦ rw (arrive-over d f s (leb-false _ _ over))
]
