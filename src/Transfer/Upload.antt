-- ===== src/Transfer/Upload.antt =====
-- The url of a request fits its area.
use ftserver.Transfer.{
  ask, printed, url_max_length, Outcome, no_session, failed, answered, Request, judge,
}
use ftserver.Run.{ok, ◌>>=◌}
use ftserver.Base.{ℕ, refl, ap, length, ◌<◌, if_true, ◌+◌, le→leb, ◌≡◌, Text, arith}

printed-short : (size : ℕ) (t : Text) → length t < size → printed size t ≡ ok t
printed-short size t short = if_true _ _ (le→leb (length t + 1) size (omega (arith, short)))

module _ (perform : Request → Outcome) where
  pub ask-judge :
      (q : Request) (o : Outcome) → length q.url < url_max_length → ask perform q o ≡ judge q o
  ask-judge q no_session short = refl
  ask-judge q failed short =
      ap (λ m. m >>= λ url. judge q failed) (printed-short url_max_length q.url short)
  ask-judge q (answered http_code known memory) short =
      ap (λ m. m >>= λ url. judge q (answered http_code known memory))
        (printed-short url_max_length q.url short)
