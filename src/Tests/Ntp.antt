-- ===== src/Tests/Ntp.antt =====
-- Runs of the time server's client, with whole numbers for its measurements.
use ftserver.Run.{ok, fault, out_of_bounds}
use ftserver.NtpClient.{
  Doubles, NtpClient, Round, timeout, send_failed, received, read_time, construct_packet, get_time,
}
use ftserver.NtpClient.Answers.{
  NoAnswers, rounds, read_time-construct_packet, get_time-overruns, rounds-NoAnswers,
}
use ftserver.Base.{
  ℕ, ◌+◌, ◌*◌, ◌%◌, ◌^◌, ◌≡◌, refl, sym, inl, inr, true, ◌&&◌, leb, ltb, List, [], ◌∷◌, ◌++◌, Text,
  codes, length, take, drop, replicate, append-nil, pos_part, arith,
}

abbrev whole : Doubles
whole = record {
  Double = ℕ;
  literal = length;
  of_int = pos_part;
  to_nat = λ a. a;
  add = λ a c. a + c;
  sub = λ a c. a;
  mul = λ a c. a * c;
  div = λ a c. a;
  neg = λ a. a;
  le = leb;
}

-- The bytes of the transmit time in a request, sent back by a server.
abbrev echoed : Text
echoed = take 8 (drop 40 (construct_packet 3720427778 7 []))

abbrev answer : Text
answer = replicate 24 0 ++ echoed

read_time-construct_packet_example :
    read_time answer 24 ≡ record { coarse = 3720427778 % 2 ^ 32; fine = 7 % 2 ^ 32 }
read_time-construct_packet_example =
    read_time-construct_packet 3720427778 7 [] answer [] (sym (append-nil echoed))

abbrev client : NtpClient whole
client = record {
  host = codes "172.28.1.3";
  port = 123;
  sock = true;
  pack = replicate 384 0;
  offset = 3;
  valid = true;
  nfail = 2;
  t_sync = 5;
  auto_sync = true;
}

get_time-overruns_example :
    get_time whole 1 2 (received (replicate 12 0 ++ 172 ∷ 28 ∷ 1 ∷ 3 ∷ [])) client
    ≡ fault out_of_bounds
get_time-overruns_example =
    get_time-overruns whole 1 2 (replicate 12 0) [] 172 28 1 3 client refl (λ e. omega (arith, e))
      (λ e. omega (arith, e)) (λ e. omega (arith, e)) (λ e. omega (arith, e))

abbrev lost : Round
lost = record {
  connects = true;
  coarse = 1;
  fine = 2;
  reply = timeout;
  now = record { tv_sec = 1; tv_usec = 2 };
}

abbrev unsent : Round
unsent = record lost { reply = send_failed }

abbrev three_rounds : List Round
three_rounds = lost ∷ unsent ∷ lost ∷ []

three_rounds-NoAnswers : NoAnswers three_rounds
three_rounds-NoAnswers = ((refl, inr (inl refl)), ((refl, inl refl), ((refl, inr (inl refl)), tt)))

rounds-NoAnswers_example :
    (c' : NtpClient whole) × (rounds whole three_rounds client ≡ ok c')
    × (c'.nfail ≡ 2 + 3)
    × (c'.valid ≡ (true && ltb (2 + 3) 5))
rounds-NoAnswers_example =
    rounds-NoAnswers whole three_rounds client three_rounds-NoAnswers (omega arith)
