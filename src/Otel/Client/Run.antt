-- ===== src/Otel/Client/Run.antt =====
-- otel/cmd/client/main.go: `send`, `query` and `main`. Protobuf, JSON and the connection to the server are
-- parameters.
use golang_toys.Base.{
  ℕ, zero, suc, ◌+◌, ◌-◌, ◌/◌, ◌%◌, Bool, List, [], ◌∷◌, ◌++◌, Option, none, some, if◌then◌else◌,
  ◌==◌, ltb, length,
}
use golang_toys.Base.Bytes.{Bytes, codes}
use golang_toys.Otel.Handler.{ResourceMetrics}
use golang_toys.Otel.Client.Print.{
  Point, RoundData, MetricsResponse, Line, build_request, print_request, print_result, round_head,
  ingest_ok, sleeping, blank,
}

pub data SendError : Type 0 where
  marshal_failed : SendError
  post_failed : SendError
  refused : ℕ → Bytes → SendError

pub data QueryError : Type 0 where
  get_failed : QueryError
  decode_failed : QueryError

pub data Failure : Type 0 where
  send : SendError → Failure
  query : QueryError → Failure

-- What the client does outside itself: `http.Post` of a body, with the status and the body of the answer;
-- `http.Get` with a value of the parameter `windows`, with the body of the answer, which is of any type `B`;
-- `time.Sleep`. An error is `none`.
pub record Network {β ω} (B : Type β) (W : Type ω) : Type (β ⊔ ω) where
  pub post : Bytes → W → Option (ℕ × Bytes) × W
  pub get : Bytes → W → Option B × W
  pub sleep : W → W

-- The digits of a number before `out`. Each round takes one digit, so `n` rounds are enough for `n`.
unfoldable pub emit : ℕ → ℕ → Bytes → Bytes
emit zero n out = out
emit (suc fuel) n out =
    let more = emit fuel (n / 10) ((b'0' + n % 10) ∷ out) in
    if ltb n 10 then (b'0' + n % 10) ∷ out else more

-- `%d` of a number that is not negative.
unfoldable pub decimal : ℕ → Bytes
unfolding emit
decimal n = emit (suc n) n []

module _ {ℓ κ} {V : Type ℓ} {I : Type κ} (nought : V) (of_int : I → V) where
  -- What is printed before a call of `send` for the round of index `i`.
  abbrev pub announced : ℕ → ℕ → RoundData V → List (Line V)
  announced i n r = round_head (i + 1) n r.label ∷ print_request nought of_int (build_request r)

-- `i < len(rounds)-1` in the loop over the rounds.
abbrev pub is_before_last : ℕ → ℕ → Bool
is_before_last i n = ltb i (n - 1)

-- What a call does: its error, what it prints and the world after it.
abbrev pub Outcome {ε ℓ ω} : Type ε → Type ℓ → Type ω → Type (ε ⊔ ℓ ⊔ ω)
Outcome E V W = Option E × List (Line V) × W

module _ {ℓ ω} {V : Type ℓ} {W : Type ω} where
  -- What follows on the answer to the post.
  unfoldable pub posted : Option (ℕ × Bytes) → W → Outcome SendError V W
  posted none w = (some post_failed, [], w)
  posted (some answer) w =
      if answer.0 == 200
      then (none, ingest_ok ∷ [], w)
      else (some (refused answer.0 answer.1), [], w)

  unfoldable pub decoded : Option (MetricsResponse V) → W → Outcome QueryError V W
  unfolding print_result
  decoded none w = (some decode_failed, [], w)
  decoded (some r) w = (none, print_result r, w)

  unfoldable pub got {β} :
      {B : Type β} → (B → Option (MetricsResponse V)) → Option B → W → Outcome QueryError V W
  unfolding decoded
  got decode none w = (some get_failed, [], w)
  got decode (some body) w = decoded (decode body) w

module _ {ℓ β ω} {V : Type ℓ} {B : Type β} {W : Type ω} (net : Network B W) where
  -- What follows on the encoding of the message.
  unfoldable pub send_marshalled : Option Bytes → W → Outcome SendError V W
  unfolding posted
  send_marshalled none w = (some marshal_failed, [], w)
  send_marshalled (some b) w = let answer = net.post b w in posted answer.0 answer.1

  unfoldable pub send_request {κ} :
      {I : Type κ}
      → (List (ResourceMetrics V I) → Option Bytes)
      → List (ResourceMetrics V I)
      → W
      → Outcome SendError V W
  unfolding send_marshalled
  send_request marshal req w = send_marshalled (marshal req) w

  unfoldable pub query_windows : (B → Option (MetricsResponse V)) → ℕ → W → Outcome QueryError V W
  unfolding got decimal
  query_windows decode n w = let answer = net.get (decimal n) w in got decode answer.0 answer.1

-- What is printed between two rounds.
abbrev pub gap {ℓ} : {V : Type ℓ} → ℕ → ℕ → List (Line V)
gap i n = if is_before_last i n then sleeping ∷ [] else []

module _ {ℓ ω} {V : Type ℓ} {W : Type ω} where
  -- What follows on a call of `send`: an error ends the loop, and the rest of it is not reached.
  unfoldable pub after_send :
      List (Line V)
      → List (Line V)
      → Outcome SendError V W
      → Outcome Failure V W
      → Outcome Failure V W
  after_send head between (some e, lines, w) later = (some (send e), head ++ lines, w)
  after_send head between (none, lines, w) later =
      (later.0, head ++ (lines ++ (between ++ later.1)), later.2)

module _ {ℓ ω} {V : Type ℓ} {W : Type ω} where
  -- What follows on the call of `query`.
  unfoldable pub after_query : List (Line V) → Outcome QueryError V W → Outcome Failure V W
  after_query lines (some e, printed, w) = (some (query e), lines ++ (blank ∷ printed), w)
  after_query lines (none, printed, w) = (none, lines ++ (blank ∷ printed), w)

module _ {ℓ κ β ω} {V : Type ℓ} {I : Type κ} {B : Type β} {W : Type ω} (nought : V) (of_int : I → V)
    (net : Network B W) (marshal : List (ResourceMetrics V I) → Option Bytes) where
  -- The loop of `main` from the round of index `i` of `n` on.
  unfoldable pub send_rounds : ℕ → ℕ → List (RoundData V) → W → Outcome Failure V W
  unfolding after_send send_request build_request print_request
  send_rounds i n [] w = (none, [], w)
  send_rounds i n (r ∷ rs) w =
      let sent = send_request net marshal (build_request r) w in
      let w' = if is_before_last i n then net.sleep sent.2 else sent.2 in
      after_send (announced nought of_int i n r) (gap i n) sent (send_rounds (i + 1) n rs w')

module _ {ℓ β ω} {V : Type ℓ} {B : Type β} {W : Type ω} (net : Network B W)
    (decode : B → Option (MetricsResponse V)) where
  -- What `main` does after its loop.
  unfoldable pub finish : ℕ → Outcome Failure V W → Outcome Failure V W
  unfolding after_query query_windows
  finish n (some e, lines, w) = (some e, lines, w)
  finish n (none, lines, w) = after_query lines (query_windows net decode n w)

module _ {ℓ κ β ω} {V : Type ℓ} {I : Type κ} {B : Type β} {W : Type ω} (nought : V) (of_int : I → V)
    (net : Network B W) (marshal : List (ResourceMetrics V I) → Option Bytes)
    (decode : B → Option (MetricsResponse V)) where
  -- `main` on its table of rounds.
  unfoldable pub main : List (RoundData V) → W → Outcome Failure V W
  unfolding send_rounds finish
  main rounds w =
      finish net decode (length rounds)
        (send_rounds nought of_int net marshal 0 (length rounds) rounds w)

-- The table `rounds`.
module _ {ℓ} {V : Type ℓ} (of_nat : ℕ → V) where
  abbrev point_row : Bytes → Bytes → ℕ → Point V
  point_row method status value = record { method = method; status = status; value = of_nat value }

  abbrev pub rounds : List (RoundData V)
  rounds =
      record {
        label = codes "quiet period";
        points =
            point_row (codes "GET") (codes "200") 512
            ∷ point_row (codes "POST") (codes "200") 84
            ∷ point_row (codes "GET") (codes "500") 3
            ∷ [];
      }
      ∷ record {
        label = codes "midday peak";
        points =
            point_row (codes "GET") (codes "200") 4800
            ∷ point_row (codes "POST") (codes "200") 730
            ∷ point_row (codes "GET") (codes "500") 17
            ∷ point_row (codes "POST") (codes "500") 5
            ∷ [];
      }
      ∷ record {
        label = codes "afternoon traffic";
        points =
            point_row (codes "GET") (codes "200") 11200
            ∷ point_row (codes "POST") (codes "200") 1650
            ∷ point_row (codes "GET") (codes "500") 24
            ∷ point_row (codes "POST") (codes "500") 9
            ∷ point_row (codes "DELETE") (codes "204") 41
            ∷ [];
      }
      ∷ []
